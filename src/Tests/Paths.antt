-- ===== src/Tests/Paths.antt =====
-- Ids, paths and homes.
use scriptorium.Workspace.Homes.{invalid_id_untouched}
use scriptorium.Tests.{test_env}
use scriptorium.Workspace.Roots.{resolve_path_unclean_root}
use scriptorium.FilePath.Laws.{IsNormal}
use scriptorium.Workspace.Ids.{IsWorkspaceId, validate_workspace_id-IsWorkspaceId}
use scriptorium.Text.{Text, codes}
use scriptorium.Workspace.Containment.{
  IsCleanRoot, home_names, resolve_path_names, resolve_path_contained, resolve_path_isolated,
  resolve_path-walk,
}
use scriptorium.Workspace.{
  WorkspaceManager, validate_workspace_id, resolve_path, ensure_home, home_dir, delete,
}
use scriptorium.Workspace.Lexical.{walk, IsPathClean, walk_names}
use scriptorium.FilePath.{
  FilePath, components, Component, normal, root_dir, init, cur_dir, parent_dir, starts_with,
  component_eq,
}
use scriptorium.Base.{◌∷◌, ◌++◌, ◌↔◌, [], ◌≡◌, arith, All, refl, ap, ◌∙◌, sym, if◌then◌else◌}
use scriptorium.Error.{ok, err, invalid_workspace_id, path_escape}

-- A cleaner that keeps to the documented rules.
abbrev pub clean_by_walk : FilePath → FilePath
clean_by_walk [] = []
clean_by_walk (root_dir ∷ p) = root_dir ∷ walk [] p
clean_by_walk (cur_dir ∷ p) = cur_dir ∷ p
clean_by_walk (parent_dir ∷ p) = parent_dir ∷ p
clean_by_walk (normal s ∷ p) = normal s ∷ p

walk-append : (dir p q : FilePath) → walk dir (p ++ q) ≡ walk (walk dir p) q
unfolding walk
walk-append dir [] q = refl
walk-append dir (root_dir ∷ p) q = walk-append [] p q
walk-append dir (cur_dir ∷ p) q = walk-append dir p q
walk-append dir (parent_dir ∷ p) q = walk-append (init dir) p q
walk-append dir (normal s ∷ p) q = walk-append (dir ++ normal s ∷ []) p q

init-snoc : (p : FilePath) (c : Component) → init (p ++ c ∷ []) ≡ p
init-snoc [] c = refl
init-snoc (d ∷ []) c = refl
init-snoc (d ∷ e ∷ p) c = ap (λ q. d ∷ q) (init-snoc (e ∷ p) c)

pub clean_by_walk-IsPathClean : IsPathClean clean_by_walk
unfolding walk
clean_by_walk-IsPathClean = record {
  drops_cur = λ xs ys.
      ap (λ q. root_dir ∷ q) (walk-append [] xs (cur_dir ∷ ys) ∙ sym (walk-append [] xs ys));
  drops_inner = λ xs ys s.
      ap (λ q. root_dir ∷ q)
        (walk-append [] xs (normal s ∷ parent_dir ∷ ys)
          ∙ ap (λ d. walk d ys) (init-snoc (walk [] xs) (normal s))
          ∙ sym (walk-append [] xs ys));
  drops_root = λ ys. refl;
  keeps = λ ns names. ap (λ q. root_dir ∷ q) (walk_names [] ns names);
}

abbrev pub srv : FilePath
srv = normal (codes "srv") ∷ []

abbrev pub manager : WorkspaceManager
manager = record { root = root_dir ∷ srv }

pub srv-IsCleanRoot : IsCleanRoot manager srv
srv-IsCleanRoot = record { root_is = refl; names = (tt, tt) }

abbrev w1 : Text
w1 = codes "w1"

validate_workspace_id-IsWorkspaceId_example :
    ((validate_workspace_id w1 ≡ ok tt) ↔ IsWorkspaceId w1)
    × ((validate_workspace_id w1 ≡ err invalid_workspace_id) ↔ (¬ IsWorkspaceId w1))
validate_workspace_id-IsWorkspaceId_example = validate_workspace_id-IsWorkspaceId w1

w1-IsWorkspaceId : IsWorkspaceId w1
w1-IsWorkspaceId = record {
  nonempty = omega arith;
  short = omega arith;
  chars = (ground arith, (ground arith, tt));
}

abbrev notes : Text
notes = codes "a/b"

notes-IsNormal : All IsNormal (components notes)
unfolding components
notes-IsNormal = (tt, (tt, tt))

notes_resolved :
    resolve_path clean_by_walk manager w1 notes
    ≡ ok (manager.root ++ home_names w1 ++ components notes)
notes_resolved =
    resolve_path_names clean_by_walk clean_by_walk-IsPathClean manager srv srv-IsCleanRoot w1 notes
      w1-IsWorkspaceId notes-IsNormal

resolve_path_contained_example :
    (rest : FilePath) × (manager.root ++ home_names w1 ++ components notes
      ≡ manager.root ++ home_names w1 ++ rest)
    × All IsNormal rest
resolve_path_contained_example =
    resolve_path_contained clean_by_walk clean_by_walk-IsPathClean manager srv srv-IsCleanRoot w1
      notes notes_resolved

resolve_path_isolated_example : w1 ≡ w1
resolve_path_isolated_example =
    resolve_path_isolated clean_by_walk clean_by_walk-IsPathClean manager srv srv-IsCleanRoot w1 w1
      notes notes notes_resolved notes_resolved

-- A path that leaves the home is refused.
resolve_path-walk_example : resolve_path clean_by_walk manager w1 (codes "../b") ≡ (
    let p = root_dir ∷ walk (srv ++ home_names w1) (components (codes "../b")) in
    if starts_with p (home_dir manager w1) then ok p else err (path_escape (codes "../b")))
resolve_path-walk_example =
    resolve_path-walk clean_by_walk clean_by_walk-IsPathClean manager srv srv-IsCleanRoot w1
      (codes "../b") w1-IsWorkspaceId

-- `/srv/..`
abbrev dotted : WorkspaceManager
dotted = record { root = root_dir ∷ normal (codes "srv") ∷ parent_dir ∷ [] }

resolve_path_unclean_root_example :
    resolve_path clean_by_walk dotted w1 notes ≡ err (path_escape notes)
unfolding component_eq
resolve_path_unclean_root_example =
    resolve_path_unclean_root clean_by_walk clean_by_walk-IsPathClean dotted
      (normal (codes "srv") ∷ parent_dir ∷ []) w1 notes refl (tt, (tt, tt)) refl w1-IsWorkspaceId

dots-invalid : ¬ IsWorkspaceId (codes "..")
dots-invalid v = absurd (ground (arith, v.chars))

invalid_id_untouched_example :
    (ensure_home test_env manager (codes "..") 1000 1000 [] ≡ ([], err invalid_workspace_id))
    × (delete test_env manager (codes "..") [] ≡ ([], err invalid_workspace_id))
invalid_id_untouched_example =
    invalid_id_untouched test_env manager (codes "..") 1000 1000 [] dots-invalid
