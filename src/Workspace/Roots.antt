-- ===== src/Workspace/Roots.antt =====
-- A configured root that holds `..` makes every path escape.
use scriptorium.Base.{
  ◌≡◌, sym, ap, subst, ◌∙◌, ◌⊎◌, inl, inr, true, ◌∷◌, ◌++◌, arith, All, All-append, Bool-cases, [],
  append_cancel_left, false, refl,
}
use scriptorium.Text.{Text}
use scriptorium.FilePath.{
  root_dir, cur_dir, parent_dir, normal, FilePath, components, join, starts_with, Component,
  has_parent_dir, component_eq,
}
use scriptorium.FilePath.Laws.{IsNormal, IsRootless, starts_with_iff, IsCleanPath}
use scriptorium.FilePath.Parse.{components_cases}
use scriptorium.Error.{err, path_escape}
use scriptorium.Workspace.{WorkspaceManager, home_dir, resolve_path}
use scriptorium.Workspace.Ids.{IsWorkspaceId, validate_workspace_id-IsWorkspaceId}
use scriptorium.Workspace.Lexical.{IsPathClean, walk, walk-IsNormal, clean-walk}
use scriptorium.Workspace.Containment.{home_names, home_dir-eq}

-- What a parsed path has behind its root: names and `..`, since an inner `.` is dropped.
abbrev pub IsBehindRoot : Component → Type 0
IsBehindRoot (normal s) = Unit
IsBehindRoot parent_dir = Unit
IsBehindRoot _ = ⊥

behind-IsRootless : (ns : FilePath) → All IsBehindRoot ns → All IsRootless ns
behind-IsRootless [] h = tt
behind-IsRootless (normal s ∷ ns) h = (tt, behind-IsRootless ns h.1)
behind-IsRootless (parent_dir ∷ ns) h = (tt, behind-IsRootless ns h.1)
behind-IsRootless (root_dir ∷ ns) h = absurd h.0
behind-IsRootless (cur_dir ∷ ns) h = absurd h.0

names-no_parent : (ns : FilePath) → All IsNormal ns → has_parent_dir ns ≡ false
unfolding component_eq
names-no_parent [] h = refl
names-no_parent (normal s ∷ ns) h = names-no_parent ns h.1
names-no_parent (root_dir ∷ ns) h = absurd h.0
names-no_parent (cur_dir ∷ ns) h = absurd h.0
names-no_parent (parent_dir ∷ ns) h = absurd h.0

module _ (clean : FilePath → FilePath) (laws : IsPathClean clean) where
  clean-IsCleanPath : (p : FilePath) → All IsRootless p → IsCleanPath (clean (root_dir ∷ p))
  clean-IsCleanPath p r = (walk [] p, clean-walk clean laws [] p tt r, walk-IsNormal [] p tt)

  join-IsCleanPath :
      (dir p : FilePath)
      → All IsRootless dir
      → ((q : FilePath) × (p ≡ root_dir ∷ q) × All IsRootless q) ⊎ All IsRootless p
      → IsCleanPath (clean (join (root_dir ∷ dir) p))
  unfolding join
  join-IsCleanPath dir p d (inl (q, e, r)) = rw e (clean-IsCleanPath q r)
  join-IsCleanPath dir (root_dir ∷ p) d (inr r) = absurd r.0
  join-IsCleanPath dir (cur_dir ∷ p) d (inr r) =
      clean-IsCleanPath (dir ++ p) ((All-append IsRootless dir p).1 (d, r.1))
  join-IsCleanPath dir [] d (inr r) =
      clean-IsCleanPath (dir ++ []) ((All-append IsRootless dir []).1 (d, r))
  join-IsCleanPath dir (parent_dir ∷ p) d (inr r) =
      clean-IsCleanPath (dir ++ parent_dir ∷ p)
        ((All-append IsRootless dir (parent_dir ∷ p)).1 (d, r))
  join-IsCleanPath dir (normal s ∷ p) d (inr r) =
      clean-IsCleanPath (dir ++ normal s ∷ p) ((All-append IsRootless dir (normal s ∷ p)).1 (d, r))

  -- Where the configured root is absolute but holds `..`, every path is refused as an escape, for every
  -- workspace id.
  pub resolve_path_unclean_root :
      (m : WorkspaceManager) (ns : FilePath) (id relative : Text)
      → m.root ≡ root_dir ∷ ns
      → All IsBehindRoot ns
      → has_parent_dir ns ≡ true
      → IsWorkspaceId id
      → resolve_path clean m id relative ≡ err (path_escape relative)
  unfolding resolve_path
  resolve_path_unclean_root m ns id relative root_is behind dotted v =
      elim (Bool-cases (starts_with joined (home_dir m id))) [
        | inl inside ↦ absurd (ground (arith, dotted, names-no_parent ns (names inside)))
        | inr outside ↦ ground (arith, (validate_workspace_id-IsWorkspaceId id).0.1 v)
      ]
    where
      joined : FilePath
      joined = clean (join (home_dir m id) (components relative))

      home_is : home_dir m id ≡ root_dir ∷ ns ++ home_names id
      home_is = home_dir-eq m id v ∙ ap (λ r. r ++ home_names id) root_is

      clean_is : IsCleanPath joined
      clean_is = rw home_is (
          join-IsCleanPath (ns ++ home_names id) (components relative)
            ((All-append IsRootless ns (home_names id)).1
              (behind-IsRootless ns behind, (tt, (tt, tt))))
            (components_cases relative))

      names : starts_with joined (home_dir m id) ≡ true → All IsNormal ns
      names inside =
          let (rest, e) = (starts_with_iff joined (home_dir m id)).0 inside in
          let e' : root_dir ∷ clean_is.0 ≡ root_dir ∷ (ns ++ home_names id) ++ rest =
            sym clean_is.1 ∙ e ∙ ap (λ b. b ++ rest) home_is in
          let q =
            subst (All IsNormal) (append_cancel_left (root_dir ∷ []) clean_is.0 _ e') clean_is.2 in
          ((All-append IsNormal ns (home_names id)).0
            ((All-append IsNormal (ns ++ home_names id) rest).0 q).0).0
