-- ===== src/Service/Within.antt =====
-- Requests that stay below a directory.
pub mod Archive
pub mod Replace
pub mod Import
pub mod Fetch
pub mod Download
pub mod Isolation
use scriptorium.Error.{ok}
use scriptorium.Workspace.Containment.{IsCleanRoot, home_dir-eq, resolve_path_contained, home_names}
use scriptorium.Workspace.Lexical.{IsPathClean, init-IsNormal}
use scriptorium.Workspace.Ids.{IsWorkspaceId}
use scriptorium.Workspace.{WorkspaceManager, home_dir, resolve_path}
use scriptorium.FilePath.Laws.{IsNormal, IsCleanPath}
use scriptorium.World.Calls.{
  Call, created_dir_all, removed_dir_all, removed_file, created_file, flushed, renamed, wrote,
  asked_metadata, listed_dir, opened, read_archive, set_mode, chowned, unpacked, read_clock,
}
use scriptorium.Base.{
  ◌≡◌, All, ◌++◌, ◌∷◌, some, subst, ℕ, ap, arith, [], ◌∙◌, refl, append_assoc, false, sym,
  All-append,
}
use scriptorium.Service.Archive.{transfer_temp_path, parent_or_dot}
use scriptorium.Text.{Text, codes}
use scriptorium.FilePath.{
  FilePath, parent, normal, Component, join, last, init, root_dir, cur_dir, parent_dir, is_absolute,
  has_parent_dir,
}

-- At the directory or below it, by names only.
abbrev pub IsBelow : FilePath → FilePath → Type 0
IsBelow dir p = (rest : FilePath) × (p ≡ dir ++ rest) × All IsNormal rest

-- All paths that the request names lie at the directory or below it; an archive's entry has a relative
-- path without `..`, and what it is unpacked into lies there.
abbrev pub IsWithin : FilePath → Call → Type 0
IsWithin dir (created_dir_all p) = IsBelow dir p
IsWithin dir (removed_dir_all p) = IsBelow dir p
IsWithin dir (removed_file p) = IsBelow dir p
IsWithin dir (created_file p) = IsBelow dir p
IsWithin dir (flushed p) = IsBelow dir p
IsWithin dir (renamed p q) = IsBelow dir p × IsBelow dir q
IsWithin dir (wrote p bytes) = IsBelow dir p
IsWithin dir (asked_metadata p) = IsBelow dir p
IsWithin dir (listed_dir p) = IsBelow dir p
IsWithin dir (opened p) = IsBelow dir p
IsWithin dir (read_archive p) = IsBelow dir p
IsWithin dir (set_mode p mode) = IsBelow dir p
IsWithin dir (chowned p uid gid) = IsBelow dir p
IsWithin dir (unpacked entry root) =
    IsBelow dir root × (is_absolute entry ≡ false) × (has_parent_dir entry ≡ false)
IsWithin dir read_clock = Unit
IsWithin dir _ = ⊥

-- Below the directory by one name at least, and by names only.
abbrev pub IsInside : FilePath → FilePath → Type 0
IsInside dir p =
    (name : Text) × (rest : FilePath) × (p ≡ dir ++ normal name ∷ rest) × All IsNormal rest

pub IsInside-IsBelow : (dir p : FilePath) → IsInside dir p → IsBelow dir p
IsInside-IsBelow dir p (name, rest, e, names) = (normal name ∷ rest, e, (tt, names))

last-append : (xs : FilePath) (y : Component) (ys : FilePath) → last (xs ++ y ∷ ys) ≡ last (y ∷ ys)
last-append [] y ys = refl
last-append (x ∷ []) y ys = refl
last-append (x ∷ x' ∷ xs) y ys = last-append (x' ∷ xs) y ys

init-append :
    (xs : FilePath) (y : Component) (ys : FilePath) → init (xs ++ y ∷ ys) ≡ xs ++ init (y ∷ ys)
init-append [] y ys = refl
init-append (x ∷ []) y ys = refl
init-append (x ∷ x' ∷ xs) y ys = ap (λ r. x ∷ r) (init-append (x' ∷ xs) y ys)

last_name :
    (name : Text) (rest : FilePath)
    → All IsNormal rest
    → (s : Text) × (last (normal name ∷ rest) ≡ some (normal s))
last_name name [] names = (name, refl)
last_name name (normal s ∷ rest) (_, names) = last_name s rest names
last_name name (root_dir ∷ rest) (bad, names) = absurd bad
last_name name (cur_dir ∷ rest) (bad, names) = absurd bad
last_name name (parent_dir ∷ rest) (bad, names) = absurd bad

-- The parent of a path inside the directory lies at the directory or below it.
pub parent-IsBelow :
    (dir p : FilePath) → IsInside dir p → (up : FilePath) × (parent p ≡ some up) × IsBelow dir up
unfolding parent
parent-IsBelow dir p (name, rest, e, names) =
    let (s, ends) = last_name name rest names in
    let at_end : last p ≡ some (normal s) = ap last e ∙ last-append dir (normal name) rest ∙ ends in
    (
      init p,
      ground (arith, at_end),
      (
        init (normal name ∷ rest),
        ap init e ∙ init-append dir (normal name) rest,
        init-IsNormal (normal name ∷ rest) (tt, names),
      ),
    )

pub parent_or_dot-IsBelow : (dir p : FilePath) → IsInside dir p → IsBelow dir (parent_or_dot p)
parent_or_dot-IsBelow dir p inside =
    let (up, e, below) = parent-IsBelow dir p inside in
    subst (IsBelow dir) {x = up} (ground (arith, e)) below

pub append-IsBelow : (dir p q : FilePath) → All IsNormal q → IsBelow dir p → IsBelow dir (p ++ q)
append-IsBelow dir p q names (rest, e, names') = (
  rest ++ q,
  ap (λ r. r ++ q) e ∙ append_assoc dir rest q,
  (All-append IsNormal rest q).1 (names', names),
)

pub transfer_temp_path-IsBelow :
    (dir p : FilePath) (suffix : Text) (nanos : ℕ)
    → IsInside dir p
    → IsBelow dir (transfer_temp_path p suffix nanos)
unfolding transfer_temp_path join
transfer_temp_path-IsBelow dir p suffix nanos inside =
    append-IsBelow dir (parent_or_dot p) _ (tt, tt) (parent_or_dot-IsBelow dir p inside)

-- The directory of a workspace.
abbrev pub workspace_at : WorkspaceManager → Text → FilePath
workspace_at m id = m.root ++ (normal id ∷ [])

pub home_within :
    (m : WorkspaceManager) (id : Text)
    → IsWorkspaceId id
    → IsBelow (workspace_at m id) (home_dir m id)
home_within m id valid = (
  normal (codes "home") ∷ [],
  home_dir-eq m id valid ∙ sym (append_assoc m.root (normal id ∷ []) (normal (codes "home") ∷ [])),
  (tt, tt),
)

pub target-IsInside :
    (m : WorkspaceManager) (clean : FilePath → FilePath) (laws : IsPathClean clean) (ns : FilePath)
    (root : IsCleanRoot m ns) (id path : Text) (target : FilePath)
    → resolve_path clean m id path ≡ ok target
    → IsInside (workspace_at m id) target
target-IsInside m clean laws ns root id path target resolved =
    let (rest, e, names) = resolve_path_contained clean laws m ns root id path resolved in
    (
      codes "home",
      rest,
      e
          ∙ append_assoc m.root (home_names id) rest
          ∙ sym (append_assoc m.root (normal id ∷ []) (normal (codes "home") ∷ rest)),
      names,
    )

-- Names behind a clean path give a clean path.
pub IsCleanPath-append :
    (dir rest : FilePath) → IsCleanPath dir → All IsNormal rest → IsCleanPath (dir ++ rest)
IsCleanPath-append dir rest (q, e, names) names' =
    (q ++ rest, ap (λ r. r ++ rest) e, (All-append IsNormal q rest).1 (names, names'))

pub below-IsCleanPath : (dir q : FilePath) → IsCleanPath dir → IsBelow dir q → IsCleanPath q
below-IsCleanPath dir q clean_dir (rest, e, names) =
    subst IsCleanPath (sym e) (IsCleanPath-append dir rest clean_dir names)

pub workspace_at-IsCleanPath :
    (m : WorkspaceManager) (ns : FilePath) (id : Text)
    → IsCleanRoot m ns
    → IsCleanPath (workspace_at m id)
workspace_at-IsCleanPath m ns id root =
    IsCleanPath-append m.root (normal id ∷ []) (ns, root.root_is, root.names) (tt, tt)
