-- ===== src/Workspace/Containment.antt =====
-- `resolve_path` never leaves the home of its workspace.
use scriptorium.Base.{
  ℕ, ◌≡◌, sym, ap, ◌∙◌, ◌≢◌, ◌⊎◌, inl, inr, true, [], ◌∷◌, ◌++◌, arith, All, append_assoc,
  if◌then◌else◌, All-append, All-mono, length, subst, append_cancel_left, refl,
}
use scriptorium.Text.{Text, codes}
use scriptorium.FilePath.{
  root_dir, cur_dir, parent_dir, normal, FilePath, components, join, starts_with,
}
use scriptorium.FilePath.Laws.{IsNormal, IsRootless, starts_with_iff}
use scriptorium.FilePath.Parse.{components_cases, components_name}
use scriptorium.Error.{ok, err, path_escape}
use scriptorium.Workspace.{WorkspaceManager, workspace_dir, home_dir, resolve_path}
use scriptorium.Workspace.Ids.{
  IsWorkspaceId, IsIdChar, validated, validate_workspace_id-IsWorkspaceId,
}
use scriptorium.Workspace.Lexical.{IsPathClean, walk, walk-IsNormal, walk_names, clean-walk}

id_char-ne-slash : (c : ℕ) → IsIdChar c → c ≢ b'/'
id_char-ne-slash c h = ground arith

-- An id is one name of a path: no slash, not `.` and not `..`.
pub components-id : (id : Text) → IsWorkspaceId id → components id ≡ normal id ∷ []
components-id id v =
    components_name id (λ e. nonempty e) (All-mono IsIdChar _ id_char-ne-slash id v.chars)
      (λ e. dot e) (λ e. dot2 e)
  where
    nonempty : id ≢ []
    nonempty e = absurd (omega (arith, ap length e, v.nonempty))

    dot : id ≢ codes "."
    dot e = let q = subst (All IsIdChar) e v.chars in absurd (omega arith)

    dot2 : id ≢ codes ".."
    dot2 e = let q = subst (All IsIdChar) e v.chars in absurd (omega arith)

abbrev pub home_names : Text → FilePath
home_names id = normal id ∷ normal (codes "home") ∷ []

pub workspace_dir-eq :
    (m : WorkspaceManager) (id : Text)
    → IsWorkspaceId id
    → workspace_dir m id ≡ m.root ++ (normal id ∷ [])
unfolding workspace_dir join
workspace_dir-eq m id v = rw (components-id id v) refl

-- The home lies two names below the root of the manager.
pub home_dir-eq :
    (m : WorkspaceManager) (id : Text) → IsWorkspaceId id → home_dir m id ≡ m.root ++ home_names id
unfolding home_dir workspace_dir join
home_dir-eq m id v =
    rw (components-id id v) (append_assoc m.root (normal id ∷ []) (normal (codes "home") ∷ []))

-- A root that is absolute and holds neither `.` nor `..`.
pub record IsCleanRoot (m : WorkspaceManager) (ns : FilePath) : Type 0 where
  pub root_is : m.root ≡ root_dir ∷ ns
  pub names : All IsNormal ns

module _ (clean : FilePath → FilePath) (laws : IsPathClean clean) where
  clean_join :
      (dir p : FilePath)
      → All IsNormal dir
      → ((q : FilePath) × (p ≡ root_dir ∷ q) × All IsRootless q) ⊎ All IsRootless p
      → clean (join (root_dir ∷ dir) p) ≡ root_dir ∷ walk dir p
  unfolding join walk
  clean_join dir p h (inl (q, e, r)) = rw e (clean-walk clean laws [] q tt r)
  clean_join dir [] h (inr r) = clean-walk clean laws dir [] h r
  clean_join dir (root_dir ∷ p) h (inr r) = absurd r.0
  clean_join dir (cur_dir ∷ p) h (inr r) = clean-walk clean laws dir p h r.1
  clean_join dir (parent_dir ∷ p) h (inr r) = clean-walk clean laws dir (parent_dir ∷ p) h r
  clean_join dir (normal s ∷ p) h (inr r) = clean-walk clean laws dir (normal s ∷ p) h r

  module _ (m : WorkspaceManager) (ns : FilePath) (root : IsCleanRoot m ns) where
    home_names-IsNormal : (id : Text) → All IsNormal (ns ++ home_names id)
    home_names-IsNormal id = (All-append IsNormal ns (home_names id)).1 (root.names, (tt, (tt, tt)))

    home_dir-root : (id : Text) → IsWorkspaceId id → home_dir m id ≡ root_dir ∷ ns ++ home_names id
    home_dir-root id v = home_dir-eq m id v ∙ ap (λ r. r ++ home_names id) root.root_is

    -- For a workspace id, and a manager's root that is absolute and holds neither `.` nor `..`,
    -- `resolve_path` ends where the walk from the home ends, and refuses just what is not below the
    -- home.
    pub resolve_path-walk :
        (id relative : Text)
        → IsWorkspaceId id
        → resolve_path clean m id relative ≡ (
            let p = root_dir ∷ walk (ns ++ home_names id) (components relative) in
            if starts_with p (home_dir m id) then ok p else err (path_escape relative))
    unfolding resolve_path
    resolve_path-walk id relative v =
        let e : home_dir m id ≡ root_dir ∷ ns ++ home_names id = home_dir-root id v in
        let c : clean (join (home_dir m id) (components relative))
            ≡ root_dir ∷ walk (ns ++ home_names id) (components relative) =
          rw e (
            clean_join (ns ++ home_names id) (components relative) (home_names-IsNormal id)
              (components_cases relative)) in
        ground (arith, (validate_workspace_id-IsWorkspaceId id).0.1 v, c)

    resolve_path-IsWorkspaceId :
        (id relative : Text) (p : FilePath)
        → resolve_path clean m id relative ≡ ok p
        → IsWorkspaceId id
    unfolding resolve_path
    resolve_path-IsWorkspaceId id relative p h = elim (validated id) [
      | inl good ↦ (validate_workspace_id-IsWorkspaceId id).0.0 good
      | inr bad ↦ absurd (ground (arith, bad))
    ]

    below_home :
        (id : Text) (q p : FilePath) (relative : Text)
        → IsWorkspaceId id
        → All IsNormal q
        → (if starts_with (root_dir ∷ q) (home_dir m id)
            then ok (root_dir ∷ q)
            else err (path_escape relative))
          ≡ ok p
        → (rest : FilePath) × (p ≡ m.root ++ home_names id ++ rest) × All IsNormal rest
    below_home id q p relative v names h =
        let found : (starts_with (root_dir ∷ q) (home_dir m id) ≡ true) × (root_dir ∷ q ≡ p) =
          ground arith in
        let (rest, e) = (starts_with_iff (root_dir ∷ q) (home_dir m id)).0 found.0 in
        let e' : root_dir ∷ q ≡ root_dir ∷ (ns ++ home_names id) ++ rest =
          e ∙ ap (λ b. b ++ rest) (home_dir-root id v) in
        let inside = subst (All IsNormal) (append_cancel_left (root_dir ∷ []) q _ e') names in
        (
          rest,
          sym found.1 ∙ e ∙ ap (λ b. b ++ rest) (home_dir-eq m id v),
          ((All-append IsNormal (ns ++ home_names id) rest).0 inside).1,
        )

    -- A path that `resolve_path` returns is the root of the manager, the id, `home`, and then names
    -- only: no `..` and no `.`. The manager's root is absolute and holds neither.
    pub resolve_path_contained :
        (id relative : Text) {p : FilePath}
        → resolve_path clean m id relative ≡ ok p
        → (rest : FilePath) × (p ≡ m.root ++ home_names id ++ rest) × All IsNormal rest
    resolve_path_contained id relative {p} h =
        let v = resolve_path-IsWorkspaceId id relative p h in
        below_home id (walk (ns ++ home_names id) (components relative)) p relative v
          (walk-IsNormal _ (components relative) (home_names-IsNormal id))
          (sym (resolve_path-walk id relative v) ∙ h)

    -- Two workspaces share no path, where the manager's root is absolute and holds neither `.` nor
    -- `..`: ids in which one path is resolved are equal.
    pub resolve_path_isolated :
        (id id' relative relative' : Text) {p : FilePath}
        → resolve_path clean m id relative ≡ ok p
        → resolve_path clean m id' relative' ≡ ok p
        → id ≡ id'
    resolve_path_isolated id id' relative relative' {p} h h' =
        let (rest, e, _) = resolve_path_contained id relative h in
        let (rest', e', _) = resolve_path_contained id' relative' h' in
        let same = append_cancel_left m.root (home_names id ++ rest) (home_names id' ++ rest') (
          sym (append_assoc m.root (home_names id) rest)
          ∙ sym e
          ∙ e'
          ∙ append_assoc m.root (home_names id') rest') in
        ground (arith, same)

    -- For a workspace id, and a manager's root that is absolute and holds neither `.` nor `..`, a
    -- relative path of names resolves to the home with these names behind it.
    pub resolve_path_names :
        (id relative : Text)
        → IsWorkspaceId id
        → All IsNormal (components relative)
        → resolve_path clean m id relative ≡ ok (m.root ++ home_names id ++ components relative)
    resolve_path_names id relative v names =
        let target = walk (ns ++ home_names id) (components relative) in
        let e : root_dir ∷ target ≡ home_dir m id ++ components relative =
          ap (λ q. root_dir ∷ q) (walk_names (ns ++ home_names id) (components relative) names)
          ∙ sym (ap (λ b. b ++ components relative) (home_dir-root id v)) in
        let inside =
          (starts_with_iff (root_dir ∷ target) (home_dir m id)).1 (components relative, e) in
        resolve_path-walk id relative v
        ∙ rw inside (ap ok (e ∙ ap (λ b. b ++ components relative) (home_dir-eq m id v)))
