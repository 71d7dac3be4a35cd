-- ===== src/Service/Within/Isolation.antt =====
-- What an import leaves of the files of other workspaces.
use scriptorium.Service.Within.Download.{do_fetch-Makes, delete-Makes}
use scriptorium.Service.Within.Fetch.{IsFetching}
use scriptorium.Service.Within.Import.{do_import_contained}
use scriptorium.Error.{Result, Status, ok}
use scriptorium.FilePath.Laws.{starts_with_iff, IsCleanPath, IsNormal}
use scriptorium.Service.Import.{ImportHeader, ImportPayload, do_import_workspace_object, header}
use scriptorium.Workspace.Containment.{IsCleanRoot}
use scriptorium.Workspace.Lexical.{IsPathClean}
use scriptorium.Service.{SandboxService, do_fetch, delete_workspace}
use scriptorium.World.Trace.{Adds}
use scriptorium.Base.{
  ◌≢◌, Bool-cases, ◌++◌, ◌≡◌, ◌∷◌, All, inr, ◌∙◌, [], inl, ap, List, append_assoc,
  append_cancel_left, refl, arith, ℕ,
}
use scriptorium.Service.Within.{
  IsBelow, IsWithin, workspace_at, below-IsCleanPath, workspace_at-IsCleanPath, IsCleanPath-append,
}
use scriptorium.Service.Within.Archive.{ListsInside}
use scriptorium.Text.{Text}
use scriptorium.Service.Stored.{IsApart, apart_neq}
use scriptorium.World.Store.{Contents, LeavesOthers}
use scriptorium.FilePath.{FilePath, starts_with, normal}
use scriptorium.World.Calls.{
  Env, History, Call, created_dir_all, unpacked, removed_dir_all, removed_file, created_file,
  flushed, renamed, wrote, asked_metadata, listed_dir, opened, read_archive, set_mode, chowned,
  read_clock, looked_up, sent_request, synced,
}

-- What is apart from a directory is apart from all below it.
IsApart-below : (p dir q : FilePath) → IsApart p dir → IsBelow dir q → IsApart p q
IsApart-below p dir q apart (rest, e, _) = elim (Bool-cases (starts_with p q)) [
  | inr far ↦ far
  | inl near ↦
      let (more, e') = (starts_with_iff p q).0 near in
      let at : p ≡ dir ++ (rest ++ more) =
        e' ∙ ap (λ r. r ++ more) e ∙ append_assoc dir rest more in
      absurd (ground (arith, apart, (starts_with_iff p dir).1 (rest ++ more, at)))
]

module _ (c : Contents) (leaves : LeavesOthers c) (dir p : FilePath) (clean_dir : IsCleanPath dir)
    (clean_p : IsCleanPath p) (apart : IsApart p dir) where
  clean_below : (q : FilePath) → IsBelow dir q → IsCleanPath q
  clean_below q = below-IsCleanPath dir q clean_dir

  far : (q : FilePath) → IsBelow dir q → IsApart p q
  far q below = IsApart-below p dir q apart below

  one_keeps : (call : Call) (h : History) → IsWithin dir call → c (call ∷ h) p ≡ c h p
  one_keeps (created_dir_all q) h below = leaves.quiet h (created_dir_all q) p tt
  one_keeps (removed_dir_all q) h below =
      leaves.removed_dir h q p (clean_below q below) clean_p (far q below)
  one_keeps (removed_file q) h below =
      leaves.removed h q p (clean_below q below) clean_p (apart_neq p q (far q below))
  one_keeps (created_file q) h below =
      leaves.created h q p (clean_below q below) clean_p (apart_neq p q (far q below))
  one_keeps (flushed q) h below = leaves.quiet h (flushed q) p tt
  one_keeps (renamed q r) h (below, below') =
      leaves.moved h q r p (clean_below q below) (clean_below r below') clean_p (far q below)
        (far r below')
  one_keeps (wrote q bytes) h below =
      leaves.written h q p bytes (clean_below q below) clean_p (apart_neq p q (far q below))
  one_keeps (asked_metadata q) h below = leaves.quiet h (asked_metadata q) p tt
  one_keeps (listed_dir q) h below = leaves.quiet h (listed_dir q) p tt
  one_keeps (opened q) h below = leaves.quiet h (opened q) p tt
  one_keeps (read_archive q) h below = leaves.quiet h (read_archive q) p tt
  one_keeps (set_mode q mode) h below = leaves.quiet h (set_mode q mode) p tt
  one_keeps (chowned q uid gid) h below = leaves.quiet h (chowned q uid gid) p tt
  one_keeps (unpacked entry root) h (below, relative, inside) =
      leaves.unpacked h entry root p relative inside (clean_below root below) clean_p
        (far root below)
  one_keeps read_clock h below = leaves.quiet h read_clock p tt
  one_keeps _ h bad = absurd bad

  fetching_keeps : (call : Call) (h : History) → IsFetching dir call → c (call ∷ h) p ≡ c h p
  fetching_keeps (looked_up host port) h allowed = leaves.quiet h (looked_up host port) p tt
  fetching_keeps (sent_request url headers seconds) h allowed =
      leaves.quiet h (sent_request url headers seconds) p tt
  fetching_keeps (synced q) h allowed = leaves.quiet h (synced q) p tt
  fetching_keeps call h allowed = one_keeps call h allowed

  all_keep :
      (P : Call → Type 0)
      → ((call : Call) (h : History) → P call → c (call ∷ h) p ≡ c h p)
      → (h g : History) → Adds P h g
      → c g p ≡ c h p
  all_keep P keeps h g (new, e, all) = ap (λ k. c k p) e ∙ onto new all
    where
      onto : (new : History) → All P new → c (new ++ h) p ≡ c h p
      onto [] all = refl
      onto (call ∷ new) (one, all) = keeps call (new ++ h) one ∙ onto new all

  pub within_keeps : (h g : History) → Adds (IsWithin dir) h g → c g p ≡ c h p
  within_keeps = all_keep (IsWithin dir) one_keeps

  pub fetch_keeps : (h g : History) → Adds (IsFetching dir) h g → c g p ≡ c h p
  fetch_keeps = all_keep (IsFetching dir) fetching_keeps

-- Names that differ lead apart.
IsApart-names :
    (base : FilePath) (s t : Text) (rest : FilePath)
    → s ≢ t
    → IsApart (base ++ normal s ∷ rest) (base ++ (normal t ∷ []))
IsApart-names base s t rest differ =
    elim (Bool-cases (starts_with (base ++ normal s ∷ rest) (base ++ (normal t ∷ [])))) [
      | inr far_off ↦ far_off
      | inl near ↦
          let (more, e) =
            (starts_with_iff (base ++ normal s ∷ rest) (base ++ (normal t ∷ []))).0 near in
          let same =
            append_cancel_left base (normal s ∷ rest) (normal t ∷ more)
              (e ∙ append_assoc base (normal t ∷ []) more) in
          absurd (differ (ground (arith, same)))
    ]

module _ (env : Env) (lists : ListsInside env) (c : Contents) (leaves : LeavesOthers c)
    (svc : SandboxService) (clean : FilePath → FilePath) (laws : IsPathClean clean) (ns : FilePath)
    (root : IsCleanRoot svc.workspaces ns) where
  -- Workspaces are kept apart: whatever an import into one workspace is sent, archives included,
  -- whatever a fetch into it downloads, and also when it is deleted, and however each of the three
  -- ends, each file below the directory of another workspace, by a path of names only behind it, has
  -- the bytes that it had. A request of the file system for absolute paths without `.` and `..` leaves
  -- the files that it is not about, as the laws of `LeavesOthers` say, and a listing gives paths in the
  -- directory that it is of; the manager's root is absolute and holds neither `.` nor `..`.
  pub workspaces_isolated :
      (head : ImportHeader) (messages : List (Result Status ImportPayload)) (url path : Text)
      (headers : List (Text × Text)) (seconds : ℕ) (other : Text) (rest : FilePath) (h : History)
      → other ≢ head.workspace_id
      → All IsNormal rest
      → let p = svc.workspaces.root ++ normal other ∷ rest in
        (c (do_import_workspace_object env svc clean (ok (header head) ∷ messages) h).0 p ≡ c h p)
        × (c (do_fetch env svc clean head.workspace_id url path headers seconds h).0 p ≡ c h p)
        × (c (delete_workspace env svc head.workspace_id h).0 p ≡ c h p)
  workspaces_isolated head messages url path headers seconds other rest h differ names =
      let id = head.workspace_id in
      let dir = workspace_at svc.workspaces id in
      let p = svc.workspaces.root ++ normal other ∷ rest in
      let apart = IsApart-names svc.workspaces.root other id rest differ in
      let clean_dir = workspace_at-IsCleanPath svc.workspaces ns id root in
      let clean_p =
        IsCleanPath-append svc.workspaces.root (normal other ∷ rest) (ns, root.root_is, root.names)
          (tt, names) in
      (
        within_keeps c leaves dir p clean_dir clean_p apart h _
            (do_import_contained env lists svc clean laws ns root head messages h),
        fetch_keeps c leaves dir p clean_dir clean_p apart h _
            ((do_fetch-Makes env svc clean laws ns root id url path headers seconds).makes h),
        fetch_keeps c leaves dir p clean_dir clean_p apart h _ ((delete-Makes env svc id).makes h),
      )
