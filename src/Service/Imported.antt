-- ===== src/Service/Imported.antt =====
-- A raw import as one update of the file system.
use scriptorium.Service.Within.{
  workspace_at, workspace_at-IsCleanPath, target-IsInside, below-IsCleanPath,
  transfer_temp_path-IsBelow, IsInside-IsBelow,
}
use scriptorium.Workspace.Containment.{IsCleanRoot}
use scriptorium.Workspace.Lexical.{IsPathClean}
use scriptorium.FilePath.Laws.{IsCleanPath}
use scriptorium.Service.Stored.{
  IsApart, replace_stored, receive_chunks_stored, ensure_home-KeepsContents, apart_neq,
}
use scriptorium.World.Fs.{create_file, flush}
use scriptorium.Error.{ok, Result, Status, Result-cases}
use scriptorium.Text.{codes}
use scriptorium.Service.{SandboxService}
use scriptorium.Service.Archive.{
  replace_workspace_file_from_staging, transfer_temp_path, parent_or_dot,
}
use scriptorium.Service.Import.{
  receive_chunks, ImportPayload, header, place_import, ImportHeader, do_import_workspace_object,
  ImportResponse, receive_import, raw,
}
use scriptorium.Workspace.{ensure_home, resolve_path}
use scriptorium.Base.{◌≡◌, [], List, ℕ, subst, arith, ◌∷◌, some, inr, inl, ◌∙◌, sym}
use scriptorium.World.Calls.{
  Env, History, created_dir_all, Bytes, removed_file, created_file, flushed, read_clock,
}
use scriptorium.World.{Io, ◌>>◌, lift_file, ◌>>=◌}
use scriptorium.FilePath.{FilePath}
use scriptorium.World.Store.{Contents, IsFileStore}
use scriptorium.Service.Received.{chunks_of}

-- The bytes stand at the target, and nothing else has changed but the staging file, as far as absolute
-- paths without `.` and `..` tell.
abbrev pub IsUpdated : Contents → FilePath → FilePath → Bytes → History → History → Type 0
IsUpdated c target staging bytes h h' =
    (c h' target ≡ some bytes)
    × ((p : FilePath) → IsCleanPath p → IsApart p target → IsApart p staging → c h' p ≡ c h p)

module _ (env : Env) (svc : SandboxService) (clean : FilePath → FilePath) where
  -- From the staging file on.
  unfoldable pub fill_staging :
      ImportHeader
      → List (Result Status ImportPayload)
      → FilePath
      → FilePath
      → Io Status ImportResponse
  fill_staging head messages staging target = do
    lift_file env (create_file env staging)
    written ← receive_chunks env svc clean staging messages 0
    lift_file env (flush env staging)
    place_import env svc clean head staging target written

module _ (env : Env) (c : Contents) (store : IsFileStore env c) (svc : SandboxService)
    (clean : FilePath → FilePath) where
  place_import_stored :
      (head : ImportHeader) (staging target : FilePath) (w : ℕ) (h h' : History)
      (resp : ImportResponse) (bytes : Bytes)
      → head.encoding ≡ raw
      → IsCleanPath staging
      → IsCleanPath target
      → IsApart staging target
      → c h staging ≡ some bytes
      → place_import env svc clean head staging target w h ≡ (h', ok resp)
      → IsUpdated c target staging bytes h h'
  unfolding place_import
  place_import_stored head staging target w h h' resp bytes is_raw at_staging at_target apart held
        e =
      let s = replace_workspace_file_from_staging env staging target h in
      elim (Result-cases s.1) [
        | inr (why, p) ↦ absurd (ground (arith, is_raw, p, e))
        | inl (_, p) ↦
            let ended : removed_file staging ∷ s.0 ≡ h' = ground (arith, is_raw, p, e) in
            let (there, others) =
              replace_stored env c store staging target h s.0 bytes (ground (arith, p)) apart held
                at_staging at_target in
            (
              subst (λ g. c g target ≡ some bytes) ended
                  (store.leaves.removed s.0 staging target at_staging at_target
                      (λ same. apart_neq staging target apart (sym same))
                    ∙ there),
              λ f at_f far far'.
                  subst (λ g. c g f ≡ c h f) ended
                    (store.leaves.removed s.0 staging f at_staging at_f (apart_neq f staging far')
                      ∙ others f at_f far far'),
            )
      ]

  fill_staging_stored :
      (head : ImportHeader) (messages : List (Result Status ImportPayload))
      (staging target : FilePath) (h h' : History) (resp : ImportResponse) (bytes : Bytes)
      → head.encoding ≡ raw
      → IsCleanPath staging
      → IsCleanPath target
      → IsApart staging target
      → chunks_of messages ≡ some bytes
      → fill_staging env svc clean head messages staging target h ≡ (h', ok resp)
      → IsUpdated c target staging bytes h h'
  unfolding fill_staging
  fill_staging_stored head messages staging target h h' resp bytes is_raw at_staging at_target apart
        all_chunks e =
      elim (Result-cases (env.create_file h staging)) [
        | inr (why, p) ↦ absurd (ground (arith, p, e))
        | inl (_, p) ↦
            let h₁ = created_file staging ∷ h in
            let s = receive_chunks env svc clean staging messages 0 h₁ in
            elim (Result-cases s.1) [
              | inr (why, q) ↦ absurd (ground (arith, p, q, e))
              | inl (w, q) ↦ elim (Result-cases (env.flush s.0 staging)) [
                | inr (why, r) ↦ absurd (ground (arith, p, q, r, e))
                | inl (_, r) ↦
                    let h₂ = flushed staging ∷ s.0 in
                    let (held, others) =
                      receive_chunks_stored env c store svc clean staging messages 0 w h₁ s.0 []
                        bytes (ground (arith, q)) all_chunks (store.created h staging p)
                        at_staging in
                    let placed : place_import env svc clean head staging target w h₂
                        ≡ (h', ok resp) =
                      ground (arith, p, q, r, e) in
                    let (there, rest) =
                      place_import_stored head staging target w h₂ h' resp bytes is_raw at_staging
                        at_target apart (store.leaves.quiet s.0 (flushed staging) staging tt ∙ held)
                        placed in
                    (
                      there,
                      λ f at_f far far'.
                          let other = apart_neq f staging far' in
                          rest f at_f far far'
                          ∙ store.leaves.quiet s.0 (flushed staging) f tt
                          ∙ others f at_f other
                          ∙ store.leaves.created h staging f at_staging at_f other,
                    )
              ]
            ]
      ]

module _ (env : Env) (c : Contents) (store : IsFileStore env c) (svc : SandboxService)
    (clean : FilePath → FilePath) (laws : IsPathClean clean) (ns : FilePath)
    (root : IsCleanRoot svc.workspaces ns) where
  -- A raw import is one update of the file system. Where the target is not named like a staging file
  -- and all messages behind the header are chunks, an import that succeeds leaves the chunks' bytes at
  -- the path that the header's target resolves to, and every other absolute path without `.` and `..`
  -- as it was, but for what was below the target and for one staging file. The file system keeps the
  -- laws of `IsFileStore`, and the manager's root is absolute and holds neither `.` nor `..`.
  pub import_raw_stores :
      (head : ImportHeader) (messages : List (Result Status ImportPayload)) (target : FilePath)
      (h h' : History) (resp : ImportResponse) (bytes : Bytes)
      → head.encoding ≡ raw
      → resolve_path clean svc.workspaces head.workspace_id head.target_path ≡ ok target
      → ((nanos : ℕ) → IsApart (transfer_temp_path target (codes "import") nanos) target)
      → chunks_of messages ≡ some bytes
      → do_import_workspace_object env svc clean (ok (header head) ∷ messages) h ≡ (h', ok resp)
      → (nanos : ℕ) × IsUpdated c target
          (transfer_temp_path target (codes "import") nanos)
          bytes
          h
          h'
  unfolding do_import_workspace_object receive_import fill_staging
  import_raw_stores head messages target h h' resp bytes is_raw resolved apart all_chunks e =
      let s =
        ensure_home env svc.workspaces head.workspace_id svc.sandbox_cfg.agent_uid
          svc.sandbox_cfg.agent_gid h in
      elim (Result-cases s.1) [
        | inr (why, p) ↦ absurd (ground (arith, p, e))
        | inl (home, p) ↦
            let dir = parent_or_dot target in
            let here = workspace_at svc.workspaces head.workspace_id in
            let at_here = workspace_at-IsCleanPath svc.workspaces ns head.workspace_id root in
            let inside =
              target-IsInside svc.workspaces clean laws ns root head.workspace_id head.target_path
                target resolved in
            elim (Result-cases (env.create_dir_all s.0 dir)) [
              | inr (why, q) ↦ absurd (ground (arith, p, resolved, q, e))
              | inl (_, q) ↦
                  let h₁ = created_dir_all dir ∷ s.0 in
                  let h₂ = read_clock ∷ h₁ in
                  let staging = transfer_temp_path target (codes "import") (env.now h₁) in
                  let filled : fill_staging env svc clean head messages staging target h₂
                      ≡ (h', ok resp) =
                    ground (arith, p, resolved, q, e) in
                  let (there, others) =
                    fill_staging_stored env c store svc clean head messages staging target h₂ h'
                      resp bytes is_raw
                      (below-IsCleanPath here staging at_here (
                        transfer_temp_path-IsBelow here target (codes "import") (env.now h₁)
                          inside))
                      (below-IsCleanPath here target at_here (IsInside-IsBelow here target inside))
                      (apart (env.now h₁)) all_chunks filled in
                  (
                    env.now h₁,
                    (
                      there,
                      λ f at_f far far'.
                          others f at_f far far'
                          ∙ store.leaves.quiet h₁ read_clock f tt
                          ∙ store.leaves.quiet s.0 (created_dir_all dir) f tt
                          ∙ ensure_home-KeepsContents env c store svc.workspaces head.workspace_id
                              svc.sandbox_cfg.agent_uid svc.sandbox_cfg.agent_gid h f,
                    ),
                  )
            ]
      ]
