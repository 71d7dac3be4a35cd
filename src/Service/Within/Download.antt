-- ===== src/Service/Within/Download.antt =====
-- What `do_fetch` and `delete_workspace` may touch.
use scriptorium.World.Fs.{set_permissions}
use scriptorium.Fetch.{fetch_to_file}
use scriptorium.Workspace.Homes.{ensure_home-Makes, delete_outcomes}
use scriptorium.Error.{status_of, io, Result-cases, ok}
use scriptorium.World.{lift_status, lift_io}
use scriptorium.Workspace.Ids.{IsWorkspaceId, validate_workspace_id-IsWorkspaceId}
use scriptorium.World.Trace.{
  Makes, Makes-bind, Makes-lift, Makes-answer, Makes-result, answered, Makes-then, Makes-one, Adds,
}
use scriptorium.Service.Within.{workspace_at, home_within, target-IsInside, IsInside-IsBelow}
use scriptorium.Workspace.{
  delete, delete, workspace_dir, ensure_home, resolve_path, validate_workspace_id,
}
use scriptorium.Base.{List, ℕ, inl, ◌∷◌, [], ◌∙◌, sym, append-nil, inr, arith}
use scriptorium.Service.Within.Fetch.{IsFetching, fetch_to_file-Makes}
use scriptorium.Text.{Text}
use scriptorium.Workspace.Containment.{IsCleanRoot, workspace_dir-eq}
use scriptorium.Workspace.Lexical.{IsPathClean}
use scriptorium.FilePath.{FilePath}
use scriptorium.Service.{SandboxService, do_fetch, delete_workspace, or_default, resolve}
use scriptorium.World.Calls.{Env, Call, History, set_mode, removed_dir_all}

module _ (env : Env) (svc : SandboxService) (clean : FilePath → FilePath) (laws : IsPathClean clean)
    (ns : FilePath) (root : IsCleanRoot svc.workspaces ns) (id : Text) where
  abbrev P : Call → Type 0
  P = IsFetching (workspace_at svc.workspaces id)

  -- Whatever is fetched and however it ends.
  pub do_fetch-Makes :
      (url path : Text) (headers : List (Text × Text)) (seconds : ℕ)
      → Makes P (do_fetch env svc clean id url path headers seconds)
  unfolding do_fetch
  do_fetch-Makes url path headers seconds =
      let cfg = svc.sandbox_cfg in
      let timeout = or_default seconds svc.fetch_cfg.timeout_seconds in
      let home = ensure_home env svc.workspaces id cfg.agent_uid cfg.agent_gid in
      let homely = λ (valid : IsWorkspaceId id). home_within svc.workspaces id valid in
      Makes-bind (lift_status home) _
        (Makes-lift status_of home (
          ensure_home-Makes env svc.workspaces id cfg.agent_uid cfg.agent_gid
            (λ valid. (homely valid, homely valid, homely valid))))
        (λ _. Makes-answer (resolve env svc clean id path) _ (Makes-result _) (λ h target e.
          let inside =
            target-IsInside svc.workspaces clean laws ns root id path target
              (answered status_of (resolve_path clean svc.workspaces id path) target e) in
          Makes-bind (lift_status (fetch_to_file env svc.fetch_cfg url target headers timeout)) _
            (Makes-lift status_of (fetch_to_file env svc.fetch_cfg url target headers timeout) (
              fetch_to_file-Makes env svc.fetch_cfg (workspace_at svc.workspaces id) target inside
                url headers timeout))
            (λ out.
              Makes-then (lift_status (lift_io (set_permissions env target 0o644))) _
                (Makes-lift status_of (lift_io (set_permissions env target 0o644)) (
                  Makes-lift io (set_permissions env target 0o644)
                    (Makes-one (set_mode target 0o644) _ (IsInside-IsBelow _ target inside))))
                (Makes-result (ok out)))))

pub delete-Makes :
    (env : Env) (svc : SandboxService) (id : Text)
    → Makes (IsFetching (workspace_at svc.workspaces id)) (delete_workspace env svc id)
unfolding delete_workspace delete
delete-Makes env svc id = record { makes = removed_or_refused }
  where
    removed_or_refused :
        (h : History)
        → Adds (IsFetching (workspace_at svc.workspaces id)) h (delete_workspace env svc id h).0
    removed_or_refused h = elim (Result-cases (validate_workspace_id id)) [
      | inl (_, p) ↦
          let valid = (validate_workspace_id-IsWorkspaceId id).0.0 p in
          let dir = workspace_dir svc.workspaces id in
          (
            removed_dir_all dir ∷ [],
            (delete_outcomes env svc.workspaces id h valid).0,
            (([], workspace_dir-eq svc.workspaces id valid ∙ sym (append-nil _), tt), tt),
          )
      | inr (e, p) ↦ ([], ground (arith, p), tt)
    ]
