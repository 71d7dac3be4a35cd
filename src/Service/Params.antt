-- ===== src/Service/Params.antt =====
-- What `build_exec_params` makes of a request.
use scriptorium.Workspace.Homes.{ensure_home_ready}
use scriptorium.Workspace.{home_dir, ensure_home}
use scriptorium.Runtime.{ExecParams}
use scriptorium.World.Calls.{Env, History}
use scriptorium.Service.{
  build_exec_params, exec_params, SandboxService, ExecRequest, limits_of, or_default,
}
use scriptorium.Base.{◌⊎◌, ◌≢◌, ℕ, ◌≡◌, arith, inr, inl, sym, ap, ◌∙◌, subst}
use scriptorium.Error.{ok, Result-cases}

-- Zero in the request stands for the configured default.
abbrev pub Chosen : ℕ → ℕ → ℕ → Type 0
Chosen asked default got = ((asked ≢ 0) × (got ≡ asked)) ⊎ ((asked ≡ 0) × (got ≡ default))

pub or_default-Chosen : (asked default : ℕ) → Chosen asked default (or_default asked default)
or_default-Chosen asked default = ground arith

-- Where `build_exec_params` succeeds, the command will run in the home of the request's workspace,
-- and its timeout and each of its four limits are those of the request, or the configured ones where
-- the request has zero or no limits.
build_exec_params-Chosen :
    (env : Env) (svc : SandboxService) (req : ExecRequest) (h h' : History) (p : ExecParams)
    → build_exec_params env svc req h ≡ (h', ok p)
    → let l = limits_of req.limits in
      (p.host_home_dir ≡ home_dir svc.workspaces req.workspace_id)
      × (p.command ≡ req.command)
      × Chosen req.timeout_seconds svc.sandbox_cfg.default_timeout_seconds p.timeout
      × Chosen l.cpu_millis svc.sandbox_cfg.default_cpu_millis p.cpu_millis
      × Chosen l.memory_bytes svc.sandbox_cfg.default_memory_bytes p.memory_bytes
      × Chosen l.pids svc.sandbox_cfg.default_pids p.pids
      × Chosen l.tmpfs_bytes svc.sandbox_cfg.default_tmpfs_bytes p.tmpfs_bytes
unfolding build_exec_params exec_params
build_exec_params-Chosen env svc req h h' p e =
    elim (Result-cases
      (ensure_home env svc.workspaces req.workspace_id svc.sandbox_cfg.agent_uid
        svc.sandbox_cfg.agent_gid h).1) [
          | inr (why, q) ↦ absurd (ground (arith, q, e))
          | inl (home, q) ↦
              let l = limits_of req.limits in
              let at_home : home ≡ home_dir svc.workspaces req.workspace_id =
                (ensure_home_ready env svc.workspaces req.workspace_id svc.sandbox_cfg.agent_uid
                  svc.sandbox_cfg.agent_gid h
                  (ensure_home env svc.workspaces req.workspace_id svc.sandbox_cfg.agent_uid
                    svc.sandbox_cfg.agent_gid h).0
                  home (ground (arith, q))).0 in
              let is : exec_params env svc req home ≡ p = ground (arith, q, e) in
              (
                sym (ap ExecParams.host_home_dir is) ∙ at_home,
                sym (ap ExecParams.command is),
                subst (Chosen req.timeout_seconds svc.sandbox_cfg.default_timeout_seconds)
                    (ap ExecParams.timeout is)
                    (or_default-Chosen req.timeout_seconds svc.sandbox_cfg.default_timeout_seconds),
                subst (Chosen l.cpu_millis svc.sandbox_cfg.default_cpu_millis)
                    (ap ExecParams.cpu_millis is)
                    (or_default-Chosen l.cpu_millis svc.sandbox_cfg.default_cpu_millis),
                subst (Chosen l.memory_bytes svc.sandbox_cfg.default_memory_bytes)
                    (ap ExecParams.memory_bytes is)
                    (or_default-Chosen l.memory_bytes svc.sandbox_cfg.default_memory_bytes),
                subst (Chosen l.pids svc.sandbox_cfg.default_pids) (ap ExecParams.pids is)
                    (or_default-Chosen l.pids svc.sandbox_cfg.default_pids),
                subst (Chosen l.tmpfs_bytes svc.sandbox_cfg.default_tmpfs_bytes)
                    (ap ExecParams.tmpfs_bytes is)
                    (or_default-Chosen l.tmpfs_bytes svc.sandbox_cfg.default_tmpfs_bytes),
              )
        ]
