-- ===== src/Service/Confined.antt =====
-- The containers that `exec` and `exec_stream` ask for.
pub mod Runs
pub mod Handlers
use scriptorium.Service.Permits.{under_permit}
use scriptorium.Runtime.Select.{Turn, exec_stream, run_stream, loop_start}
use scriptorium.World.{lift_docker}
use scriptorium.World.Trace.{
  Makes, Adds, Makes-bind, Makes-one, Adds-one, Makes-lift, Makes-then, Makes-result,
}
use scriptorium.Workspace.Homes.{ensure_home_ready}
use scriptorium.Service.Lifecycle.Oneshot.{named_spec}
use scriptorium.FilePath.{FilePath}
use scriptorium.Base.Int.{pos}
use scriptorium.Service.Params.{or_default-Chosen, Chosen}
use scriptorium.Text.{codes, decimal, Text}
use scriptorium.Error.{Error, err, ok, Result-cases, Result, docker}
use scriptorium.Base.{
  ◌≡◌, ◌++◌, ◌⊎◌, ◌∷◌, [], arith, true, ℕ, min, ◌*◌, refl, inr, inl, List, Option-cases,
}
use scriptorium.Workspace.{ensure_home, home_dir, validate_workspace_id}
use scriptorium.Service.Lifecycle.{IsAside, make}
use scriptorium.Workspace.Ids.{IsWorkspaceId, validate_workspace_id-IsWorkspaceId}
use scriptorium.Runtime.{
  container_spec, i64_of_u64, path_text, i64_max, SandboxConfig, ExecParams, run_to_end,
  exec_oneshot, create_container, read_clock_now, attach_container, start_container, container_name,
}
use scriptorium.World.Calls.{
  Env, ContainerSpec, Call, created_container, History, LogOutput, read_clock, waited_container,
  removed_container, killed_container, attached_container, started_container,
}
use scriptorium.Service.{
  SandboxService, ExecRequest, build_exec_params, exec_params, limits_of, or_default,
  do_exec_oneshot,
}

-- What holds of the specification of a container for the request.
pub record IsSandboxed (svc : SandboxService) (req : ExecRequest) (spec : ContainerSpec)
    : Type 0 where
  pub valid_id : IsWorkspaceId req.workspace_id
  pub mounts_home :
      spec.binds
      ≡ (path_text (home_dir svc.workspaces req.workspace_id)
          ++ (codes ":" ++ svc.sandbox_cfg.workspace_mount))
        ∷ []
  pub runs_command : spec.cmd ≡ codes "bash" ∷ codes "-lc" ∷ req.command ∷ []
  pub runs_as_agent :
      (spec.user_uid ≡ svc.sandbox_cfg.agent_uid) × (spec.user_gid ≡ svc.sandbox_cfg.agent_gid)
  pub read_only : spec.readonly_rootfs ≡ true
  pub removed_at_exit : spec.auto_remove ≡ true
  pub bridged : spec.network_mode ≡ codes "bridge"
  pub limits_memory :
      (n : ℕ) × Chosen (limits_of req.limits).memory_bytes svc.sandbox_cfg.default_memory_bytes n
      × (spec.memory ≡ pos (min n i64_max))
  pub limits_cpus :
      (n : ℕ) × Chosen (limits_of req.limits).cpu_millis svc.sandbox_cfg.default_cpu_millis n
      × (spec.nano_cpus ≡ pos (n * 1_000_000))
  pub limits_pids :
      (n : ℕ) × Chosen (limits_of req.limits).pids svc.sandbox_cfg.default_pids n
      × (spec.pids_limit ≡ pos n)
  pub limits_tmp :
      (n : ℕ) × Chosen (limits_of req.limits).tmpfs_bytes svc.sandbox_cfg.default_tmpfs_bytes n
      × (spec.tmpfs ≡ (codes "/tmp", codes "rw,size=" ++ decimal n) ∷ [])

abbrev pub IsSandboxedCall : SandboxService → ExecRequest → Call → Type 0
IsSandboxedCall svc req (created_container name spec) = IsSandboxed svc req spec
IsSandboxedCall svc req _ = Unit

module _ (env : Env) (svc : SandboxService) (req : ExecRequest) where
  abbrev pub params_at_home : ExecParams
  params_at_home = exec_params env svc req (home_dir svc.workspaces req.workspace_id)

  ensure_home_needs_id :
      (h : History) (e : Error)
      → validate_workspace_id req.workspace_id ≡ err e
      → (home : FilePath)
      → ¬ (
          (ensure_home env svc.workspaces req.workspace_id svc.sandbox_cfg.agent_uid
            svc.sandbox_cfg.agent_gid h).1
          ≡ ok home)
  unfolding ensure_home
  ensure_home_needs_id h e bad home good = ground (arith, bad, good)

  pub build_exec_params_at_home :
      (h : History)
      → ((e : Error) × ((build_exec_params env svc req h).1 ≡ err e))
        ⊎ (((build_exec_params env svc req h).1 ≡ ok params_at_home)
            × IsWorkspaceId req.workspace_id)
  unfolding build_exec_params
  build_exec_params_at_home h =
      let cfg = svc.sandbox_cfg in
      let m = svc.workspaces in
      let id = req.workspace_id in
      let s = ensure_home env m id cfg.agent_uid cfg.agent_gid h in
      elim (Result-cases s.1) [
        | inr (e, p) ↦ inl (e, ground (arith, p))
        | inl (home, p) ↦
            let at_home =
              (ensure_home_ready env m id cfg.agent_uid cfg.agent_gid h s.0 home
                (ground (arith, p))).0 in
            elim (Result-cases (validate_workspace_id id)) [
              | inr (e, q) ↦ absurd (ensure_home_needs_id h e q home p)
              | inl (_, q) ↦
                  inr (ground (arith, p, at_home), (validate_workspace_id-IsWorkspaceId id).0.0 q)
            ]
      ]

  pub spec-IsSandboxed :
      IsWorkspaceId req.workspace_id
      → IsSandboxed svc req (container_spec svc.sandbox_cfg params_at_home)
  unfolding container_spec exec_params i64_of_u64
  spec-IsSandboxed valid =
      let cfg = svc.sandbox_cfg in
      let l = limits_of req.limits in
      record {
        valid_id = valid;
        mounts_home = refl;
        runs_command = refl;
        runs_as_agent = (refl, refl);
        read_only = refl;
        removed_at_exit = refl;
        bridged = refl;
        limits_memory = (
          or_default l.memory_bytes cfg.default_memory_bytes,
          or_default-Chosen l.memory_bytes cfg.default_memory_bytes,
          ground arith,
        );
        limits_cpus = (
          or_default l.cpu_millis cfg.default_cpu_millis,
          or_default-Chosen l.cpu_millis cfg.default_cpu_millis,
          refl,
        );
        limits_pids =
            (or_default l.pids cfg.default_pids, or_default-Chosen l.pids cfg.default_pids, refl);
        limits_tmp = (
          or_default l.tmpfs_bytes cfg.default_tmpfs_bytes,
          or_default-Chosen l.tmpfs_bytes cfg.default_tmpfs_bytes,
          refl,
        );
      }
