-- ===== src/Service/Confined/Handlers.antt =====
-- The containers that the handlers create.
use scriptorium.Error.{ok, Result-cases}
use scriptorium.Runtime.Select.{exec_stream}
use scriptorium.Runtime.{exec_oneshot}
use scriptorium.Text.{Text}
use scriptorium.Service.Lifecycle.Streamed.{streamed_run, loop_stream, open_stream-Opened}
use scriptorium.Service.Lifecycle.Oneshot.{named_spec, build_exec_params-Aside}
use scriptorium.Base.{ℕ, ◌∷◌, inr, All-mono, subst, arith, ◌≡◌, inl, some, none}
use scriptorium.World.Trace.{Adds, Adds-trans, Adds-one, Adds-refl}
use scriptorium.Service.Confined.Runs.{
  NotMaking, exec_oneshot-Makes, exec_stream-Makes, run_stream-Adds,
}
use scriptorium.Service.Lifecycle.{IsAside}
use scriptorium.Service.Confined.{
  IsSandboxedCall, params_at_home, spec-IsSandboxed, build_exec_params_at_home,
}
use scriptorium.Service.Rpc.{open_stream, exec_stream_rpc, Consumption, exec_events}
use scriptorium.Service.Permits.{under_permit, acquire_cases}
use scriptorium.Workspace.Ids.{IsWorkspaceId}
use scriptorium.Service.{
  SandboxService, ExecRequest, do_exec_oneshot, build_exec_params, acquire_exec_permit,
}
use scriptorium.World.Calls.{
  Env, Call, History, acquired_permit, created_container, released_permit,
}

module _ (env : Env) (svc : SandboxService) (req : ExecRequest) where
  abbrev pub P : Call → Type 0
  P = IsSandboxedCall svc req

  IsAside-P : (call : Call) → IsAside call → P call
  IsAside-P (created_container name spec) bad = absurd bad
  IsAside-P _ allowed = tt

  NotMaking-P : (call : Call) → NotMaking call → P call
  NotMaking-P (created_container name spec) bad = absurd bad
  NotMaking-P _ allowed = tt

  params_made : (h : History) → Adds P h (build_exec_params env svc req h).0
  params_made h =
      let (new, e, all) = (build_exec_params-Aside env svc req).makes h in
      (new, e, All-mono IsAside P IsAside-P new all)

  named_P :
      IsWorkspaceId req.workspace_id
      → (nanos : ℕ) → P (named_spec env svc.sandbox_cfg (params_at_home env svc req) nanos)
  named_P valid nanos = spec-IsSandboxed env svc req valid

  pub under_permit_sandboxes : (h : History) → Adds P h (under_permit env svc req h).0
  unfolding under_permit
  under_permit_sandboxes h =
      let s = build_exec_params env svc req h in
      let params = params_at_home env svc req in
      elim (build_exec_params_at_home env svc req h) [
        | inl (e, p) ↦ subst (Adds P h) {x = s.0} (ground (arith, p)) (params_made h)
        | inr (p, valid) ↦
            let t = exec_oneshot env svc.sandbox_cfg params s.0 in
            let made = exec_oneshot-Makes env svc.sandbox_cfg params (named_P valid) NotMaking-P in
            subst (Adds P h) {x = t.0} (ground (arith, p))
              (Adds-trans h s.0 t.0 (params_made h) (made.makes s.0))
      ]

  open_stream_sandboxes : (h : History) → Adds P h (open_stream env svc req h).0
  unfolding open_stream
  open_stream_sandboxes h =
      let s = build_exec_params env svc req h in
      let params = params_at_home env svc req in
      elim (build_exec_params_at_home env svc req h) [
        | inl (e, p) ↦ subst (Adds P h) {x = s.0} (ground (arith, p)) (params_made h)
        | inr (p, valid) ↦
            let t = exec_stream env svc.sandbox_cfg params s.0 in
            let made = exec_stream-Makes env svc.sandbox_cfg params (named_P valid) NotMaking-P in
            let added = Adds-trans h s.0 t.0 (params_made h) (made.makes s.0) in
            elim (Result-cases t.1) [
              | inr (e, q) ↦ subst (Adds P h) {x = t.0} (ground (arith, p, q)) added
              | inl (opened, q) ↦ subst (Adds P h) {x = t.0} (ground (arith, p, q)) added
            ]
      ]

  -- The permit is acquired, then the requests `m`, then the permit goes back.
  permitted : (h g : History) → Adds P (acquired_permit ∷ h) g → Adds P h (released_permit ∷ g)
  permitted h g added =
      Adds-trans h (acquired_permit ∷ h) (released_permit ∷ g) (Adds-one acquired_permit h tt) (
        Adds-trans (acquired_permit ∷ h) g (released_permit ∷ g) added
          (Adds-one released_permit g tt))

  do_exec_oneshot_sandboxes : (h : History) → Adds P h (do_exec_oneshot env svc req h).0
  unfolding do_exec_oneshot under_permit
  do_exec_oneshot_sandboxes h = elim (acquire_cases env svc req h) [
    | inr (e, refused) ↦ subst (Adds P h) {x = h} (ground (arith, refused)) (Adds-refl h)
    | inl got ↦
        let g = acquired_permit ∷ h in
        let s = under_permit env svc req g in
        subst (Adds P h) {x = released_permit ∷ s.0} (ground (arith, got))
          (permitted h s.0 (under_permit_sandboxes g))
  ]

  streamed_run_sandboxes : (c : Consumption) (h : History) → Adds P h (streamed_run env svc req c h)
  unfolding exec_stream_rpc exec_events
  streamed_run_sandboxes c h = elim (acquire_cases env svc req h) [
    | inr (e, refused) ↦ subst (Adds P h) {x = h} (ground (arith, refused)) (Adds-refl h)
    | inl got ↦
        let g = acquired_permit ∷ h in
        let s = open_stream env svc req g in
        let opened = open_stream_sandboxes g in
        elim (open_stream-Opened env svc req g) [
          | inl ((e, p), _) ↦
              subst (Adds P h) {x = released_permit ∷ s.0} (ground (arith, got, p))
                (permitted h s.0 opened)
          | inr (cid, begun, p, l) ↦ consumed c cid begun got p opened
        ]
  ]
    where
      consumed :
          (c : Consumption) (cid : Text) (begun : ℕ)
          → acquire_exec_permit env svc h ≡ (acquired_permit ∷ h, ok tt)
          → (open_stream env svc req (acquired_permit ∷ h)).1
            ≡ ok (exec_events cid (loop_stream env cid begun))
          → Adds P (acquired_permit ∷ h) (open_stream env svc req (acquired_permit ∷ h)).0
          → Adds P h (streamed_run env svc req c h)
      consumed none cid begun got p opened =
          let s = open_stream env svc req (acquired_permit ∷ h) in
          subst (Adds P h) {x = released_permit ∷ s.0} (ground (arith, got, p))
            (permitted h s.0 opened)
      consumed (some turns) cid begun got p opened =
          let g = acquired_permit ∷ h in
          let s = open_stream env svc req g in
          let t = loop_stream env cid begun turns s.0 in
          subst (Adds P h) {x = released_permit ∷ t.0} (ground (arith, got, p)) (
            permitted h t.0
              (Adds-trans g s.0 t.0 opened (run_stream-Adds env NotMaking-P cid begun turns s.0)))

  -- `exec` and `exec_stream` ask for one kind of container only: whatever the request says, and whenever
  -- the client of a stream goes away, each container that they create mounts the home of the request's
  -- workspace, whose id is valid, and nothing else, runs the command as the agent on a read-only root
  -- file system in the bridge network, is removed at its exit, and has the request's limits, or the
  -- configured ones where the request has zero.
  pub exec_containers-AreSandboxed :
      (c : Consumption) (h : History)
      → Adds P h (do_exec_oneshot env svc req h).0 × Adds P h (streamed_run env svc req c h)
  exec_containers-AreSandboxed c h = (do_exec_oneshot_sandboxes h, streamed_run_sandboxes c h)
