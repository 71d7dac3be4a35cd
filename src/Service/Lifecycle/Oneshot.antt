-- ===== src/Service/Lifecycle/Oneshot.antt =====
-- The life of the container of `do_exec_oneshot`.
use scriptorium.Workspace.Homes.{ensure_home-Makes}
use scriptorium.Service.Permits.{under_permit, acquire_cases}
use scriptorium.Service.{
  SandboxService, ExecRequest, build_exec_params, do_exec_oneshot, exec_params,
}
use scriptorium.World.{pure}
use scriptorium.Base.{ℕ, ◌∷◌, inr, inl, subst, arith, Option-cases}
use scriptorium.Error.{ok, Result-cases}
use scriptorium.Text.{Text}
use scriptorium.Runtime.{
  SandboxConfig, ExecParams, exec_oneshot, run_to_end, create_container, container_name,
  read_clock_now, container_spec, attach_container, start_container,
}
use scriptorium.Workspace.{ensure_home, WorkspaceManager}
use scriptorium.World.Calls.{
  Env, History, Call, created_container, read_clock, attached_container, started_container,
  waited_container, removed_container, killed_container, acquired_permit, released_permit,
}
use scriptorium.Service.Lifecycle.{
  Phase, Lives, MayRelease, IsAside, holding, made, next, aside, make, not_made, attach,
  not_attached, left, not_started, fail_start, here, awaited, start, await, ended, over, cleaned,
  kill, remove, Lives-aside, outside, held, Lives-trans, acquire, release, Finishes, gone,
}
use scriptorium.World.Trace.{Makes, Makes-bind, Makes-result}

ensure_home-Aside :
    (env : Env) (m : WorkspaceManager) (id : Text) (uid gid : ℕ)
    → Makes IsAside (ensure_home env m id uid gid)
ensure_home-Aside env m id uid gid = ensure_home-Makes env m id uid gid (λ _. (tt, tt, tt))

-- A handler that holds its permit, after what it runs.
abbrev pub Releases : Env → History → History → Type 0
Releases env h g = (q : Phase) × MayRelease q × Lives env holding h q g

module _ (env : Env) (cfg : SandboxConfig) (req : ExecParams) where
  abbrev pub named_spec : ℕ → Call
  named_spec nanos =
      created_container (container_name req.workspace_id nanos) (container_spec cfg req)

  exec_oneshot-Releases : (h : History) → Releases env h (exec_oneshot env cfg req h).0
  unfolding exec_oneshot run_to_end create_container read_clock_now attach_container start_container
  exec_oneshot-Releases h =
      let h₁ = read_clock ∷ read_clock ∷ h in
      let h₂ = named_spec (env.now (read_clock ∷ h)) ∷ h₁ in
      let l₂ : Lives env holding h made h₂ = next (next (next here (aside tt)) (aside tt)) make in
      elim (Result-cases (
        env.create_container h₁ (container_name req.workspace_id (env.now (read_clock ∷ h)))
          (container_spec cfg req))) [
            | inr (e, p) ↦ (made, not_made, subst (Lives env holding h made) (ground (arith, p)) l₂)
            | inl (cid, p) ↦
                let h₃ = attached_container cid ∷ h₂ in
                let l₃ : Lives env holding h (Phase.attached cid) h₃ = next l₂ attach in
                elim (Result-cases (env.attach_container h₂ cid)) [
                  | inr (e, q) ↦ (
                    Phase.attached cid,
                    not_attached cid,
                    subst (Lives env holding h (Phase.attached cid)) (ground (arith, p, q)) l₃,
                  )
                  | inl (output, q) ↦
                      let h₄ = started_container cid ∷ h₃ in
                      elim (Result-cases (env.start_container h₃ cid)) [
                        | inr (e, r) ↦ (
                          left cid,
                          not_started cid,
                          subst (Lives env holding h (left cid)) (ground (arith, p, q, r))
                              (next l₃ (fail_start r)),
                        )
                        | inl (_, r) ↦
                            let h₅ = waited_container cid ∷ h₄ in
                            let l₅ : Lives env holding h (awaited cid) h₅ =
                              next (next l₃ (start r)) await in
                            elim (Option-cases (env.deadline h₄ req.timeout)) [
                              | inl t ↦ (
                                awaited cid,
                                ended cid,
                                subst (Lives env holding h (awaited cid)) {x = read_clock ∷ h₅}
                                    (ground (arith, p, q, r, t)) (next l₅ (aside tt)),
                              )
                              | inr (n, t) ↦ (
                                over,
                                cleaned,
                                subst (Lives env holding h over)
                                    {x = read_clock
                                      ∷ removed_container cid
                                      ∷ killed_container cid
                                      ∷ h₅}
                                    (ground (arith, p, q, r, t))
                                    (next (next (next l₅ kill) remove) (aside tt)),
                              )
                            ]
                      ]
                ]
          ]

module _ (env : Env) (svc : SandboxService) (req : ExecRequest) where
  pub build_exec_params-Aside : Makes IsAside (build_exec_params env svc req)
  unfolding build_exec_params
  build_exec_params-Aside =
      Makes-bind
        (ensure_home env svc.workspaces req.workspace_id svc.sandbox_cfg.agent_uid
          svc.sandbox_cfg.agent_gid)
        (λ home. pure (exec_params env svc req home))
        (ensure_home-Aside env svc.workspaces req.workspace_id svc.sandbox_cfg.agent_uid
          svc.sandbox_cfg.agent_gid)
        (λ home. Makes-result (ok (exec_params env svc req home)))

  under_permit-Releases : (h : History) → Releases env h (under_permit env svc req h).0
  unfolding under_permit
  under_permit-Releases h =
      let s = build_exec_params env svc req h in
      let l = Lives-aside env holding h s.0 (build_exec_params-Aside.makes h) in
      elim (Result-cases s.1) [
        | inr (e, p) ↦
            (holding, held, subst (Lives env holding h holding) {x = s.0} (ground (arith, p)) l)
        | inl (params, p) ↦
            let (q, may, l') = exec_oneshot-Releases env svc.sandbox_cfg params s.0 in
            (
              q,
              may,
              subst (Lives env holding h q) {x = (exec_oneshot env svc.sandbox_cfg params s.0).0}
                  (ground (arith, p)) (Lives-trans env l l'),
            )
      ]

  pub do_exec_oneshot-Lives : (h : History) → Finishes env h (do_exec_oneshot env svc req h).0
  unfolding do_exec_oneshot under_permit
  do_exec_oneshot-Lives h = elim (acquire_cases env svc req h) [
    | inr (e, refused) ↦ inl (ground (arith, refused))
    | inl got ↦
        let h₁ = acquired_permit ∷ h in
        let (q, may, l) = under_permit-Releases h₁ in
        inr (
          subst (Lives env outside h gone) {x = released_permit ∷ (under_permit env svc req h₁).0}
            (ground (arith, got)) (next (Lives-trans env (next here acquire) l) (release may)))
  ]
