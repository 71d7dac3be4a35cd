-- ===== src/Service/Lifecycle/Streamed.antt =====
-- The life of the container of `exec_stream`.
use scriptorium.Service.Permits.{acquire_cases}
use scriptorium.Service.Rpc.{Consumption, open_stream, exec_stream_rpc, exec_events}
use scriptorium.Service.{SandboxService, ExecRequest, build_exec_params, acquire_exec_permit}
use scriptorium.Error.{Result, Error, err, ok, Result-cases, docker, Status, status_of}
use scriptorium.Runtime.Stream.{run_stream_one_finished}
use scriptorium.Runtime.{
  kill_and_remove, SandboxConfig, ExecParams, create_container, read_clock_now, attach_container,
  start_container, container_name, container_spec,
}
use scriptorium.Runtime.Select.{Turn, run_stream, loop_start, StreamEvent, exec_stream}
use scriptorium.Base.{ℕ, List, ◌∷◌, inl, subst, sym, inr, ◌≡◌, ◌⊎◌, arith, none, some, refl}
use scriptorium.Text.{Text}
use scriptorium.World.Calls.{
  Env, History, waited_container, read_clock, attached_container, started_container,
  released_permit, acquired_permit,
}
use scriptorium.Service.Lifecycle.{
  Phase, Lives, holding, awaited, next, await, over, kill, remove, cleaned, ended, aside, made,
  here, make, not_made, attach, not_attached, left, not_started, fail_start, start, outside,
  Lives-aside, held, Lives-trans, acquire, release, Finishes, gone,
}
use scriptorium.Service.Lifecycle.Oneshot.{Releases, named_spec, build_exec_params-Aside}

module _ (env : Env) (cid : Text) (begun : ℕ) where
  -- However the turns fall, the container is awaited or removed in the end.
  run_stream-Releases :
      (turns : List Turn) (h f : History)
      → Lives env holding f (Phase.running cid) h
      → Releases env f (run_stream env cid begun loop_start turns (waited_container cid ∷ h)).0
  run_stream-Releases turns h f l =
      let g = waited_container cid ∷ h in
      let l₁ : Lives env holding f (awaited cid) g = next l await in
      let s = run_stream env cid begun loop_start turns g in
      let l₂ : Lives env holding f over (kill_and_remove env cid g) = next (next l₁ kill) remove in
      elim (run_stream_one_finished env cid begun turns g) [
        | inl (_, e) ↦ (over, cleaned, subst (Lives env holding f over) (sym e) l₂)
        | inr (inl (_, _, _, _, _, _, e)) ↦ (
          awaited cid,
          ended cid,
          subst (Lives env holding f (awaited cid)) (sym e) (next l₁ (aside tt)),
        )
        | inr (inr (_, _, _, _, e)) ↦
            (over, cleaned, subst (Lives env holding f over) (sym e) (next l₂ (aside tt)))
      ]

abbrev pub RuntimeStream : Type 0
RuntimeStream = List Turn → History → History × List StreamEvent

-- The stream of the loop, behind the asking for the container's end.
abbrev pub loop_stream : Env → Text → ℕ → RuntimeStream
loop_stream env cid begun turns h =
    run_stream env cid begun loop_start turns (waited_container cid ∷ h)

-- An error with a permit that may go back, or a container that runs and its stream.
abbrev Opened : Env → History → History × Result Error (Text × RuntimeStream) → Type 0
Opened env h s =
    (((e : Error) × (s.1 ≡ err e)) × Releases env h s.0)
    ⊎ ((cid : Text) × (begun : ℕ) × (s.1 ≡ ok (cid, loop_stream env cid begun))
        × Lives env holding h (Phase.running cid) s.0)

module _ (env : Env) (cfg : SandboxConfig) (req : ExecParams) where
  exec_stream-Opened : (h : History) → Opened env h (exec_stream env cfg req h)
  unfolding exec_stream create_container read_clock_now attach_container start_container
  exec_stream-Opened h =
      let h₁ = read_clock ∷ h in
      let h₂ = named_spec env cfg req (env.now h) ∷ h₁ in
      let l₂ : Lives env holding h made h₂ = next (next here (aside tt)) make in
      elim (Result-cases (
        env.create_container h₁ (container_name req.workspace_id (env.now h))
          (container_spec cfg req))) [
            | inr (e, p) ↦ inl (
              (docker e, ground (arith, p)),
              (made, not_made, subst (Lives env holding h made) (ground (arith, p)) l₂),
            )
            | inl (cid, p) ↦
                let h₃ = attached_container cid ∷ read_clock ∷ h₂ in
                let l₃ : Lives env holding h (Phase.attached cid) h₃ =
                  next (next l₂ (aside tt)) attach in
                elim (Result-cases (env.attach_container (read_clock ∷ h₂) cid)) [
                  | inr (e, q) ↦ inl (
                    (docker e, ground (arith, p, q)),
                    (
                      Phase.attached cid,
                      not_attached cid,
                      subst (Lives env holding h (Phase.attached cid)) (ground (arith, p, q)) l₃,
                    ),
                  )
                  | inl (output, q) ↦
                      let h₄ = started_container cid ∷ h₃ in
                      elim (Result-cases (env.start_container h₃ cid)) [
                        | inr (e, r) ↦ inl (
                          (docker e, ground (arith, p, q, r)),
                          (
                            left cid,
                            not_started cid,
                            subst (Lives env holding h (left cid)) (ground (arith, p, q, r))
                                (next l₃ (fail_start r)),
                          ),
                        )
                        | inl (_, r) ↦ inr (
                          cid,
                          env.now h₂,
                          ground (arith, p, q, r),
                          subst (Lives env holding h (Phase.running cid)) (ground (arith, p, q, r))
                              (next l₃ (start r)),
                        )
                      ]
                ]
          ]

module _ (env : Env) (svc : SandboxService) (req : ExecRequest) where
  -- All requests of an `exec_stream` whose answer the client consumes at once.
  abbrev pub streamed_run : Consumption → History → History
  streamed_run c h =
      let s = exec_stream_rpc env svc req h in
      elim s.1 [ ok events ↦ (events c s.0).0 | err e ↦ s.0 ]

  pub open_stream-Opened :
      (h : History)
      → (((e : Status) × ((open_stream env svc req h).1 ≡ err e))
          × Releases env h (open_stream env svc req h).0)
        ⊎ ((cid : Text) × (begun : ℕ) × ((open_stream env svc req h).1
              ≡ ok (exec_events cid (loop_stream env cid begun)))
            × Lives env holding h (Phase.running cid) (open_stream env svc req h).0)
  unfolding open_stream
  open_stream-Opened h =
      let s = build_exec_params env svc req h in
      let l = Lives-aside env holding h s.0 ((build_exec_params-Aside env svc req).makes h) in
      elim (Result-cases s.1) [
        | inr (e, p) ↦ inl (
          (status_of e, ground (arith, p)),
          (holding, held, subst (Lives env holding h holding) {x = s.0} (ground (arith, p)) l),
        )
        | inl (params, p) ↦
            let t = exec_stream env svc.sandbox_cfg params s.0 in
            elim (exec_stream-Opened env svc.sandbox_cfg params s.0) [
              | inl ((e, q), (phase, may, l')) ↦ inl (
                (status_of e, ground (arith, p, q)),
                (
                  phase,
                  may,
                  subst (Lives env holding h phase) {x = t.0} (ground (arith, p, q))
                      (Lives-trans env l l'),
                ),
              )
              | inr (cid, begun, q, l') ↦ inr (
                cid,
                begun,
                ground (arith, p, q),
                subst (Lives env holding h (Phase.running cid)) {x = t.0} (ground (arith, p, q))
                    (Lives-trans env l l'),
              )
            ]
      ]

  -- An `exec_stream` that is not refused and whose stream is polled behind `Started` takes a handler
  -- along the moves of `Lives` from one permit to its release, as `exec` does. One whose client goes away before that poll may instead
  -- give its permit back while its container runs, and then it asks for nothing more.
  pub exec_stream_rpc-Lives :
      (c : Consumption) (h : History)
      → Finishes env h (streamed_run c h)
        ⊎ ((c ≡ none)
            × ((cid : Text) × (g : History) × Lives env outside h (Phase.running cid) g
                × (streamed_run c h ≡ released_permit ∷ g)))
  unfolding exec_stream_rpc exec_events
  exec_stream_rpc-Lives c h = elim (acquire_cases env svc req h) [
    | inr (e, refused) ↦ inl (inl (ground (arith, refused)))
    | inl got ↦
        let h₁ = acquired_permit ∷ h in
        let l₁ : Lives env outside h holding h₁ = next here acquire in
        let s = open_stream env svc req h₁ in
        elim (open_stream-Opened h₁) [
          | inl ((e, p), (q, may, l)) ↦ inl (
              inr (
                subst (Lives env outside h gone) {x = released_permit ∷ s.0}
                  (ground (arith, got, p)) (next (Lives-trans env l₁ l) (release may))))
          | inr (cid, begun, p, l) ↦ consumed c cid begun got p l
        ]
  ]
    where
      consumed :
          (c : Consumption) (cid : Text) (begun : ℕ)
          → acquire_exec_permit env svc h ≡ (acquired_permit ∷ h, ok tt)
          → (open_stream env svc req (acquired_permit ∷ h)).1
            ≡ ok (exec_events cid (loop_stream env cid begun))
          → Lives env holding
              (acquired_permit ∷ h)
              (Phase.running cid)
              (open_stream env svc req (acquired_permit ∷ h)).0
          → Finishes env h (streamed_run c h)
            ⊎ ((c ≡ none)
                × ((cid' : Text) × (g : History) × Lives env outside h (Phase.running cid') g
                    × (streamed_run c h ≡ released_permit ∷ g)))
      consumed none cid begun got p l =
          let s = open_stream env svc req (acquired_permit ∷ h) in
          inr (refl, (cid, s.0, Lives-trans env (next here acquire) l, ground (arith, got, p)))
      consumed (some turns) cid begun got p l =
          let s = open_stream env svc req (acquired_permit ∷ h) in
          let (q, may, l') = run_stream-Releases env cid begun turns s.0 (acquired_permit ∷ h) l in
          inl (
            inr (
              subst (Lives env outside h gone)
                {x = released_permit ∷ (loop_stream env cid begun turns s.0).0}
                (ground (arith, got, p))
                (next (Lives-trans env (next here acquire) l') (release may))))
