-- ===== src/Service/Rpc/Permits.antt =====
-- The exec permits of `exec_stream`, and the events that it gives.
use scriptorium.Service.{SandboxService, ExecRequest, build_exec_params}
use scriptorium.Service.Rpc.{
  ExecEvents, exec_events, open_stream, Consumption, exec_stream_rpc, ExecEvent, started,
  exec_event,
}
use scriptorium.Error.{docker, status_of, Status}
use scriptorium.Runtime.Stream.{Ends, run_stream_one_finished}
use scriptorium.Runtime.Select.{exec_stream, Turn, StreamEvent, run_stream, loop_start}
use scriptorium.Text.{Text}
use scriptorium.Base.{
  ◌≡◌, ◌⊎◌, List, ◌∷◌, inr, arith, inl, ap, [], suc, some, none, map, subst, sym, refl, ◌∙◌,
}
use scriptorium.Runtime.{
  SandboxConfig, ExecParams, read_clock_now, attach_container, start_container, create_container,
}
use scriptorium.Error.{Result, err, ok, Result-cases}
use scriptorium.World.Calls.{
  History, Env, waited_container, read_clock, attached_container, released_permit, acquired_permit,
}
use scriptorium.Service.Permits.{
  permits, create_container-Neutral, build_exec_params-Neutral, acquire_cases,
}

-- An error, that has taken no permit or given it back; or a value.
abbrev Outcome {ℓ κ} :
    {E : Type ℓ} {A : Type κ} → History → (History × Result E A) → (A → Type 0) → Type (ℓ ⊔ κ)
Outcome {E = E} {A = A} h s P =
    (permits s.0 ≡ permits h) × (((e : E) × (s.1 ≡ err e)) ⊎ ((a : A) × (s.1 ≡ ok a) × P a))

module _ (env : Env) (cfg : SandboxConfig) (req : ExecParams) where
  -- The stream of the runtime, from its first poll on.
  abbrev IsStream : Text × (List Turn → History → History × List StreamEvent) → Type 0
  IsStream (cid, events) =
      (turns : List Turn) (g : History) → Ends env cid (waited_container cid ∷ g) (events turns g)

  exec_stream-Outcome : (h : History) → Outcome h (exec_stream env cfg req h) IsStream
  unfolding exec_stream read_clock_now attach_container start_container
  exec_stream-Outcome h =
      let s = create_container env cfg req h in
      let same = create_container-Neutral env cfg req h in
      elim (Result-cases s.1) [
        | inr (e, p) ↦ (ground (arith, p, same), inl (e, ground (arith, p)))
        | inl (cid, p) ↦ elim (Result-cases (env.attach_container (read_clock ∷ s.0) cid)) [
          | inr (e, q) ↦ (ground (arith, p, q, same), inl (docker e, ground (arith, p, q)))
          | inl (output, q) ↦
              elim (Result-cases
                (env.start_container (attached_container cid ∷ read_clock ∷ s.0) cid)) [
                  | inr (e, r) ↦
                      (ground (arith, p, q, r, same), inl (docker e, ground (arith, p, q, r)))
                  | inl (_, r) ↦ (
                    ground (arith, p, q, r, same),
                    inr (
                      (
                        cid,
                        λ turns g.
                            run_stream env cid (env.now s.0) loop_start turns
                              (waited_container cid ∷ g),
                      ),
                      ground (arith, p, q, r),
                      λ turns g.
                          run_stream_one_finished env cid (env.now s.0) turns
                            (waited_container cid ∷ g),
                    ),
                  )
                ]
        ]
      ]

Ends-permits :
    (env : Env) (cid : Text) (g : History) (s : History × List StreamEvent)
    → Ends env cid (waited_container cid ∷ g) s
    → permits s.0 ≡ permits g
Ends-permits env cid g s (inl (_, e)) = ap permits e
Ends-permits env cid g s (inr (inl (_, _, _, _, _, _, e))) = ap permits e
Ends-permits env cid g s (inr (inr (_, _, _, _, e))) = ap permits e

-- What is left of the stream of the RPC once it was consumed: it has given `Started`, and then the
-- events of the runtime's stream, if that was polled, and at last its permit back.
abbrev pub Consumed : Env → Text → Consumption → History → History × List ExecEvent → Type 0
Consumed env cid c g s =
    (g' : History) × (events : List StreamEvent) × (s
      ≡ (released_permit ∷ g', started cid ∷ map exec_event events))
    × (permits s.0 ≡ ((permits g).0, suc (permits g).1))
    × (((c ≡ none) × (g' ≡ g) × (events ≡ []))
        ⊎ Ends env cid (waited_container cid ∷ g) (g', events))

-- The events of a stream of the runtime, behind `Started`.
abbrev GivesBack : Env → ExecEvents → Type 0
GivesBack env events =
    (cid : Text) × (run : List Turn → History → History × List StreamEvent) × ((turns : List Turn)
        (g : History)
      → Ends env cid (waited_container cid ∷ g) (run turns g))
    × (events ≡ exec_events cid run)

module _ (env : Env) (svc : SandboxService) (req : ExecRequest) where
  open_stream-Outcome : (h : History) → Outcome h (open_stream env svc req h) (GivesBack env)
  unfolding open_stream
  open_stream-Outcome h =
      let s = build_exec_params env svc req h in
      let same = build_exec_params-Neutral env svc req h in
      elim (Result-cases s.1) [
        | inr (e, p) ↦ (ground (arith, p, same), inl (status_of e, ground (arith, p)))
        | inl (params, p) ↦
            let (same', outcome) = exec_stream-Outcome env svc.sandbox_cfg params s.0 in
            elim outcome [
              | inl (e, q) ↦
                  (ground (arith, p, q, same, same'), inl (status_of e, ground (arith, p, q)))
              | inr ((cid, run), q, ends) ↦ (
                ground (arith, p, q, same, same'),
                inr (exec_events cid run, ground (arith, p, q), (cid, run, ends, refl)),
              )
            ]
      ]

exec_events-Consumed :
    (env : Env) (cid : Text) (run : List Turn → History → History × List StreamEvent)
    → ((turns : List Turn) (g : History) → Ends env cid (waited_container cid ∷ g) (run turns g))
    → (c : Consumption) (g : History) → Consumed env cid c g (exec_events cid run c g)
unfolding exec_events
exec_events-Consumed env cid run ends none g = (g, [], refl, refl, inl (refl, refl, refl))
exec_events-Consumed env cid run ends (some turns) g =
    let same = Ends-permits env cid g (run turns g) (ends turns g) in
    ((run turns g).0, (run turns g).1, refl, ap (λ n. (n.0, suc n.1)) same, inr (ends turns g))

module _ (env : Env) (svc : SandboxService) (req : ExecRequest) where
  -- `exec_stream` ends in one of three ways. It was granted no permit, and has failed without a
  -- request; or it took one, has failed, and has given it back; or it holds one and answers with a
  -- stream. That gives the permit back however the client consumes it, and gives `Started`, then
  -- nothing if the client went away first, else the events of the runtime's stream, which are chunks
  -- and at most one `Finished`.
  exec_stream_rpc-permits :
      (h : History)
      → let s = exec_stream_rpc env svc req h in
        let n = permits h in
        ((s.0 ≡ h) × ((e : Status) × (s.1 ≡ err e)))
        ⊎ ((permits s.0 ≡ (suc n.0, suc n.1)) × ((e : Status) × (s.1 ≡ err e)))
        ⊎ ((permits s.0 ≡ (suc n.0, n.1))
            × ((events : ExecEvents) × (cid : Text) × (s.1 ≡ ok events)
                × ((c : Consumption) (g : History) → Consumed env cid c g (events c g))))
  unfolding exec_stream_rpc
  exec_stream_rpc-permits h = elim (acquire_cases env svc req h) [
    | inr (e, refused) ↦ inl (ground (arith, refused), (e, ground (arith, refused)))
    | inl got ↦
        let opened = open_stream env svc req (acquired_permit ∷ h) in
        let (same, outcome) = open_stream-Outcome env svc req (acquired_permit ∷ h) in
        elim outcome [
          | inl (e, p) ↦ inr (
              inl (
                ap permits {x = (exec_stream_rpc env svc req h).0} {y = released_permit ∷ opened.0}
                      (ground (arith, got, p))
                    ∙ ap (λ n. (n.0, suc n.1)) same,
                (e, ground (arith, got, p)),
              ))
          | inr (events, p, (cid, run, ends, q)) ↦ inr (
              inr (
                ap permits {x = (exec_stream_rpc env svc req h).0} {y = opened.0}
                      (ground (arith, got, p))
                    ∙ same,
                (
                  events,
                  cid,
                  ground (arith, got, p),
                  λ c g.
                      subst (λ f. Consumed env cid c g (f c g)) (sym q)
                        (exec_events-Consumed env cid run ends c g),
                ),
              ))
        ]
  ]
