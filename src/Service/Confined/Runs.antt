-- ===== src/Service/Confined/Runs.antt =====
-- What the runtime asks for, up to the specification of its container.
use scriptorium.Runtime.Stream.{run_stream_one_finished}
use scriptorium.World.{lift_docker}
use scriptorium.World.Trace.{
  Makes, Makes-bind, Adds, Makes-one, Makes-lift, Adds-one, Makes-then, Makes-result,
}
use scriptorium.Error.{Result, docker, ok}
use scriptorium.Runtime.Select.{exec_stream, Turn, run_stream, loop_start}
use scriptorium.Text.{Text}
use scriptorium.Service.Lifecycle.Oneshot.{named_spec}
use scriptorium.Base.{ℕ, All, List, ◌∷◌, Option-cases, inl, [], arith, inr}
use scriptorium.Runtime.{
  SandboxConfig, ExecParams, run_to_end, create_container, exec_oneshot, read_clock_now,
  attach_container, start_container, container_name, container_spec,
}
use scriptorium.World.Calls.{
  Call, Env, created_container, read_clock, LogOutput, History, removed_container, killed_container,
  waited_container, attached_container, started_container,
}

-- The requests other than the creation of a container.
abbrev pub NotMaking : Call → Type 0
NotMaking (created_container name spec) = ⊥
NotMaking _ = Unit

-- The requests of a run, where its container's specification is right and the others are free.
module _ {P : Call → Type 0} (env : Env) (free : (call : Call) → NotMaking call → P call) where
  killed_at_end :
      (cid : Text)
      → All P
          (read_clock ∷ removed_container cid ∷ killed_container cid ∷ waited_container cid ∷ [])
  killed_at_end cid = (
    free read_clock tt,
    (
      free (removed_container cid) tt,
      (free (killed_container cid) tt, (free (waited_container cid) tt, tt)),
    ),
  )

  pub run_stream-Adds :
      (cid : Text) (begun : ℕ) (turns : List Turn) (h : History)
      → Adds P h (run_stream env cid begun loop_start turns (waited_container cid ∷ h)).0
  run_stream-Adds cid begun turns h =
      elim (run_stream_one_finished env cid begun turns (waited_container cid ∷ h)) [
        | inl (_, e) ↦ (
          removed_container cid ∷ killed_container cid ∷ waited_container cid ∷ [],
          e,
          (
            free (removed_container cid) tt,
            (free (killed_container cid) tt, (free (waited_container cid) tt, tt)),
          ),
        )
        | inr (inl (_, _, _, _, _, _, e)) ↦ (
          read_clock ∷ waited_container cid ∷ [],
          e,
          (free read_clock tt, (free (waited_container cid) tt, tt)),
        )
        | inr (inr (_, _, _, _, e)) ↦ (
          read_clock ∷ removed_container cid ∷ killed_container cid ∷ waited_container cid ∷ [],
          e,
          killed_at_end cid,
        )
      ]

module _ {P : Call → Type 0} (env : Env) (cfg : SandboxConfig) (req : ExecParams)
    (named : (nanos : ℕ) → P (named_spec env cfg req nanos))
    (free : (call : Call) → NotMaking call → P call) where
  run_to_end-Makes :
      (start : ℕ) (cid : Text) (output : List (Result Text LogOutput))
      → Makes P (run_to_end env req start cid output)
  unfolding run_to_end
  run_to_end-Makes start cid output = record { makes = ended_or_killed }
    where
      ended_or_killed : (h : History) → Adds P h (run_to_end env req start cid output h).0
      ended_or_killed h = elim (Option-cases (env.deadline h req.timeout)) [
        | inl p ↦ (
          read_clock ∷ waited_container cid ∷ [],
          ground (arith, p),
          (free read_clock tt, (free (waited_container cid) tt, tt)),
        )
        | inr (n, p) ↦ (
          read_clock ∷ removed_container cid ∷ killed_container cid ∷ waited_container cid ∷ [],
          ground (arith, p),
          killed_at_end env free cid,
        )
      ]

  create_container-Makes : Makes P (create_container env cfg req)
  unfolding create_container read_clock_now
  create_container-Makes =
      Makes-bind (read_clock_now env)
        (λ nanos. lift_docker (λ h. (
          named_spec env cfg req nanos ∷ h,
          env.create_container h (container_name req.workspace_id nanos) (container_spec cfg req),
        )))
        (Makes-one read_clock _ (free read_clock tt))
        (λ nanos. record { makes = λ h. Adds-one (named_spec env cfg req nanos) h (named nanos) })

  pub exec_oneshot-Makes : Makes P (exec_oneshot env cfg req)
  unfolding exec_oneshot read_clock_now attach_container start_container
  exec_oneshot-Makes =
      Makes-bind (read_clock_now env) _ (Makes-one read_clock _ (free read_clock tt)) (λ start.
        Makes-bind (create_container env cfg req) _ create_container-Makes (λ cid.
          Makes-bind (lift_docker (attach_container env cid)) _
            (Makes-lift docker (attach_container env cid)
              (Makes-one (attached_container cid) _ (free (attached_container cid) tt)))
            (λ output.
              Makes-then (lift_docker (start_container env cid)) _
                (Makes-lift docker (start_container env cid)
                  (Makes-one (started_container cid) _ (free (started_container cid) tt)))
                (run_to_end-Makes start cid output))))

  pub exec_stream-Makes : Makes P (exec_stream env cfg req)
  unfolding exec_stream read_clock_now attach_container start_container
  exec_stream-Makes = Makes-bind (create_container env cfg req) _ create_container-Makes (λ cid.
      Makes-bind (read_clock_now env) _ (Makes-one read_clock _ (free read_clock tt)) (λ start.
        Makes-bind (lift_docker (attach_container env cid)) _
          (Makes-lift docker (attach_container env cid)
            (Makes-one (attached_container cid) _ (free (attached_container cid) tt)))
          (λ output.
            Makes-then (lift_docker (start_container env cid)) _
              (Makes-lift docker (start_container env cid)
                (Makes-one (started_container cid) _ (free (started_container cid) tt)))
              (Makes-result (
                ok (
                  cid,
                  λ turns h. run_stream env cid start loop_start turns (waited_container cid ∷ h),
                ))))))
