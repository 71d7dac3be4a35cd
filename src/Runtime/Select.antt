-- ===== src/Runtime/Select.antt =====
-- The stream of `exec_stream`: its `select!` loop, its end and its guard.
use scriptorium.Runtime.{
  SandboxConfig, ExecParams, exit_code_of, minus_one, elapsed_ms, kill_and_remove, read_clock_now,
  attach_container, start_container, create_container,
}
use scriptorium.World.{Io, ◌>>=◌, lift_docker, ◌>>◌, pure}
use scriptorium.Error.{Result, Error, ok, err}
use scriptorium.World.Calls.{
  Bytes, WaitReply, Env, LogOutput, History, status_code, read_clock, wait_error, waited_container,
  std_out, std_err, other_output, no_reply,
}
use scriptorium.Text.{Text}
use scriptorium.Base.{
  ℕ, none, ◌++◌, ◌&&◌, if◌then◌else◌, List, Option, false, Bool, [], some, ◌∷◌, true,
}
use scriptorium.Base.Int.{ℤ}

-- One event of the stream that `exec_stream` gives.
pub data StreamEvent : Type 0 where
  stdout_chunk stderr_chunk : Bytes → StreamEvent
  finished : ℤ → Bool → ℕ → StreamEvent

-- What the loop of `exec_stream` is woken by: one branch of its `select!`.
pub data Turn : Type 0 where
  deadline_passed : Turn
  waited : WaitReply → Turn
  -- `none` is the end of the attached output.
  attached : Option (Result Text LogOutput) → Turn

-- The variables of the loop.
pub record StreamState : Type 0 where
  pub pending_exit : Option ℤ
  pub wait_done : Bool
  pub attach_done : Bool

-- Where the loop stands after a turn.
pub data LoopStep : Type 0 where
  goes_on : StreamState → List StreamEvent → LoopStep
  breaks : LoopStep

-- The `pending_exit` after an answer of `wait_stream`.
abbrev pub exit_after : Option ℤ → WaitReply → Option ℤ
exit_after pending (status_code c) = some (exit_code_of c)
exit_after pending (wait_error c) = some (exit_code_of c)
exit_after pending no_reply = pending

-- The attach branch of the `select!`.
abbrev pub attach_turn : StreamState → Option (Result Text LogOutput) → LoopStep
attach_turn st (some (ok (std_out message))) = goes_on st (stdout_chunk message ∷ [])
attach_turn st (some (ok (std_err message))) = goes_on st (stderr_chunk message ∷ [])
attach_turn st (some (ok other_output)) = goes_on st []
attach_turn st (some (err e)) = goes_on (record st { attach_done = true }) []
attach_turn st none = goes_on (record st { attach_done = true }) []

-- The body of the loop; a branch whose `if` does not hold is never taken.
unfoldable pub select_turn : StreamState → Turn → LoopStep
select_turn st deadline_passed = breaks
select_turn st (waited reply) =
    if st.wait_done
    then goes_on st []
    else goes_on
        (record {
          pending_exit = exit_after st.pending_exit reply;
          wait_done = true;
          attach_done = st.attach_done;
        })
        []
select_turn st (attached item) = if st.attach_done then goes_on st [] else attach_turn st item

abbrev pub loop_start : StreamState
loop_start = record { pending_exit = none; wait_done = false; attach_done = false }

abbrev pub or_minus_one : Option ℤ → ℤ
or_minus_one none = minus_one
or_minus_one (some c) = c

pub record ContainerCleanupGuard : Type 0 where
  pub container_id : Text
  pub disarmed : Bool

-- `ContainerCleanupGuard::new`
abbrev pub cleanup_guard : Text → ContainerCleanupGuard
cleanup_guard cid = record { container_id = cid; disarmed = false }

abbrev pub disarm : ContainerCleanupGuard → ContainerCleanupGuard
disarm guard = record guard { disarmed = true }

module _ (env : Env) where
  -- `Drop`: what it spawns is done at once.
  abbrev pub drop_cleanup_guard : ContainerCleanupGuard → History → History
  drop_cleanup_guard guard h =
      if guard.disarmed then h else kill_and_remove env guard.container_id h

  -- The end of the stream, once the loop is left: the guard is disarmed, and the last event given.
  unfoldable pub finish_stream : Text → ℕ → StreamState → History → History × List StreamEvent
  finish_stream cid start st h = (
    drop_cleanup_guard (disarm (cleanup_guard cid)) (read_clock ∷ h),
    finished (or_minus_one st.pending_exit) false (elapsed_ms start (env.now h)) ∷ [],
  )

  unfoldable pub time_out_stream : Text → ℕ → History → History × List StreamEvent
  time_out_stream cid start h =
      let h' = kill_and_remove env cid h in
      (
        drop_cleanup_guard (disarm (cleanup_guard cid)) (read_clock ∷ h'),
        finished minus_one true (elapsed_ms start (env.now h')) ∷ [],
      )

  abbrev pub with_events :
      List StreamEvent → History × List StreamEvent → History × List StreamEvent
  with_events events (h, rest) = (h, events ++ rest)

  -- The stream from the head of its loop, woken by one turn after another; where the turns end, the
  -- consumer has dropped it, and the armed `ContainerCleanupGuard` kills and removes.
  unfoldable pub run_stream :
      Text → ℕ → StreamState → List Turn → History → History × List StreamEvent
  run_stream cid start st [] h =
      if st.wait_done && st.attach_done
      then finish_stream cid start st h
      else (drop_cleanup_guard (cleanup_guard cid) h, [])
  run_stream cid start st (t ∷ turns) h =
      let more = λ (st' : StreamState) (events : List StreamEvent).
        with_events events (run_stream cid start st' turns h) in
      if st.wait_done && st.attach_done
      then finish_stream cid start st h
      else elim (select_turn st t) [
        | breaks ↦ time_out_stream cid start h
        | goes_on st' events ↦ more st' events
      ]

  -- `exec_stream`: the container's name, and its stream, a function of the turns. It asks
  -- `wait_container` when it is first polled.
  unfoldable pub exec_stream :
      SandboxConfig
      → ExecParams
      → Io Error (Text × (List Turn → History → History × List StreamEvent))
  unfolding read_clock_now attach_container start_container
  exec_stream cfg req = do
    cid ← create_container env cfg req
    start ← read_clock_now env
    output ← lift_docker (attach_container env cid)
    lift_docker (start_container env cid)
    pure (cid, λ turns h. run_stream cid start loop_start turns (waited_container cid ∷ h))
