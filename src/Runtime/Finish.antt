-- ===== src/Runtime/Finish.antt =====
-- When the stream of `exec_stream` comes to its end.
use scriptorium.Runtime.Stream.{done_ends, run_stream-nil, turn_breaks, turn_goes_on}
use scriptorium.Text.{Text}
use scriptorium.Error.{Result, ok, err}
use scriptorium.World.Calls.{WaitReply, Env, LogOutput, std_out, std_err, History, other_output}
use scriptorium.Runtime.Select.{
  finished, exit_after, attach_turn, finish_stream, time_out_stream, loop_start,
}
use scriptorium.Base.{
  Bool, true, false, List, any, ◌&&◌, ◌||◌, ◌++◌, ◌∷◌, ◌≡◌, arith, Bool-cases, some, inl, [], inr,
  refl, Option, subst, ℕ, none, ap, ◌∙◌, sym,
}
use scriptorium.Runtime.Select.{
  Turn, run_stream, StreamEvent, StreamState, select_turn, stdout_chunk, LoopStep, stderr_chunk,
  waited, attached, deadline_passed, goes_on, breaks,
}

abbrev pub is_finished : StreamEvent → Bool
is_finished (stdout_chunk message) = false
is_finished (stderr_chunk message) = false
is_finished (finished code timed_out ms) = true

abbrev pub is_deadline : Turn → Bool
is_deadline deadline_passed = true
is_deadline (waited reply) = false
is_deadline (attached item) = false

abbrev pub is_wait : Turn → Bool
is_wait deadline_passed = false
is_wait (waited reply) = true
is_wait (attached item) = false

-- The output has ended, or failed.
abbrev pub ends_output : Turn → Bool
ends_output deadline_passed = false
ends_output (waited reply) = false
ends_output (attached (some (ok item))) = false
ends_output (attached (some (err e))) = true
ends_output (attached none) = true

-- The deadline has passed, or the command has ended and its output as well.
abbrev pub completes : StreamState → List Turn → Bool
completes st turns =
    any is_deadline turns
    || ((st.wait_done || any is_wait turns) && (st.attach_done || any ends_output turns))

any-append {ℓ} :
    {A : Type ℓ} (p : A → Bool) (xs ys : List A) → any p (xs ++ ys) ≡ (any p xs || any p ys)
any-append p [] ys = refl
any-append p (x ∷ xs) ys = ground (arith, any-append p xs ys)

-- What a turn does to the loop.
abbrev Progress : StreamState → Turn → List Turn → LoopStep → Type 0
Progress st t turns breaks = completes st (t ∷ turns) ≡ true
Progress st t turns (goes_on st' events) =
    (any is_finished events ≡ false) × (completes st (t ∷ turns) ≡ completes st' turns)

abbrev waits : StreamState → WaitReply → StreamState
waits st reply = record {
  pending_exit = exit_after st.pending_exit reply;
  wait_done = true;
  attach_done = st.attach_done;
}

attach_turn-Progress :
    (st : StreamState) (item : Option (Result Text LogOutput)) (turns : List Turn)
    → st.attach_done ≡ false
    → Progress st (attached item) turns (attach_turn st item)
attach_turn-Progress st (some (ok (std_out message))) turns e = (refl, refl)
attach_turn-Progress st (some (ok (std_err message))) turns e = (refl, refl)
attach_turn-Progress st (some (ok other_output)) turns e = (refl, refl)
attach_turn-Progress st (some (err why)) turns e = (refl, ground (arith, e))
attach_turn-Progress st none turns e = (refl, ground (arith, e))

select_turn-Progress :
    (st : StreamState) (t : Turn) (turns : List Turn) → Progress st t turns (select_turn st t)
unfolding select_turn
select_turn-Progress st deadline_passed turns = refl
select_turn-Progress st (waited reply) turns = elim (Bool-cases st.wait_done) [
  | inl done ↦
      subst (Progress st (waited reply) turns) {x = goes_on st []} (ground (arith, done))
        (refl, ground (arith, done))
  | inr not_done ↦
      subst (Progress st (waited reply) turns) {x = goes_on (waits st reply) []}
        (ground (arith, not_done)) (refl, ground (arith, not_done))
]
select_turn-Progress st (attached item) turns = elim (Bool-cases st.attach_done) [
  | inl done ↦
      subst (Progress st (attached item) turns) {x = goes_on st []} (ground (arith, done))
        (refl, ground (arith, done))
  | inr not_done ↦
      subst (Progress st (attached item) turns) {x = attach_turn st item} (ground (arith, not_done))
        (attach_turn-Progress st item turns not_done)
]

module _ (env : Env) (cid : Text) (start : ℕ) where
  done-finished :
      (st : StreamState) (turns : List Turn) (h : History)
      → (st.wait_done && st.attach_done) ≡ true
      → any is_finished (run_stream env cid start st turns h).1 ≡ completes st turns
  unfolding finish_stream
  done-finished st turns h done =
      ap (λ s. any is_finished s.1) (done_ends env cid start st turns h done) ∙ ground (arith, done)

  run_stream-finished :
      (st : StreamState) (turns : List Turn) (h : History)
      → any is_finished (run_stream env cid start st turns h).1 ≡ completes st turns
  unfolding time_out_stream
  run_stream-finished st [] h = elim (Bool-cases (st.wait_done && st.attach_done)) [
    | inl done ↦ done-finished st [] h done
    | inr running ↦
        ap (λ s. any is_finished s.1) (run_stream-nil env cid start st h running)
        ∙ ground (arith, running)
  ]
  run_stream-finished st (t ∷ turns) h = elim (Bool-cases (st.wait_done && st.attach_done)) [
    | inl done ↦ done-finished st (t ∷ turns) h done
    | inr running ↦
        go running (select_turn st t) refl (select_turn-Progress st t turns)
          (λ st'. run_stream-finished st' turns h)
  ]
    where
      go :
          (st.wait_done && st.attach_done) ≡ false
          → (step : LoopStep) → select_turn st t ≡ step
          → Progress st t turns step
          → ((st' : StreamState)
              → any is_finished (run_stream env cid start st' turns h).1 ≡ completes st' turns)
          → any is_finished (run_stream env cid start st (t ∷ turns) h).1 ≡ completes st (t ∷ turns)
      go running breaks e progress later =
          ap (λ s. any is_finished s.1) (turn_breaks env cid start st t turns h running e)
          ∙ sym progress
      go running (goes_on st' events) e (silent, same) later =
          ap (λ s. any is_finished s.1)
            (turn_goes_on env cid start st st' t turns events h running e)
          ∙ any-append is_finished events (run_stream env cid start st' turns h).1
          ∙ ap (λ b. b || any is_finished (run_stream env cid start st' turns h).1) silent
          ∙ later st'
          ∙ sym same

-- The stream of `exec_stream` gives a `Finished` exactly if its loop is woken by the deadline, or both
-- by the answer on the container's end and by the end of its output.
pub run_stream_finishes :
    (env : Env) (cid : Text) (start : ℕ) (turns : List Turn) (h : History)
    → any is_finished (run_stream env cid start loop_start turns h).1
      ≡ (any is_deadline turns || (any is_wait turns && any ends_output turns))
run_stream_finishes env cid start turns h = run_stream-finished env cid start loop_start turns h
