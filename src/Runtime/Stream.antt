-- ===== src/Runtime/Stream.antt =====
-- The stream of `exec_stream`: its events, its end, and what its consumer's going away does.
use scriptorium.Runtime.Limits.{exit_code_of_lem}
use scriptorium.Text.{Text}
use scriptorium.Error.{err, Result, ok, err}
use scriptorium.Base.Int.{fits_signed, ℤ}
use scriptorium.Runtime.{kill_and_remove, minus_one}
use scriptorium.Runtime.Select.{
  StreamEvent, StreamState, select_turn, Turn, stdout_chunk, or_minus_one, stderr_chunk, breaks,
  run_stream, finished, attach_turn, exit_after, deadline_passed, goes_on, finish_stream,
  with_events, time_out_stream, waited, attached, loop_start,
}
use scriptorium.World.Calls.{
  no_reply, other_output, Env, LogOutput, WaitReply, History, status_code, wait_error, std_out,
  std_err, read_clock,
}
use scriptorium.Base.{
  none, ◌∷◌, ◌⊎◌, inr, inl, Option, ◌≡◌, ℕ, true, List, ◌&&◌, All, false, some, [], Bool-cases,
  refl, arith, ◌∙◌, subst, sym, ◌++◌, All-append, ap, append_assoc,
}

abbrev pub IsChunk : StreamEvent → Type 0
IsChunk (stdout_chunk message) = Unit
IsChunk (stderr_chunk message) = Unit
IsChunk (finished code timed_out ms) = ⊥

-- The exit code that waits to be reported fits an i32.
abbrev PendingFits : StreamState → Type 0
PendingFits st = fits_signed 32 (or_minus_one st.pending_exit) ≡ true

attach_turn_cases :
    (st : StreamState) (item : Option (Result Text LogOutput))
    → (st' : StreamState) × (events : List StreamEvent) × (attach_turn st item ≡ goes_on st' events)
      × All IsChunk events
      × (st'.pending_exit ≡ st.pending_exit)
attach_turn_cases st (some (ok (std_out message))) =
    (st, stdout_chunk message ∷ [], refl, (tt, tt), refl)
attach_turn_cases st (some (ok (std_err message))) =
    (st, stderr_chunk message ∷ [], refl, (tt, tt), refl)
attach_turn_cases st (some (ok other_output)) = (st, [], refl, tt, refl)
attach_turn_cases st (some (err e)) = (record st { attach_done = true }, [], refl, tt, refl)
attach_turn_cases st none = (record st { attach_done = true }, [], refl, tt, refl)

exit_after_fits :
    (pending : Option ℤ) (reply : WaitReply)
    → fits_signed 32 (or_minus_one pending) ≡ true
    → fits_signed 32 (or_minus_one (exit_after pending reply)) ≡ true
exit_after_fits pending (status_code c) fits = (exit_code_of_lem c).0
exit_after_fits pending (wait_error c) fits = (exit_code_of_lem c).0
exit_after_fits pending no_reply fits = fits

-- A turn breaks the loop at the deadline only, and otherwise yields chunks.
select_turn_cases :
    (st : StreamState) (t : Turn)
    → PendingFits st
    → ((select_turn st t ≡ breaks) × (t ≡ deadline_passed))
      ⊎ ((st' : StreamState) × (events : List StreamEvent) × (select_turn st t ≡ goes_on st' events)
          × All IsChunk events
          × PendingFits st')
unfolding select_turn
select_turn_cases st deadline_passed fits = inl (refl, refl)
select_turn_cases st (waited reply) fits = elim (Bool-cases st.wait_done) [
  | inl done ↦ inr (st, [], rw (done, select_turn) refl, tt, fits)
  | inr not_done ↦ inr (
    record {
      pending_exit = exit_after st.pending_exit reply;
      wait_done = true;
      attach_done = st.attach_done;
    },
    [],
    rw (not_done, select_turn) refl,
    tt,
    exit_after_fits st.pending_exit reply fits,
  )
]
select_turn_cases st (attached item) fits = elim (Bool-cases st.attach_done) [
  | inl done ↦ inr (st, [], rw (done, select_turn) refl, tt, fits)
  | inr not_done ↦
      let (st', events, e, chunks, same) = attach_turn_cases st item in
      inr (
        st',
        events,
        ground (arith, not_done) ∙ e,
        chunks,
        subst (λ p. fits_signed 32 (or_minus_one p) ≡ true) (sym same) fits,
      )
]

module _ (env : Env) (cid : Text) (start : ℕ) where
  pub done_ends :
      (st : StreamState) (turns : List Turn) (h : History)
      → (st.wait_done && st.attach_done) ≡ true
      → run_stream env cid start st turns h ≡ finish_stream env cid start st h
  unfolding run_stream
  done_ends st [] h done = rw (done, run_stream) refl
  done_ends st (t ∷ turns) h done = rw (done, run_stream) refl

  pub turn_goes_on :
      (st st' : StreamState) (t : Turn) (turns : List Turn) (events : List StreamEvent)
      (h : History)
      → (st.wait_done && st.attach_done) ≡ false
      → select_turn st t ≡ goes_on st' events
      → run_stream env cid start st (t ∷ turns) h
        ≡ with_events env events (run_stream env cid start st' turns h)
  unfolding run_stream
  turn_goes_on st st' t turns events h running e =
      rw (running, run_stream) (rw (e, run_stream) refl)

  pub turn_breaks :
      (st : StreamState) (t : Turn) (turns : List Turn) (h : History)
      → (st.wait_done && st.attach_done) ≡ false
      → select_turn st t ≡ breaks
      → run_stream env cid start st (t ∷ turns) h ≡ time_out_stream env cid start h
  unfolding run_stream
  turn_breaks st t turns h running e = rw (running, run_stream) (rw (e, run_stream) refl)

-- The events are chunks only: the consumer went away, and the container was killed and removed.
abbrev pub Dropped : Env → Text → History → History × List StreamEvent → Type 0
Dropped env cid h s = All IsChunk s.1 × (s.0 ≡ kill_and_remove env cid h)

-- Chunks and one last event, of a command that ended.
abbrev pub Ended : History → History × List StreamEvent → Type 0
Ended h s =
    (chunks : List StreamEvent) × (code : ℤ) × (ms : ℕ) × (s.1
      ≡ chunks ++ (finished code false ms ∷ []))
    × All IsChunk chunks
    × (fits_signed 32 code ≡ true)
    × (s.0 ≡ read_clock ∷ h)

-- Chunks and one last event, after the deadline.
abbrev pub Expired : Env → Text → History → History × List StreamEvent → Type 0
Expired env cid h s =
    (chunks : List StreamEvent) × (ms : ℕ) × (s.1 ≡ chunks ++ (finished minus_one true ms ∷ []))
    × All IsChunk chunks
    × (s.0 ≡ read_clock ∷ kill_and_remove env cid h)

abbrev pub Ends : Env → Text → History → History × List StreamEvent → Type 0
Ends env cid h s = Dropped env cid h s ⊎ Ended h s ⊎ Expired env cid h s

with_events-Ends :
    (env : Env) (cid : Text) (h : History) (events : List StreamEvent)
    (s : History × List StreamEvent)
    → All IsChunk events
    → Ends env cid h s
    → Ends env cid h (with_events env events s)
with_events-Ends env cid h events (h', rest) good (inl (chunks, e)) =
    inl ((All-append IsChunk events rest).1 (good, chunks), e)
with_events-Ends env cid h events (h', rest) good (inr (inl (chunks, code, ms, e, all, fits, e'))) =
    inr (
      inl (
        events ++ chunks,
        code,
        ms,
        ap (λ r. events ++ r) e ∙ sym (append_assoc events chunks _),
        (All-append IsChunk events chunks).1 (good, all),
        fits,
        e',
      ))
with_events-Ends env cid h events (h', rest) good (inr (inr (chunks, ms, e, all, e'))) = inr (
    inr (
      events ++ chunks,
      ms,
      ap (λ r. events ++ r) e ∙ sym (append_assoc events chunks _),
      (All-append IsChunk events chunks).1 (good, all),
      e',
    ))

finish_stream-Ends :
    (env : Env) (cid : Text) (start : ℕ) (st : StreamState) (h : History)
    → PendingFits st
    → Ended h (finish_stream env cid start st h)
unfolding finish_stream
finish_stream-Ends env cid start st h fits = ([], _, _, refl, tt, fits, refl)

time_out_stream-Ends :
    (env : Env) (cid : Text) (start : ℕ) (h : History)
    → Expired env cid h (time_out_stream env cid start h)
unfolding time_out_stream
time_out_stream-Ends env cid start h = ([], _, refl, tt, refl)

pub run_stream-nil :
    (env : Env) (cid : Text) (start : ℕ) (st : StreamState) (h : History)
    → (st.wait_done && st.attach_done) ≡ false
    → run_stream env cid start st [] h ≡ (kill_and_remove env cid h, [])
unfolding run_stream
run_stream-nil env cid start st h running = rw (running, run_stream) refl

-- The loop that is left has given its last event.
done_Ends :
    (env : Env) (cid : Text) (start : ℕ) (st : StreamState) (turns : List Turn) (h : History)
    → PendingFits st
    → (st.wait_done && st.attach_done) ≡ true
    → Ends env cid h (run_stream env cid start st turns h)
done_Ends env cid start st turns h fits done =
    subst (Ends env cid h) (sym (done_ends env cid start st turns h done))
      (inr (inl (finish_stream-Ends env cid start st h fits)))

run_stream-Ends :
    (env : Env) (cid : Text) (start : ℕ) (st : StreamState) (turns : List Turn) (h : History)
    → PendingFits st
    → Ends env cid h (run_stream env cid start st turns h)
run_stream-Ends env cid start st [] h fits = elim (Bool-cases (st.wait_done && st.attach_done)) [
  | inl done ↦ done_Ends env cid start st [] h fits done
  | inr running ↦
      subst (Ends env cid h) (sym (run_stream-nil env cid start st h running)) (inl (tt, refl))
]
run_stream-Ends env cid start st (t ∷ turns) h fits =
    elim (Bool-cases (st.wait_done && st.attach_done)) [
      | inl done ↦ done_Ends env cid start st (t ∷ turns) h fits done
      | inr running ↦ elim (select_turn_cases st t fits) [
        | inl (e, _) ↦
            subst (Ends env cid h) (sym (turn_breaks env cid start st t turns h running e))
              (inr (inr (time_out_stream-Ends env cid start h)))
        | inr (st', events, e, chunks, fits') ↦
            subst (Ends env cid h)
              (sym (turn_goes_on env cid start st st' t turns events h running e))
              (with_events-Ends env cid h events _ chunks
                (run_stream-Ends env cid start st' turns h fits'))
      ]
    ]

-- However the turns of the loop fall, the stream gives chunks of output and then at most one
-- `Finished`, which is its last event and whose exit code fits an i32. Where there is none, the
-- consumer dropped the stream, and its guard has killed and removed the container. Where it says
-- that the time was up, its exit code is -1 and the container has been killed and removed as well;
-- where it does not, nothing was asked but the clock.
pub run_stream_one_finished :
    (env : Env) (cid : Text) (start : ℕ) (turns : List Turn) (h : History)
    → Ends env cid h (run_stream env cid start loop_start turns h)
run_stream_one_finished env cid start turns h =
    run_stream-Ends env cid start loop_start turns h refl
