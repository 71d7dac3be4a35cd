-- ===== src/Runtime/Output.antt =====
-- What a stream's chunks put together are, against what `exec_oneshot` collects.
use scriptorium.Text.{Text}
use scriptorium.Runtime.{collect}
use scriptorium.Runtime.Select.{
  Turn, StreamEvent, run_stream, stdout_chunk, finish_stream, loop_start, time_out_stream, waited,
  stderr_chunk, select_turn, attached, finished, StreamState, deadline_passed, exit_after,
}
use scriptorium.World.Calls.{std_out, std_err, other_output, Env, Bytes, LogOutput, History}
use scriptorium.Error.{ok, err, Result}
use scriptorium.Base.{◌∷◌, none, some, List, ℕ, [], ◌++◌, ◌≡◌, true, false, arith, refl}

-- The output that the turns bring: all of it, to its end, its first error or the deadline.
abbrev pub output_of : List Turn → List (Result Text LogOutput)
output_of [] = []
output_of (deadline_passed ∷ turns) = []
output_of (waited reply ∷ turns) = output_of turns
output_of (attached none ∷ turns) = []
output_of (attached (some item) ∷ turns) = item ∷ output_of turns

-- The bytes of the chunks of either kind, after those of two buffers.
abbrev pub streamed : List StreamEvent → Bytes → Bytes → Bytes × Bytes
streamed [] stdout stderr = (stdout, stderr)
streamed (stdout_chunk message ∷ rest) stdout stderr = streamed rest (stdout ++ message) stderr
streamed (stderr_chunk message ∷ rest) stdout stderr = streamed rest stdout (stderr ++ message)
streamed (finished code timed_out ms ∷ rest) stdout stderr = streamed rest stdout stderr

module _ (env : Env) (cid : Text) (start : ℕ) where
  -- After the end of the output there are no more chunks.
  no_more_output :
      (st : StreamState) (turns : List Turn) (h : History) (stdout stderr : Bytes)
      → st.attach_done ≡ true
      → streamed (run_stream env cid start st turns h).1 stdout stderr ≡ (stdout, stderr)
  unfolding run_stream finish_stream time_out_stream select_turn
  no_more_output st [] h stdout stderr done = ground (arith, done)
  no_more_output st (deadline_passed ∷ turns) h stdout stderr done = ground (arith, done)
  no_more_output st (waited reply ∷ turns) h stdout stderr done = ground (
    arith,
    done,
    no_more_output st turns h stdout stderr done,
    no_more_output
        (record {
          pending_exit = exit_after st.pending_exit reply;
          wait_done = true;
          attach_done = st.attach_done;
        })
        turns h stdout stderr done,
  )
  no_more_output st (attached item ∷ turns) h stdout stderr done =
      ground (arith, done, no_more_output st turns h stdout stderr done)

  run_stream_output :
      (st : StreamState) (turns : List Turn) (h : History) (stdout stderr : Bytes)
      → st.attach_done ≡ false
      → streamed (run_stream env cid start st turns h).1 stdout stderr
        ≡ collect (output_of turns) stdout stderr
  unfolding run_stream finish_stream time_out_stream select_turn collect
  run_stream_output st [] h stdout stderr going = ground (arith, going)
  run_stream_output st (deadline_passed ∷ turns) h stdout stderr going = ground (arith, going)
  run_stream_output st (waited reply ∷ turns) h stdout stderr going = ground (
    arith,
    going,
    run_stream_output st turns h stdout stderr going,
    run_stream_output
        (record {
          pending_exit = exit_after st.pending_exit reply;
          wait_done = true;
          attach_done = st.attach_done;
        })
        turns h stdout stderr going,
  )
  run_stream_output st (attached none ∷ turns) h stdout stderr going =
      ground
        (arith, going, no_more_output (record st { attach_done = true }) turns h stdout stderr refl)
  run_stream_output st (attached (some (ok (std_out message))) ∷ turns) h stdout stderr going =
      ground (arith, going, run_stream_output st turns h (stdout ++ message) stderr going)
  run_stream_output st (attached (some (ok (std_err message))) ∷ turns) h stdout stderr going =
      ground (arith, going, run_stream_output st turns h stdout (stderr ++ message) going)
  run_stream_output st (attached (some (ok other_output)) ∷ turns) h stdout stderr going =
      ground (arith, going, run_stream_output st turns h stdout stderr going)
  run_stream_output st (attached (some (err e)) ∷ turns) h stdout stderr going =
      ground
        (arith, going, no_more_output (record st { attach_done = true }) turns h stdout stderr refl)

  -- The chunks of a stream, put together by their kind, are what the loop of `exec_oneshot` collects
  -- from the same output: however the exit code and the output take turns, no byte is lost, added or
  -- moved to the other kind.
  pub run_stream-collect :
      (turns : List Turn) (h : History)
      → streamed (run_stream env cid start loop_start turns h).1 [] []
        ≡ collect (output_of turns) [] []
  run_stream-collect turns h = run_stream_output loop_start turns h [] [] refl
