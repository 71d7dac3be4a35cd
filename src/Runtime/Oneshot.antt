-- ===== src/Runtime/Oneshot.antt =====
-- `exec_oneshot`: its outcomes, and the containers that it leaves.
use scriptorium.Base.Int.{fits_signed}
use scriptorium.Error.{ok, Error, err, Result}
use scriptorium.Text.{Text}
use scriptorium.Runtime.{
  SandboxConfig, ExecParams, create_container, ExecOutcome, minus_one, kill_and_remove,
}
use scriptorium.Base.{ℕ, ◌∷◌, suc, [], ◌≡◌, false, true, ◌⊎◌}
use scriptorium.World.Calls.{History, Env, removed_container, read_clock}
use scriptorium.Base.{◌⊎◌}

-- How many containers the requests of a history have force-removed.
abbrev pub removals : History → ℕ
removals [] = 0
removals (removed_container cid ∷ h) = suc (removals h)
removals (_ ∷ h) = removals h

-- The container that a call makes from the history `h`.
abbrev pub Created : Env → SandboxConfig → ExecParams → History → Text → Type 0
Created env cfg req h cid = (create_container env cfg req (read_clock ∷ h)).1 ≡ ok cid

-- The three ways in which a call ends.
abbrev pub RanToEnd : History → History × Result Error ExecOutcome → Type 0
RanToEnd h s =
    (out : ExecOutcome) × (s.1 ≡ ok out)
    × (out.timed_out ≡ false)
    × (fits_signed 32 out.exit_code ≡ true)
    × (removals s.0 ≡ removals h)

abbrev pub TimedOut : Env → Text → History × Result Error ExecOutcome → Type 0
TimedOut env cid s =
    (out : ExecOutcome) × (s.1 ≡ ok out)
    × (out.timed_out ≡ true)
    × (out.exit_code ≡ minus_one)
    × ((h' : History) × (s.0 ≡ read_clock ∷ kill_and_remove env cid h'))

abbrev pub Failed : History → History × Result Error ExecOutcome → Type 0
Failed h s = (e : Error) × (s.1 ≡ err e) × (removals s.0 ≡ removals h)
