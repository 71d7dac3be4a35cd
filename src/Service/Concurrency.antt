-- ===== src/Service/Concurrency.antt =====
-- The handlers of `exec` and `exec_stream` side by side, and the semaphore that they share.
pub mod Phases
pub mod Capacity
pub mod Progress
use scriptorium.Service.Lifecycle.Streamed.{streamed_run}
use scriptorium.Service.{SandboxService, ExecRequest, do_exec_oneshot}
use scriptorium.World.Calls.{Env, History, Call, acquired_permit, released_permit}
use scriptorium.Runtime.Select.{Turn}
use scriptorium.Base.{List, ◌∷◌, ◌++◌, [], ℕ, suc, ◌≡◌, some, ◌≢◌, ◌+◌}

-- What a handler runs: `exec`, or `exec_stream` with a client that polls the answer along the turns.
pub data Body : Type 0 where
  oneshot : Body
  streamed : List Turn → Body

-- A handler and the requests that it has made so far. What the others do reaches it through the
-- answers of its `Env` only, which may be any.
pub record Handler : Type 0 where
  pub env : Env
  pub req : ExecRequest
  pub body : Body
  pub done : History

-- The requests that are not about the permit.
abbrev pub IsOther : Call → Type 0
IsOther acquired_permit = ⊥
IsOther released_permit = ⊥
IsOther _ = Unit

-- The number of free permits before and after a request.
pub data Grants : ℕ → Call → ℕ → Type 0 where
  take_one : {n : ℕ} → Grants (suc n) acquired_permit n
  give_back : {n : ℕ} → Grants n released_permit (suc n)
  neither : {n : ℕ} {call : Call} → IsOther call → Grants n call n

abbrev pub makes : Handler → Call → Handler
makes t call = record t { done = call ∷ t.done }

-- The free permits of `exec_permits`, and the handlers that are there.
abbrev pub Server : Type 0
Server = ℕ × List Handler

-- One while the handler holds a permit.
abbrev pub holds : History → ℕ
holds [] = 0
holds (acquired_permit ∷ h) = 1
holds (released_permit ∷ h) = 0
holds (_ ∷ h) = holds h

module _ (svc : SandboxService) where
  -- The requests that the handler makes from its arrival to its end.
  abbrev pub run_of : Env → ExecRequest → Body → History
  run_of env req oneshot = (do_exec_oneshot env svc req []).0
  run_of env req (streamed turns) = streamed_run env svc req (some turns) []

  abbrev pub whole_run : Handler → History
  whole_run t = run_of t.env t.req t.body

  -- A handler makes its next request.
  pub data Move : Server → Server → Type 0 where
    move :
        {n m : ℕ} (before : List Handler) (t : Handler) (after : List Handler) (call : Call)
        (rest : History)
        → whole_run t ≡ rest ++ call ∷ t.done
        → Grants n call m
        → Move (n, before ++ t ∷ after) (m, before ++ makes t call ∷ after)

  pub data Step : Server → Server → Type 0 where
    arrive :
        {n : ℕ} {ts : List Handler} (env : Env) (req : ExecRequest) (body : Body)
        → Step (n, ts) (n, record { env = env; req = req; body = body; done = [] } ∷ ts)
    one_move : {s s' : Server} → Move s s' → Step s s'
    leave :
        {n : ℕ} (before : List Handler) (t : Handler) (after : List Handler)
        → whole_run t ≡ t.done
        → Step (n, before ++ t ∷ after) (n, before ++ after)
    -- The client has gone away: the handler's future is dropped, and with it a permit that it holds.
    cancel :
        {n : ℕ} (before : List Handler) (t : Handler) (after : List Handler)
        → Step (n, before ++ t ∷ after) (n + holds t.done, before ++ after)

  -- From an empty server, whose semaphore has all of its permits.
  pub data Reach : Server → Type 0 where
    begin : Reach (svc.exec_permit_capacity, [])
    stepped : {s s' : Server} → Reach s → Step s s' → Reach s'
