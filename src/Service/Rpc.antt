-- ===== src/Service/Rpc.antt =====
-- The RPCs `exec_stream` and `health` of src/service.rs.
pub mod Permits
use scriptorium.Runtime.{version_string}
use scriptorium.Base.Int.{ℤ}
use scriptorium.Service.{SandboxService, ExecRequest, acquire_exec_permit, build_exec_params}
use scriptorium.World.{Io, ◌>>=◌, ◌>>◌, lift_status, attempt, pure}
use scriptorium.World.Calls.{History, Env, Bytes, released_permit, pinged}
use scriptorium.Runtime.Select.{StreamEvent, stdout_chunk, Turn, stderr_chunk, exec_stream}
use scriptorium.Text.{Text}
use scriptorium.Base.{
  ◌∷◌, ◌++◌, Option, List, Bool, ℕ, [], min, ◌^◌, some, map, ◌-◌, none, true, false,
}
use scriptorium.Error.{ok, err, io, Status}

pub data ExecEvent : Type 0 where
  started : Text → ExecEvent
  stdout stderr : Bytes → ExecEvent
  finished : ℤ → ℕ → Bool → ExecEvent

abbrev pub exec_event : StreamEvent → ExecEvent
exec_event (stdout_chunk message) = stdout message
exec_event (stderr_chunk message) = stderr message
exec_event (StreamEvent.finished exit_code timed_out duration_ms) =
    finished exit_code duration_ms timed_out

-- How a client consumes the events: it goes away before the runtime's stream is polled, or that
-- stream is driven by the turns of its loop, and dropped where they end.
abbrev pub Consumption : Type 0
Consumption = Option (List Turn)

abbrev pub ExecEvents : Type 0
ExecEvents = Consumption → History → History × List ExecEvent

-- The permit goes away with an error, and else is handed on.
abbrev pub permit_or_handed {ℓ κ} : {E : Type ℓ} {A : Type κ} → Io E A → Io E A
permit_or_handed m h =
    let s = m h in elim s.1 [ ok a ↦ (s.0, ok a) | err e ↦ (released_permit ∷ s.0, err e) ]

-- `started.chain(rest)`; the permit lives in the closure of `rest`, and goes away with it.
unfoldable pub exec_events : Text → (List Turn → History → History × List StreamEvent) → ExecEvents
exec_events cid events none h = (released_permit ∷ h, started cid ∷ [])
exec_events cid events (some turns) h =
    let s = events turns h in (released_permit ∷ s.0, started cid ∷ map exec_event s.1)

pub record HealthResponse : Type 0 where
  pub version : Text
  pub docker_version : Text
  pub docker_reachable : Bool
  pub exec_permits_available : ℕ

module _ (env : Env) (svc : SandboxService) where
  unfoldable pub open_stream : ExecRequest → Io Status ExecEvents
  open_stream req = do
    params ← lift_status (build_exec_params env svc req)
    (cid, events) ← lift_status (exec_stream env svc.sandbox_cfg params)
    pure (exec_events cid events)

  unfoldable pub exec_stream_rpc : ExecRequest → Io Status ExecEvents
  exec_stream_rpc req = do acquire_exec_permit env svc; permit_or_handed (open_stream req)

  -- `u32::try_from(…).unwrap_or(u32::MAX)`
  abbrev pub exec_permits_available : History → ℕ
  exec_permits_available h = min (env.available_permits h) (2 ^ 32 - 1)

  -- `package_version` is `CARGO_PKG_VERSION`.
  unfoldable pub health : Text → Io Status HealthResponse
  health package_version = do
    docker_version ← lift_status (version_string env)
    reachable ← attempt {E = Text} (λ h. (pinged ∷ h, env.ping h))
    λ h. (
      h,
      ok (record {
        version = package_version;
        docker_version = docker_version;
        docker_reachable = elim reachable [ ok _ ↦ true | err _ ↦ false ];
        exec_permits_available = exec_permits_available h;
      }),
    )
