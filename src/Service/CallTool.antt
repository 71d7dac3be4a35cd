-- ===== src/Service/CallTool.antt =====
-- The RPC `call_tool` of src/service.rs, the router from tools to `do_exec_oneshot` and `do_upload`.
-- JSON is serde's.
pub mod Routing
use scriptorium.FilePath.{FilePath}
use scriptorium.Service.Import.{is_blank}
use scriptorium.Service.{
  ResourceLimits, ExecRequest, SandboxService, UploadResponse, do_exec_oneshot, do_upload,
}
use scriptorium.World.{Io, of_result, ◌>>=◌, map_err, pure}
use scriptorium.Base.{ℕ, Bool, if◌then◌else◌, false, [], ltb, true, ◌++◌, some, none, ◌||◌}
use scriptorium.World.Calls.{Env, Bytes}
use scriptorium.Runtime.{SandboxConfig, ExecOutcome}
use scriptorium.Error.{
  Result, Message, Status, invalid_argument, message, internal, execute_shell_args, deliver_args,
  encode_failed,
}
use scriptorium.Text.{Text, codes, text_eq}
use scriptorium.Tools.{
  ExecuteShellArgs, DeliverArgs, ExecuteShellResult, DeliverResult, tool_execute_shell,
  tool_deliver, tool_copy_workspace_sandbox_to_execution_sandbox,
  tool_copy_execution_sandbox_to_workspace_sandbox,
}

pub record CallToolRequest : Type 0 where
  pub workspace_id : Text
  pub tenant_id : Text
  pub tool_name : Text
  pub arguments_json : Text
  pub timeout_seconds : ℕ

pub record CallToolResponse : Type 0 where
  pub result_json : Text
  pub is_error : Bool
  pub error_message : Text

-- `serde_json::from_str` and `to_string` at the types of the tools, and `String::from_utf8_lossy`.
pub record Serde : Type 0 where
  pub parse_shell : Text → Result Text ExecuteShellArgs
  pub parse_deliver : Text → Result Text DeliverArgs
  pub encode_shell : ExecuteShellResult → Result Text Text
  pub encode_deliver : DeliverResult → Result Text Text
  pub lossy : Bytes → Text

abbrev pub args_json : CallToolRequest → Text
args_json inner = if is_blank inner.arguments_json then codes "{}" else inner.arguments_json

-- `from_str(args_json).map_err(…)?`, and `encode_result`.
abbrev pub bad_args : (Text → Message) → Text → Status
bad_args m e = record { code = invalid_argument; detail = message (m e) }

abbrev pub encode_result : Result Text Text → Io Status Text
encode_result encoded =
    of_result
      (map_err (λ e. record { code = internal; detail = message (encode_failed e) }) encoded)

abbrev pub heavy_limits : SandboxConfig → ResourceLimits
heavy_limits sbx = record {
  cpu_millis = sbx.heavy_cpu_millis;
  memory_bytes = sbx.heavy_memory_bytes;
  pids = sbx.heavy_pids;
  tmpfs_bytes = sbx.heavy_tmpfs_bytes;
}

unfoldable pub shell_request : SandboxConfig → CallToolRequest → ExecuteShellArgs → ExecRequest
shell_request sbx inner args = record {
  workspace_id = inner.workspace_id;
  tenant_id = inner.tenant_id;
  command = args.command;
  timeout_seconds =
      if ltb 0 inner.timeout_seconds then inner.timeout_seconds else args.timeout_seconds;
  env = args.env;
  image = [];
  limits = if args.heavy then some (heavy_limits sbx) else none;
}

abbrev pub succeeded : Text → CallToolResponse
succeeded json = record { result_json = json; is_error = false; error_message = [] }

abbrev pub failed : Text → CallToolResponse
failed why = record { result_json = []; is_error = true; error_message = why }

abbrev pub needs_host_bridge : Text → Text
needs_host_bridge tool_name =
    codes "tool "
    ++ (tool_name ++ codes " requires a host bridge; direct scriptorium calls are unsupported")

module _ (env : Env) (svc : SandboxService) (clean : FilePath → FilePath) (temp_dir : FilePath)
    (serde : Serde) where
  abbrev pub shell_result : ExecOutcome → ExecuteShellResult
  shell_result resp = record {
    exit_code = resp.exit_code;
    stdout = serde.lossy resp.stdout;
    stderr = serde.lossy resp.stderr;
    duration_ms = resp.duration_ms;
    timed_out = resp.timed_out;
  }

  -- The branch of `execute_shell`.
  unfoldable pub call_execute_shell : CallToolRequest → Io Status Text
  call_execute_shell inner = do
    args ← of_result (map_err (bad_args execute_shell_args) (serde.parse_shell (args_json inner)))
    resp ← do_exec_oneshot env svc (shell_request svc.sandbox_cfg inner args)
    encode_result (serde.encode_shell (shell_result resp))

  abbrev pub deliver_result : UploadResponse → DeliverResult
  deliver_result resp = record {
    object_key = resp.object_key;
    basename = resp.basename;
    size_bytes = resp.size_bytes;
    content_type = resp.content_type;
    sha256_hex = resp.sha256_hex;
  }

  -- The branch of `deliver`.
  unfoldable pub call_deliver : ℕ → CallToolRequest → Io Status Text
  call_deliver fuel inner = do
    args ← of_result (map_err (bad_args deliver_args) (serde.parse_deliver (args_json inner)))
    resp ←
        do_upload env svc clean fuel temp_dir inner.workspace_id inner.tenant_id args.path
          args.compress args.label
    encode_result (serde.encode_deliver (deliver_result resp))

  abbrev pub respond : Io Status Text → Io Status CallToolResponse
  respond m = m >>= λ json. pure (succeeded json)

  unfoldable pub call_tool : ℕ → CallToolRequest → Io Status CallToolResponse
  call_tool fuel inner =
      if text_eq inner.tool_name tool_execute_shell
      then respond (call_execute_shell inner)
      else if text_eq inner.tool_name tool_deliver
      then respond (call_deliver fuel inner)
      else if text_eq inner.tool_name tool_copy_workspace_sandbox_to_execution_sandbox
          || text_eq inner.tool_name tool_copy_execution_sandbox_to_workspace_sandbox
      then pure (failed (needs_host_bridge inner.tool_name))
      else pure (failed (codes "unknown tool: " ++ inner.tool_name))
