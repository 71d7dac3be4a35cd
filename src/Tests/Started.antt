-- ===== src/Tests/Started.antt =====
-- The start of the service, its streams, its tools and its listings.
use scriptorium.Runtime.{
  exec_oneshot, create_container, read_clock_now, attach_container, start_container, run_to_end,
}
use mathlib.Core.List.{Perm}
use scriptorium.Tests.Containers.{root}
use scriptorium.Runtime
use scriptorium.Oss.Upload
use scriptorium.Tests.Paths.{clean_by_walk}
use scriptorium.Startup.{start, start_ready, start_service}
use scriptorium.Service.Files.{FileInfo, collect_files}
use scriptorium.Runtime.Select.{run_stream, loop_start}
use scriptorium.Config.{Config, load, validate, effective_max, effective_queue_timeout}
use scriptorium.Tools.{tool_execute_shell}
use scriptorium.Runtime.Finish.{is_finished, run_stream_finishes}
use scriptorium.Tests.{test_env}
use scriptorium.Workspace.{
  ensure_root, ensure_home, validate_workspace_id, id_byte, home_dir, workspace_dir,
}
use scriptorium.Error.{Result, ok, IoError, Error, Status, err}
use scriptorium.Service.Files.Walk.{collect_files_lists}
use scriptorium.Service.Files.Tree.{Tree, dir, file, entries_of, empty, everything, here}
use scriptorium.Service.CallTool.Routing.{Answers, call_tool-Answers}
use scriptorium.Service.CallTool.{
  Serde, CallToolRequest, succeeded, CallToolResponse, call_tool, call_execute_shell, shell_request,
}
use scriptorium.FilePath.{is_absolute, FilePath, normal, components, join}
use scriptorium.Base.{
  ◌≡◌, any, Bool, List, ◌*◌, true, [], none, if◌then◌else◌, ◌≢◌, ◌∷◌, is_nil, ◌++◌, false, ◌≤◌,
  arith, refl,
}
use scriptorium.Service.{
  SandboxService, do_exec_oneshot, acquire_exec_permit, new, build_exec_params,
}
use scriptorium.Text.{Text, codes, text_eq, bytes, utf8_char}
use scriptorium.World.Calls.{
  Bytes, History, Env, Metadata, pinged, created_dir_all, read_whole, listed_dir, asked_metadata,
}
use scriptorium.Tests.Containers.{config, service, turns}

abbrev decoded : Bytes → Result IoError Text
decoded bytes = ok (codes "toml")

abbrev parsed : Text → Result Text Config
parsed raw = ok config

abbrev started_up : History × Result Error (Text × SandboxService)
started_up = start test_env decoded parsed (normal (codes "c.toml") ∷ []) []

abbrev started_service : SandboxService
started_service = record service { oss = record service.oss { part_size = 8 * 1024 * 1024 } }

started_up-ok : started_up ≡ (started_up.0, ok (codes "127.0.0.1:50051", started_service))
unfolding start start_service load validate is_absolute ensure_root Runtime.connect Upload.connect
    new effective_max effective_queue_timeout
started_up-ok = refl

start_ready_example :
    (cfg : Config) × (raw : Text) × (parsed raw ≡ ok cfg)
    × (let g =
          asked_metadata (components cfg.docker.socket)
          ∷ read_whole (normal (codes "c.toml") ∷ [])
          ∷ [] in
        (is_absolute root ≡ true)
        × (started_service.sandbox_cfg.agent_uid ≢ 0)
        × (started_up.0 ≡ pinged ∷ created_dir_all root ∷ g)
        × (test_env.create_dir_all g root ≡ ok tt)
        × (test_env.ping (created_dir_all root ∷ g) ≡ ok tt)
        × (1 ≤ 10)
        × (5 * 1024 * 1024 ≤ 8 * 1024 * 1024))
start_ready_example =
    start_ready test_env decoded parsed (normal (codes "c.toml") ∷ []) [] started_up.0
      (codes "127.0.0.1:50051") started_service started_up-ok

run_stream_finishes_example :
    any is_finished (run_stream test_env (codes "c1") 0 loop_start turns []).1 ≡ true
run_stream_finishes_example = run_stream_finishes test_env (codes "c1") 0 turns []

abbrev serde : Serde
serde = record {
  parse_shell =
      λ json. ok (record { command = codes "true"; timeout_seconds = 0; env = []; heavy = true });
  parse_deliver = λ json. err (codes "no path");
  encode_shell = λ result. ok (codes "{}");
  encode_deliver = λ result. ok (codes "{}");
  lossy = λ bytes. bytes;
}

abbrev call : Text → CallToolRequest
call name = record {
  workspace_id = codes "w1";
  tenant_id = codes "t1";
  tool_name = name;
  arguments_json = [];
  timeout_seconds = 0;
}

abbrev called : History × Result Status CallToolResponse
called = call_tool test_env service clean_by_walk [] serde 0 (call tool_execute_shell) []

called-ok : called ≡ (called.0, ok (succeeded (codes "{}")))
unfolding call_tool call_execute_shell text_eq do_exec_oneshot acquire_exec_permit build_exec_params
    ensure_home validate_workspace_id id_byte bytes utf8_char exec_oneshot create_container
    read_clock_now attach_container start_container run_to_end home_dir workspace_dir components
    join shell_request
called-ok = refl

call_tool-Answers_example : Answers tool_execute_shell [] called.0 (succeeded (codes "{}"))
call_tool-Answers_example =
    call_tool-Answers test_env service clean_by_walk [] serde 0 (call tool_execute_shell) []
      called.0 (succeeded (codes "{}")) called-ok

abbrev meta_of : Bool → Metadata
meta_of is_dir = record { is_dir = is_dir; len = 0; mode = 0o755; modified = none }

-- `d`, with `b` in it.
abbrev d_dir : FilePath
d_dir = normal (codes "d") ∷ []

abbrev tree : Tree
tree =
    dir d_dir (meta_of true) (file (d_dir ++ (normal (codes "b") ∷ [])) (meta_of false) empty)
      (file (normal (codes "a") ∷ []) (meta_of false) empty)

abbrev tree_env : Env
tree_env = record test_env {
  read_dir = λ h p.
      if is_nil p
      then ok (entries_of tree)
      else ok (entries_of (file (d_dir ++ (normal (codes "b") ∷ [])) (meta_of false) empty));
}

collect_files_lists_example :
    ((h' : History) × (out : List FileInfo) × (collect_files tree_env 2 [] true ([] ∷ []) [] []
        ≡ (h', ok out))
      × Perm out (everything [] tree))
    × (collect_files tree_env 2 [] false ([] ∷ []) [] [] ≡ (listed_dir [] ∷ [], ok (here [] tree)))
collect_files_lists_example =
    collect_files_lists tree_env [] [] tree 2 [] (refl, (λ h. refl), (refl, tt), (refl, tt))
      (λ h. refl) (omega arith)
