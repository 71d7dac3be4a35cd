-- ===== src/Tests/Containers.antt =====
-- Containers, streams, permits and configurations.
use scriptorium.World.Calls.{std_out, status_code, std_err}
use scriptorium.Service.Permits.{permits, do_exec_oneshot-permits}
use scriptorium.Tests.{test_env}
use scriptorium.Text.{codes, Text}
use scriptorium.Config.{Config, default_sandbox, default_fetch, default_tos}
use scriptorium.Workspace.Ids.{IsWorkspaceId}
use scriptorium.FilePath.{FilePath, root_dir, normal}
use scriptorium.Oss.Upload.{TosConfig, OssClient}
use scriptorium.Service.{ExecRequest, SandboxService, do_exec_oneshot}
use scriptorium.Runtime.Output.{streamed, output_of, run_stream-collect}
use scriptorium.Runtime.Stream.{Ends, run_stream_one_finished}
use scriptorium.Base.Int.{pos}
use scriptorium.Runtime.{SandboxConfig, ExecParams, collect}
use scriptorium.Runtime.Select.{Turn, run_stream, attached, loop_start, waited}
use scriptorium.Base.{◌∷◌, ◌⊎◌, List, [], ◌≡◌, ◌^◌, none, ◌*◌, arith, ◌-◌, some}
use scriptorium.Error.{ok, err, Status}

abbrev sandbox : SandboxConfig
sandbox = default_sandbox (codes "agent:latest")

abbrev params : ExecParams
params = record {
  workspace_id = codes "w1";
  tenant_id = codes "t1";
  command = codes "true";
  timeout = 5;
  env = [];
  image = codes "agent:latest";
  host_home_dir = [];
  cpu_millis = 2000;
  memory_bytes = 2 ^ 64 - 1;
  pids = 256;
  tmpfs_bytes = 0;
}

abbrev pub turns : List Turn
turns =
    attached (some (ok (std_out (1 ∷ []))))
    ∷ waited (status_code (pos 0))
    ∷ attached (some (ok (std_err (2 ∷ []))))
    ∷ attached none
    ∷ []

run_stream_one_finished_example :
    Ends test_env (codes "c1") [] (run_stream test_env (codes "c1") 0 loop_start turns [])
run_stream_one_finished_example = run_stream_one_finished test_env (codes "c1") 0 turns []

run_stream-collect_example :
    streamed (run_stream test_env (codes "c1") 0 loop_start turns []).1 [] []
    ≡ collect (output_of turns) [] []
run_stream-collect_example = run_stream-collect test_env (codes "c1") 0 turns []

abbrev pub request : ExecRequest
request = record {
  workspace_id = codes "w1";
  tenant_id = codes "t1";
  command = codes "true";
  timeout_seconds = 0;
  env = [];
  image = [];
  limits = none;
}

abbrev tos : TosConfig
tos = default_tos (codes "https://tos") (codes "r") (codes "b") (codes "a") (codes "s")

abbrev oss : OssClient
oss = record {
  bucket = codes "b";
  key_prefix = codes "sandbox/";
  default_expires = 3600;
  max_expires = 86400;
  upload_timeout = 300;
  part_size = 5 * 1024 * 1024;
  multipart_threshold = 64 * 1024 * 1024;
}

abbrev pub root : FilePath
root = root_dir ∷ normal (codes "srv") ∷ []

abbrev pub service : SandboxService
service = record {
  sandbox_cfg = sandbox;
  workspaces = record { root = root };
  oss = oss;
  fetch_cfg = default_fetch;
  exec_queue_timeout = none;
  exec_permit_capacity = 10;
}

do_exec_oneshot-permits_example :
    let s = do_exec_oneshot test_env service request [] in
    (permits s.0 ≡ (1, 1)) ⊎ ((s.0 ≡ []) × ((e : Status) × (s.1 ≡ err e)))
do_exec_oneshot-permits_example = do_exec_oneshot-permits test_env service request []

pub w1_valid : IsWorkspaceId (codes "w1")
w1_valid = record {
  nonempty = omega arith;
  short = omega arith;
  chars = (ground arith, (ground arith, tt));
}

abbrev pub config : Config
config = record {
  sandbox = sandbox;
  listen = codes "127.0.0.1:50051";
  docker = record { socket = codes "/run/docker.sock"; control_timeout_seconds = 60 };
  workspace_root = root;
  tos = tos;
  concurrency = record { max_concurrent_execs = 0; exec_queue_timeout_seconds = 0 };
  fetch = default_fetch;
}
