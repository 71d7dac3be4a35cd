-- ===== src/Runtime.antt =====
-- src/runtime.rs: containers that run one command each, and `exec_oneshot`.
pub mod Limits
pub mod Oneshot
pub mod Select
pub mod Stream
pub mod Finish
pub mod Output
use scriptorium.World.{Io, ◌>>=◌, lift_docker, ◌>>◌, pure, of_result}
use scriptorium.Error.{Result, Error, ok, err}
use scriptorium.World.Calls.{
  Bytes, ContainerSpec, WaitReply, Env, LogOutput, History, status_code, created_container,
  attached_container, started_container, removed_container, read_clock, wait_error,
  killed_container, waited_container, std_out, std_err, other_output, no_reply, asked_version,
  pinged,
}
use scriptorium.Text.{Text, codes, hex, decimal}
use scriptorium.Base.{
  ℕ, none, ◌++◌, ◌&&◌, ◌^◌, if◌then◌else◌, min, List, Option, false, Bool, ◌-◌, leb, [], some, ◌/◌,
  ◌∷◌, true, ◌%◌, map, ◌*◌, take,
}
use scriptorium.FilePath.{FilePath, Component, root_dir, cur_dir, parent_dir, normal}
use scriptorium.Base.Int.{ℤ, negsuc, fits_signed, pos}

pub record ExecParams : Type 0 where
  pub workspace_id : Text
  pub tenant_id : Text
  pub command : Text
  -- In seconds.
  pub timeout : ℕ
  pub env : List (Text × Text)
  pub image : Text
  pub host_home_dir : FilePath
  pub cpu_millis : ℕ
  pub memory_bytes : ℕ
  pub pids : ℕ
  pub tmpfs_bytes : ℕ

pub record ExecOutcome : Type 0 where
  pub exit_code : ℤ
  pub stdout : Bytes
  pub stderr : Bytes
  pub duration_ms : ℕ
  pub timed_out : Bool

-- The parts of `SandboxConfig` that the runtime and the service read.
pub record SandboxConfig : Type 0 where
  pub default_image : Text
  pub default_timeout_seconds : ℕ
  pub default_cpu_millis : ℕ
  pub default_memory_bytes : ℕ
  pub default_pids : ℕ
  pub default_tmpfs_bytes : ℕ
  pub heavy_cpu_millis : ℕ
  pub heavy_memory_bytes : ℕ
  pub heavy_pids : ℕ
  pub heavy_tmpfs_bytes : ℕ
  pub agent_uid : ℕ
  pub agent_gid : ℕ
  pub workspace_mount : Text

abbrev pub minus_one : ℤ
minus_one = negsuc 0

abbrev pub i64_max : ℕ
i64_max = 2 ^ 63 - 1

-- `i64::try_from(n).unwrap_or(i64::MAX)` of a `u64`
unfoldable pub i64_of_u64 : ℕ → ℤ
i64_of_u64 n = if leb n i64_max then pos n else pos i64_max

-- `i32::try_from(code).unwrap_or(-1)` of an `i64`
unfoldable pub exit_code_of : ℤ → ℤ
exit_code_of code = if fits_signed 32 code then code else minus_one

-- `u64::try_from(start.elapsed().as_millis()).unwrap_or(u64::MAX)`, from two readings of the clock
-- in nanoseconds.
unfoldable pub elapsed_ms : ℕ → ℕ → ℕ
elapsed_ms start now = min ((now - start) / 1_000_000) (2 ^ 64 - 1)

abbrev component_text : Component → Text
component_text root_dir = codes "/"
component_text cur_dir = codes "."
component_text parent_dir = codes ".."
component_text (normal name) = name

-- `to_str` of the host home is taken to succeed: a path of the model is text.
unfoldable pub path_text : FilePath → Text
path_text [] = []
path_text (root_dir ∷ []) = codes "/"
path_text (root_dir ∷ c ∷ p) = codes "/" ++ path_text (c ∷ p)
path_text (c ∷ []) = component_text c
path_text (c ∷ d ∷ p) = component_text c ++ (codes "/" ++ path_text (d ∷ p))

unfoldable pub container_name : Text → ℕ → Text
container_name workspace_id nanos =
    codes "scriptorium-" ++ (workspace_id ++ (codes "-" ++ hex (nanos % 2 ^ 64)))

abbrev pub env_entry : Text × Text → Text
env_entry (k, v) = k ++ (codes "=" ++ v)

-- `ContainerCreateBody` with its `HostConfig`.
unfoldable pub container_spec : SandboxConfig → ExecParams → ContainerSpec
container_spec cfg req = record {
  image = req.image;
  user_uid = cfg.agent_uid;
  user_gid = cfg.agent_gid;
  working_dir = cfg.workspace_mount;
  cmd = codes "bash" ∷ codes "-lc" ∷ req.command ∷ [];
  env = map env_entry req.env;
  auto_remove = true;
  binds = (path_text req.host_home_dir ++ (codes ":" ++ cfg.workspace_mount)) ∷ [];
  memory = i64_of_u64 req.memory_bytes;
  nano_cpus = pos (req.cpu_millis * 1_000_000);
  pids_limit = pos req.pids;
  readonly_rootfs = true;
  tmpfs = (codes "/tmp", codes "rw,size=" ++ decimal req.tmpfs_bytes) ∷ [];
  network_mode = codes "bridge";
  attach_stdout = true;
  attach_stderr = true;
  tty = false;
}

-- The loop of `collect`, from the two buffers.
unfoldable pub collect : List (Result Text LogOutput) → Bytes → Bytes → Bytes × Bytes
collect [] stdout stderr = (stdout, stderr)
collect (ok (std_out message) ∷ rest) stdout stderr = collect rest (stdout ++ message) stderr
collect (ok (std_err message) ∷ rest) stdout stderr = collect rest stdout (stderr ++ message)
collect (ok other_output ∷ rest) stdout stderr = collect rest stdout stderr
collect (err e ∷ rest) stdout stderr = (stdout, stderr)

-- The value of the future `wait`.
unfoldable pub wait_code : WaitReply → ℤ
wait_code (status_code c) = c
wait_code (wait_error c) = c
wait_code no_reply = minus_one

-- `unwrap_or_default` of a text
abbrev pub or_empty : Option Text → Text
or_empty none = []
or_empty (some t) = t

module _ (env : Env) where
  -- `DockerRuntime::connect`, from the path of the socket and the timeout of control calls.
  unfoldable pub connect : Text → ℕ → Io Error (Unit {0})
  connect socket control_timeout_seconds = do
    lift_docker (of_result (env.connect_unix socket control_timeout_seconds))
    lift_docker (λ h. (pinged ∷ h, env.ping h))

  unfoldable pub version_string : Io Error Text
  version_string h = (
    asked_version ∷ h,
    ok (elim (env.version h) [
      | ok (version, api_version) ↦
          or_empty version ++ (codes " (" ++ (or_empty api_version ++ codes ")"))
      | err e ↦ codes "unavailable: " ++ e
    ]),
  )

  unfoldable pub read_clock_now : Io Error ℕ
  read_clock_now h = (read_clock ∷ h, ok (env.now h))

  create : Text → ContainerSpec → Io Text Text
  create name spec h = (created_container name spec ∷ h, env.create_container h name spec)

  unfoldable pub attach_container : Text → Io Text (List (Result Text LogOutput))
  attach_container cid h = (attached_container cid ∷ h, env.attach_container h cid)

  unfoldable pub start_container : Text → Io Text (Unit {0})
  start_container cid h = (started_container cid ∷ h, env.start_container h cid)

  unfoldable pub create_container : SandboxConfig → ExecParams → Io Error Text
  unfolding read_clock_now create
  create_container cfg req = do
    nanos ← read_clock_now
    lift_docker (create (container_name req.workspace_id nanos) (container_spec cfg req))

  -- `kill_container` and `remove_container` with their answers thrown away.
  abbrev pub kill_and_remove : Text → History → History
  kill_and_remove cid h = removed_container cid ∷ killed_container cid ∷ h

  -- From `timeout(req.timeout, combined)` on. Where the deadline passes first, `deadline` says how
  -- many items of the output came before it.
  unfoldable pub run_to_end :
      ExecParams → ℕ → Text → List (Result Text LogOutput) → Io Error ExecOutcome
  run_to_end req start cid output h = elim (env.deadline h req.timeout) [
    | none ↦
        let buffers = collect output [] [] in
        let h' = waited_container cid ∷ h in
        (
          read_clock ∷ h',
          ok (record {
            exit_code = exit_code_of (wait_code (env.wait_container h cid));
            stdout = buffers.0;
            stderr = buffers.1;
            duration_ms = elapsed_ms start (env.now h');
            timed_out = false;
          }),
        )
    | some n ↦
        let buffers = collect (take n output) [] [] in
        let h' = kill_and_remove cid (waited_container cid ∷ h) in
        (
          read_clock ∷ h',
          ok (record {
            exit_code = minus_one;
            stdout = buffers.0;
            stderr = buffers.1;
            duration_ms = elapsed_ms start (env.now h');
            timed_out = true;
          }),
        )
  ]

  unfoldable pub exec_oneshot : SandboxConfig → ExecParams → Io Error ExecOutcome
  unfolding read_clock_now attach_container start_container
  exec_oneshot cfg req = do
    start ← read_clock_now
    cid ← create_container cfg req
    output ← lift_docker (attach_container cid)
    lift_docker (start_container cid)
    run_to_end req start cid output
