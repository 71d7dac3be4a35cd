-- ===== src/Config.antt =====
-- src/config.rs: loading a configuration, its checks and the concurrency limits. The text of a
-- configuration is read by toml; a missing field stands for its default.
use scriptorium.World.Fs.{read_file, metadata}
use scriptorium.World.{pure, Io, ◌>>=◌, lift_io, of_result, map_err, ◌>>◌, pure, fail, attempt}
use scriptorium.World.Calls.{Env, Bytes, History, asked_metadata}
use scriptorium.Oss.Upload.{TosConfig}
use scriptorium.FilePath.{FilePath, is_absolute, components}
use scriptorium.Error.{
  Result, Error, ok, other, root_not_absolute, uid_zero, image_empty, tos_required, IoError,
  parse_config,
}
use scriptorium.Runtime.{SandboxConfig}
use scriptorium.Fetch.{FetchConfig}
use scriptorium.Text.{Text, codes}
use scriptorium.Base.{
  ◌==◌, ◌||◌, ℕ, Option, ◌≡◌, if◌then◌else◌, ◌*◌, none, false, not, ◌↔◌, some, true, ◌≢◌, is_nil,
  arith, ◌∷◌,
}

pub record ConcurrencyConfig : Type 0 where
  pub max_concurrent_execs : ℕ
  pub exec_queue_timeout_seconds : ℕ

unfoldable pub effective_max : ConcurrencyConfig → ℕ
effective_max c = if c.max_concurrent_execs == 0 then 10 else c.max_concurrent_execs

unfoldable pub effective_queue_timeout : ConcurrencyConfig → Option ℕ
effective_queue_timeout c =
    if c.exec_queue_timeout_seconds == 0 then none else some c.exec_queue_timeout_seconds

-- The `default_…` functions of `SandboxConfig`, for the image that has none.
abbrev pub gib : ℕ
gib = 1024 * 1024 * 1024

abbrev pub default_sandbox : Text → SandboxConfig
default_sandbox default_image = record {
  default_image = default_image;
  default_timeout_seconds = 300;
  default_cpu_millis = 2000;
  default_memory_bytes = 2 * gib;
  default_pids = 256;
  default_tmpfs_bytes = gib;
  heavy_cpu_millis = 4000;
  heavy_memory_bytes = 8 * gib;
  heavy_pids = 512;
  heavy_tmpfs_bytes = 2 * gib;
  agent_uid = 1000;
  agent_gid = 1000;
  workspace_mount = codes "/home/agent";
}

-- Those of `TosConfig`, for the fields that have none.
abbrev pub default_tos : Text → Text → Text → Text → Text → TosConfig
default_tos endpoint region bucket access_key secret_key = record {
  endpoint = endpoint;
  region = region;
  bucket = bucket;
  access_key = access_key;
  secret_key = secret_key;
  key_prefix = codes "sandbox/";
  signed_url_expires_seconds = 3600;
  signed_url_max_seconds = 86400;
  part_size_bytes = 8 * 1024 * 1024;
  multipart_threshold_bytes = 64 * 1024 * 1024;
  upload_timeout_seconds = 300;
}

-- `impl Default for FetchConfig`
abbrev pub default_fetch : FetchConfig
default_fetch = record {
  timeout_seconds = 60;
  max_body_bytes = 1024 * 1024 * 1024;
  allow_private_network = false;
}

pub record DockerConfig : Type 0 where
  pub socket : Text
  pub control_timeout_seconds : ℕ

-- `server.listen` is an address as text.
pub record Config : Type 0 where
  pub listen : Text
  pub docker : DockerConfig
  pub sandbox : SandboxConfig
  pub workspace_root : FilePath
  pub tos : TosConfig
  pub concurrency : ConcurrencyConfig
  pub fetch : FetchConfig

-- Whether the socket is there makes a difference to the log only.
unfoldable pub validate : Env → Config → Io Error (Unit {0})
validate env cfg =
    if not (is_absolute cfg.workspace_root)
    then fail (other root_not_absolute)
    else if cfg.sandbox.agent_uid == 0
    then fail (other uid_zero)
    else if is_nil cfg.sandbox.default_image
    then fail (other image_empty)
    else (do
      found ← attempt (metadata env (components cfg.docker.socket))
      if is_nil cfg.tos.endpoint || is_nil cfg.tos.bucket
          then fail (other tos_required)
          else pure tt)

-- `Config::load`: `decode` is the test of `read_to_string` for UTF-8, `parse` is `toml::from_str`.
unfoldable pub load :
    Env → (Bytes → Result IoError Text) → (Text → Result Text Config) → FilePath → Io Error Config
load env decode parse path = do
  found ← lift_io (read_file env path)
  raw ← lift_io (of_result (decode found))
  cfg ← of_result (map_err (λ e. other (parse_config path e)) (parse raw))
  validate env cfg
  pure cfg

-- A configuration is accepted exactly where its workspace root is an absolute path, the uid of the
-- agent is not root's, and the default image, the endpoint and the bucket are not empty.
pub validate_iff :
    (env : Env) (cfg : Config) (h : History)
    → ((validate env cfg h).1 ≡ ok tt) ↔ (
        (is_absolute cfg.workspace_root ≡ true)
        × (cfg.sandbox.agent_uid ≢ 0)
        × (is_nil cfg.sandbox.default_image ≡ false)
        × (is_nil cfg.tos.endpoint ≡ false)
        × (is_nil cfg.tos.bucket ≡ false))
unfolding validate
validate_iff env cfg h = ground arith

-- Behind the first three checks, all that is asked for is whether the socket is there.
pub validate_asks :
    (env : Env) (cfg : Config) (h : History)
    → (validate env cfg h).1 ≡ ok tt
    → (validate env cfg h).0 ≡ asked_metadata (components cfg.docker.socket) ∷ h
unfolding validate
validate_asks env cfg h accepted =
    let (absolute, uid, image, _, _) = (validate_iff env cfg h).0 accepted in
    ground (arith, absolute, uid, image)
