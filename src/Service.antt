-- ===== src/Service.antt =====
-- src/service.rs: the state of the `SandboxService`, the exec permits and the three `do_…` functions
-- that the RPCs and the tools share. `clean` is the crate `path_clean`, `temp_dir` the directory of
-- `std::env::temp_dir`.
pub mod Archive
pub mod Files
pub mod Import
pub mod Permits
pub mod Lifecycle
pub mod Concurrency
pub mod Confined
pub mod UploadedObject
pub mod Within
pub mod Params
pub mod Received
pub mod Export
pub mod Rpc
pub mod Handlers
pub mod CallTool
pub mod Fetched
pub mod Stored
pub mod Imported
pub mod Uploaded
pub mod Packed
pub mod Delivered
pub mod Exported
pub mod Roundtrip
use scriptorium.World.Fs.{metadata, set_permissions}
use scriptorium.Config.{ConcurrencyConfig, effective_queue_timeout, effective_max}
use scriptorium.Service.Archive.{tar_gz_into_temp}
use scriptorium.Service.Files.{FileInfo, collect_files}
use scriptorium.Fetch.{FetchOutcome, FetchConfig, fetch_to_file}
use scriptorium.Oss.Upload.{OssClient, build_key, upload_file}
use scriptorium.Oss.ContentType.{guess_content_type}
use scriptorium.Workspace.{WorkspaceManager, ensure_home, delete, resolve_path}
use scriptorium.FilePath.{FilePath, file_name}
use scriptorium.World.{
  Io, fail, lift_status, ◌>>=◌, of_result, lift_err, attempt, ◌>>◌, pure, lift_io,
}
use scriptorium.Runtime.{SandboxConfig, ExecParams, ExecOutcome, exec_oneshot}
use scriptorium.Text.{Text, codes}
use scriptorium.Base.{
  ◌==◌, ◌∷◌, ◌++◌, ◌||◌, ℕ, Option, String, List, if◌then◌else◌, Bool, some, is_nil, none, [],
}
use scriptorium.Error.{
  ok, err, not_found, permission_denied, other_kind, Code, io, Message, IoError, Status, Error,
  message, no_such_path, internal, invalid_argument, status_of, semaphore_closed,
  workspace_id_required, resource_exhausted, queue_full,
}
use scriptorium.World.Calls.{
  granted, closed, timed_out, Env, released_permit, removed_file, acquired_permit, Metadata,
}

pub record ResourceLimits : Type 0 where
  pub cpu_millis : ℕ
  pub memory_bytes : ℕ
  pub pids : ℕ
  pub tmpfs_bytes : ℕ

pub record ExecRequest : Type 0 where
  pub workspace_id : Text
  pub tenant_id : Text
  pub command : Text
  pub timeout_seconds : ℕ
  pub env : List (Text × Text)
  pub image : Text
  pub limits : Option ResourceLimits

pub record UploadResponse : Type 0 where
  pub object_key : Text
  pub size_bytes : ℕ
  pub content_type : Text
  pub sha256_hex : Text
  pub basename : Text

pub record SandboxService : Type 0 where
  pub sandbox_cfg : SandboxConfig
  pub workspaces : WorkspaceManager
  pub oss : OssClient
  pub fetch_cfg : FetchConfig
  pub exec_queue_timeout : Option ℕ
  pub exec_permit_capacity : ℕ

unfoldable pub new :
    SandboxConfig → WorkspaceManager → OssClient → FetchConfig → ConcurrencyConfig → SandboxService
new sandbox_cfg workspaces oss fetch_cfg concurrency = record {
  sandbox_cfg = sandbox_cfg;
  workspaces = workspaces;
  oss = oss;
  fetch_cfg = fetch_cfg;
  exec_queue_timeout = effective_queue_timeout concurrency;
  exec_permit_capacity = effective_max concurrency;
}

abbrev pub or_default : ℕ → ℕ → ℕ
or_default n d = if n == 0 then d else n

abbrev pub no_limits : ResourceLimits
no_limits = record { cpu_millis = 0; memory_bytes = 0; pids = 0; tmpfs_bytes = 0 }

abbrev pub limits_of : Option ResourceLimits → ResourceLimits
limits_of none = no_limits
limits_of (some l) = l

-- `return Err(Status::…(…))` of a handler.
abbrev pub refuse {ℓ} : {A : Type ℓ} → Code → Message → Io Status A
refuse code m = fail (record { code = code; detail = message m })

-- Where metadata is missing, the path is named.
abbrev pub no_metadata : Text → IoError → Status
no_metadata path e = elim e.kind [
  | not_found ↦ record { code = Code.not_found; detail = message (no_such_path path) }
  | permission_denied ↦ status_of (io e)
  | other_kind ↦ status_of (io e)
]

abbrev pub name_or : String → FilePath → Text
name_or s source = elim (file_name source) [ none ↦ codes s | some name ↦ name ]

-- `TempFileGuard`: the file is removed when the scope is left.
abbrev pub with_temp_file {ℓ κ} :
    {E : Type ℓ} {A : Type κ} → Env → Option FilePath → Io E A → Io E A
with_temp_file env none m h = m h
with_temp_file env (some tmp) m h = let s = m h in (removed_file tmp ∷ s.0, s.1)

-- The permit is dropped when the scope is left.
abbrev pub with_permit {ℓ κ} : {E : Type ℓ} {A : Type κ} → Io E A → Io E A
with_permit m h = let s = m h in (released_permit ∷ s.0, s.1)

-- Of the payload: its path, its basename, its content type, and the file to remove.
abbrev pub Payload : Type 0
Payload = FilePath × Text × Text × Option FilePath

module _ (env : Env) (svc : SandboxService) where
  -- A permit is noted once it is granted. Without a timeout the wait goes on until then, unless the
  -- semaphore is closed.
  unfoldable pub acquire_exec_permit : Io Status (Unit {0})
  acquire_exec_permit h = elim (env.acquire h) [
    | granted ↦ (acquired_permit ∷ h, ok tt)
    | closed ↦ refuse internal semaphore_closed h
    | timed_out ↦ elim svc.exec_queue_timeout [
      | none ↦ (acquired_permit ∷ h, ok tt)
      | some _ ↦ refuse resource_exhausted (queue_full svc.exec_permit_capacity) h
    ]
  ]

  unfoldable pub exec_params : ExecRequest → FilePath → ExecParams
  exec_params req home =
      let l = limits_of req.limits in
      record {
        workspace_id = req.workspace_id;
        tenant_id = req.tenant_id;
        command = req.command;
        timeout = or_default req.timeout_seconds svc.sandbox_cfg.default_timeout_seconds;
        env = req.env;
        image = if is_nil req.image then svc.sandbox_cfg.default_image else req.image;
        host_home_dir = home;
        cpu_millis = or_default l.cpu_millis svc.sandbox_cfg.default_cpu_millis;
        memory_bytes = or_default l.memory_bytes svc.sandbox_cfg.default_memory_bytes;
        pids = or_default l.pids svc.sandbox_cfg.default_pids;
        tmpfs_bytes = or_default l.tmpfs_bytes svc.sandbox_cfg.default_tmpfs_bytes;
      }

  unfoldable pub build_exec_params : ExecRequest → Io Error ExecParams
  build_exec_params req = do
    home ←
        ensure_home env svc.workspaces req.workspace_id svc.sandbox_cfg.agent_uid
          svc.sandbox_cfg.agent_gid
    pure (exec_params req home)

  -- `ExecResponse` has the fields of `ExecOutcome`.
  unfoldable pub do_exec_oneshot : ExecRequest → Io Status ExecOutcome
  do_exec_oneshot req = do
    acquire_exec_permit
    with_permit (do
      params ← lift_status (build_exec_params req)
      lift_status (exec_oneshot env svc.sandbox_cfg params))

  module _ (clean : FilePath → FilePath) where
    abbrev pub resolve : Text → Text → Io Status FilePath
    resolve id relative = lift_status (of_result (resolve_path clean svc.workspaces id relative))

    -- `FetchResponse` has the fields of `FetchOutcome`.
    unfoldable pub do_fetch : Text → Text → Text → List (Text × Text) → ℕ → Io Status FetchOutcome
    do_fetch workspace_id url target_path headers timeout_seconds = do
      home ← lift_status (
          ensure_home env svc.workspaces workspace_id svc.sandbox_cfg.agent_uid
            svc.sandbox_cfg.agent_gid)
      target ← resolve workspace_id target_path
      out ← lift_status (
          fetch_to_file env svc.fetch_cfg url target headers
            (or_default timeout_seconds svc.fetch_cfg.timeout_seconds))
      lift_status (lift_io (set_permissions env target 0o644))
      pure out

    abbrev pub find : Text → FilePath → Io Status Metadata
    find path source = lift_err (no_metadata path) (metadata env source)

    abbrev pub pack_payload : FilePath → FilePath → Io Status Payload
    pack_payload temp_dir source = do
      let out_basename = name_or "workspace" source ++ codes ".tar.gz"
      tmp ← lift_status (tar_gz_into_temp env temp_dir source out_basename)
      pure (tmp, out_basename, codes "application/gzip", some tmp)

    abbrev pub raw_payload : FilePath → Payload
    raw_payload source = (source, name_or "artifact" source, guess_content_type source, none)

    unfoldable pub upload_payload : ℕ → Text → Text → Text → Payload → Io Status UploadResponse
    upload_payload fuel workspace_id tenant_id label (path, basename, content_type, cleanup) =
        with_temp_file env cleanup (do
          key ← lift_status (build_key env svc.oss tenant_id workspace_id basename)
          out ← lift_status (
              upload_file env svc.oss fuel key path content_type
                (if is_nil label then none else some label))
          pure (record {
            object_key = out.key;
            size_bytes = out.size_bytes;
            content_type = out.content_type;
            sha256_hex = out.sha256_hex;
            basename = basename;
          }))

    unfoldable pub do_upload :
        ℕ → FilePath → Text → Text → Text → Bool → Text → Io Status UploadResponse
    do_upload fuel temp_dir workspace_id tenant_id source_path compress label =
        if is_nil workspace_id then refuse invalid_argument workspace_id_required else (do
          source ← resolve workspace_id source_path
          meta ← find source_path source
          payload ←
              (if meta.is_dir || compress
                then pack_payload temp_dir source
                else pure (raw_payload source))
          upload_payload fuel workspace_id tenant_id label payload)

    -- The RPC `list_files`.
    unfoldable pub list_files : ℕ → Text → Text → Bool → Io Status (List FileInfo)
    list_files fuel workspace_id path recursive = do
      base ← resolve workspace_id path
      found ← attempt (metadata env base)
      elim found [
        | ok _ ↦ do
          root ← resolve workspace_id []
          lift_status (collect_files env fuel root recursive (base ∷ []) [])
        | err e ↦ elim e.kind [
          | not_found ↦ pure []
          | permission_denied ↦ fail (status_of (io e))
          | other_kind ↦ fail (status_of (io e))
        ]
      ]

  -- The RPC `delete_workspace`.
  unfoldable pub delete_workspace : Text → Io Status Bool
  delete_workspace id = lift_status (delete env svc.workspaces id)
