-- ===== src/Service/Export.antt =====
-- `do_export_workspace_object`, and the stream of the RPC `export_workspace_object`.
use scriptorium.Service.Archive.{transfer_chunk_size, sha256_file}
use scriptorium.World.Fs.{read, open_file, metadata}
use scriptorium.Service.{SandboxService, Payload, refuse, raw_payload, resolve, find, pack_payload}
use scriptorium.World.{Io, ◌>>=◌, lift_file, pure, lift_status}
use scriptorium.Service.Import.{Encoding, raw, tar_gz, unspecified}
use scriptorium.World.Calls.{Bytes, History, Env, removed_file}
use scriptorium.FilePath.{FilePath}
use scriptorium.Text.{Text}
use scriptorium.Base.{
  ◌∷◌, ◌+◌, Option, List, ℕ, some, Bool, [], if◌then◌else◌, none, suc, is_nil, zero, length, not,
}
use scriptorium.Error.{
  ok, err, Result, Status, invalid_argument, export_raw_file, workspace_id_required,
  export_tar_directory, export_encoding_required,
}

pub record ExportRequest : Type 0 where
  pub workspace_id : Text
  pub source_path : Text
  pub encoding : Encoding

pub record ExportHeader : Type 0 where
  pub source_path : Text
  pub basename : Text
  pub encoding : Encoding
  pub content_type : Text
  pub size_bytes : ℕ
  pub sha256_hex : Text

-- `PreparedWorkspaceExport`: the file to remove stands for the guard.
pub record PreparedExport : Type 0 where
  pub header : ExportHeader
  pub payload_path : FilePath
  pub cleanup : Option FilePath

-- The `payload` of a response.
pub data ExportItem : Type 0 where
  header_item : ExportHeader → ExportItem
  chunk_item : Bytes → ExportItem

-- A stream that was polled some times and then dropped: the requests that it made, and its items.
abbrev pub Polled : Type 0
Polled = History × List (Result Status ExportItem)

-- An item, and what follows it.
abbrev pub yield_item : ExportItem → Polled → Polled
yield_item item (h, rest) = (h, ok item ∷ rest)

-- `TempFileGuard` going away.
abbrev pub drop_guard : Option FilePath → History → History
drop_guard none h = h
drop_guard (some tmp) h = removed_file tmp ∷ h

-- A guard that goes away with an error, and else is handed on.
abbrev pub guarded {ℓ κ} : {E : Type ℓ} {A : Type κ} → Option FilePath → Io E A → Io E A
guarded cleanup m h =
    let s = m h in elim s.1 [ ok a ↦ (s.0, ok a) | err e ↦ (drop_guard cleanup s.0, err e) ]

module _ (env : Env) (svc : SandboxService) (clean : FilePath → FilePath)
    (temp_dir : FilePath) where
  -- The match on the encoding.
  unfoldable pub export_payload : Encoding → Bool → FilePath → Io Status Payload
  export_payload raw is_dir source =
      if is_dir
      then refuse invalid_argument export_raw_file
      else pure (raw_payload env svc clean source)
  export_payload tar_gz is_dir source =
      if not is_dir
      then refuse invalid_argument export_tar_directory
      else pack_payload env svc clean temp_dir source
  export_payload unspecified is_dir source = refuse invalid_argument export_encoding_required

  -- From the payload on.
  unfoldable pub describe_payload : ℕ → ExportRequest → Payload → Io Status PreparedExport
  describe_payload fuel req (path, basename, content_type, cleanup) = guarded cleanup (do
    meta ← lift_file env (metadata env path)
    sha ← lift_status (sha256_file env fuel path)
    pure (record {
      header = record {
        source_path = req.source_path;
        basename = basename;
        encoding = req.encoding;
        content_type = content_type;
        size_bytes = meta.len;
        sha256_hex = sha;
      };
      payload_path = path;
      cleanup = cleanup;
    }))

  unfoldable pub do_export_workspace_object : ℕ → ExportRequest → Io Status PreparedExport
  do_export_workspace_object fuel req =
      if is_nil req.workspace_id then refuse invalid_argument workspace_id_required else (do
        source ← resolve env svc clean req.workspace_id req.source_path
        meta ← find env svc clean req.source_path source
        payload ← export_payload req.encoding meta.is_dir source
        describe_payload fuel req payload)

-- The stream behind its header and the opening of the file, for as many polls as are left.
unfoldable pub send_chunks : Env → ℕ → PreparedExport → ℕ → History → Polled
send_chunks env zero p offset h = (drop_guard p.cleanup h, [])
send_chunks env (suc polls) p offset h =
    let s = read env p.payload_path offset transfer_chunk_size h in
    let more = λ (bytes : Bytes).
      yield_item (chunk_item bytes) (send_chunks env polls p (offset + length bytes) s.0) in
    elim s.1 [
      | err e ↦ (drop_guard p.cleanup s.0, err (env.io_status e) ∷ [])
      | ok bytes ↦ if is_nil bytes then (drop_guard p.cleanup s.0, []) else more bytes
    ]

-- Behind the header.
unfoldable pub send_file : Env → ℕ → PreparedExport → History → Polled
send_file env zero p h = (drop_guard p.cleanup h, [])
send_file env (suc polls) p h =
    let s = open_file env p.payload_path h in
    elim s.1 [
      | err e ↦ (drop_guard p.cleanup s.0, err (env.io_status e) ∷ [])
      | ok _ ↦ send_chunks env (suc polls) p 0 s.0
    ]

-- The stream of the RPC.
unfoldable pub export_stream : Env → ℕ → PreparedExport → History → Polled
export_stream env zero p h = (drop_guard p.cleanup h, [])
export_stream env (suc polls) p h = yield_item (header_item p.header) (send_file env polls p h)

-- The RPC `export_workspace_object`, with the stream that it answers with.
unfoldable pub export_workspace_object :
    Env
    → SandboxService
    → (FilePath → FilePath)
    → FilePath
    → ℕ
    → ExportRequest
    → Io Status (ℕ → History → Polled)
export_workspace_object env svc clean temp_dir fuel req = do
  prepared ← do_export_workspace_object env svc clean temp_dir fuel req
  pure (λ polls. export_stream env polls prepared)
