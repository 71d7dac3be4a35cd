-- ===== src/Service/Import.antt =====
-- `do_import_workspace_object`: a file or a directory, streamed into a workspace.
use scriptorium.World.Fs.{remove_file, write_all, create_dir_all, create_file, flush}
use scriptorium.Workspace.{ensure_home}
use scriptorium.Service.Archive.{
  build_workspace_transfer_temp_path, replace_workspace_file_from_staging,
  replace_workspace_directory_from_archive_path, parent_or_dot, build_workspace_transfer_temp_path,
}
use scriptorium.FilePath.{FilePath}
use scriptorium.Service.{SandboxService, refuse, resolve}
use scriptorium.World.{Io, ◌>>◌, lift_status, pure, ◌>>=◌, fail, ignore, lift_file}
use scriptorium.World.Calls.{Bytes, Env}
use scriptorium.Text.{Text, codes, is_white_space}
use scriptorium.Base.{◌∷◌, ◌+◌, ◌^◌, ◌-◌, ℕ, min, Bool, if◌then◌else◌, all, List, [], length}
use scriptorium.Error.{
  ok, err, Message, Status, invalid_argument, Result, import_needs_header, import_header_once,
  import_header_first, import_empty, import_first_empty, import_encoding_required,
}

-- `WorkspaceObjectEncoding`
pub data Encoding : Type 0 where
  unspecified raw tar_gz : Encoding

pub record ImportHeader : Type 0 where
  pub workspace_id : Text
  pub target_path : Text
  pub encoding : Encoding
  pub content_type : Text

-- The `payload` of a message: `missing` is `None`.
pub data ImportPayload : Type 0 where
  header : ImportHeader → ImportPayload
  chunk : Bytes → ImportPayload
  missing : ImportPayload

pub record ImportResponse : Type 0 where
  pub bytes_written : ℕ
  pub content_type : Text

abbrev pub saturating_add : ℕ → ℕ → ℕ
saturating_add m n = min (m + n) (2 ^ 64 - 1)

-- `trim().is_empty()`
abbrev pub is_blank : Text → Bool
is_blank = all is_white_space

abbrev pub raw_content_type : Text → Text
raw_content_type t = if is_blank t then codes "application/octet-stream" else t

abbrev pub bad_import {ℓ} : {A : Type ℓ} → Message → Io Status A
bad_import = refuse invalid_argument

module _ (env : Env) (svc : SandboxService) (clean : FilePath → FilePath) where
  -- The loop over the messages behind the header.
  unfoldable pub receive_chunks : FilePath → List (Result Status ImportPayload) → ℕ → Io Status ℕ
  receive_chunks staging [] written = pure written
  receive_chunks staging (err status ∷ rest) written = fail status
  receive_chunks staging (ok (header _) ∷ rest) written = bad_import import_header_once
  receive_chunks staging (ok missing ∷ rest) written = bad_import import_empty
  receive_chunks staging (ok (chunk bytes) ∷ rest) written = do
    lift_file env (write_all env staging bytes)
    receive_chunks staging rest (saturating_add written (length bytes))

  -- From the received file on.
  unfoldable pub place_import : ImportHeader → FilePath → FilePath → ℕ → Io Status ImportResponse
  place_import head staging target written = elim head.encoding [
    | raw ↦ do
      lift_status (replace_workspace_file_from_staging env staging target)
      ignore (remove_file env staging)
      pure (record { bytes_written = written; content_type = raw_content_type head.content_type })
    | tar_gz ↦ do
      lift_status (replace_workspace_directory_from_archive_path env staging target)
      ignore (remove_file env staging)
      pure (record { bytes_written = written; content_type = codes "application/gzip" })
    | unspecified ↦ do ignore (remove_file env staging); bad_import import_encoding_required
  ]

  -- From the header on.
  unfoldable pub receive_import :
      ImportHeader → List (Result Status ImportPayload) → Io Status ImportResponse
  receive_import head messages = do
    home ← lift_status (
        ensure_home env svc.workspaces head.workspace_id svc.sandbox_cfg.agent_uid
          svc.sandbox_cfg.agent_gid)
    target ← resolve env svc clean head.workspace_id head.target_path
    lift_file env (create_dir_all env (parent_or_dot target))
    staging ← lift_status (build_workspace_transfer_temp_path env target (codes "import"))
    lift_file env (create_file env staging)
    written ← receive_chunks staging messages 0
    lift_file env (flush env staging)
    place_import head staging target written

  unfoldable pub do_import_workspace_object :
      List (Result Status ImportPayload) → Io Status ImportResponse
  do_import_workspace_object [] = bad_import import_needs_header
  do_import_workspace_object (err status ∷ rest) = fail status
  do_import_workspace_object (ok (chunk _) ∷ rest) = bad_import import_header_first
  do_import_workspace_object (ok missing ∷ rest) = bad_import import_first_empty
  do_import_workspace_object (ok (header head) ∷ rest) = receive_import head rest
