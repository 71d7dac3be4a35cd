-- ===== src/Error.antt =====
-- `error.rs`, `std::io::Error` as far as the sources read it, and `tonic::Status`. The text of a
-- message is kept as a `Message`: its format string by name, with the values put into it.
use scriptorium.Base.{ℕ, ◌≡◌, ◌⊎◌, inl, inr, refl}
use scriptorium.Text.{Text}
use scriptorium.FilePath.{FilePath}

-- `std::io::ErrorKind`: the kinds that the sources tell apart, and all others.
pub data ErrorKind : Type 0 where
  not_found permission_denied other_kind : ErrorKind

pub record IoError : Type 0 where
  pub kind : ErrorKind
  pub text : Text

-- The arguments of `Error::Other(format!(…))` and `Status::…(format!(…))`, one for each place.
pub data Message : Type 0 where
  chown_join extract_join tar_join put_object create_multipart complete_multipart : Text → Message
  missing_upload_id upload_timed_out keys_empty : Message
  -- Not a message of the sources: a loop of the model that has used its fuel.
  out_of_fuel : Message
  upload_part_failed : ℕ → Text → Message
  presigning_config presign_failed : Text → Message
  bad_url unsupported_scheme client_build fetch_failed fetch_body dns_failed dns_empty :
      Text → Message
  url_has_no_host : Message
  non_success_status : ℕ → Message
  body_exceeded : ℕ → ℕ → Message
  disallowed_literal disallowed_resolved : Text → Message
  non_utf8_home : Message
  archive_escapes unsupported_entry : FilePath → Message
  parse_config : FilePath → Text → Message
  root_not_absolute uid_zero image_empty tos_required : Message
  queue_full : ℕ → Message
  semaphore_closed workspace_id_required : Message
  no_such_path : Text → Message
  import_needs_header import_header_first import_first_empty import_header_once import_empty :
      Message
  import_encoding_required export_raw_file export_tar_directory export_encoding_required : Message
  execute_shell_args deliver_args encode_failed : Text → Message

pub data Error : Type 0 where
  invalid_workspace_id : Error
  path_escape workspace_not_found : Text → Error
  docker : Text → Error
  io : IoError → Error
  exec_timeout : ℕ → Error
  other : Message → Error

-- `tonic::Code`, those that the service answers with.
pub data Code : Type 0 where
  invalid_argument not_found deadline_exceeded resource_exhausted internal unknown : Code

-- The text of a status: a message of its own, or `err.to_string()`.
pub data Detail : Type 0 where
  message : Message → Detail
  of_error : Error → Detail

pub record Status : Type 0 where
  pub code : Code
  pub detail : Detail

-- `impl From<Error> for tonic::Status`
abbrev pub code_of : Error → Code
code_of invalid_workspace_id = invalid_argument
code_of (path_escape _) = invalid_argument
code_of (workspace_not_found _) = Code.not_found
code_of (exec_timeout _) = deadline_exceeded
code_of (docker _) = internal
code_of (io _) = internal
code_of (other _) = internal

abbrev pub status_of : Error → Status
status_of err = record { code = code_of err; detail = of_error err }

pub data Result {ℓ κ} (E : Type ℓ) (A : Type κ) : Type (ℓ ⊔ κ) where
  ok : A → Result E A
  err : E → Result E A

-- To split on a result and keep the equation.
pub Result-cases {ℓ κ} :
    {E : Type ℓ} {A : Type κ} (r : Result E A) → ((a : A) × (r ≡ ok a)) ⊎ ((e : E) × (r ≡ err e))
Result-cases (ok a) = inl (a, refl)
Result-cases (err e) = inr (e, refl)
