-- ===== src/Service/Handlers.antt =====
-- The RPCs of src/service.rs that pass a request on to one of the `do_…` functions.
use scriptorium.Fetch.{FetchOutcome}
use scriptorium.Runtime.{ExecOutcome}
use scriptorium.Error.{Result, Status}
use scriptorium.World.{Io}
use scriptorium.FilePath.{FilePath}
use scriptorium.Base.{List, Bool, ℕ}
use scriptorium.World.Calls.{Env}
use scriptorium.Text.{Text}
use scriptorium.Service.{
  SandboxService, do_fetch, do_upload, do_exec_oneshot, ExecRequest, UploadResponse,
}
use scriptorium.Service.Import.{do_import_workspace_object, ImportPayload, ImportResponse}

pub record FetchRequest : Type 0 where
  pub workspace_id : Text
  pub url : Text
  pub target_path : Text
  pub headers : List (Text × Text)
  pub timeout_seconds : ℕ

pub record UploadRequest : Type 0 where
  pub workspace_id : Text
  pub tenant_id : Text
  pub source_path : Text
  pub compress : Bool
  pub label : Text

module _ (env : Env) (svc : SandboxService) where
  unfoldable pub exec : ExecRequest → Io Status ExecOutcome
  exec req = do_exec_oneshot env svc req

  module _ (clean : FilePath → FilePath) where
    unfoldable pub fetch_into_workspace : FetchRequest → Io Status FetchOutcome
    fetch_into_workspace inner =
        do_fetch env svc clean inner.workspace_id inner.url inner.target_path inner.headers
          inner.timeout_seconds

    unfoldable pub upload_to_oss : ℕ → FilePath → UploadRequest → Io Status UploadResponse
    upload_to_oss fuel temp_dir inner =
        do_upload env svc clean fuel temp_dir inner.workspace_id inner.tenant_id inner.source_path
          inner.compress inner.label

    unfoldable pub import_workspace_object :
        List (Result Status ImportPayload) → Io Status ImportResponse
    import_workspace_object stream = do_import_workspace_object env svc clean stream
