-- ===== src/Service/UploadedObject.antt =====
-- What `do_upload` of a file leaves in the object store.
use scriptorium.Oss.Cut.{max_parts}
use scriptorium.Oss.Objects.{object}
use scriptorium.Workspace.{resolve_path}
use scriptorium.Oss.Key.{build_key_at}
use scriptorium.Oss.ContentType.{guess_content_type}
use scriptorium.Oss.Upload.{build_key, upload_file}
use scriptorium.Error.{Result, Status, ok}
use scriptorium.Base.{
  ◌<◌, length, ℕ, ◌≢◌, ◌≡◌, [], false, some, ◌∷◌, if◌then◌else◌, is_nil, none, arith, subst, sym,
  refl, ◌≤◌, ◌*◌,
}
use scriptorium.Oss.Stored.{Accepts, StaysReadable, upload_file_stores}
use scriptorium.Text.{Text}
use scriptorium.FilePath.{FilePath}
use scriptorium.Service.{
  SandboxService, UploadResponse, upload_payload, do_upload, name_or, raw_payload,
}
use scriptorium.World.Calls.{Env, Bytes, History, read_clock, asked_metadata}

module _ (env : Env) (svc : SandboxService) (source : FilePath) (contents : Bytes) where
  -- The answer to the upload of the source, without packing.
  abbrev pub raw_response : Text → UploadResponse
  raw_response key = record {
    object_key = key;
    size_bytes = length contents;
    content_type = guess_content_type source;
    sha256_hex = env.sha256_hex contents;
    basename = name_or "artifact" source;
  }

  -- The upload succeeds, and the object at the key is the file.
  abbrev pub IsUploaded : Text → History × Result Status UploadResponse → Type 0
  IsUploaded key s =
      (s.1 ≡ ok (raw_response key)) × (object env svc.oss.bucket key s.0 ≡ some contents)

module _ (env : Env) (svc : SandboxService) (clean : FilePath → FilePath)
    (accepts : (key : Text) → Accepts env svc.oss key) (size_pos : 0 < svc.oss.part_size)
    (source : FilePath) (contents : Bytes) (file : StaysReadable env source contents) where
  abbrev key_at : Text → Text → ℕ → Text
  key_at tenant_id workspace_id nanos =
      build_key_at svc.oss.key_prefix tenant_id workspace_id (name_or "artifact" source) nanos

  uploaded :
      (key : Text) (s : History × Result Status UploadResponse) (g : History)
      → s ≡ (g, ok (raw_response env svc source contents key))
      → object env svc.oss.bucket key g ≡ some contents
      → IsUploaded env svc source contents key s
  uploaded key s g e held = subst (IsUploaded env svc source contents key) (sym e) (refl, held)

  upload_payload_stores :
      (fuel : ℕ) (workspace_id tenant_id label : Text) (h : History)
      → length contents < fuel
      → length contents ≤ max_parts * svc.oss.part_size
      → IsUploaded env svc source contents (key_at tenant_id workspace_id (env.now h)) (
          upload_payload env svc clean fuel workspace_id tenant_id label
            (raw_payload env svc clean source)
            h)
  unfolding upload_payload build_key
  upload_payload_stores fuel workspace_id tenant_id label h enough fits =
      let key = key_at tenant_id workspace_id (env.now h) in
      let h₁ = read_clock ∷ h in
      let given = if is_nil label then none else some label in
      let (e, held) =
        upload_file_stores env svc.oss key (guess_content_type source) source contents given
          (accepts key) file fuel h₁ size_pos enough fits in
      uploaded key
        (upload_payload env svc clean fuel workspace_id tenant_id label
          (raw_payload env svc clean source) h)
        (upload_file env svc.oss fuel key source (guess_content_type source) given h₁).0
        (ground (arith, e)) held

  -- Where the object store accepts requests in time, parts with the numbers from 1 to 10000 and lists
  -- that number them from 1 on included, the part size is not 0, and the source is a file that stays
  -- as it is and is at most 10000 parts long, an upload without `compress` of a path that resolves to
  -- the source succeeds, for a workspace id that is not empty and with fuel beyond the file's length:
  -- its answer has a key that is built from the tenant, the workspace and the file's name, with the
  -- size, SHA-256 and content type of the file, and the object at that key is the file.
  pub do_upload_stores :
      (fuel : ℕ) (temp_dir : FilePath) (workspace_id tenant_id source_path label : Text)
      (h : History)
      → workspace_id ≢ []
      → resolve_path clean svc.workspaces workspace_id source_path ≡ ok source
      → length contents < fuel
      → length contents ≤ max_parts * svc.oss.part_size
      → (nanos : ℕ) × IsUploaded env svc source contents
          (build_key_at svc.oss.key_prefix tenant_id workspace_id (name_or "artifact" source) nanos)
          (do_upload env svc clean fuel temp_dir workspace_id tenant_id source_path false label h)
  unfolding do_upload
  do_upload_stores fuel temp_dir workspace_id tenant_id source_path label h named resolved enough
        fits =
      let h₁ = asked_metadata source ∷ h in
      let (meta, found, is_file, _) = file.found h in
      let some_id : is_nil workspace_id ≡ false = given workspace_id named in
      (
        env.now h₁,
        subst (IsUploaded env svc source contents (key_at tenant_id workspace_id (env.now h₁)))
            {x = upload_payload env svc clean fuel workspace_id tenant_id label
              (raw_payload env svc clean source) h₁}
            {y = do_upload env svc clean fuel temp_dir workspace_id tenant_id source_path false
              label h}
            (ground (arith, some_id, resolved, found, is_file))
            (upload_payload_stores fuel workspace_id tenant_id label h₁ enough fits),
      )
    where
      given : (id : Text) → id ≢ [] → is_nil id ≡ false
      given [] named = absurd (named refl)
      given (c ∷ id) named = refl
