-- ===== src/Service/Delivered.antt =====
-- What `do_upload` may read.
use scriptorium.Workspace.{resolve_path}
use scriptorium.FilePath.Laws.{IsNormal}
use scriptorium.Workspace.Containment.{IsCleanRoot, home_names, resolve_path_contained}
use scriptorium.Workspace.Lexical.{IsPathClean}
use scriptorium.Service.Archive.{tar_gz_into_temp}
use scriptorium.Oss.ContentType.{guess_content_type}
use scriptorium.Oss.Upload.{build_key}
use scriptorium.Error.{
  Status, status_of, ok, Result-cases, err, invalid_argument, message, workspace_id_required,
}
use scriptorium.World.{Io, ◌>>=◌, lift_status, pure}
use scriptorium.Text.{Text, codes}
use scriptorium.Base.{
  Option, ℕ, some, none, if◌then◌else◌, is_nil, Bool, ◌∷◌, ◌||◌, Bool-cases, inr, inl, subst, arith,
  ◌++◌, refl, ◌≡◌, ◌⊎◌, All,
}
use scriptorium.World.Calls.{Env, Call, removed_file, Metadata, read_clock, History, asked_metadata}
use scriptorium.FilePath.{FilePath}
use scriptorium.Service.Uploaded.{IsUploadCall, IsTemp, IsPayload, upload_file-Makes}
use scriptorium.Service.Packed.{tar_gz_into_temp-Makes, tar_gz_into_temp-IsTemp}
use scriptorium.World.Trace.{
  Adds, Makes, Adds-trans, Makes-bind, Adds-one, Makes-lift, Makes-result,
}
use scriptorium.Service.{
  upload_payload, SandboxService, UploadResponse, with_temp_file, pack_payload, raw_payload,
  name_or, do_upload,
}

-- What stands for the file to remove is an archive of this upload.
abbrev IsCleanup : FilePath → Option FilePath → Type 0
IsCleanup temp_dir none = Unit
IsCleanup temp_dir (some tmp) = IsTemp temp_dir tmp

module _ (env : Env) (svc : SandboxService) (clean : FilePath → FilePath)
    (temp_dir source : FilePath) where
  abbrev Allowed : Call → Type 0
  Allowed = IsUploadCall temp_dir source

  with_temp_file-Makes {ℓ κ} :
      {E : Type ℓ} {A : Type κ} (cleanup : Option FilePath) (m : Io E A)
      → IsCleanup temp_dir cleanup
      → Makes Allowed m
      → Makes Allowed (with_temp_file env cleanup m)
  with_temp_file-Makes none m is_cleanup made = record { makes = made.makes }
  with_temp_file-Makes (some tmp) m is_cleanup made = record {
    makes = λ h.
        Adds-trans h (m h).0 (removed_file tmp ∷ (m h).0) (made.makes h)
          (Adds-one (removed_file tmp) (m h).0 is_cleanup);
  }

  upload_payload-Makes :
      (fuel : ℕ) (workspace_id tenant_id label basename content_type : Text)
      (cleanup : Option FilePath) (path : FilePath)
      → IsPayload temp_dir source path
      → IsCleanup temp_dir cleanup
      → Makes Allowed (
          upload_payload env svc clean fuel workspace_id tenant_id label
            (path, basename, content_type, cleanup))
  unfolding upload_payload build_key
  upload_payload-Makes fuel workspace_id tenant_id label basename content_type cleanup path
        is_payload is_cleanup =
      with_temp_file-Makes cleanup _ is_cleanup (
        Makes-bind (lift_status (build_key env svc.oss tenant_id workspace_id basename)) _
          (record { makes = λ h. Adds-one read_clock h tt })
          (λ key.
            Makes-bind _ _
              (Makes-lift status_of _ (
                upload_file-Makes env svc.oss temp_dir source path is_payload fuel key content_type
                  (if is_nil label then none else some label)))
              (λ out. Makes-result (
                ok (record {
                  object_key = out.key;
                  size_bytes = out.size_bytes;
                  content_type = out.content_type;
                  sha256_hex = out.sha256_hex;
                  basename = basename;
                })))))

  -- From the metadata of the source on.
  deliver : ℕ → Text → Text → Bool → Text → Metadata → Io Status UploadResponse
  deliver fuel workspace_id tenant_id compress label meta =
      (if meta.is_dir || compress
        then pack_payload env svc clean temp_dir source
        else pure (raw_payload env svc clean source))
      >>= upload_payload env svc clean fuel workspace_id tenant_id label

  deliver-Makes :
      (fuel : ℕ) (workspace_id tenant_id : Text) (compress : Bool) (label : Text) (meta : Metadata)
      (h : History)
      → Adds Allowed h (deliver fuel workspace_id tenant_id compress label meta h).0
  unfolding deliver
  deliver-Makes fuel workspace_id tenant_id compress label meta h =
      elim (Bool-cases (meta.is_dir || compress)) [
        | inr as_is ↦
            let made =
              upload_payload-Makes fuel workspace_id tenant_id label (name_or "artifact" source)
                (guess_content_type source) none source (inl refl) tt in
            subst (Adds Allowed h) (ground (arith, as_is)) (made.makes h)
        | inl packs ↦
            let out_basename = name_or "workspace" source ++ codes ".tar.gz" in
            let s = tar_gz_into_temp env temp_dir source out_basename h in
            let packed = (tar_gz_into_temp-Makes env temp_dir source out_basename).makes h in
            elim (Result-cases s.1) [
              | inr (e, p) ↦ subst (Adds Allowed h) {x = s.0} (ground (arith, packs, p)) packed
              | inl (tmp, p) ↦
                  let temp = tar_gz_into_temp-IsTemp env temp_dir source out_basename h tmp p in
                  let made =
                    upload_payload-Makes fuel workspace_id tenant_id label out_basename
                      (codes "application/gzip") (some tmp) tmp (inr temp) temp in
                  let t =
                    upload_payload env svc clean fuel workspace_id tenant_id label
                      (tmp, out_basename, codes "application/gzip", some tmp) s.0 in
                  subst (Adds Allowed h) {x = t.0} (ground (arith, packs, p))
                    (Adds-trans h s.0 t.0 packed (made.makes s.0))
            ]
      ]

module _ (env : Env) (svc : SandboxService) (clean : FilePath → FilePath) (laws : IsPathClean clean)
    (ns : FilePath) (root : IsCleanRoot svc.workspaces ns) where
  -- Where the manager's root is absolute and holds neither `.` nor `..`, `do_upload` either fails
  -- without a request, or there is one path below the home of the workspace, the root, the id, `home`
  -- and then names only, such that all its requests to the file system look at that path or at an
  -- archive in the temporary directory, and create, fill or remove only the latter. So it is on all
  -- errors, and where the time is up.
  pub do_upload_contained :
      (fuel : ℕ) (temp_dir : FilePath) (id tenant_id path : Text) (compress : Bool) (label : Text)
      (h : History)
      → let s = do_upload env svc clean fuel temp_dir id tenant_id path compress label h in
        ((s.0 ≡ h) × ((e : Status) × (s.1 ≡ err e)))
        ⊎ ((rest : FilePath) × All IsNormal rest
            × Adds (IsUploadCall temp_dir (svc.workspaces.root ++ home_names id ++ rest)) h s.0)
  unfolding do_upload deliver
  do_upload_contained fuel temp_dir id tenant_id path compress label h =
      elim (Bool-cases (is_nil id)) [
        | inl blank ↦ inl (
          ground (arith, blank),
          (
            record { code = invalid_argument; detail = message workspace_id_required },
            ground (arith, blank),
          ),
        )
        | inr named ↦ elim (Result-cases (resolve_path clean svc.workspaces id path)) [
          | inr (why, p) ↦ inl (ground (arith, named, p), (status_of why, ground (arith, named, p)))
          | inl (source, p) ↦
              let (rest, at, names) =
                resolve_path_contained clean laws svc.workspaces ns root id path p in
              let asked : Adds (IsUploadCall temp_dir source) h (asked_metadata source ∷ h) =
                Adds-one (asked_metadata source) h (inl refl) in
              let added : Adds (IsUploadCall temp_dir source) h
                  (do_upload env svc clean fuel temp_dir id tenant_id path compress label h).0 =
                elim (Result-cases (env.metadata h source)) [
                  | inr (e, q) ↦
                      subst (Adds (IsUploadCall temp_dir source) h) {x = asked_metadata source ∷ h}
                        (ground (arith, named, p, q)) asked
                  | inl (meta, q) ↦
                      let s =
                        deliver env svc clean temp_dir source fuel id tenant_id compress label meta
                          (asked_metadata source ∷ h) in
                      subst (Adds (IsUploadCall temp_dir source) h) {x = s.0}
                        (ground (arith, named, p, q))
                        (Adds-trans h (asked_metadata source ∷ h) s.0 asked (
                          deliver-Makes env svc clean temp_dir source fuel id tenant_id compress
                            label meta (asked_metadata source ∷ h)))
                ] in
              inr (
                rest,
                names,
                subst
                    (λ q.
                      Adds (IsUploadCall temp_dir q) h
                        (do_upload env svc clean fuel temp_dir id tenant_id path compress label
                          h).0)
                    at added,
              )
        ]
      ]
