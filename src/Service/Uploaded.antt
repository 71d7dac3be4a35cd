-- ===== src/Service/Uploaded.antt =====
-- Which files `do_upload` touches.

use scriptorium.World.Fs.{read, read_file, open_file, metadata}
use scriptorium.Error.{
  ok, Result, err, Error, other, io, missing_upload_id, Message, out_of_fuel, upload_part_failed,
  upload_timed_out, Result-cases,
}
use scriptorium.World.{pure, lift_io, Io, fail, attempt, ◌>>=◌, with_timeout}
use scriptorium.Base.{
  ◌≡◌, ◌⊎◌, ℕ, ◌++◌, ◌∷◌, suc, [], ltb, zero, is_nil, ◌+◌, length, ◌-◌, Option, List, some, none,
  inl, subst, arith, inr, if◌then◌else◌, ◌%◌,
}
use scriptorium.Text.{Text, codes}
use scriptorium.World.Calls.{
  Env, Call, asked_metadata, opened, Bytes, read_at, read_whole, packed_dir, packed_file,
  created_file, removed_file, uploaded_part, completed_multipart, aborted_multipart, read_clock,
  CompletedPart, History,
}
use scriptorium.FilePath.{FilePath, join, normal}
use scriptorium.World.Trace.{
  Makes, Makes-bind, Makes-if, Makes-result, Makes-one, Makes-lift, with_timeout-Makes, Adds,
  Makes-attempt, Adds-one, Adds-trans, Makes-then,
}
use scriptorium.Oss.Upload.{
  OssClient, fill, upload_file_single, send_parts, stream_parts, finish_multipart,
  upload_file_multipart, upload_file, upload_part, UploadOutcome, outcome, i32_mod,
}

-- The path of an archive of `tar_gz_into_temp`.
abbrev pub IsTemp : FilePath → FilePath → Type 0
IsTemp temp_dir p = (name : Text) × (p ≡ join temp_dir (normal (codes "scriptorium-" ++ name) ∷ []))

abbrev pub IsPayload : FilePath → FilePath → FilePath → Type 0
IsPayload temp_dir source p = (p ≡ source) ⊎ IsTemp temp_dir p

-- A request that looks at no file but the source and archives in the temporary directory, and
-- changes only the latter.
abbrev pub IsUploadCall : FilePath → FilePath → Call → Type 0
IsUploadCall temp_dir source (asked_metadata p) = IsPayload temp_dir source p
IsUploadCall temp_dir source (opened p) = IsPayload temp_dir source p
IsUploadCall temp_dir source (read_at p offset) = IsPayload temp_dir source p
IsUploadCall temp_dir source (read_whole p) = IsPayload temp_dir source p
IsUploadCall temp_dir source (packed_dir p name q) = (p ≡ source) × IsTemp temp_dir q
IsUploadCall temp_dir source (packed_file p name q) = (p ≡ source) × IsTemp temp_dir q
IsUploadCall temp_dir source (created_file p) = IsTemp temp_dir p
IsUploadCall temp_dir source (removed_file p) = IsTemp temp_dir p
IsUploadCall temp_dir source read_clock = Unit
IsUploadCall temp_dir source (Call.put_object bucket key bytes content_type label) = Unit
IsUploadCall temp_dir source (Call.created_multipart bucket key content_type label) = Unit
IsUploadCall temp_dir source (uploaded_part bucket key upload_id n bytes) = Unit
IsUploadCall temp_dir source (completed_multipart bucket key upload_id parts) = Unit
IsUploadCall temp_dir source (aborted_multipart bucket key upload_id) = Unit
IsUploadCall temp_dir source _ = ⊥

module _ (env : Env) (c : OssClient) (temp_dir source path : FilePath)
    (payload : IsPayload temp_dir source path) where
  abbrev Allowed : Call → Type 0
  Allowed = IsUploadCall temp_dir source

  fill-Makes :
      (fuel offset room : ℕ) (filled : Bytes)
      → Makes Allowed (fill env fuel path offset room filled)
  unfolding fill
  fill-Makes zero offset room filled = Makes-result (ok filled)
  fill-Makes (suc fuel) offset room filled =
      Makes-if (ltb 0 room) _ (pure filled)
        (Makes-bind (read env path offset room) _ (Makes-one (read_at path offset) _ payload)
          (λ bytes.
            Makes-if (is_nil bytes) (pure filled) _ (Makes-result (ok filled))
              (fill-Makes fuel (offset + length bytes) (room - length bytes) (filled ++ bytes))))
        (Makes-result (ok filled))

  upload_file_single-Makes :
      (key content_type : Text) (label : Option Text) (size : ℕ)
      → Makes Allowed (upload_file_single env c key path content_type label size)
  unfolding upload_file_single
  upload_file_single-Makes key content_type label size =
      Makes-bind (lift_io (read_file env path)) _
        (Makes-lift io (read_file env path) (Makes-one (read_whole path) _ payload))
        (λ bytes.
          Makes-then _ _
            (Makes-lift (λ e. other (Message.put_object e)) _
              (Makes-one (Call.put_object c.bucket key bytes content_type label)
                (λ h. env.put h c.bucket key bytes) tt))
            (Makes-result (ok (outcome key size content_type (env.sha256_hex bytes)))))

  send_parts-Makes :
      (fuel : ℕ) (key upload_id : Text) (n offset : ℕ) (done : List CompletedPart) (hashed : Bytes)
      → Makes Allowed (send_parts env c fuel key path upload_id n offset done hashed)
  unfolding send_parts upload_part
  send_parts-Makes zero key upload_id n offset done hashed = Makes-result (err (other out_of_fuel))
  send_parts-Makes (suc fuel) key upload_id n offset done hashed =
      Makes-bind (lift_io (fill env c.part_size path offset c.part_size [])) _
        (Makes-lift io (fill env c.part_size path offset c.part_size [])
          (fill-Makes c.part_size offset c.part_size []))
        (λ chunk.
          Makes-if (is_nil chunk) (pure (done, hashed)) _ (Makes-result (ok (done, hashed))) (
            Makes-bind _ _
              (Makes-lift (λ e. other (upload_part_failed n e)) _
                (Makes-one (uploaded_part c.bucket key upload_id n chunk) _ tt))
              (λ e_tag.
                let done' = done ++ (record { part_number = n; e_tag = e_tag } ∷ []) in
                Makes-if (ltb (length chunk) c.part_size) (pure (done', hashed ++ chunk)) _
                  (Makes-result (ok (done', hashed ++ chunk)))
                  (send_parts-Makes fuel key upload_id ((n + 1) % i32_mod) (offset + length chunk)
                    done' (hashed ++ chunk)))))

  stream_parts-Makes :
      (fuel : ℕ) (key upload_id : Text) → Makes Allowed (stream_parts env c fuel key path upload_id)
  unfolding stream_parts
  stream_parts-Makes fuel key upload_id =
      Makes-bind (lift_io (open_file env path)) _
        (Makes-lift io (open_file env path) (Makes-one (opened path) _ payload))
        (λ _.
          Makes-bind (send_parts env c fuel key path upload_id 1 0 [] []) _
            (send_parts-Makes fuel key upload_id 1 0 [] [])
            (λ sent. Makes-result (ok (sent.0, env.sha256_hex sent.1))))

  finish_multipart-Makes :
      (key content_type : Text) (size : ℕ) (upload_id : Text)
      (result : Result Error (List CompletedPart × Text))
      → Makes Allowed (finish_multipart env c key content_type size upload_id result)
  unfolding finish_multipart
  finish_multipart-Makes key content_type size upload_id (err e) =
      Makes-one (aborted_multipart c.bucket key upload_id) (λ h. err e) tt
  finish_multipart-Makes key content_type size upload_id (ok (parts, sha)) = record {
    makes = closes;
  }
    where
      closes :
          (h : History)
          → Adds Allowed h
              (finish_multipart env c key content_type size upload_id (ok (parts, sha)) h).0
      closes h =
          let h₁ = completed_multipart c.bucket key upload_id parts ∷ h in
          elim (Result-cases (env.complete_multipart h key upload_id parts)) [
            | inl (_, p) ↦
                subst (Adds Allowed h) {x = h₁} (ground (arith, p))
                  (Adds-one (completed_multipart c.bucket key upload_id parts) h tt)
            | inr (e, p) ↦
                subst (Adds Allowed h) {x = aborted_multipart c.bucket key upload_id ∷ h₁}
                  (ground (arith, p))
                  (Adds-trans h h₁ (aborted_multipart c.bucket key upload_id ∷ h₁)
                    (Adds-one (completed_multipart c.bucket key upload_id parts) h tt)
                    (Adds-one (aborted_multipart c.bucket key upload_id) h₁ tt))
          ]

  -- The answer to the opening of a multipart upload.
  after_created : ℕ → Text → Text → ℕ → Option Text → Io Error UploadOutcome
  after_created fuel key content_type size none = fail (other missing_upload_id)
  after_created fuel key content_type size (some upload_id) =
      attempt (stream_parts env c fuel key path upload_id)
      >>= finish_multipart env c key content_type size upload_id

  after_created-Makes :
      (fuel : ℕ) (key content_type : Text) (size : ℕ) (created : Option Text)
      → Makes Allowed (after_created fuel key content_type size created)
  unfolding after_created
  after_created-Makes fuel key content_type size none = Makes-result (err (other missing_upload_id))
  after_created-Makes fuel key content_type size (some upload_id) =
      Makes-bind (attempt (stream_parts env c fuel key path upload_id)) _
        (Makes-attempt (stream_parts env c fuel key path upload_id)
          (stream_parts-Makes fuel key upload_id))
        (finish_multipart-Makes key content_type size upload_id)

  upload_file_multipart-Makes :
      (fuel : ℕ) (key content_type : Text) (label : Option Text) (size : ℕ)
      → Makes Allowed (upload_file_multipart env c fuel key path content_type label size)
  unfolding upload_file_multipart after_created
  upload_file_multipart-Makes fuel key content_type label size =
      Makes-bind _ (after_created fuel key content_type size)
        (Makes-lift (λ e. other (Message.create_multipart e)) _
          (Makes-one (Call.created_multipart c.bucket key content_type label) _ tt))
        (after_created-Makes fuel key content_type size)

  pub upload_file-Makes :
      (fuel : ℕ) (key content_type : Text) (label : Option Text)
      → Makes Allowed (upload_file env c fuel key path content_type label)
  unfolding upload_file
  upload_file-Makes fuel key content_type label =
      Makes-bind (lift_io (metadata env path))
        (λ meta h.
          with_timeout (env.deadline h c.upload_timeout) (other upload_timed_out)
            (if ltb c.multipart_threshold meta.len
              then upload_file_multipart env c fuel key path content_type label meta.len
              else upload_file_single env c key path content_type label meta.len)
            h)
        (Makes-lift io (metadata env path) (Makes-one (asked_metadata path) _ payload))
        (λ meta.
          let made =
            Makes-if (ltb c.multipart_threshold meta.len)
              (upload_file_multipart env c fuel key path content_type label meta.len)
              (upload_file_single env c key path content_type label meta.len)
              (upload_file_multipart-Makes fuel key content_type label meta.len)
              (upload_file_single-Makes key content_type label meta.len) in
          record {
            makes = λ h.
                (with_timeout-Makes (env.deadline h c.upload_timeout) (other upload_timed_out) _
                    made).makes
                  h;
          })
