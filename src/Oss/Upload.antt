-- ===== src/Oss/Upload.antt =====
-- `OssClient`: connecting, uploading in one piece or in parts, presigning.
use scriptorium.World.Fs.{read_file, metadata, open_file, read}
use scriptorium.FilePath.{FilePath}
use scriptorium.Base.{
  ℕ, ◌*◌, Option, List, if◌then◌else◌, ◌∷◌, min, is_nil, none, suc, ◌||◌, ◌+◌, [], ltb, length,
  some, max, ◌-◌, ◌++◌, zero, ◌^◌, ◌%◌,
}
use scriptorium.Text.{Text}
use scriptorium.Oss.Key.{build_key_at}
use scriptorium.World.{
  Io, pure, fail, map_err, ◌>>=◌, ◌>>◌, lift_io, attempt, lift_err, of_result, with_timeout,
}
use scriptorium.Error.{
  Message, Result, Error, IoError, other, ok, out_of_fuel, upload_timed_out, presigning_config, err,
  missing_upload_id, presign_failed, keys_empty, upload_part_failed,
}
use scriptorium.World.Calls.{
  Call, Env, Bytes, presigned, read_clock, created_multipart, uploaded_part, CompletedPart,
  aborted_multipart, completed_multipart,
}

pub record TosConfig : Type 0 where
  pub endpoint : Text
  pub region : Text
  pub bucket : Text
  pub access_key : Text
  pub secret_key : Text
  pub key_prefix : Text
  pub signed_url_expires_seconds : ℕ
  pub signed_url_max_seconds : ℕ
  pub part_size_bytes : ℕ
  pub multipart_threshold_bytes : ℕ
  pub upload_timeout_seconds : ℕ

pub record OssClient : Type 0 where
  pub bucket : Text
  pub key_prefix : Text
  pub default_expires : ℕ
  pub max_expires : ℕ
  pub upload_timeout : ℕ
  pub part_size : ℕ
  pub multipart_threshold : ℕ

pub record UploadOutcome : Type 0 where
  pub key : Text
  pub size_bytes : ℕ
  pub content_type : Text
  pub sha256_hex : Text

-- `part_number` is an `i32`, here by its 32 bits: it wraps around where it is counted up in a build
-- without overflow checks.
abbrev pub i32_mod : ℕ
i32_mod = 2 ^ 32

abbrev pub min_part_size : ℕ
min_part_size = 5 * 1024 * 1024

unfoldable pub connect : TosConfig → Result Error OssClient
connect cfg =
    if is_nil cfg.access_key || is_nil cfg.secret_key
    then err (other keys_empty)
    else ok (record {
      bucket = cfg.bucket;
      key_prefix = cfg.key_prefix;
      default_expires = cfg.signed_url_expires_seconds;
      max_expires = cfg.signed_url_max_seconds;
      upload_timeout = cfg.upload_timeout_seconds;
      part_size = max cfg.part_size_bytes min_part_size;
      multipart_threshold = cfg.multipart_threshold_bytes;
    })

abbrev pub outcome : Text → ℕ → Text → Text → UploadOutcome
outcome key size content_type sha = record {
  key = key;
  size_bytes = size;
  content_type = content_type;
  sha256_hex = sha;
}

module _ (env : Env) where
  -- The inner loop of `stream_parts`: read until the buffer is full or a read gives nothing. The
  -- room left is fuel enough, since each round but the last fills some of it.
  unfoldable pub fill : ℕ → FilePath → ℕ → ℕ → Bytes → Io IoError Bytes
  fill zero path offset room filled = pure filled
  fill (suc fuel) path offset room filled =
      let more = λ (bytes : Bytes).
        fill fuel path (offset + length bytes) (room - length bytes) (filled ++ bytes) in
      if ltb 0 room
      then (do bytes ← read env path offset room; if is_nil bytes then pure filled else more bytes)
      else pure filled

  module _ (c : OssClient) where
    unfoldable pub build_key : Text → Text → Text → Io Error Text
    build_key tenant_id workspace_id basename h =
        (read_clock ∷ h, ok (build_key_at c.key_prefix tenant_id workspace_id basename (env.now h)))

    put : Text → Bytes → Text → Option Text → Io Text (Unit {0})
    put key bytes content_type label h =
        (Call.put_object c.bucket key bytes content_type label ∷ h, env.put h c.bucket key bytes)

    create_multipart : Text → Text → Option Text → Io Text (Option Text)
    create_multipart key content_type label h =
        (created_multipart c.bucket key content_type label ∷ h, env.create_multipart h c.bucket key)

    unfoldable pub upload_part : Text → Text → ℕ → Bytes → Io Text (Option Text)
    upload_part key upload_id n bytes h =
        (uploaded_part c.bucket key upload_id n bytes ∷ h, env.upload_part h upload_id n bytes)

    complete_multipart : Text → Text → List CompletedPart → Io Text (Unit {0})
    complete_multipart key upload_id parts h = (
      completed_multipart c.bucket key upload_id parts ∷ h,
      env.complete_multipart h key upload_id parts,
    )

    -- The answer is looked at by no caller.
    abort_multipart : Text → Text → Io Error (Unit {0})
    abort_multipart key upload_id h = (aborted_multipart c.bucket key upload_id ∷ h, ok tt)

    unfoldable pub upload_file_single :
        Text → FilePath → Text → Option Text → ℕ → Io Error UploadOutcome
    unfolding put
    upload_file_single key path content_type label size_bytes = do
      bytes ← lift_io (read_file env path)
      lift_err (λ e. other (Message.put_object e)) (put key bytes content_type label)
      pure (outcome key size_bytes content_type (env.sha256_hex bytes))

    -- The loop of `stream_parts`, from the number of the next part, the offset in the file, the
    -- parts that are done and the bytes that the hasher has seen.
    unfoldable pub send_parts :
        ℕ
        → Text
        → FilePath
        → Text
        → ℕ
        → ℕ
        → List CompletedPart
        → Bytes
        → Io Error (List CompletedPart × Bytes)
    send_parts zero key path upload_id n offset done hashed = fail (other out_of_fuel)
    send_parts (suc fuel) key path upload_id n offset done hashed =
        let next = λ (chunk : Bytes) (done' : List CompletedPart).
          send_parts fuel key path upload_id ((n + 1) % i32_mod) (offset + length chunk) done'
            (hashed ++ chunk) in
        do
          chunk ← lift_io (fill c.part_size path offset c.part_size [])
          if is_nil chunk then pure (done, hashed) else (do
            e_tag ←
                lift_err (λ e. other (upload_part_failed n e)) (upload_part key upload_id n chunk)
            let done' = done ++ (record { part_number = n; e_tag = e_tag } ∷ [])
            if ltb (length chunk) c.part_size
                then pure (done', hashed ++ chunk)
                else next chunk done')

    unfoldable pub stream_parts : ℕ → Text → FilePath → Text → Io Error (List CompletedPart × Text)
    stream_parts fuel key path upload_id = do
      lift_io (open_file env path)
      (parts, hashed) ← send_parts fuel key path upload_id 1 0 [] []
      pure (parts, env.sha256_hex hashed)

    -- What follows the loop: complete, or abort and give the error back.
    unfoldable pub finish_multipart :
        Text → Text → ℕ → Text → Result Error (List CompletedPart × Text) → Io Error UploadOutcome
    unfolding abort_multipart complete_multipart
    finish_multipart key content_type size_bytes upload_id (err e) = do
      abort_multipart key upload_id
      fail e
    finish_multipart key content_type size_bytes upload_id (ok (parts, sha)) = do
      completed ← attempt (complete_multipart key upload_id parts)
      elim completed [
        | ok _ ↦ pure (outcome key size_bytes content_type sha)
        | err e ↦ do abort_multipart key upload_id; fail (other (Message.complete_multipart e))
      ]

    unfoldable pub upload_file_multipart :
        ℕ → Text → FilePath → Text → Option Text → ℕ → Io Error UploadOutcome
    unfolding create_multipart
    upload_file_multipart fuel key path content_type label size_bytes = do
      created ←
          lift_err (λ e. other (Message.create_multipart e))
            (create_multipart key content_type label)
      elim created [
        | none ↦ fail (other missing_upload_id)
        | some upload_id ↦ do
          result ← attempt (stream_parts fuel key path upload_id)
          finish_multipart key content_type size_bytes upload_id result
      ]

    unfoldable pub upload_file : ℕ → Text → FilePath → Text → Option Text → Io Error UploadOutcome
    upload_file fuel key path content_type label = do
      meta ← lift_io (metadata env path)
      let size_bytes = meta.len
      λ h.
          with_timeout (env.deadline h c.upload_timeout) (other upload_timed_out)
            (if ltb c.multipart_threshold size_bytes
              then upload_file_multipart fuel key path content_type label size_bytes
              else upload_file_single key path content_type label size_bytes)
            h

    presign : Text → ℕ → Io Text Text
    presign key seconds h = (presigned c.bucket key seconds ∷ h, env.presign h key seconds)

    unfoldable pub signed_url : Text → ℕ → Io Error Text
    unfolding presign
    signed_url key ttl = do
      let effective = min ttl c.max_expires
      of_result (map_err (λ e. other (presigning_config e)) (env.presign_config effective))
      lift_err (λ e. other (presign_failed e)) (presign key effective)
