-- ===== src/Oss/Abort.antt =====
-- How a multipart upload ends.
use scriptorium.FilePath.{FilePath}
use scriptorium.Text.{Text}
use scriptorium.Oss.Upload.{
  OssClient, finish_multipart, upload_file_multipart, UploadOutcome, outcome, stream_parts,
}
use scriptorium.Base.{
  inl, inr, subst, sym, ◌∷◌, ◌⊎◌, ℕ, Option, List, ◌≡◌, some, inr, subst, inl, arith,
}
use scriptorium.Error.{ok, err, Result, Error, Result-cases, other, Message}
use scriptorium.World.Calls.{
  completed_multipart, aborted_multipart, Env, History, CompletedPart, created_multipart,
}

module _ (env : Env) (c : OssClient) (key content_type upload_id : Text) (size_bytes : ℕ) where
  -- What a multipart upload may end with.
  abbrev pub IsClosed : History × Result Error UploadOutcome → Type 0
  IsClosed s =
      ((parts : List CompletedPart) × (sha : Text) × (h' : History) × (s ≡ (
        completed_multipart c.bucket key upload_id parts ∷ h',
        ok (outcome key size_bytes content_type sha),
      ))
        × (env.complete_multipart h' key upload_id parts ≡ ok tt))
      ⊎ ((e : Error) × (h' : History) × (s
            ≡ (aborted_multipart c.bucket key upload_id ∷ h', err e)))

  finish_multipart-IsClosed :
      (r : Result Error (List CompletedPart × Text)) (h : History)
      → IsClosed (finish_multipart env c key content_type size_bytes upload_id r h)
  unfolding finish_multipart
  finish_multipart-IsClosed (err e) h = inr (e, h, ground arith)
  finish_multipart-IsClosed (ok (parts, sha)) h =
      elim (Result-cases (env.complete_multipart h key upload_id parts)) [
        | inl (_, p) ↦ inl (parts, sha, h, ground (arith, p), p)
        | inr (e, p) ↦ inr (
          other (Message.complete_multipart e),
          completed_multipart c.bucket key upload_id parts ∷ h,
          ground (arith, p),
        )
      ]

  -- Once the store has opened a multipart upload, and where `upload_file_multipart` runs to its end,
  -- not cut short by the upload timeout of `upload_file`, its last request is either a completion that
  -- the store accepted, and the upload succeeds with the key, size and content type that it was given,
  -- or an abort of this upload, and it fails.
  pub upload_file_multipart_closes :
      (fuel : ℕ) (path : FilePath) (label : Option Text) (h : History)
      → env.create_multipart h c.bucket key ≡ ok (some upload_id)
      → IsClosed (upload_file_multipart env c fuel key path content_type label size_bytes h)
  unfolding upload_file_multipart
  upload_file_multipart_closes fuel path label h created =
      let h₁ = created_multipart c.bucket key content_type label ∷ h in
      let s = stream_parts env c fuel key path upload_id h₁ in
      subst IsClosed (sym (ground (arith, created))) (finish_multipart-IsClosed s.1 s.0)
