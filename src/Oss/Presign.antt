-- ===== src/Oss/Presign.antt =====
-- `signed_url`: how long a link lives.
use scriptorium.Text.{Text}
use scriptorium.Oss.Upload.{signed_url, OssClient}
use scriptorium.Base.{arith, inl, inr, ◌∷◌, ◌≡◌, ◌⊎◌, ◌≤◌, ℕ, min, inr, inl, arith}
use scriptorium.Error.{ok, err, Error, Result-cases, other, presigning_config, presign_failed}
use scriptorium.World.Calls.{presigned, Env, History}

-- `signed_url` asks for one link at most, for the key that it was given and for no longer than the
-- caller and the configured maximum allow; the URL that it returns is the answer. Otherwise it fails.
pub signed_url_bounded :
    (env : Env) (c : OssClient) (key : Text) (ttl : ℕ) (h : History)
    → let s = signed_url env c key ttl h in
      ((s.0 ≡ h) × ((e : Error) × (s.1 ≡ err e)))
      ⊎ ((seconds : ℕ) × (seconds ≤ ttl)
          × (seconds ≤ c.max_expires)
          × (s.0 ≡ presigned c.bucket key seconds ∷ h)
          × (((url : Text) × (env.presign h key seconds ≡ ok url) × (s.1 ≡ ok url))
              ⊎ ((e : Error) × (s.1 ≡ err e))))
unfolding signed_url
signed_url_bounded env c key ttl h =
    let seconds = min ttl c.max_expires in
    elim (Result-cases (env.presign_config seconds)) [
      | inr (e, p) ↦ inl (ground (arith, p), (other (presigning_config e), ground (arith, p)))
      | inl (_, p) ↦ elim (Result-cases (env.presign h key seconds)) [
        | inl (url, q) ↦ inr (
          seconds,
          omega arith,
          omega arith,
          ground (arith, p),
          inl (url, q, ground (arith, p, q)),
        )
        | inr (e, q) ↦ inr (
          seconds,
          omega arith,
          omega arith,
          ground (arith, p),
          inr (other (presign_failed e), ground (arith, p, q)),
        )
      ]
    ]
