-- ===== src/Fetch/Body.antt =====
-- The body loop: what is written, and the cap on it.
use scriptorium.Text.{Text}
use scriptorium.Fetch.{FetchConfig, write_body, u64_mod}
use scriptorium.Error.{Result, ok, err}
use scriptorium.FilePath.{FilePath, path_eq}
use scriptorium.Base.{
  List, ℕ, if◌then◌else◌, All, ◌≡◌, ◌≤◌, length, ◌+◌, arith, ◌<◌, ◌↔◌, ap, ◌∷◌, ◌%◌, [],
}
use scriptorium.World.Calls.{Bytes, Call, History, wrote, Env}

abbrev pub total : List (Result Text Bytes) → ℕ
total [] = 0
total (ok chunk ∷ rest) = length chunk + total rest
total (err e ∷ rest) = total rest

-- The chunks as the calls that write them, the latest first.
abbrev pub writes : FilePath → List (Result Text Bytes) → History → History
writes target [] h = h
writes target (ok chunk ∷ rest) h = writes target rest (wrote target chunk ∷ h)
writes target (err e ∷ rest) h = writes target rest h

abbrev pub IsChunk : Result Text Bytes → Type 0
IsChunk (ok chunk) = Unit
IsChunk (err e) = ⊥

-- No chunk is so long that the counter wraps when it passes the cap.
abbrev pub Fits : FetchConfig → Result Text Bytes → Type 0
Fits cfg (ok chunk) = cfg.max_body_bytes + length chunk < u64_mod
Fits cfg (err e) = Unit

-- How many bytes a history has written to a file.
abbrev weight : FilePath → Call → ℕ
weight target (wrote p chunk) = if path_eq p target then length chunk else 0
weight target _ = 0

abbrev pub written_to : FilePath → History → ℕ
written_to target [] = 0
written_to target (c ∷ h) = weight target c + written_to target h

module _ (env : Env) (cfg : FetchConfig) (target : FilePath) where
  -- Whatever the chunks and the answers are, success or failure, no more than the cap is written,
  -- where the file starts within the count, the count within the cap, and no chunk is so long that
  -- the cap and its length reach 2^64.
  pub write_body_bounded :
      (body : List (Result Text Bytes)) (n : ℕ) (h : History)
      → All (Fits cfg) body
      → n ≤ cfg.max_body_bytes
      → written_to target h ≤ n
      → written_to target (write_body env cfg target body n h).0 ≤ cfg.max_body_bytes
  unfolding write_body
  write_body_bounded [] n h fits le w = omega arith
  write_body_bounded (err e ∷ body) n h fits le w = omega arith
  write_body_bounded (ok chunk ∷ body) n h fits le w = ground (
    arith,
    write_body_bounded body ((n + length chunk) % u64_mod) (wrote target chunk ∷ h) fits.1,
  )

  write_body_count :
      (body : List (Result Text Bytes)) (n m : ℕ) (h : History)
      → n ≤ cfg.max_body_bytes
      → (write_body env cfg target body n h).1 ≡ ok m
      → m ≤ cfg.max_body_bytes
  unfolding write_body
  write_body_count [] n m h le e = ground arith
  write_body_count (err t ∷ body) n m h le e = cc
  write_body_count (ok chunk ∷ body) n m h le e =
      ground
        (arith, write_body_count body ((n + length chunk) % u64_mod) m (wrote target chunk ∷ h))

  write_body_within :
      (body : List (Result Text Bytes)) (n : ℕ) (h : History)
      → ((h : History) (p : FilePath) (b : Bytes) → env.write_all h p b ≡ ok tt)
      → All IsChunk body
      → All (Fits cfg) body
      → n + total body ≤ cfg.max_body_bytes
      → write_body env cfg target body n h ≡ (writes target body h, ok (n + total body))
  unfolding write_body
  write_body_within [] n h writable chunks fits le = ground arith
  write_body_within (err t ∷ body) n h writable chunks fits le = absurd chunks.0
  write_body_within (ok chunk ∷ body) n h writable chunks fits le = ground (
    arith,
    writable h target chunk,
    write_body_within body ((n + length chunk) % u64_mod) (wrote target chunk ∷ h) writable chunks.1
        fits.1,
  )

  -- A body that comes in whole and is written without error, from a count within the cap and with no
  -- chunk so long that the cap and its length reach 2^64, is accepted just when it ends within the
  -- cap; then the count has grown by its length, and the calls are one write for each chunk, in
  -- order.
  pub write_body_accepts :
      (body : List (Result Text Bytes)) (n : ℕ) (h : History)
      → ((h : History) (p : FilePath) (b : Bytes) → env.write_all h p b ≡ ok tt)
      → All IsChunk body
      → All (Fits cfg) body
      → n ≤ cfg.max_body_bytes
      → (write_body env cfg target body n h ≡ (writes target body h, ok (n + total body)))
        ↔ (n + total body ≤ cfg.max_body_bytes)
  write_body_accepts body n h writable chunks fits le = (
    λ e. write_body_count body n (n + total body) h le (ap (λ s. s.1) e),
    λ small. write_body_within body n h writable chunks fits small,
  )
