-- ===== src/Service/Received.antt =====
-- The loop of `do_import_workspace_object` over the chunks, and what it leaves behind.
use scriptorium.Service.Import.{
  missing, receive_chunks, ImportPayload, chunk, header, saturating_add,
}
use scriptorium.Service.{SandboxService}
use scriptorium.FilePath.{FilePath}
use scriptorium.Base.{
  arith, refl, ◌∷◌, ◌≡◌, ◌⊎◌, ◌++◌, inl, inr, List, Option, ℕ, [], some, All, none, refl, length,
  ◌∙◌, sym, append_assoc, All-append,
}
use scriptorium.Error.{ok, err, Result, Status, Result-cases}
use scriptorium.World.Calls.{wrote, Env, Call, Bytes, History}

-- The bytes of the messages, where all of them are chunks.
abbrev pub chunks_of : List (Result Status ImportPayload) → Option Bytes
chunks_of [] = some []
chunks_of (ok (chunk bytes) ∷ rest) = elim (chunks_of rest) [
  | some more ↦ some (bytes ++ more)
  | none ↦ none
]
chunks_of (ok (header _) ∷ rest) = none
chunks_of (ok missing ∷ rest) = none
chunks_of (err status ∷ rest) = none

-- A write to the staging file.
abbrev pub IsWrite : FilePath → Call → Type 0
IsWrite staging call = (bytes : Bytes) × (call ≡ wrote staging bytes)

module _ (env : Env) (svc : SandboxService) (clean : FilePath → FilePath) (staging : FilePath) where
  -- Whatever the messages are, `receive_chunks` makes no request but writes to the staging file, so
  -- that what has been written stays there; and it fails, unless all messages are chunks.
  pub receive_chunks_writes :
      (messages : List (Result Status ImportPayload)) (n : ℕ) (h : History)
      → let s = receive_chunks env svc clean staging messages n h in
        ((new : History) × (s.0 ≡ new ++ h) × All (IsWrite staging) new)
        × (((bytes : Bytes) × (chunks_of messages ≡ some bytes)) ⊎ ((e : Status) × (s.1 ≡ err e)))
  unfolding receive_chunks
  receive_chunks_writes [] n h = (([], refl, tt), inl ([], refl))
  receive_chunks_writes (err status ∷ rest) n h = (([], refl, tt), inr (status, refl))
  receive_chunks_writes (ok (header head) ∷ rest) n h = (([], refl, tt), inr (_, refl))
  receive_chunks_writes (ok missing ∷ rest) n h = (([], refl, tt), inr (_, refl))
  receive_chunks_writes (ok (chunk bytes) ∷ rest) n h =
      elim (Result-cases (env.write_all h staging bytes)) [
        | inr (e, p) ↦ (
          (wrote staging bytes ∷ [], ground (arith, p), ((bytes, refl), tt)),
          inr (env.io_status e, ground (arith, p)),
        )
        | inl (_, p) ↦
            let n' = saturating_add n (length bytes) in
            let ((new, e, all), outcome) =
              receive_chunks_writes rest n' (wrote staging bytes ∷ h) in
            (
              (
                new ++ (wrote staging bytes ∷ []),
                ground (arith, p) ∙ e ∙ sym (append_assoc new (wrote staging bytes ∷ []) h),
                (All-append (IsWrite staging) new (wrote staging bytes ∷ [])).1
                    (all, ((bytes, refl), tt)),
              ),
              elim outcome [
                | inl (more, q) ↦ inl (bytes ++ more, ground (arith, q))
                | inr (why, q) ↦ inr (why, ground (arith, p, q))
              ],
            )
      ]
