-- ===== src/Service/Exported.antt =====
-- What an export of a file gives.

use scriptorium.Oss.Multipart.{pos_of_is_nil}
use scriptorium.Service.Archive.{hash_reads, transfer_chunk_size}
use scriptorium.FilePath.{FilePath}
use scriptorium.Error.{Result, Status, err, ok}
use scriptorium.World.Calls.{Bytes, Env, History, read_at, opened}
use scriptorium.Base.{
  List, ◌++◌, ◌≡◌, Option, is_nil, ℕ, some, false, length, drop, ◌∷◌, ◌<◌, ◌∙◌, none, arith,
  length-append, suc, [], ap, Bool-cases, zero, inl, sym, append-nil, inr, ◌+◌, append_assoc, ◌≤◌,
}
use scriptorium.World.Store.{Contents, IsFileStore}
use scriptorium.Service.Export.{
  ExportItem, header_item, chunk_item, send_chunks, PreparedExport, export_stream, send_file,
}

-- The bytes of the items, where none is an error.
abbrev pub bytes_of : List (Result Status ExportItem) → Option Bytes
bytes_of [] = some []
bytes_of (err e ∷ rest) = none
bytes_of (ok (header_item head) ∷ rest) = bytes_of rest
bytes_of (ok (chunk_item bytes) ∷ rest) = elim (bytes_of rest) [
  | some more ↦ some (bytes ++ more)
  | none ↦ none
]

-- What is left behind a read that gave something is shorter.
left_shorter :
    (got left rest : Bytes) → got ++ left ≡ rest → is_nil got ≡ false → length left < length rest
left_shorter got left rest e some_got =
    let n = pos_of_is_nil got some_got in
    let m = length-append got left in let k = ap length e in omega (arith, n, m, k)

module _ (env : Env) (c : Contents) (store : IsFileStore env c) (path : FilePath)
    (bytes : Bytes) where
  read_kept :
      (h : History) (offset : ℕ)
      → c h path ≡ some bytes
      → c (read_at path offset ∷ h) path ≡ some bytes
  read_kept h offset held = store.leaves.quiet h (read_at path offset) path tt ∙ held

  -- What has been hashed and what is left to read make up the file.
  pub hash_reads-whole :
      (fuel offset : ℕ) (hashed : Bytes) (h : History)
      → c h path ≡ some bytes
      → hashed ++ drop offset bytes ≡ bytes
      → length (drop offset bytes) < fuel
      → (h' : History) × (hash_reads env fuel path offset hashed h
          ≡ (h', ok (env.sha256_hex bytes)))
        × (c h' path ≡ some bytes)
  unfolding hash_reads
  hash_reads-whole zero offset hashed h held whole enough = absurd (omega (arith, enough))
  hash_reads-whole (suc fuel) offset hashed h held whole enough =
      let (got, r, split, ended) =
        store.reads h path offset transfer_chunk_size bytes held (omega arith) in
      let h₁ = read_at path offset ∷ h in
      elim (Bool-cases (is_nil got)) [
        | inl blank ↦
            let all_hashed : hashed ≡ bytes =
              sym (append-nil hashed) ∙ ap (λ b. hashed ++ b) (sym (ended blank)) ∙ whole in
            (
              h₁,
              ground (arith, r, blank) ∙ ap (λ b. (h₁, ok (env.sha256_hex b))) all_hashed,
              read_kept h offset held,
            )
        | inr some_got ↦
            let shorter =
              left_shorter got (drop (offset + length got) bytes) (drop offset bytes) split
                some_got in
            let (h', e, held') =
              hash_reads-whole fuel (offset + length got) (hashed ++ got) h₁
                (read_kept h offset held)
                (append_assoc hashed got (drop (offset + length got) bytes)
                  ∙ ap (λ b. hashed ++ b) split
                  ∙ whole)
                (omega (arith, enough, shorter)) in
            (h', ground (arith, r, some_got) ∙ e, held')
      ]

module _ (env : Env) (c : Contents) (store : IsFileStore env c) (bytes : Bytes)
    (p : PreparedExport) where
  send_chunks-whole :
      (polls offset : ℕ) (h : History)
      → c h p.payload_path ≡ some bytes
      → length (drop offset bytes) < polls
      → bytes_of (send_chunks env polls p offset h).1 ≡ some (drop offset bytes)
  unfolding send_chunks
  send_chunks-whole zero offset h held enough = absurd (omega (arith, enough))
  send_chunks-whole (suc polls) offset h held enough =
      let path = p.payload_path in
      let (got, r, split, ended) =
        store.reads h path offset transfer_chunk_size bytes held (omega arith) in
      let h₁ = read_at path offset ∷ h in
      elim (Bool-cases (is_nil got)) [
        | inl blank ↦
            ap bytes_of {x = (send_chunks env (suc polls) p offset h).1} {y = []}
              (ground (arith, r, blank))
            ∙ ap some (sym (ended blank))
        | inr some_got ↦
            let shorter =
              left_shorter got (drop (offset + length got) bytes) (drop offset bytes) split
                some_got in
            let e =
              send_chunks-whole polls (offset + length got) h₁
                (read_kept env c store path bytes h offset held) (omega (arith, enough, shorter)) in
            ap bytes_of {x = (send_chunks env (suc polls) p offset h).1}
              {y = ok (chunk_item got) ∷ (send_chunks env polls p (offset + length got) h₁).1}
              (ground (arith, r, some_got))
            ∙ ground (arith, e)
            ∙ ap some split
      ]

  pub export_stream-whole :
      (polls : ℕ) (h : History)
      → c h p.payload_path ≡ some bytes
      → length bytes + 2 ≤ polls
      → bytes_of (export_stream env polls p h).1 ≡ some bytes
  unfolding export_stream send_file
  export_stream-whole zero h held enough = absurd (omega (arith, enough))
  export_stream-whole (suc zero) h held enough = absurd (omega (arith, enough))
  export_stream-whole (suc (suc polls)) h held enough =
      let o = store.opens h p.payload_path bytes held in
      let held' = store.leaves.quiet h (opened p.payload_path) p.payload_path tt ∙ held in
      ap bytes_of {x = (export_stream env (suc (suc polls)) p h).1}
        {y = ok (header_item p.header)
          ∷ (send_chunks env (suc polls) p 0 (opened p.payload_path ∷ h)).1}
        (ground (arith, o))
      ∙ send_chunks-whole (suc polls) 0 (opened p.payload_path ∷ h) held' (omega (arith, enough))
