-- ===== src/Oss/Stored.antt =====
-- What `upload_file` leaves in the object store.
use scriptorium.Oss.Cut.{IsPartNumber, joined, max_parts, one_to, numbers-one_to}
use mathlib.Core.Path.{ap₂}
use scriptorium.World.Calls.{Call, asked_metadata, completed_multipart}
use scriptorium.Oss.Parts.{stream_parts_sends}
use scriptorium.Oss.Objects.{object, object-put, object-completed, assembled, assembled-joined}
use scriptorium.Oss.Multipart.{IsFile, sent}
use scriptorium.Error.{Result, ok, Error}
use scriptorium.Base.{
  Option, ◌≡◌, length, ℕ, some, false, ◌<◌, List, ◌∷◌, arith, none, subst, Bool-cases, ltb, ◌∙◌,
  inl, inr, ap, sym, refl, ◌≤◌, map, [], ◌*◌,
}
use scriptorium.Text.{Text}
use scriptorium.FilePath.{FilePath}
use scriptorium.Oss.Upload.{
  OssClient, upload_file_single, upload_file_multipart, upload_file, finish_multipart,
  UploadOutcome, outcome, stream_parts,
}
use scriptorium.World.Calls.{
  Env, Bytes, History, Metadata, read_whole, created_multipart, CompletedPart,
}

-- Parts with the numbers from 1 on in their order, at least one and at most 10000.
abbrev pub IsPartList : List CompletedPart → Type 0
IsPartList parts =
    (count : ℕ) × IsPartNumber count × (map CompletedPart.part_number parts ≡ one_to count)

-- The store accepts what it is asked for, with part numbers as S3 documents them, and in time.
pub record Accepts (env : Env) (c : OssClient) (key : Text) : Type 0 where
  pub puts : (h : History) (bytes : Bytes) → env.put h c.bucket key bytes ≡ ok tt
  pub creates :
      (h : History)
      → (upload_id : Text) × (env.create_multipart h c.bucket key ≡ ok (some upload_id))
  pub uploads :
      (h : History) (upload_id : Text) (n : ℕ) (bytes : Bytes)
      → IsPartNumber n
      → (e_tag : Option Text) × (env.upload_part h upload_id n bytes ≡ ok e_tag)
  pub completes :
      (h : History) (upload_id : Text) (parts : List CompletedPart)
      → IsPartList parts
      → env.complete_multipart h key upload_id parts ≡ ok tt
  pub in_time : (h : History) → env.deadline h c.upload_timeout ≡ none

-- A file that keeps its contents and can be read.
pub record StaysReadable (env : Env) (path : FilePath) (contents : Bytes) : Type 0 where
  pub found :
      (h : History)
      → (meta : Metadata) × (env.metadata h path ≡ ok meta)
        × (meta.is_dir ≡ false)
        × (meta.len ≡ length contents)
  pub opens : (h : History) → env.open_file h path ≡ ok tt
  pub reads_whole : (h : History) → env.read_file h path ≡ ok contents
  pub reads : IsFile env path contents

module _ (env : Env) (c : OssClient) (key content_type : Text) (path : FilePath) (contents : Bytes)
    (label : Option Text) (accepts : Accepts env c key)
    (file : StaysReadable env path contents) where
  abbrev IsStored : History × Result Error UploadOutcome → Type 0
  IsStored s =
      (s.1 ≡ ok (outcome key (length contents) content_type (env.sha256_hex contents)))
      × (object env c.bucket key s.0 ≡ some contents)

  stores :
      (s : History × Result Error UploadOutcome) (g : History)
      → s ≡ (g, ok (outcome key (length contents) content_type (env.sha256_hex contents)))
      → object env c.bucket key g ≡ some contents
      → IsStored s
  stores s g e held = subst IsStored (sym e) (refl, held)

  some_part :
      (new : List (ℕ × Bytes)) → joined new ≡ contents → 0 < length contents → 1 ≤ length new
  some_part [] e not_empty = absurd (omega (arith, ap length e, not_empty))
  some_part (part ∷ new) e not_empty = omega arith

  single_stores :
      (h : History)
      → IsStored (upload_file_single env c key path content_type label (length contents) h)
  unfolding upload_file_single
  single_stores h =
      let h₁ = read_whole path ∷ h in
      let put = accepts.puts h₁ contents in
      stores (upload_file_single env c key path content_type label (length contents) h)
        (Call.put_object c.bucket key contents content_type label ∷ h₁)
        (ground (arith, file.reads_whole h, put))
        (object-put env c.bucket key contents content_type label h₁ put)

  multipart_stores :
      (fuel : ℕ) (h : History)
      → 0 < c.part_size
      → 0 < length contents
      → length contents < fuel
      → length contents ≤ max_parts * c.part_size
      → IsStored (upload_file_multipart env c fuel key path content_type label (length contents) h)
  unfolding upload_file_multipart finish_multipart
  multipart_stores fuel h size_pos not_empty enough fits =
      let h₁ = created_multipart c.bucket key content_type label ∷ h in
      let (upload_id, created) = accepts.creates h in
      let s = stream_parts env c fuel key path upload_id h₁ in
      let (parts, new, e, e_sent, e_joined, cut, few, e_numbers) =
        stream_parts_sends env c key upload_id path contents file.reads size_pos
          (λ g n bytes. accepts.uploads g upload_id n bytes) fuel h₁ enough fits (file.opens h₁) in
      let listed : IsPartList parts = (
        length new,
        (some_part new e_joined not_empty, few),
        e_numbers ∙ numbers-one_to c.part_size new cut,
      ) in
      let completed = accepts.completes s.0 upload_id parts listed in
      stores (upload_file_multipart env c fuel key path content_type label (length contents) h)
        (completed_multipart c.bucket key upload_id parts ∷ s.0)
        (ground (arith, created, e, completed))
        (object-completed env c.bucket key upload_id parts s.0 completed
          ∙ ap₂ assembled e_numbers e_sent
          ∙ assembled-joined c.part_size 1 new (sent upload_id h₁) cut
          ∙ ap some e_joined)

  -- Where the object store accepts the requests in time, the file stays as it is and is at most 10000
  -- parts long, `upload_file` succeeds, with fuel beyond the file's length, and answers with the key, the file's length and its
  -- SHA-256; afterwards the object at the key is the file, whether it was put whole or went up in parts.
  pub upload_file_stores :
      (fuel : ℕ) (h : History)
      → 0 < c.part_size
      → length contents < fuel
      → length contents ≤ max_parts * c.part_size
      → IsStored (upload_file env c fuel key path content_type label h)
  unfolding upload_file
  upload_file_stores fuel h size_pos enough fits =
      let h₁ = asked_metadata path ∷ h in
      let (meta, found, _, len) = file.found h in
      let in_time = accepts.in_time h₁ in
      elim (Bool-cases (ltb c.multipart_threshold (length contents))) [
        | inl large ↦
            subst IsStored
              {x = upload_file_multipart env c fuel key path content_type label (length contents)
                h₁}
              {y = upload_file env c fuel key path content_type label h}
              (ground (arith, found, len, in_time, large))
              (multipart_stores fuel h₁ size_pos (ground (arith, large)) enough fits)
        | inr small ↦
            subst IsStored
              {x = upload_file_single env c key path content_type label (length contents) h₁}
              {y = upload_file env c fuel key path content_type label h}
              (ground (arith, found, len, in_time, small)) (single_stores h₁)
      ]
