-- ===== src/Tests/Transfers.antt =====
-- Downloads, uploads, object keys and archives.
use scriptorium.Oss.Presign.{signed_url_bounded}
use scriptorium.Oss.Parts.{stream_parts_sends}
use scriptorium.Oss.Cut.{joined, numbers, IsCut}
use scriptorium.Fetch.Guard.{IsHttp, IsPublic, OnlyLookup, fetch_to_file_guarded}
use scriptorium.Service.Archive.{extract_archive_and_replace}
use scriptorium.Oss.Calendar.{nth_day, civil_from_days-nth_day}
use scriptorium.Fetch.Ranges.{is_blocked, is_disallowed-is_blocked}
use scriptorium.Config.{default_fetch}
use scriptorium.Oss.Segments.{build_key_at_separates}
use scriptorium.Tests.{test_env, file_bytes, escaping_entry}
use scriptorium.Text.{Text, codes}
use scriptorium.Service.Archive.Extract.{Refused, IsReadable, extract_refuses}
use scriptorium.Oss.Key.{sanitize_segment, nanos_per_second}
use scriptorium.Oss.Date.{civil_from_days, ymd_from_unix}
use scriptorium.Oss.Abort.{IsClosed, upload_file_multipart_closes}
use scriptorium.Oss.Multipart.{IsFile, sent}
use scriptorium.Oss.Upload.{OssClient, stream_parts, upload_file_multipart, signed_url}
use scriptorium.Fetch.Address.{is_disallowed}
use scriptorium.Fetch.{write_body, fetch_to_file}
use scriptorium.Fetch.Body.{written_to, Fits, write_body_bounded, writes, total, write_body_accepts}
use scriptorium.FilePath.{FilePath, normal, has_parent_dir, component_eq}
use scriptorium.Base.{
  ◌∷◌, ◌⊎◌, ◌↔◌, ◌≤◌, ◌++◌, List, All, ◌≡◌, [], ◌+◌, length, some, arith, false, min, none, ◌/◌,
  Bool, drop, ℕ, ap, refl, map, true,
}
use scriptorium.Error.{ok, err, Result, IoError, Error}
use scriptorium.World.Calls.{v4, Bytes, ArchiveEntry, Url, CompletedPart, presigned}

abbrev target : FilePath
target = normal (codes "out") ∷ []

abbrev body : List (Result Text Bytes)
body = ok (1 ∷ 2 ∷ []) ∷ ok (3 ∷ []) ∷ []

body-Fits : All (Fits default_fetch) body
body-Fits = (omega arith, (omega arith, tt))

write_body_bounded_example :
    written_to target (write_body test_env default_fetch target body 0 []).0
    ≤ default_fetch.max_body_bytes
write_body_bounded_example =
    write_body_bounded test_env default_fetch target body 0 [] body-Fits (omega arith) (omega arith)

write_body_accepts_example :
    (write_body test_env default_fetch target body 0 []
      ≡ (writes target body [], ok (0 + total body)))
    ↔ (0 + total body ≤ default_fetch.max_body_bytes)
write_body_accepts_example =
    write_body_accepts test_env default_fetch target body 0 [] (λ h p b. refl) (tt, (tt, tt))
      body-Fits (omega arith)

fetch_to_file_guarded_example :
    let s = fetch_to_file test_env default_fetch (codes "http://a") target [] 60 [] in
    ((u : Url) × (test_env.parse_url (codes "http://a") ≡ ok u)
      × IsHttp u.scheme
      × IsPublic test_env [] u)
    ⊎ (((e : Error) × (s.1 ≡ err e)) × OnlyLookup [] s.0)
fetch_to_file_guarded_example =
    fetch_to_file_guarded test_env default_fetch (codes "http://a") target [] 60 [] refl

is_disallowed-is_blocked_example : is_disallowed (v4 172 20 0 1) ≡ is_blocked (v4 172 20 0 1)
is_disallowed-is_blocked_example =
    is_disallowed-is_blocked (v4 172 20 0 1) (omega arith, omega arith, omega arith, omega arith)

-- Parts of two bytes.
abbrev pub small_parts : OssClient
small_parts = record {
  bucket = codes "b";
  key_prefix = codes "sandbox/";
  default_expires = 3600;
  max_expires = 86400;
  upload_timeout = 300;
  part_size = 2;
  multipart_threshold = 4;
}

pub file_bytes-IsFile : (path : FilePath) → IsFile test_env path file_bytes
file_bytes-IsFile path = record {
  some_bytes = λ h offset room. (
    min room (length (drop offset file_bytes)),
    refl,
    omega arith,
    omega arith,
    λ p q. omega (arith, p, q),
  );
}

stream_parts_sends_example :
    let s = stream_parts test_env small_parts 6 (codes "k") target (codes "u1") [] in
    (parts : List CompletedPart) × (new : List (ℕ × Bytes)) × (s.1 ≡ ok (parts, codes "00"))
    × (sent (codes "u1") s.0 ≡ new ++ [])
    × (joined new ≡ file_bytes)
    × IsCut 2 1 new
    × (length new ≤ 10000)
    × (map CompletedPart.part_number parts ≡ numbers new)
stream_parts_sends_example =
    stream_parts_sends test_env small_parts (codes "k") (codes "u1") target file_bytes
      (file_bytes-IsFile target) (omega arith) (λ h n b numbered. (some (codes "tag"), refl)) 6 []
      (omega arith) (omega arith) refl

upload_file_multipart_closes_example :
    IsClosed test_env small_parts
      (codes "k")
      (codes "text/csv")
      (codes "u1")
      5
      (upload_file_multipart test_env small_parts 6 (codes "k") target (codes "text/csv") none 5 [])
upload_file_multipart_closes_example =
    upload_file_multipart_closes test_env small_parts (codes "k") (codes "text/csv") (codes "u1") 5
      6 target none [] refl

-- Leap day of the year 2000.
civil_from_days-nth_day_example : civil_from_days 11016 ≡ nth_day 11016
civil_from_days-nth_day_example = civil_from_days-nth_day 11016

build_key_at_separates_example :
    (sanitize_segment (codes "t") ≡ sanitize_segment (codes "t"))
    × (sanitize_segment (codes "w") ≡ sanitize_segment (codes "w"))
    × (ymd_from_unix (5 / nanos_per_second) ≡ ymd_from_unix (5 / nanos_per_second))
build_key_at_separates_example =
    build_key_at_separates (codes "p/") (codes "t") (codes "t") (codes "w") (codes "w")
      (codes "a.txt") (codes "a.txt") 5 5 refl

escapes : Result IoError ArchiveEntry → Bool
escapes (ok entry) = has_parent_dir entry.path
escapes (err e) = false

escapes_x : escapes (ok escaping_entry) ≡ true
unfolding escapes component_eq
escapes_x = refl

escaping-refused : ¬ All IsReadable (ok escaping_entry ∷ [])
unfolding escapes
escaping-refused ((entry, e, safe), _) = absurd (ground (arith, escapes_x, ap escapes e, safe.1))

extract_refuses_example : Refused target (normal (codes "tmp") ∷ []) [] (
    extract_archive_and_replace test_env target
      (normal (codes "tmp") ∷ [])
      (normal (codes "dir") ∷ [])
      [])
extract_refuses_example =
    extract_refuses test_env target (normal (codes "tmp") ∷ []) (normal (codes "dir") ∷ [])
      (ok escaping_entry ∷ []) [] (λ h. refl) escaping-refused

signed_url_bounded_example :
    let s = signed_url test_env small_parts (codes "k") 100000 [] in
    ((s.0 ≡ []) × ((e : Error) × (s.1 ≡ err e)))
    ⊎ ((seconds : ℕ) × (seconds ≤ 100000)
        × (seconds ≤ 86400)
        × (s.0 ≡ presigned (codes "b") (codes "k") seconds ∷ [])
        × (((url : Text) × (test_env.presign [] (codes "k") seconds ≡ ok url) × (s.1 ≡ ok url))
            ⊎ ((e : Error) × (s.1 ≡ err e))))
signed_url_bounded_example = signed_url_bounded test_env small_parts (codes "k") 100000 []
