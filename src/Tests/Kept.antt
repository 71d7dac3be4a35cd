-- ===== src/Tests/Kept.antt =====
-- A file system that keeps what it is given, replayed from the requests.
use scriptorium.Workspace.Lexical.{walk}
use scriptorium.Service.Exported.{bytes_of}
use scriptorium.Service.Roundtrip.{IsPrepared, import_export_raw}
use scriptorium.Service.Export.{PreparedExport, do_export_workspace_object, export_stream}
use scriptorium.Tests.Containers.{service}
use scriptorium.Oss.Multipart.{drop-drop}
use scriptorium.Service.Archive.{
  transfer_temp_path, replace_workspace_file_from_staging, remove_path_if_exists,
}
use scriptorium.Tests.Paths.{clean_by_walk, clean_by_walk-IsPathClean, srv, srv-IsCleanRoot}
use scriptorium.Text.{codes, bytes, utf8_char, text_eq}
use scriptorium.Workspace.{
  home_dir, resolve_path, validate_workspace_id, id_byte, ensure_home, workspace_dir,
}
use scriptorium.Service.Import.{
  ImportHeader, ImportResponse, ImportPayload, do_import_workspace_object, raw, chunk, header,
  receive_import, receive_chunks, place_import,
}
use scriptorium.Service.Stored.{apart_neq, IsApart}
use scriptorium.Service.Imported.{IsUpdated, import_raw_stores}
use scriptorium.FilePath.Laws.{path_eq_iff}
use scriptorium.Error.{Result, IoError, err, ok, Status}
use scriptorium.FilePath.{FilePath, path_eq, starts_with, normal, join, parent, components}
use scriptorium.World.Calls.{
  Env, History, Bytes, Call, created_file, Metadata, created_dir_all, flushed, wrote,
  asked_metadata, renamed, listed_dir, removed_file, opened, removed_dir_all, read_at, read_whole,
  set_mode, chowned, read_clock, read_archive, regular, synced, looked_up, sent_request,
}
use scriptorium.Base.{
  Option, none, false, ℕ, ◌≢◌, length, some, ◌∷◌, ◌++◌, ◌≡◌, take, if◌then◌else◌, true, Bool-cases,
  drop, [], ◌+◌, inl, refl, inr, ◌≤◌, ap, List, suc, arith, is_nil, sym, ◌∙◌, zero,
}
use scriptorium.World.Store.{Contents, IsFileStore, IsQuiet, LeavesOthers}
use scriptorium.Tests.{test_env, missing_file}

abbrev append_to : Option Bytes → Bytes → Option Bytes
append_to none new = none
append_to (some old) new = some (old ++ new)

abbrev pub kept : Contents
kept [] p = none
kept (created_file q ∷ h) p = if path_eq p q then some [] else kept h p
kept (wrote q new ∷ h) p = if path_eq p q then append_to (kept h p) new else kept h p
kept (renamed q r ∷ h) p = if path_eq p r then kept h q else if path_eq p q then none else kept h p
kept (removed_file q ∷ h) p = if path_eq p q then none else kept h p
kept (removed_dir_all q ∷ h) p = if starts_with p q then none else kept h p
kept (_ ∷ h) p = kept h p

abbrev found : Option Bytes → Result IoError Metadata
found none = err missing_file
found (some bytes) =
    ok (record { is_dir = false; len = length bytes; mode = 0o644; modified = none })

abbrev opened_file : Option Bytes → Result IoError (Unit {0})
opened_file none = err missing_file
opened_file (some bytes) = ok tt

abbrev read_from : Option Bytes → ℕ → ℕ → Result IoError Bytes
read_from none offset room = err missing_file
read_from (some bytes) offset room = ok (take room (drop offset bytes))

-- An archive holds one file, and so does each directory.
abbrev pub keeping : Env
keeping = record test_env {
  archive_entries =
      λ h p. ok (ok (record { path = normal (codes "a") ∷ []; entry_type = regular }) ∷ []);
  read_dir = λ h p.
      ok (ok (record { path = p ++ (normal (codes "a") ∷ []); meta = err missing_file }) ∷ []);
  metadata = λ h p. found (kept h p);
  open_file = λ h p. opened_file (kept h p);
  read = λ h p. read_from (kept h p);
}

kept-quiet :
    (h : History) (call : Call) (p : FilePath) → IsQuiet call → kept (call ∷ h) p ≡ kept h p
kept-quiet h (created_dir_all a) p silent = refl
kept-quiet h (flushed a) p silent = refl
kept-quiet h (asked_metadata a) p silent = refl
kept-quiet h (listed_dir a) p silent = refl
kept-quiet h (opened a) p silent = refl
kept-quiet h (read_at a b) p silent = refl
kept-quiet h (read_archive a) p silent = refl
kept-quiet h (synced a) p silent = refl
kept-quiet h (looked_up a b) p silent = refl
kept-quiet h (sent_request a b d) p silent = refl
kept-quiet h (read_whole a) p silent = refl
kept-quiet h (set_mode a b) p silent = refl
kept-quiet h (chowned a b c) p silent = refl
kept-quiet h read_clock p silent = refl
kept-quiet h call p silent = absurd silent

same_path : (p : FilePath) → path_eq p p ≡ true
same_path p = (path_eq_iff p p).1 refl

other_path : (p q : FilePath) → q ≢ p → path_eq q p ≡ false
other_path p q other = elim (Bool-cases (path_eq q p)) [
  | inl same ↦ absurd (other ((path_eq_iff q p).0 same))
  | inr differs ↦ differs
]

take_splits : (n : ℕ) (xs : Bytes) → take n xs ++ drop (length (take n xs)) xs ≡ xs
take_splits zero xs = refl
take_splits (suc n) [] = refl
take_splits (suc n) (x ∷ xs) =
    ap (λ k. x ∷ (take n xs ++ drop k (x ∷ xs))) {x = length (take (suc n) (x ∷ xs))}
      {y = suc (length (take n xs))} (omega arith)
    ∙ ap (λ ys. x ∷ ys) (take_splits n xs)

none_left : (n : ℕ) (xs : Bytes) → 1 ≤ n → is_nil (take n xs) ≡ true → xs ≡ []
none_left zero xs some_room blank = absurd (omega (arith, some_room))
none_left (suc n) [] some_room blank = refl
none_left (suc n) (x ∷ xs) some_room blank = absurd (ground (arith, blank))

read_splits :
    (bytes : Bytes) (offset room : ℕ)
    → take room (drop offset bytes) ++ drop (offset + length (take room (drop offset bytes))) bytes
      ≡ drop offset bytes
read_splits bytes offset room =
    ap (λ rest. take room (drop offset bytes) ++ rest)
      (sym (drop-drop offset (length (take room (drop offset bytes))) bytes))
    ∙ take_splits room (drop offset bytes)

pub keeping-LeavesOthers : LeavesOthers kept
keeping-LeavesOthers = record {
  quiet = kept-quiet;
  created = λ h p q _ _ other. rw (other_path p q other) refl;
  written = λ h p q new _ _ other. rw (other_path p q other) refl;
  moved = λ h p q r _ _ _ far far'.
      rw (other_path q r (apart_neq r q far'), other_path p r (apart_neq r p far)) refl;
  removed = λ h p q _ _ other. rw (other_path p q other) refl;
  removed_dir = λ h p q _ _ far. rw far refl;
  unpacked = λ h entry root p relative inside _ _ far. refl;
}

pub keeping-IsFileStore : IsFileStore keeping kept
keeping-IsFileStore = record {
  leaves = keeping-LeavesOthers;
  created = λ h p e. rw (same_path p) refl;
  written = λ h p old new e held. rw (same_path p, held) refl;
  moved = λ h p q bytes e held. rw (same_path q, held) refl;
  opens = λ h p bytes held. rw held refl;
  finds = λ h p bytes held. (
    record { is_dir = false; len = length bytes; mode = 0o644; modified = none },
    rw held refl,
    refl,
    refl,
  );
  reads = λ h p offset room bytes held some_room. (
    take room (drop offset bytes),
    rw held refl,
    read_splits bytes offset room,
    none_left room (drop offset bytes) some_room,
  );
}

abbrev pub head : ImportHeader
head = record {
  workspace_id = codes "w1";
  target_path = codes "f";
  encoding = raw;
  content_type = [];
}

abbrev pub messages : List (Result Status ImportPayload)
messages = ok (chunk (1 ∷ 2 ∷ [])) ∷ ok (chunk (3 ∷ [])) ∷ []

abbrev pub target : FilePath
target = home_dir service.workspaces (codes "w1") ++ (normal (codes "f") ∷ [])

abbrev imported : History × Result Status ImportResponse
imported = do_import_workspace_object keeping service clean_by_walk (ok (header head) ∷ messages) []

abbrev response : ImportResponse
response = record { bytes_written = 3; content_type = codes "application/octet-stream" }

pub target-resolved :
    resolve_path clean_by_walk service.workspaces (codes "w1") (codes "f") ≡ ok target
unfolding resolve_path validate_workspace_id id_byte bytes utf8_char components join walk
    starts_with home_dir workspace_dir text_eq
target-resolved = refl

target-IsApart : (nanos : ℕ) → IsApart (transfer_temp_path target (codes "import") nanos) target
unfolding transfer_temp_path starts_with join parent home_dir workspace_dir components text_eq
target-IsApart nanos = refl

imported-ok : imported ≡ (imported.0, ok response)
unfolding do_import_workspace_object receive_import ensure_home resolve_path validate_workspace_id
    id_byte bytes utf8_char components join walk starts_with home_dir workspace_dir parent text_eq
    transfer_temp_path receive_chunks place_import replace_workspace_file_from_staging
    remove_path_if_exists path_eq
imported-ok = refl

import_raw_stores_example :
    (nanos : ℕ) × IsUpdated kept target
      (transfer_temp_path target (codes "import") nanos)
      (1 ∷ 2 ∷ 3 ∷ [])
      []
      imported.0
import_raw_stores_example =
    import_raw_stores keeping kept keeping-IsFileStore service clean_by_walk
      clean_by_walk-IsPathClean srv srv-IsCleanRoot head messages target [] imported.0 response
      (1 ∷ 2 ∷ 3 ∷ []) refl target-resolved target-IsApart refl imported-ok

import_export_raw_example :
    (h₁ : History) × (p : PreparedExport) × (do_export_workspace_object keeping service
        clean_by_walk [] 4
        (record { workspace_id = codes "w1"; source_path = codes "f"; encoding = raw })
        imported.0
      ≡ (h₁, ok p))
    × IsPrepared keeping target (1 ∷ 2 ∷ 3 ∷ []) p
    × (bytes_of (export_stream keeping 5 p h₁).1 ≡ some (1 ∷ 2 ∷ 3 ∷ []))
import_export_raw_example =
    import_export_raw keeping kept service clean_by_walk [] head messages target [] imported.0
      response (1 ∷ 2 ∷ 3 ∷ []) 4 5 keeping-IsFileStore clean_by_walk-IsPathClean srv
      srv-IsCleanRoot refl target-resolved target-IsApart refl imported-ok (omega arith)
      (omega arith)
