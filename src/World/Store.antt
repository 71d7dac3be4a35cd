-- ===== src/World/Store.antt =====
-- What the file system keeps of the contents of files. `contents` gives the bytes of each file after
-- a history; the laws are those of a file system without links, that nobody else writes to and
-- whose reads do not fail.
use scriptorium.FilePath.Laws.{IsCleanPath}
use scriptorium.Error.{ok}
use scriptorium.Base.{
  Option, ◌∷◌, ◌≡◌, some, [], ◌≢◌, ◌++◌, false, ℕ, ◌≤◌, drop, is_nil, true, length, ◌+◌,
}
use scriptorium.FilePath.{FilePath, starts_with, is_absolute, has_parent_dir}
use scriptorium.World.Calls.{
  History, Call, Env, created_dir_all, flushed, Bytes, asked_metadata, listed_dir, created_file,
  opened, read_at, read_whole, set_mode, wrote, chowned, read_clock, renamed, removed_file,
  removed_dir_all, Metadata, read_archive, synced, looked_up, sent_request,
}

abbrev pub Contents : Type 0
Contents = History → FilePath → Option Bytes

-- The requests that leave all contents as they are.
abbrev pub IsQuiet : Call → Type 0
IsQuiet (created_dir_all p) = Unit
IsQuiet (flushed p) = Unit
IsQuiet (synced p) = Unit
IsQuiet (looked_up host port) = Unit
IsQuiet (sent_request url headers seconds) = Unit
IsQuiet (asked_metadata p) = Unit
IsQuiet (listed_dir p) = Unit
IsQuiet (opened p) = Unit
IsQuiet (read_archive p) = Unit
IsQuiet (read_at p offset) = Unit
IsQuiet (read_whole p) = Unit
IsQuiet (set_mode p mode) = Unit
IsQuiet (chowned p uid gid) = Unit
IsQuiet read_clock = Unit
IsQuiet _ = ⊥

-- What a file system without links leaves of the files that a request is not about, for absolute
-- paths without `.` and `..`, which lead to the same file only where they are the same.
pub record LeavesOthers (c : Contents) : Type 0 where
  pub quiet : (h : History) (call : Call) (p : FilePath) → IsQuiet call → c (call ∷ h) p ≡ c h p
  pub created :
      (h : History) (p q : FilePath)
      → IsCleanPath p
      → IsCleanPath q
      → q ≢ p
      → c (created_file p ∷ h) q ≡ c h q
  pub written :
      (h : History) (p q : FilePath) (new : Bytes)
      → IsCleanPath p
      → IsCleanPath q
      → q ≢ p
      → c (wrote p new ∷ h) q ≡ c h q
  pub moved :
      (h : History) (p q r : FilePath)
      → IsCleanPath p
      → IsCleanPath q
      → IsCleanPath r
      → starts_with r p ≡ false
      → starts_with r q ≡ false
      → c (renamed p q ∷ h) r ≡ c h r
  pub removed :
      (h : History) (p q : FilePath)
      → IsCleanPath p
      → IsCleanPath q
      → q ≢ p
      → c (removed_file p ∷ h) q ≡ c h q
  pub removed_dir :
      (h : History) (p q : FilePath)
      → IsCleanPath p
      → IsCleanPath q
      → starts_with q p ≡ false
      → c (removed_dir_all p ∷ h) q ≡ c h q
  -- Unpacking a relative path without `..` changes what lies below the directory only, as tar's
  -- `unpack_in` promises.
  pub unpacked :
      (h : History) (entry root p : FilePath)
      → is_absolute entry ≡ false
      → has_parent_dir entry ≡ false
      → IsCleanPath root
      → IsCleanPath p
      → starts_with p root ≡ false
      → c (Call.unpacked entry root ∷ h) p ≡ c h p

-- What it keeps of the files that are asked for.
pub record IsFileStore (env : Env) (c : Contents) : Type 0 where
  pub leaves : LeavesOthers c
  -- `File::create` leaves an empty file.
  pub created :
      (h : History) (p : FilePath)
      → env.create_file h p ≡ ok tt
      → c (created_file p ∷ h) p ≡ some []
  -- `write_all` appends.
  pub written :
      (h : History) (p : FilePath) (old new : Bytes)
      → env.write_all h p new ≡ ok tt
      → c h p ≡ some old
      → c (wrote p new ∷ h) p ≡ some (old ++ new)
  -- A file moves with its bytes.
  pub moved :
      (h : History) (p q : FilePath) (bytes : Bytes)
      → env.rename h p q ≡ ok tt
      → c h p ≡ some bytes
      → c (renamed p q ∷ h) q ≡ some bytes
  -- A file that is there can be opened and read, and its metadata say so.
  pub opens :
      (h : History) (p : FilePath) (bytes : Bytes) → c h p ≡ some bytes → env.open_file h p ≡ ok tt
  pub finds :
      (h : History) (p : FilePath) (bytes : Bytes)
      → c h p ≡ some bytes
      → (meta : Metadata) × (env.metadata h p ≡ ok meta)
        × (meta.is_dir ≡ false)
        × (meta.len ≡ length bytes)
  -- A read gives the bytes that stand at the offset, and none at the end of the file only.
  pub reads :
      (h : History) (p : FilePath) (offset room : ℕ) (bytes : Bytes)
      → c h p ≡ some bytes
      → 1 ≤ room
      → (got : Bytes) × (env.read h p offset room ≡ ok got)
        × (got ++ drop (offset + length got) bytes ≡ drop offset bytes)
        × (is_nil got ≡ true → drop offset bytes ≡ [])
