-- ===== src/World/Fs.antt =====
-- The requests to the file system, each noted in the history.
use scriptorium.Base.{ℕ, List, ◌∷◌}
use scriptorium.FilePath.{FilePath}
use scriptorium.Error.{IoError, Result}
use scriptorium.World.Calls.{
  Bytes, created_dir_all, removed_dir_all, removed_file, created_file, flushed, synced, renamed,
  wrote, asked_metadata, listed_dir, opened, read_at, read_whole, set_mode, chowned, History,
  Metadata, DirEntry, Env,
}

-- A program over the file system.
abbrev pub FsIo : Type 0 → Type 0
FsIo A = History → History × Result IoError A

module _ (env : Env) where
  abbrev pub create_dir_all : FilePath → FsIo (Unit {0})
  create_dir_all p h = (created_dir_all p ∷ h, env.create_dir_all h p)

  abbrev pub remove_dir_all : FilePath → FsIo (Unit {0})
  remove_dir_all p h = (removed_dir_all p ∷ h, env.remove_dir_all h p)

  abbrev pub remove_file : FilePath → FsIo (Unit {0})
  remove_file p h = (removed_file p ∷ h, env.remove_file h p)

  abbrev pub create_file : FilePath → FsIo (Unit {0})
  create_file p h = (created_file p ∷ h, env.create_file h p)

  abbrev pub flush : FilePath → FsIo (Unit {0})
  flush p h = (flushed p ∷ h, env.flush h p)

  abbrev pub sync_all : FilePath → FsIo (Unit {0})
  sync_all p h = (synced p ∷ h, env.sync_all h p)

  abbrev pub rename : FilePath → FilePath → FsIo (Unit {0})
  rename p q h = (renamed p q ∷ h, env.rename h p q)

  abbrev pub write_all : FilePath → Bytes → FsIo (Unit {0})
  write_all p bytes h = (wrote p bytes ∷ h, env.write_all h p bytes)

  abbrev pub metadata : FilePath → FsIo Metadata
  metadata p h = (asked_metadata p ∷ h, env.metadata h p)

  abbrev pub read_dir : FilePath → FsIo (List (Result IoError DirEntry))
  read_dir p h = (listed_dir p ∷ h, env.read_dir h p)

  abbrev pub open_file : FilePath → FsIo (Unit {0})
  open_file p h = (opened p ∷ h, env.open_file h p)

  abbrev pub read : FilePath → ℕ → ℕ → FsIo Bytes
  read p offset room h = (read_at p offset ∷ h, env.read h p offset room)

  abbrev pub read_file : FilePath → FsIo Bytes
  read_file p h = (read_whole p ∷ h, env.read_file h p)

  abbrev pub set_permissions : FilePath → ℕ → FsIo (Unit {0})
  set_permissions p mode h = (set_mode p mode ∷ h, env.set_permissions h p mode)

  abbrev pub chown : FilePath → ℕ → ℕ → FsIo (Unit {0})
  chown p uid gid h = (chowned p uid gid ∷ h, env.chown h p uid gid)
