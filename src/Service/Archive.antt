-- ===== src/Service/Archive.antt =====
-- src/service/archive.rs: staging files, and replacing a directory by an archive's contents.
pub mod Extract
use scriptorium.World.Fs.{
  remove_dir_all, metadata, create_dir_all, rename, read_dir, remove_file, open_file, create_file,
  read,
}
use scriptorium.World.{Io, pure, ◌>>=◌, ◌>>◌, lift_io, attempt, fail, ignore, of_result}
use scriptorium.Text.{Text, codes, hex}
use scriptorium.World.Calls.{
  other_type, Env, EntryType, ArchiveEntry, DirEntry, read_clock, Metadata, asked_metadata,
  read_archive, unpacked, regular, removed_dir_all, renamed, created_dir_all, directory, packed_dir,
  packed_file, Bytes,
}
use scriptorium.FilePath.{
  FilePath, parent, join, file_name, cur_dir, normal, is_absolute, has_parent_dir,
}
use scriptorium.Base.{
  ◌∷◌, ◌||◌, ◌++◌, ◌^◌, ◌%◌, ℕ, ◌*◌, List, Bool, true, none, false, if◌then◌else◌, [], String, some,
  suc, ◌+◌, length, is_nil, zero,
}
use scriptorium.Error.{
  other_kind, ok, err, not_found, Result, io, Error, IoError, other, archive_escapes,
  permission_denied, unsupported_entry, out_of_fuel,
}

abbrev pub transfer_chunk_size : ℕ
transfer_chunk_size = 64 * 1024

-- `Path::parent` with the directory that a path without one is taken to be in.
abbrev pub parent_or_dot : FilePath → FilePath
parent_or_dot p = elim (parent p) [ none ↦ cur_dir ∷ [] | some q ↦ q ]

-- From the time of the clock, in nanoseconds.
unfoldable pub transfer_temp_path : FilePath → Text → ℕ → FilePath
transfer_temp_path target suffix nanos = join (parent_or_dot target) (
    normal
      (codes ".scriptorium-" ++ (suffix ++ (codes "-" ++ (hex (nanos % 2 ^ 64) ++ codes ".tmp"))))
    ∷ [])

module _ (env : Env) where
  read_nanos : Io Error ℕ
  read_nanos h = (read_clock ∷ h, ok (env.now h))

  abbrev pub build_workspace_transfer_temp_path : FilePath → Text → Io Error FilePath
  build_workspace_transfer_temp_path target suffix h =
      (read_clock ∷ h, ok (transfer_temp_path target suffix (env.now h)))

  -- What `metadata` answered.
  abbrev pub remove_found : FilePath → Result IoError Metadata → Io Error (Unit {0})
  remove_found target (ok meta) =
      if meta.is_dir then lift_io (remove_dir_all env target) else lift_io (remove_file env target)
  remove_found target (err e) = elim e.kind [
    | not_found ↦ pure tt
    | permission_denied ↦ fail (io e)
    | other_kind ↦ fail (io e)
  ]

  unfoldable pub remove_path_if_exists : FilePath → Io Error (Unit {0})
  remove_path_if_exists target = do meta ← attempt (metadata env target); remove_found target meta

  -- The same again, for the thread of the archive.
  abbrev pub remove_path_if_exists_blocking : FilePath → Io Error (Unit {0})
  remove_path_if_exists_blocking target = remove_path_if_exists target

  unfoldable pub replace_workspace_file_from_staging : FilePath → FilePath → Io Error (Unit {0})
  replace_workspace_file_from_staging staging target = do
    elim (parent target) [ none ↦ pure tt | some p ↦ lift_io (create_dir_all env p) ]
    remove_path_if_exists target
    lift_io (rename env staging target)

  -- `Path::exists` and `Path::is_dir`
  abbrev pub path_exists : FilePath → Io Error Bool
  path_exists p h =
      (asked_metadata p ∷ h, ok (elim (env.metadata h p) [ ok _ ↦ true | err _ ↦ false ]))

  abbrev pub path_is_dir : FilePath → Io Error Bool
  path_is_dir p h =
      (asked_metadata p ∷ h, ok (elim (env.metadata h p) [ ok meta ↦ meta.is_dir | err _ ↦ false ]))

  unfoldable pub archive_entries : FilePath → Io IoError (List (Result IoError ArchiveEntry))
  archive_entries staging h = (read_archive staging ∷ h, env.archive_entries h staging)

  unpack_in : FilePath → FilePath → Io IoError (Unit {0})
  unpack_in path extraction_root h =
      (unpacked path extraction_root ∷ h, env.unpack_in h path extraction_root)

  abbrev pub is_supported : EntryType → Bool
  is_supported regular = true
  is_supported directory = true
  is_supported other_type = false

  -- The checks on an entry.
  abbrev pub check_entry : ArchiveEntry → Result Error (Unit {0})
  check_entry entry =
      if is_absolute entry.path || has_parent_dir entry.path
      then err (other (archive_escapes entry.path))
      else if is_supported entry.entry_type
      then ok tt
      else err (other (unsupported_entry entry.path))

  -- The loop over the entries.
  unfoldable pub unpack_entries :
      FilePath → List (Result IoError ArchiveEntry) → Io Error (Unit {0})
  unfolding unpack_in
  unpack_entries extraction_root [] = pure tt
  unpack_entries extraction_root (err e ∷ rest) = fail (io e)
  unpack_entries extraction_root (ok entry ∷ rest) = do
    of_result (check_entry entry)
    lift_io (unpack_in entry.path extraction_root)
    unpack_entries extraction_root rest

  -- `collect::<Result<Vec<_>, _>>`
  unfoldable pub collect_entries : List (Result IoError DirEntry) → Result IoError (List DirEntry)
  collect_entries [] = ok []
  collect_entries (err e ∷ rest) = err e
  collect_entries (ok entry ∷ rest) = elim (collect_entries rest) [
    | ok entries ↦ ok (entry ∷ entries)
    | err e ↦ err e
  ]

  abbrev pub entry_name : DirEntry → FilePath
  entry_name entry = elim (file_name entry.path) [ none ↦ [] | some name ↦ normal name ∷ [] ]

  unfoldable pub rename_entries : FilePath → List (Result IoError DirEntry) → Io Error (Unit {0})
  rename_entries target [] = pure tt
  rename_entries target (err e ∷ rest) = fail (io e)
  rename_entries target (ok entry ∷ rest) = do
    lift_io (rename env entry.path (join target (entry_name entry)))
    rename_entries target rest

  abbrev pub clean_up : FilePath → FilePath → Io Error (Unit {0})
  clean_up extraction_root staging = do
    ignore (remove_dir_all env extraction_root)
    ignore (remove_file env staging)

  -- Where the archive holds one directory only, that becomes the target.
  unfoldable pub move_entries : FilePath → FilePath → FilePath → Io Error (Unit {0})
  move_entries staging extraction_root target = do
    lift_io (create_dir_all env target)
    entries ← lift_io (read_dir env extraction_root)
    rename_entries target entries
    clean_up extraction_root staging

  unfoldable pub place_entries :
      FilePath → FilePath → FilePath → List DirEntry → Io Error (Unit {0})
  place_entries staging extraction_root target (only ∷ []) = do
    is_dir ← path_is_dir only.path
    if is_dir
        then (do lift_io (rename env only.path target); clean_up extraction_root staging)
        else move_entries staging extraction_root target
  place_entries staging extraction_root target entries = move_entries staging extraction_root target

  -- From the unpacked archive on.
  unfoldable pub replace_target : FilePath → FilePath → FilePath → Io Error (Unit {0})
  replace_target staging extraction_root target = do
    remove_path_if_exists_blocking target
    listed ← lift_io (read_dir env extraction_root)
    entries ← lift_io (of_result (collect_entries listed))
    place_entries staging extraction_root target entries

  abbrev pub clear_root : FilePath → Bool → Io Error (Unit {0})
  clear_root extraction_root found =
      if found then lift_io (remove_dir_all env extraction_root) else pure tt

  unfoldable pub extract_archive_and_replace : FilePath → FilePath → FilePath → Io Error (Unit {0})
  unfolding archive_entries
  extract_archive_and_replace staging extraction_root target = do
    found ← path_exists extraction_root
    clear_root extraction_root found
    lift_io (create_dir_all env extraction_root)
    lift_io (open_file env staging)
    entries ← lift_io (archive_entries staging)
    unpack_entries extraction_root entries
    replace_target staging extraction_root target

  unfoldable pub replace_workspace_directory_from_archive_path :
      FilePath → FilePath → Io Error (Unit {0})
  replace_workspace_directory_from_archive_path staging target = do
    lift_io (create_dir_all env (parent_or_dot target))
    extraction_root ← build_workspace_transfer_temp_path target (codes "expand")
    extract_archive_and_replace staging extraction_root target

  -- `std::env::temp_dir()` is a parameter; an error of the blocking task is not modelled.
  unfoldable pub tar_gz_into_temp : FilePath → FilePath → Text → Io Error FilePath
  unfolding read_nanos
  tar_gz_into_temp temp_dir source desired_name = do
    nanos ← read_nanos
    let tmp = join temp_dir (
        normal (codes "scriptorium-" ++ (hex (nanos % 2 ^ 64) ++ (codes "-" ++ desired_name))) ∷ [])
    lift_io (create_file env tmp)
    is_dir ← path_is_dir source
    if is_dir
        then (λ h.
            lift_io
              (λ h. (
                packed_dir source (name_or "workspace") tmp ∷ h,
                env.pack h source (name_or "workspace") tmp,
              ))
              h)
        else (do
          lift_io (open_file env source)
          lift_io (λ h. (
            packed_file source (name_or "file") tmp ∷ h,
            env.pack h source (name_or "file") tmp,
          )))
    pure tmp
    where
      name_or : String → Text
      name_or s = elim (file_name source) [ none ↦ codes s | some name ↦ name ]

  -- The loop of `sha256_file`, from the offset in the file and the bytes that the hasher has seen,
  -- with fuel for each read.
  unfoldable pub hash_reads : ℕ → FilePath → ℕ → Bytes → Io Error Text
  hash_reads zero path offset hashed = fail (other out_of_fuel)
  hash_reads (suc fuel) path offset hashed =
      let more =
        λ (bytes : Bytes). hash_reads fuel path (offset + length bytes) (hashed ++ bytes) in
      do
        bytes ← lift_io (read env path offset transfer_chunk_size)
        if is_nil bytes then pure (env.sha256_hex hashed) else more bytes

  unfoldable pub sha256_file : ℕ → FilePath → Io Error Text
  sha256_file fuel path = do lift_io (open_file env path); hash_reads fuel path 0 []
