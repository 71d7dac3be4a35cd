-- ===== src/Service/Archive/Extract.antt =====
-- What `extract_archive_and_replace` does with an archive that it refuses.
use scriptorium.World.Fs.{open_file, create_dir_all}
use scriptorium.World.{Io, ◌>>=◌, ◌>>◌, map_err, lift_io}
use scriptorium.Service.Archive.{
  check_entry, unpack_entries, extract_archive_and_replace, clear_root, archive_entries,
  replace_target,
}
use scriptorium.FilePath.{FilePath, is_absolute, has_parent_dir}
use scriptorium.World.Calls.{
  ArchiveEntry, Env, Call, History, asked_metadata, removed_dir_all, other_type, created_dir_all,
  opened, read_archive, unpacked,
}
use scriptorium.Base.{
  ◌∷◌, ◌⊎◌, ◌++◌, ◌≢◌, inl, inr, ◌≡◌, List, false, All, arith, [], refl, ◌∙◌, subst, Bool, sym,
  append_assoc, All-append, true,
}
use scriptorium.Error.{ok, err, Result, IoError, Error, io, Result-cases}

-- An entry that may be unpacked: a file or a directory, with a relative path without `..`.
abbrev pub IsSafe : ArchiveEntry → Type 0
IsSafe entry =
    (is_absolute entry.path ≡ false)
    × (has_parent_dir entry.path ≡ false)
    × (entry.entry_type ≢ other_type)

abbrev pub IsReadable : Result IoError ArchiveEntry → Type 0
IsReadable item = (entry : ArchiveEntry) × (item ≡ ok entry) × IsSafe entry

-- The requests that touch neither the target nor anything but the staging area.
abbrev pub IsStaging : FilePath → FilePath → Call → Type 0
IsStaging staging root call =
    (call ≡ asked_metadata root)
    ⊎ (call ≡ removed_dir_all root)
    ⊎ (call ≡ created_dir_all root)
    ⊎ (call ≡ opened staging)
    ⊎ (call ≡ read_archive staging)
    ⊎ ((path : FilePath) × (call ≡ unpacked path root)
        × (is_absolute path ≡ false)
        × (has_parent_dir path ≡ false))

abbrev pub Refused {ℓ} :
    {A : Type ℓ} → FilePath → FilePath → History → History × Result Error A → Type ℓ
Refused staging root h s =
    ((e : Error) × (s.1 ≡ err e))
    × ((new : History) × (s.0 ≡ new ++ h) × All (IsStaging staging root) new)

module _ (staging root : FilePath) where
  Refused-cons {ℓ} :
      {A : Type ℓ} (c : Call) (h : History) (s : History × Result Error A)
      → IsStaging staging root c
      → Refused staging root (c ∷ h) s
      → Refused staging root h s
  Refused-cons c h s allowed (failed, (new, e, all)) = (
    failed,
    (
      new ++ (c ∷ []),
      e ∙ sym (append_assoc new (c ∷ []) h),
      (All-append (IsStaging staging root) new (c ∷ [])).1 (all, (allowed, tt)),
    ),
  )

  -- A request of the staging area, and a program that is refused after it.
  Refused-bind {ℓ κ} :
      {A : Type ℓ} {B : Type κ} (c : Call) (r : Result Error A) (k : A → Io Error B) (h : History)
      → IsStaging staging root c
      → ((a : A) → r ≡ ok a → Refused staging root (c ∷ h) (k a (c ∷ h)))
      → Refused staging root h (((λ g. (c ∷ g, r)) >>= k) h)
  Refused-bind c (ok a) k h allowed later = Refused-cons c h (k a (c ∷ h)) allowed (later a refl)
  Refused-bind c (err e) k h allowed later = ((e, refl), (c ∷ [], refl, (allowed, tt)))

module _ (env : Env) (staging root : FilePath) where
  pub check_entry_cases :
      (entry : ArchiveEntry)
      → ((check_entry env entry ≡ ok tt) × IsSafe entry)
        ⊎ ((e : Error) × (check_entry env entry ≡ err e) × ¬ IsSafe entry)
  check_entry_cases entry = ground arith

  unpacked-IsStaging :
      (entry : ArchiveEntry) → IsSafe entry → IsStaging staging root (unpacked entry.path root)
  unpacked-IsStaging entry (relative, inside, _) =
      inr (inr (inr (inr (inr (entry.path, refl, relative, inside)))))

  unpack_entries_cases :
      (entries : List (Result IoError ArchiveEntry)) (h : History)
      → Refused staging root h (unpack_entries env root entries h) ⊎ All IsReadable entries
  unfolding unpack_entries
  unpack_entries_cases [] h = inr tt
  unpack_entries_cases (err e ∷ rest) h = inl ((io e, refl), ([], refl, tt))
  unpack_entries_cases (ok entry ∷ rest) h = elim (check_entry_cases entry) [
    | inr (e, p, _) ↦ inl ((e, ground (arith, p)), ([], ground (arith, p), tt))
    | inl (p, safe) ↦ elim (Result-cases (env.unpack_in h entry.path root)) [
      | inr (e, q) ↦ inl (
        (io e, ground (arith, p, q)),
        (unpacked entry.path root ∷ [], ground (arith, p, q), (unpacked-IsStaging entry safe, tt)),
      )
      | inl (_, q) ↦ elim (unpack_entries_cases rest (unpacked entry.path root ∷ h)) [
        | inr good ↦ inr ((entry, refl, safe), good)
        | inl bad ↦ inl (
            subst (Refused staging root h) (sym (ground (arith, p, q))) (
              Refused-cons staging root (unpacked entry.path root) h _
                (unpacked-IsStaging entry safe) bad))
      ]
    ]
  ]

  clear_then :
      (found : Bool) (k : Io Error (Unit {0}))
      → ((h : History) → Refused staging root h (k h))
      → (h : History) → Refused staging root h ((clear_root env root found >> k) h)
  clear_then true k later h =
      Refused-bind staging root (removed_dir_all root) (map_err io (env.remove_dir_all h root))
        (λ _. k) h (inr (inl refl)) (λ _ _. later (removed_dir_all root ∷ h))
  clear_then false k later h = later h

  -- A refused program is refused whatever was to come after it.
  Refused-then :
      (m k : Io Error (Unit {0})) (h : History)
      → Refused staging root h (m h)
      → Refused staging root h ((m >> k) h)
  Refused-then m k h ((e, p), staged) =
      let same : (m >> k) h ≡ ((m h).0, err e) = ground (arith, p) in
      subst (Refused staging root h) (sym same) ((e, refl), staged)

  -- From the reading of the archive on.
  read_refuses :
      (entries : List (Result IoError ArchiveEntry)) (k : Io Error (Unit {0})) (h : History)
      → env.archive_entries h staging ≡ ok entries
      → ¬ All IsReadable entries
      → Refused staging root h (
          (lift_io (archive_entries env staging) >>= λ entries'.
          unpack_entries env root entries' >> k)
            h)
  unfolding archive_entries
  read_refuses entries k h reads bad =
      let h' = read_archive staging ∷ h in
      elim (unpack_entries_cases entries h') [
        | inr good ↦ absurd (bad good)
        | inl refused ↦ subst (Refused staging root h) (sym (ground (arith, reads))) (
            Refused-cons staging root (read_archive staging) h
              ((unpack_entries env root entries >> k) h') (inr (inr (inr (inr (inl refl)))))
              (Refused-then (unpack_entries env root entries) k h' refused))
      ]

  -- Where the archive reads as `entries`, and one of them cannot be read, is no file or directory,
  -- has an absolute path or a path with `..`, `extract_archive_and_replace` fails. All that it has
  -- asked for is to look at, clear and make the extraction root, to read the archive, and to unpack
  -- relative paths without `..` under that root: the target is not touched.
  pub extract_refuses :
      (target : FilePath) (entries : List (Result IoError ArchiveEntry)) (h : History)
      → ((h' : History) → env.archive_entries h' staging ≡ ok entries)
      → ¬ All IsReadable entries
      → Refused staging root h (extract_archive_and_replace env staging root target h)
  unfolding extract_archive_and_replace archive_entries
  extract_refuses target entries h reads bad =
      Refused-cons staging root (asked_metadata root) h _ (inl refl) (
        clear_then (elim (env.metadata h root) [ ok _ ↦ true | err _ ↦ false ])
          (lift_io (create_dir_all env root) >> opening) made (asked_metadata root ∷ h))
    where
      reading : Io Error (Unit {0})
      reading = lift_io (archive_entries env staging) >>= λ entries'.
          unpack_entries env root entries' >> replace_target env staging root target

      opening : Io Error (Unit {0})
      opening = lift_io (open_file env staging) >> reading

      opened_then : (h : History) → Refused staging root h (opening h)
      opened_then h =
          Refused-bind staging root (opened staging) (map_err io (env.open_file h staging))
            (λ _. reading) h (inr (inr (inr (inl refl))))
            (λ _ _.
              read_refuses entries (replace_target env staging root target) (opened staging ∷ h)
                (reads (opened staging ∷ h)) bad)

      made :
          (h : History) → Refused staging root h ((lift_io (create_dir_all env root) >> opening) h)
      made h =
          Refused-bind staging root (created_dir_all root) (map_err io (env.create_dir_all h root))
            (λ _. opening) h (inr (inr (inl refl))) (λ _ _. opened_then (created_dir_all root ∷ h))
