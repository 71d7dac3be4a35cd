-- ===== src/Service/Within/Archive.antt =====
-- What the helpers of src/service/archive.rs ask for, below a directory that holds all of their paths.
use scriptorium.Service.Stored.{make_parent}
use scriptorium.Service.Archive.Extract.{check_entry_cases}
use scriptorium.World.Fs.{metadata, remove_dir_all, remove_file, rename}
use scriptorium.Text.{Text}
use scriptorium.World.Trace.{
  Makes, Makes-bind, Makes-lift, Makes-result, Makes-if, Makes-attempt, Makes-one, Makes-then, Adds,
  Adds-refl, Adds-one,
}
use scriptorium.Base.{
  List, ◌≡◌, All, ◌∷◌, ◌++◌, [], Option-cases, refl, inr, subst, inl, arith, sym,
}
use scriptorium.Service.Within.{
  IsBelow, IsWithin, IsInside, parent-IsBelow, append-IsBelow, IsInside-IsBelow,
}
use scriptorium.Service.Archive.{
  remove_path_if_exists, replace_workspace_file_from_staging, unpack_entries, rename_entries,
  clean_up, remove_found, entry_name,
}
use scriptorium.World.{Io, lift_io, attempt, pure, fail, ◌>>◌}
use scriptorium.Error.{
  Result, ErrorKind, IoError, Error, not_found, ok, io, permission_denied, other_kind, err,
}
use scriptorium.World.Calls.{
  Env, History, Call, DirEntry, Metadata, ArchiveEntry, removed_dir_all, asked_metadata,
  removed_file, renamed, created_dir_all, unpacked,
}
use scriptorium.FilePath.{FilePath, join, normal, file_name}

-- The path of an entry that a listing of the directory has.
abbrev pub IsListedIn : FilePath → Result IoError DirEntry → Type 0
IsListedIn p (ok entry) = (name : Text) × (entry.path ≡ p ++ (normal name ∷ []))
IsListedIn p (err e) = Unit

-- A listing gives paths that lie in the directory that it is of, as `DirEntry::path` does.
pub record ListsInside (env : Env) : Type 0 where
  pub inside :
      (h : History) (p : FilePath) (listed : List (Result IoError DirEntry))
      → env.read_dir h p ≡ ok listed
      → All (IsListedIn p) listed

module _ (env : Env) (dir : FilePath) where
  abbrev Within : Call → Type 0
  Within = IsWithin dir

  -- One request of the file system.
  pub io_Makes : {A : Type 0} (m : Io IoError A) → Makes Within m → Makes Within (lift_io m)
  io_Makes m made = Makes-lift io m made

  kind-Makes :
      {A : Type 0} (k : ErrorKind) (a b c : Io Error A)
      → Makes Within a
      → Makes Within b
      → Makes Within c
      → Makes Within (elim k [ not_found ↦ a | permission_denied ↦ b | other_kind ↦ c ])
  kind-Makes not_found a b c x y z = x
  kind-Makes permission_denied a b c x y z = y
  kind-Makes other_kind a b c x y z = z

  remove_found-Makes :
      (target : FilePath) (r : Result IoError Metadata)
      → IsBelow dir target
      → Makes Within (remove_found env target r)
  remove_found-Makes target (ok meta) below =
      Makes-if meta.is_dir (lift_io (remove_dir_all env target)) (lift_io (remove_file env target))
        (io_Makes (remove_dir_all env target) (Makes-one (removed_dir_all target) _ below))
        (io_Makes (remove_file env target) (Makes-one (removed_file target) _ below))
  remove_found-Makes target (err e) below =
      kind-Makes e.kind (pure tt) (fail (io e)) (fail (io e)) (Makes-result (ok tt))
        (Makes-result (err (io e))) (Makes-result (err (io e)))

  pub remove_path_if_exists-Makes :
      (target : FilePath) → IsBelow dir target → Makes Within (remove_path_if_exists env target)
  unfolding remove_path_if_exists
  remove_path_if_exists-Makes target below =
      Makes-bind (attempt (metadata env target)) (remove_found env target)
        (Makes-attempt (metadata env target) (Makes-one (asked_metadata target) _ below))
        (λ r. remove_found-Makes target r below)

  pub replace_file-Makes :
      (staging target : FilePath)
      → IsBelow dir staging
      → IsInside dir target
      → Makes Within (replace_workspace_file_from_staging env staging target)
  unfolding replace_workspace_file_from_staging
  replace_file-Makes staging target below inside =
      let (up, e, above) = parent-IsBelow dir target inside in
      Makes-then (make_parent env target) _
        (record {
          makes = λ h.
              subst (Adds Within h) {x = created_dir_all up ∷ h} {y = (make_parent env target h).0}
                (ground (arith, e)) (Adds-one (created_dir_all up) h above);
        })
        (Makes-then (remove_path_if_exists env target) _
          (remove_path_if_exists-Makes target (IsInside-IsBelow dir target inside))
          (io_Makes (rename env staging target)
            (Makes-one (renamed staging target) _ (below, IsInside-IsBelow dir target inside))))

  pub unpack_entries-Makes :
      (root : FilePath) (entries : List (Result IoError ArchiveEntry))
      → IsBelow dir root
      → Makes Within (unpack_entries env root entries)
  unfolding unpack_entries
  unpack_entries-Makes root [] below = Makes-result (ok tt)
  unpack_entries-Makes root (err e ∷ rest) below = Makes-result (err (io e))
  unpack_entries-Makes root (ok entry ∷ rest) below = elim (check_entry_cases env [] root entry) [
    | inr (e, p, _) ↦ record {
      makes = λ h.
          subst (Adds Within h) {x = h} {y = (unpack_entries env root (ok entry ∷ rest) h).0}
            (ground (arith, p)) (Adds-refl h);
    }
    | inl (p, (relative, no_parent, _)) ↦
        let later =
          Makes-then
            (lift_io {A = Unit {0}}
              (λ h. (unpacked entry.path root ∷ h, env.unpack_in h entry.path root)))
            (unpack_entries env root rest)
            (io_Makes _ (Makes-one (unpacked entry.path root) _ (below, relative, no_parent)))
            (unpack_entries-Makes root rest below) in
        record {
          makes = λ h.
              subst (Adds Within h)
                {x = ((lift_io {A = Unit {0}}
                      (λ h. (unpacked entry.path root ∷ h, env.unpack_in h entry.path root))
                    >> unpack_entries env root rest)
                  h).0}
                {y = (unpack_entries env root (ok entry ∷ rest) h).0} (ground (arith, p))
                (later.makes h);
        }
  ]

  pub rename_entries-Makes :
      (root target : FilePath) (listed : List (Result IoError DirEntry))
      → IsBelow dir root
      → IsBelow dir target
      → All (IsListedIn root) listed
      → Makes Within (rename_entries env target listed)
  unfolding rename_entries join
  rename_entries-Makes root target [] below below' all = Makes-result (ok tt)
  rename_entries-Makes root target (err e ∷ rest) below below' all = Makes-result (err (io e))
  rename_entries-Makes root target (ok entry ∷ rest) below below' ((name, e), all) =
      let listed_below : IsBelow dir entry.path =
        subst (IsBelow dir) (sym e) (append-IsBelow dir root (normal name ∷ []) (tt, tt) below) in
      let placed : IsBelow dir (join target (entry_name env entry)) = place entry in
      Makes-then (lift_io (rename env entry.path (join target (entry_name env entry)))) _
        (io_Makes _ (
          Makes-one (renamed entry.path (join target (entry_name env entry))) _
            (listed_below, placed)))
        (rename_entries-Makes root target rest below below' all)
    where
      place : (entry : DirEntry) → IsBelow dir (join target (entry_name env entry))
      place entry = elim (Option-cases (file_name entry.path)) [
        | inl none_there ↦
            subst (IsBelow dir) {x = target ++ []} (ground (arith, none_there))
              (append-IsBelow dir target [] tt below')
        | inr (name, p) ↦
            subst (IsBelow dir) {x = target ++ (normal name ∷ [])} (ground (arith, p))
              (append-IsBelow dir target (normal name ∷ []) (tt, tt) below')
      ]

  pub clean_up-Makes :
      (root staging : FilePath)
      → IsBelow dir root
      → IsBelow dir staging
      → Makes Within (clean_up env root staging)
  clean_up-Makes root staging below below' = record {
    makes = λ h. (removed_file staging ∷ removed_dir_all root ∷ [], refl, (below', (below, tt)));
  }
