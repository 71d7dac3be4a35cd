-- ===== src/Service/Within/Replace.antt =====
-- Replacing a directory by the contents of an archive, below a directory that holds all paths.
use scriptorium.Service.Within.Archive.{
  IsListedIn, ListsInside, io_Makes, remove_path_if_exists-Makes, rename_entries-Makes,
  clean_up-Makes, unpack_entries-Makes,
}
use scriptorium.World.Fs.{remove_dir_all, rename, create_dir_all, read_dir, open_file}
use scriptorium.Text.{codes}
use scriptorium.World.Trace.{
  Makes, Makes-bind, Makes-result, Makes-if, Makes-one, Makes-then, Makes-answer, answered,
}
use scriptorium.Base.{List, ◌≡◌, All, ◌∷◌, [], inr, subst, inl, arith, sym, Bool, true, false}
use scriptorium.Service.Within.{
  IsBelow, IsWithin, IsInside, append-IsBelow, IsInside-IsBelow, parent_or_dot-IsBelow,
  transfer_temp_path-IsBelow,
}
use scriptorium.Service.Archive.{
  remove_path_if_exists, unpack_entries, rename_entries, clean_up, collect_entries, move_entries,
  place_entries, replace_target, extract_archive_and_replace,
  replace_workspace_directory_from_archive_path, path_is_dir, clear_root, archive_entries,
  path_exists, parent_or_dot, build_workspace_transfer_temp_path, transfer_temp_path,
}
use scriptorium.World.{lift_io, ◌>>◌, of_result}
use scriptorium.Error.{Result, IoError, ok, io, err, Result-cases}
use scriptorium.World.Calls.{
  Env, Call, DirEntry, removed_dir_all, asked_metadata, renamed, created_dir_all, listed_dir,
  opened, read_archive, read_clock,
}
use scriptorium.FilePath.{FilePath, normal}

-- The entries of a listing lie where its results do.
collected :
    (env : Env) (p : FilePath) (listed : List (Result IoError DirEntry)) (entries : List DirEntry)
    → All (IsListedIn p) listed
    → collect_entries env listed ≡ ok entries
    → All (λ entry. IsListedIn p (ok entry)) entries
unfolding collect_entries
collected env p [] entries all e =
    subst (All (λ entry. IsListedIn p (ok entry))) {x = []} (ground (arith, e)) tt
collected env p (err why ∷ rest) entries all e = absurd (ground (arith, e))
collected env p (ok entry ∷ rest) entries (one, all) e =
    elim (Result-cases (collect_entries env rest)) [
      | inr (why, q) ↦ absurd (ground (arith, q, e))
      | inl (more, q) ↦
          subst (All (λ entry. IsListedIn p (ok entry))) {x = entry ∷ more} (ground (arith, q, e))
            (one, collected env p rest more all q)
    ]

module _ (env : Env) (lists : ListsInside env) (dir : FilePath) where
  abbrev Within : Call → Type 0
  Within = IsWithin dir

  move_entries-Makes :
      (staging root target : FilePath)
      → IsBelow dir staging
      → IsBelow dir root
      → IsBelow dir target
      → Makes Within (move_entries env staging root target)
  unfolding move_entries
  move_entries-Makes staging root target below at_root at_target =
      Makes-then (lift_io (create_dir_all env target)) _
        (io_Makes env dir (create_dir_all env target)
          (Makes-one (created_dir_all target) _ at_target))
        (Makes-answer (lift_io (read_dir env root)) _
          (io_Makes env dir (read_dir env root) (Makes-one (listed_dir root) _ at_root))
          (λ h entries e.
            Makes-then (rename_entries env target entries) _
              (rename_entries-Makes env dir root target entries at_root at_target
                (lists.inside h root entries (answered io (env.read_dir h root) entries e)))
              (clean_up-Makes env dir root staging at_root below)))

  place_entries-Makes :
      (staging root target : FilePath) (entries : List DirEntry)
      → IsBelow dir staging
      → IsBelow dir root
      → IsBelow dir target
      → All (λ entry. IsListedIn root (ok entry)) entries
      → Makes Within (place_entries env staging root target entries)
  unfolding place_entries
  place_entries-Makes staging root target [] below at_root at_target all =
      move_entries-Makes staging root target below at_root at_target
  place_entries-Makes staging root target (only ∷ []) below at_root at_target ((name, e), all) =
      let at_only : IsBelow dir only.path =
        subst (IsBelow dir) (sym e) (append-IsBelow dir root (normal name ∷ []) (tt, tt) at_root) in
      Makes-bind (path_is_dir env only.path) _ (Makes-one (asked_metadata only.path) _ at_only)
        (λ is_dir.
          Makes-if is_dir (lift_io (rename env only.path target) >> clean_up env root staging)
            (move_entries env staging root target)
            (Makes-then (lift_io (rename env only.path target)) _
              (io_Makes env dir (rename env only.path target)
                (Makes-one (renamed only.path target) _ (at_only, at_target)))
              (clean_up-Makes env dir root staging at_root below))
            (move_entries-Makes staging root target below at_root at_target))
  place_entries-Makes staging root target (one ∷ two ∷ rest) below at_root at_target all =
      move_entries-Makes staging root target below at_root at_target

  replace_target-Makes :
      (staging root target : FilePath)
      → IsBelow dir staging
      → IsBelow dir root
      → IsBelow dir target
      → Makes Within (replace_target env staging root target)
  unfolding replace_target
  replace_target-Makes staging root target below at_root at_target =
      Makes-then (remove_path_if_exists env target) _
        (remove_path_if_exists-Makes env dir target at_target)
        (Makes-answer (lift_io (read_dir env root)) _
          (io_Makes env dir (read_dir env root) (Makes-one (listed_dir root) _ at_root))
          (λ h listed e.
            Makes-answer (lift_io (of_result (collect_entries env listed))) _
              (io_Makes env dir (of_result (collect_entries env listed))
                (Makes-result (collect_entries env listed)))
              (λ h' entries e'.
                place_entries-Makes staging root target entries below at_root at_target (
                  collected env root listed entries
                    (lists.inside h root listed (answered io (env.read_dir h root) listed e))
                    (answered io (collect_entries env listed) entries e')))))

  clear_root-Makes :
      (root : FilePath) (found : Bool) → IsBelow dir root → Makes Within (clear_root env root found)
  clear_root-Makes root true at_root =
      io_Makes env dir (remove_dir_all env root) (Makes-one (removed_dir_all root) _ at_root)
  clear_root-Makes root false at_root = Makes-result (ok tt)

  extract-Makes :
      (staging root target : FilePath)
      → IsBelow dir staging
      → IsBelow dir root
      → IsBelow dir target
      → Makes Within (extract_archive_and_replace env staging root target)
  unfolding extract_archive_and_replace archive_entries
  extract-Makes staging root target below at_root at_target =
      Makes-bind (path_exists env root) _ (Makes-one (asked_metadata root) _ at_root) (λ found.
        Makes-then (clear_root env root found) _ (clear_root-Makes root found at_root) (
          Makes-then (lift_io (create_dir_all env root)) _
            (io_Makes env dir (create_dir_all env root)
              (Makes-one (created_dir_all root) _ at_root))
            (Makes-then (lift_io (open_file env staging)) _
              (io_Makes env dir (open_file env staging) (Makes-one (opened staging) _ below))
              (Makes-bind (lift_io (archive_entries env staging)) _
                (io_Makes env dir (archive_entries env staging)
                  (Makes-one (read_archive staging) _ below))
                (λ entries.
                  Makes-then (unpack_entries env root entries) _
                    (unpack_entries-Makes env dir root entries at_root)
                    (replace_target-Makes staging root target below at_root at_target))))))

  pub replace_directory-Makes :
      (staging target : FilePath)
      → IsBelow dir staging
      → IsInside dir target
      → Makes Within (replace_workspace_directory_from_archive_path env staging target)
  unfolding replace_workspace_directory_from_archive_path
  replace_directory-Makes staging target below inside =
      let above = parent_or_dot-IsBelow dir target inside in
      Makes-then (lift_io (create_dir_all env (parent_or_dot target))) _
        (io_Makes env dir (create_dir_all env (parent_or_dot target))
          (Makes-one (created_dir_all (parent_or_dot target)) _ above))
        (Makes-answer (build_workspace_transfer_temp_path env target (codes "expand")) _
          (Makes-one read_clock _ tt)
          (λ h root e.
            extract-Makes staging root target below
              (subst (IsBelow dir) {x = transfer_temp_path target (codes "expand") (env.now h)}
                (ground (arith, e))
                (transfer_temp_path-IsBelow dir target (codes "expand") (env.now h) inside))
              (IsInside-IsBelow dir target inside)))
