-- ===== src/Service/Packed.antt =====
-- Which files `tar_gz_into_temp` touches.
use scriptorium.Service.Uploaded.{IsUploadCall, IsTemp}
use scriptorium.Service.{name_or}
use scriptorium.Service.Archive.{tar_gz_into_temp, path_is_dir}
use scriptorium.World.Fs.{open_file, create_file}
use scriptorium.Error.{ok, io}
use scriptorium.Base.{◌≡◌, ℕ, ◌++◌, ◌∷◌, [], inl, arith, ◌%◌, ◌^◌, sym, refl}
use scriptorium.Text.{Text, codes, hex}
use scriptorium.World.Calls.{
  Env, asked_metadata, opened, packed_dir, packed_file, created_file, read_clock, History,
}
use scriptorium.FilePath.{FilePath, join, normal}
use scriptorium.World.Trace.{
  Makes, Makes-bind, Makes-if, Makes-result, Makes-one, Makes-lift, Adds-one, Makes-then,
}

module _ (env : Env) (temp_dir source : FilePath) where
  abbrev temp_path : Text → ℕ → FilePath
  temp_path desired_name nanos =
      join temp_dir (
        normal (codes "scriptorium-" ++ (hex (nanos % 2 ^ 64) ++ (codes "-" ++ desired_name))) ∷ [])

  pub tar_gz_into_temp-Makes :
      (desired_name : Text)
      → Makes (IsUploadCall temp_dir source) (tar_gz_into_temp env temp_dir source desired_name)
  unfolding tar_gz_into_temp
  tar_gz_into_temp-Makes desired_name =
      Makes-bind _ _ (Makes-one read_clock (λ h. ok (env.now h)) tt) (λ nanos.
        let tmp = temp_path desired_name nanos in
        let temp : IsTemp temp_dir tmp =
          (hex (nanos % 2 ^ 64) ++ (codes "-" ++ desired_name), refl) in
        Makes-then _ _
          (Makes-lift io (create_file env tmp)
            (Makes-one (created_file tmp) (λ h. env.create_file h tmp) temp))
          (Makes-bind (path_is_dir env source) _
            (record { makes = λ h. Adds-one (asked_metadata source) h (inl refl) })
            (λ is_dir.
              Makes-then _ _
                (Makes-if is_dir _ _
                  (Makes-lift io _ (
                    Makes-one (packed_dir source (name_or "workspace" source) tmp)
                      (λ h. env.pack h source (name_or "workspace" source) tmp) (refl, temp)))
                  (Makes-then _ _
                    (Makes-lift io (open_file env source)
                      (Makes-one (opened source) (λ h. env.open_file h source) (inl refl)))
                    (Makes-lift io _ (
                      Makes-one (packed_file source (name_or "file" source) tmp)
                        (λ h. env.pack h source (name_or "file" source) tmp) (refl, temp)))))
                (Makes-result (ok tmp)))))

  pub tar_gz_into_temp-IsTemp :
      (desired_name : Text) (h : History) (p : FilePath)
      → (tar_gz_into_temp env temp_dir source desired_name h).1 ≡ ok p
      → IsTemp temp_dir p
  unfolding tar_gz_into_temp
  tar_gz_into_temp-IsTemp desired_name h p e =
      let same : temp_path desired_name (env.now h) ≡ p = ground (arith, e) in
      (hex (env.now h % 2 ^ 64) ++ (codes "-" ++ desired_name), sym same)
