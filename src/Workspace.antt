-- ===== src/Workspace.antt =====
-- src/workspace.rs: the `WorkspaceManager`. `clean` stands for the crate `path_clean`.
pub mod Ids
pub mod Lexical
pub mod Containment
pub mod Homes
pub mod Roots
use scriptorium.Base.{
  ℕ, Bool, true, false, not, ◌&&◌, ◌||◌, List, [], ◌∷◌, ltb, ◌==◌, if◌then◌else◌, length, is_nil,
  all,
}
use scriptorium.Text.{Text, codes, bytes, is_ascii_alphanumeric}
use scriptorium.FilePath.{FilePath, normal, components, join, starts_with}
use scriptorium.Error.{
  ErrorKind, permission_denied, not_found, other_kind, IoError, Error, invalid_workspace_id,
  path_escape, io, Result, ok, err,
}
use scriptorium.World.Calls.{Env}
use scriptorium.World.{Io, pure, fail, of_result, ◌>>=◌, ◌>>◌, lift_io, attempt}
use scriptorium.World.Fs.{create_dir_all, remove_dir_all, set_permissions, chown}

-- The test on each byte.
unfoldable pub id_byte : ℕ → Bool
id_byte b = is_ascii_alphanumeric b || b == b'-' || b == b'_'

-- `id.len()` and `id.bytes()` are of the UTF-8 text.
unfoldable pub validate_workspace_id : Text → Result Error (Unit {0})
unfolding id_byte bytes
validate_workspace_id id =
    if is_nil id || ltb 128 (length (bytes id))
    then err invalid_workspace_id
    else if all id_byte (bytes id)
    then ok tt
    else err invalid_workspace_id

-- The root is as `Path::components` gives it: `cur_dir` stands first in it or nowhere, and behind
-- `root_dir` there are names and `parent_dir` only.
pub record WorkspaceManager : Type 0 where
  pub root : FilePath

-- `self.cfg.root.join(workspace_id)`
unfoldable pub workspace_dir : WorkspaceManager → Text → FilePath
workspace_dir m id = join m.root (components id)

-- `self.cfg.root.join(workspace_id).join("home")`
unfoldable pub home_dir : WorkspaceManager → Text → FilePath
home_dir m id = join (workspace_dir m id) (normal (codes "home") ∷ [])

abbrev pub check_id : Text → Io Error (Unit {0})
check_id id = of_result (validate_workspace_id id)

module _ (env : Env) (m : WorkspaceManager) where
  unfoldable pub ensure_root : Io Error (Unit {0})
  ensure_root = lift_io (create_dir_all env m.root)

  -- The test of `chown_result`: `chmod 0777` where the chown was not permitted.
  abbrev pub after_chown : FilePath → Result IoError (Unit {0}) → Io Error FilePath
  after_chown home (ok _) = pure home
  after_chown home (err e) = elim e.kind [
    | permission_denied ↦ do lift_io (set_permissions env home 0o777); pure home
    | not_found ↦ fail (io e)
    | other_kind ↦ fail (io e)
  ]

  unfoldable pub ensure_home : Text → ℕ → ℕ → Io Error FilePath
  ensure_home id uid gid = do
    check_id id
    let home = home_dir m id
    lift_io (create_dir_all env home)
    chown_result ← attempt (chown env home uid gid)
    after_chown home chown_result

  abbrev after_remove : Result IoError (Unit {0}) → Io Error Bool
  after_remove (ok _) = pure true
  after_remove (err e) = elim e.kind [
    | not_found ↦ pure false
    | permission_denied ↦ fail (io e)
    | other_kind ↦ fail (io e)
  ]

  unfoldable pub delete : Text → Io Error Bool
  delete id = do
    check_id id
    removed ← attempt (remove_dir_all env (workspace_dir m id))
    after_remove removed

unfoldable pub resolve_path :
    (FilePath → FilePath) → WorkspaceManager → Text → Text → Result Error FilePath
resolve_path clean m id relative = elim (validate_workspace_id id) [
  | err e ↦ err e
  | ok _ ↦
      let home = home_dir m id in
      let joined = clean (join home (components relative)) in
      if not (starts_with joined home) then err (path_escape relative) else ok joined
]
