-- ===== src/Workspace/Homes.antt =====
-- `ensure_home` and `delete`: what they ask of the file system, branch by branch.
use scriptorium.World.Fs.{create_dir_all, chown}
use scriptorium.World.{lift_io, attempt}
use scriptorium.World.Trace.{
  Makes, Adds, Makes-answer, Adds-refl, Makes-result, Adds-one, Makes-then, Makes-lift, Makes-one,
  Makes-bind, Makes-attempt,
}
use scriptorium.Base.{ℕ, ◌≡◌, ◌∷◌, arith, ◌⊎◌, true, false, ◌≢◌, inl, inr, refl, subst}
use scriptorium.Text.{Text}
use scriptorium.FilePath.{FilePath}
use scriptorium.Error.{
  not_found, invalid_workspace_id, ok, err, IoError, permission_denied, io, ErrorKind, other_kind,
  Result,
}
use scriptorium.World.Calls.{
  Env, History, created_dir_all, chowned, removed_dir_all, set_mode, Call,
}
use scriptorium.Workspace.{
  WorkspaceManager, ensure_home, delete, home_dir, workspace_dir, after_chown, check_id,
  validate_workspace_id,
}
use scriptorium.Workspace.Ids.{
  validated, IsWorkspaceId, validate_workspace_id-IsWorkspaceId, validated,
}

-- A call for a text that is no workspace id asks nothing of the environment and fails with
-- `InvalidWorkspaceId`.
pub invalid_id_untouched :
    (env : Env) (m : WorkspaceManager) (id : Text) (uid gid : ℕ) (h : History)
    → ¬ IsWorkspaceId id
    → (ensure_home env m id uid gid h ≡ (h, err invalid_workspace_id))
      × (delete env m id h ≡ (h, err invalid_workspace_id))
unfolding ensure_home delete
invalid_id_untouched env m id uid gid h bad =
    let e = (validate_workspace_id-IsWorkspaceId id).1.1 bad in
    (ground (arith, e), ground (arith, e))

-- Where `ensure_home` returns, it returns the home of the workspace, has created it, and either the
-- chown to the agent succeeded or it was denied and the mode was set to 0777.
pub ensure_home_ready :
    (env : Env) (m : WorkspaceManager) (id : Text) (uid gid : ℕ) (h h' : History) (p : FilePath)
    → ensure_home env m id uid gid h ≡ (h', ok p)
    → let home = home_dir m id in
      let h1 = created_dir_all home ∷ h in
      let h2 = chowned home uid gid ∷ h1 in
      (p ≡ home)
      × (env.create_dir_all h home ≡ ok tt)
      × (((h' ≡ h2) × (env.chown h1 home uid gid ≡ ok tt))
          ⊎ ((h' ≡ set_mode home 0o777 ∷ h2)
              × ((e : IoError) × (env.chown h1 home uid gid ≡ err e) × (e.kind ≡ permission_denied))
              × (env.set_permissions h2 home 0o777 ≡ ok tt)))
unfolding ensure_home
ensure_home_ready env m id uid gid h h' p e = ground (arith, validated id)

-- `delete` answers whether the directory was there, and any other failure is passed on. It removes
-- the directory of the workspace and nothing else.
pub delete_outcomes :
    (env : Env) (m : WorkspaceManager) (id : Text) (h : History)
    → IsWorkspaceId id
    → let dir = workspace_dir m id in
      ((delete env m id h).0 ≡ removed_dir_all dir ∷ h)
      × (((env.remove_dir_all h dir ≡ ok tt) × ((delete env m id h).1 ≡ ok true))
          ⊎ ((e : IoError) × (env.remove_dir_all h dir ≡ err e)
              × (((e.kind ≡ not_found) × ((delete env m id h).1 ≡ ok false))
                  ⊎ ((e.kind ≢ not_found) × ((delete env m id h).1 ≡ err (io e))))))
unfolding delete
delete_outcomes env m id h v =
    let good = (validate_workspace_id-IsWorkspaceId id).0.1 v in ground (arith, good)

kind_cases : (k : ErrorKind) → (k ≡ permission_denied) ⊎ ((k ≡ not_found) ⊎ (k ≡ other_kind))
kind_cases permission_denied = inl refl
kind_cases not_found = inr (inl refl)
kind_cases other_kind = inr (inr refl)

module _ {P : Call → Type 0} (env : Env) (m : WorkspaceManager) where
  after_chown-Adds :
      (home : FilePath) (r : Result IoError (Unit {0})) (h : History)
      → P (set_mode home 0o777)
      → Adds P h (after_chown env m home r h).0
  after_chown-Adds home (ok _) h allowed = Adds-refl h
  after_chown-Adds home (err e) h allowed = elim (kind_cases e.kind) [
    | inl p ↦
        subst (Adds P h) {x = set_mode home 0o777 ∷ h} (ground (arith, p))
          (Adds-one (set_mode home 0o777) h allowed)
    | inr (inl p) ↦ subst (Adds P h) {x = h} (ground (arith, p)) (Adds-refl h)
    | inr (inr p) ↦ subst (Adds P h) {x = h} (ground (arith, p)) (Adds-refl h)
  ]

  -- All that `ensure_home` asks for, once the id has passed.
  pub ensure_home-Makes :
      (id : Text) (uid gid : ℕ)
      → (IsWorkspaceId id
          → P (created_dir_all (home_dir m id))
            × P (chowned (home_dir m id) uid gid)
            × P (set_mode (home_dir m id) 0o777))
      → Makes P (ensure_home env m id uid gid)
  unfolding ensure_home
  ensure_home-Makes id uid gid allowed =
      let home = home_dir m id in
      Makes-answer (check_id id) _ (Makes-result (validate_workspace_id id)) (λ h _ passed.
        let (a, b, c) = allowed ((validate_workspace_id-IsWorkspaceId id).0.0 passed) in
        Makes-then (lift_io (create_dir_all env home)) _
          (Makes-lift io (create_dir_all env home) (Makes-one (created_dir_all home) _ a))
          (Makes-bind (attempt (chown env home uid gid)) (after_chown env m home)
            (Makes-attempt (chown env home uid gid) (Makes-one (chowned home uid gid) _ b))
            (λ r. record { makes = λ g. after_chown-Adds home r g c })))
