-- ===== src/Service/Fetched.antt =====
-- Where `do_fetch` puts the download.
use scriptorium.Workspace.{ensure_home, resolve_path}
use scriptorium.FilePath.Laws.{IsNormal}
use scriptorium.Fetch.{FetchOutcome, fetch_to_file}
use scriptorium.Text.{Text}
use scriptorium.Workspace.Containment.{
  resolve_path_contained, IsCleanRoot, home_names, resolve_path_contained,
}
use scriptorium.Workspace.Lexical.{IsPathClean}
use scriptorium.FilePath.{FilePath}
use scriptorium.Service.{SandboxService, do_fetch, or_default}
use scriptorium.World.Calls.{Env, History, set_mode}
use scriptorium.Base.{All, ◌∷◌, ◌++◌, ◌≡◌, List, ℕ, All, inr, arith, inl, subst}
use scriptorium.Error.{ok, Result-cases}

module _ (env : Env) (svc : SandboxService) (clean : FilePath → FilePath) (laws : IsPathClean clean)
    (ns : FilePath) (root : IsCleanRoot svc.workspaces ns) where
  -- Where the manager's root is absolute and holds neither `.` nor `..`, a `do_fetch` that succeeds
  -- has put its file below the home of the workspace: the last request gives the mode 0644 to a path
  -- that is the root, the id, `home`, and then names only, and that path is the target that
  -- `fetch_to_file` was called with.
  pub do_fetch_contained :
      (id url path : Text) (headers : List (Text × Text)) (seconds : ℕ) (h h' : History)
      (out : FetchOutcome)
      → do_fetch env svc clean id url path headers seconds h ≡ (h', ok out)
      → (rest : FilePath) × (before after : History) × All IsNormal rest
        × (fetch_to_file env svc.fetch_cfg url
              (svc.workspaces.root ++ home_names id ++ rest)
              headers
              (or_default seconds svc.fetch_cfg.timeout_seconds)
              before
            ≡ (after, ok out))
        × (h' ≡ set_mode (svc.workspaces.root ++ home_names id ++ rest) 0o644 ∷ after)
  unfolding do_fetch
  do_fetch_contained id url path headers seconds h h' out e =
      elim (Result-cases
        (ensure_home env svc.workspaces id svc.sandbox_cfg.agent_uid svc.sandbox_cfg.agent_gid
          h).1) [
            | inr (why, p) ↦ absurd (ground (arith, p, e))
            | inl (home, p) ↦ elim (Result-cases (resolve_path clean svc.workspaces id path)) [
              | inr (why, q) ↦ absurd (ground (arith, p, q, e))
              | inl (target, q) ↦
                  let h₁ =
                    (ensure_home env svc.workspaces id svc.sandbox_cfg.agent_uid
                      svc.sandbox_cfg.agent_gid h).0 in
                  let s =
                    fetch_to_file env svc.fetch_cfg url target headers
                      (or_default seconds svc.fetch_cfg.timeout_seconds) h₁ in
                  let (rest, at, names) =
                    resolve_path_contained clean laws svc.workspaces ns root id path q in
                  elim (Result-cases s.1) [
                    | inr (why, r) ↦ absurd (ground (arith, p, q, r, e))
                    | inl (got, r) ↦
                        let same : got ≡ out = ground (arith, p, q, r, e) in
                        let fetched : s ≡ (s.0, ok out) = ground (arith, r, same) in
                        let ended : h' ≡ set_mode target 0o644 ∷ s.0 = ground (arith, p, q, r, e) in
                        (
                          rest,
                          h₁,
                          s.0,
                          names,
                          subst
                              (λ t.
                                fetch_to_file env svc.fetch_cfg url t headers
                                  (or_default seconds svc.fetch_cfg.timeout_seconds) h₁
                                ≡ (s.0, ok out))
                              at fetched,
                          subst (λ t. h' ≡ set_mode t 0o644 ∷ s.0) at ended,
                        )
                  ]
            ]
          ]
