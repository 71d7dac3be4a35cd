-- ===== src/Startup.antt =====
-- src/main.rs: what `main` does before it serves. The tracing setup, the command line, the gRPC
-- server and the signals are tonic's, clap's and tokio's.
use scriptorium.Oss.Upload.{OssClient, TosConfig, min_part_size}
use scriptorium.Base.{
  ◌≡◌, ◌≢◌, ◌∷◌, true, ◌≤◌, inr, arith, ◌*◌, inl, subst, ◌∙◌, ap, sym, Bool-cases, is_nil, ◌||◌,
  max,
}
use scriptorium.Service.{SandboxService, new}
use scriptorium.FilePath.{FilePath, is_absolute, components}
use scriptorium.World.{Io, ◌>>=◌, ◌>>◌, of_result, pure}
use scriptorium.Text.{Text}
use scriptorium.Error.{Result, IoError, Error, ok, Result-cases}
use scriptorium.World.Calls.{
  Env, Bytes, History, read_whole, pinged, created_dir_all, asked_metadata,
}
use scriptorium.Workspace.{WorkspaceManager, ensure_root}
use scriptorium.Config.{Config, load, validate, effective_max, validate_iff, validate_asks}
use scriptorium.Runtime
use scriptorium.Oss.Upload

-- `WorkspaceManager::new`
abbrev pub workspaces_of : Config → WorkspaceManager
workspaces_of cfg = record { root = cfg.workspace_root }

connect-part_size :
    (cfg : TosConfig) (oss : OssClient)
    → Upload.connect cfg ≡ ok oss
    → 5 * 1024 * 1024 ≤ oss.part_size
unfolding Upload.connect
connect-part_size cfg oss e = elim (Bool-cases (is_nil cfg.access_key || is_nil cfg.secret_key)) [
  | inl keyless ↦ absurd (ground (arith, keyless, e))
  | inr keyed ↦
      let size : max cfg.part_size_bytes min_part_size ≡ oss.part_size = ground (arith, keyed, e) in
      subst (λ n. 5 * 1024 * 1024 ≤ n) size (ground arith)
]

module _ (env : Env) (decode : Bytes → Result IoError Text)
    (parse : Text → Result Text Config) where
  -- From the loaded configuration on.
  unfoldable pub start_service : Config → Io Error (Text × SandboxService)
  start_service cfg = do
    ensure_root env (workspaces_of cfg)
    Runtime.connect env cfg.docker.socket cfg.docker.control_timeout_seconds
    oss ← of_result (Upload.connect cfg.tos)
    pure (cfg.listen, new cfg.sandbox (workspaces_of cfg) oss cfg.fetch cfg.concurrency)

  -- From the configuration's path to the service, which is then served at the address.
  unfoldable pub start : FilePath → Io Error (Text × SandboxService)
  start path = load env decode parse path >>= start_service

  load_ok :
      (path : FilePath) (h h' : History) (cfg : Config)
      → load env decode parse path h ≡ (h', ok cfg)
      → (h' ≡ asked_metadata (components cfg.docker.socket) ∷ read_whole path ∷ h)
        × ((validate env cfg (read_whole path ∷ h)).1 ≡ ok tt)
        × ((raw : Text) × (parse raw ≡ ok cfg))
  unfolding load
  load_ok path h h' cfg e =
      let h₁ = read_whole path ∷ h in
      elim (Result-cases (env.read_file h path)) [
        | inr (why, p) ↦ absurd (ground (arith, p, e))
        | inl (found, p) ↦ elim (Result-cases (decode found)) [
          | inr (why, q) ↦ absurd (ground (arith, p, q, e))
          | inl (raw, q) ↦ elim (Result-cases (parse raw)) [
            | inr (why, r) ↦ absurd (ground (arith, p, q, r, e))
            | inl (cfg', r) ↦ elim (Result-cases (validate env cfg' h₁).1) [
              | inr (why, v) ↦ absurd (ground (arith, p, q, r, v, e))
              | inl (_, v) ↦
                  let same : cfg' ≡ cfg = ground (arith, p, q, r, v, e) in
                  let ended : (validate env cfg' h₁).0 ≡ h' = ground (arith, p, q, r, v, e) in
                  (
                    sym ended
                        ∙ validate_asks env cfg' h₁ v
                        ∙ ap (λ k. asked_metadata (components k.docker.socket) ∷ h₁) same,
                    subst (λ k. (validate env k h₁).1 ≡ ok tt) same v,
                    (raw, r ∙ ap ok same),
                  )
            ]
          ]
        ]
      ]

  start_service_ok :
      (cfg : Config) (h h' : History) (listen : Text) (svc : SandboxService)
      → start_service cfg h ≡ (h', ok (listen, svc))
      → (oss : OssClient) × (h' ≡ pinged ∷ created_dir_all cfg.workspace_root ∷ h)
        × (env.create_dir_all h cfg.workspace_root ≡ ok tt)
        × (env.ping (created_dir_all cfg.workspace_root ∷ h) ≡ ok tt)
        × (Upload.connect cfg.tos ≡ ok oss)
        × (listen ≡ cfg.listen)
        × (svc ≡ new cfg.sandbox (workspaces_of cfg) oss cfg.fetch cfg.concurrency)
  unfolding start_service ensure_root Runtime.connect
  start_service_ok cfg h h' listen svc e =
      let h₁ = created_dir_all cfg.workspace_root ∷ h in
      elim (Result-cases (env.create_dir_all h cfg.workspace_root)) [
        | inr (why, p) ↦ absurd (ground (arith, p, e))
        | inl (_, p) ↦
            elim (Result-cases
              (env.connect_unix cfg.docker.socket cfg.docker.control_timeout_seconds)) [
                | inr (why, q) ↦ absurd (ground (arith, p, q, e))
                | inl (_, q) ↦ elim (Result-cases (env.ping h₁)) [
                  | inr (why, r) ↦ absurd (ground (arith, p, q, r, e))
                  | inl (_, r) ↦ elim (Result-cases (Upload.connect cfg.tos)) [
                    | inr (why, s) ↦ absurd (ground (arith, p, q, r, s, e))
                    | inl (oss, s) ↦ (
                      oss,
                      ground (arith, p, q, r, s, e),
                      ground (arith, p),
                      ground (arith, r),
                      s,
                      ground (arith, p, q, r, s, e),
                      ground (arith, p, q, r, s, e),
                    )
                  ]
                ]
              ]
      ]

  -- What a service holds that was made from an accepted configuration.
  abbrev IsReady : History → History → SandboxService → Type 0
  IsReady h h' svc =
      (is_absolute svc.workspaces.root ≡ true)
      × (svc.sandbox_cfg.agent_uid ≢ 0)
      × (h' ≡ pinged ∷ created_dir_all svc.workspaces.root ∷ h)
      × (env.create_dir_all h svc.workspaces.root ≡ ok tt)
      × (env.ping (created_dir_all svc.workspaces.root ∷ h) ≡ ok tt)
      × (1 ≤ svc.exec_permit_capacity)
      × (5 * 1024 * 1024 ≤ svc.oss.part_size)

  new-IsReady :
      (cfg : Config) (oss : OssClient) (g h h' : History)
      → (validate env cfg g).1 ≡ ok tt
      → Upload.connect cfg.tos ≡ ok oss
      → h' ≡ pinged ∷ created_dir_all cfg.workspace_root ∷ h
      → env.create_dir_all h cfg.workspace_root ≡ ok tt
      → env.ping (created_dir_all cfg.workspace_root ∷ h) ≡ ok tt
      → IsReady h h' (new cfg.sandbox (workspaces_of cfg) oss cfg.fetch cfg.concurrency)
  unfolding new effective_max
  new-IsReady cfg oss g h h' valid connected hist made answered =
      let (absolute, uid, _, _, _) = (validate_iff env cfg g).0 valid in
      (absolute, uid, hist, made, answered, ground arith, connect-part_size cfg.tos oss connected)

  -- Where `main` comes to serve, its configuration was parsed and accepted: the workspace root is
  -- absolute, the agent is not root. Docker's socket was looked for, the root was created and Docker
  -- answered a ping, in that order, and besides the configuration's file nothing else was asked for;
  -- and the service allows at least one exec, and sends parts of at least 5 MiB.
  pub start_ready :
      (path : FilePath) (h h' : History) (listen : Text) (svc : SandboxService)
      → start path h ≡ (h', ok (listen, svc))
      → (cfg : Config) × (raw : Text) × (parse raw ≡ ok cfg)
        × (let g = asked_metadata (components cfg.docker.socket) ∷ read_whole path ∷ h in
            (is_absolute svc.workspaces.root ≡ true)
            × (svc.sandbox_cfg.agent_uid ≢ 0)
            × (h' ≡ pinged ∷ created_dir_all svc.workspaces.root ∷ g)
            × (env.create_dir_all g svc.workspaces.root ≡ ok tt)
            × (env.ping (created_dir_all svc.workspaces.root ∷ g) ≡ ok tt)
            × (1 ≤ svc.exec_permit_capacity)
            × (5 * 1024 * 1024 ≤ svc.oss.part_size))
  unfolding start
  start_ready path h h' listen svc e = elim (Result-cases (load env decode parse path h).1) [
    | inr (why, p) ↦ absurd (ground (arith, p, e))
    | inl (cfg, p) ↦
        let h₁ = (load env decode parse path h).0 in
        let (hist, valid, (raw, from)) = load_ok path h h₁ cfg (ground (arith, p)) in
        let (oss, hist', made, answered, connected, _, same) =
          start_service_ok cfg h₁ h' listen svc (ground (arith, p, e)) in
        (
          cfg,
          raw,
          from,
          subst (λ g. IsReady g h' svc) hist
              (subst (IsReady h₁ h') (sym same) (
                new-IsReady cfg oss (read_whole path ∷ h) h₁ h' valid connected hist' made
                  answered)),
        )
  ]
