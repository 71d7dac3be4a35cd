-- ===== src/Service/Permits.antt =====
-- The exec permits of `do_exec_oneshot`.
use scriptorium.Text.{Text}
use scriptorium.Service.{
  do_exec_oneshot, acquire_exec_permit, build_exec_params, SandboxService, ExecRequest, exec_params,
}
use scriptorium.Runtime.{
  run_to_end, exec_oneshot, create_container, ExecParams, SandboxConfig, ExecOutcome,
}
use scriptorium.Workspace.{ensure_home, WorkspaceManager}
use scriptorium.World.{Io, ◌>>=◌, lift_docker, pure, lift_status, ◌>>◌}
use scriptorium.World.Calls.{
  History, Env, acquired_permit, released_permit, LogOutput, read_clock, started_container,
  attached_container, Permit,
}
use scriptorium.World.Calls.{granted, closed, timed_out}
use scriptorium.Base.{
  none, some, ◌⊎◌, ◌∷◌, inl, inr, refl, ◌∙◌, ℕ, ◌≡◌, suc, [], arith, List, ap, Option,
}
use scriptorium.Error.{
  ok, err, Result, Status, Error, internal, message, semaphore_closed, resource_exhausted,
  queue_full,
}

-- The permits that a history has acquired and released.
abbrev pub permits : History → ℕ × ℕ
permits [] = (0, 0)
permits (acquired_permit ∷ h) = (suc (permits h).0, (permits h).1)
permits (released_permit ∷ h) = ((permits h).0, suc (permits h).1)
permits (_ ∷ h) = permits h

-- A program that does not acquire or release any.
abbrev pub Neutral {ℓ κ} : {E : Type ℓ} {A : Type κ} → Io E A → Type 0
Neutral m = (h : History) → permits (m h).0 ≡ permits h

pub Neutral-bind {ℓ κ μ} :
    {E : Type ℓ} {A : Type κ} {B : Type μ} (m : Io E A) (k : A → Io E B)
    → Neutral m
    → ((a : A) → Neutral (k a))
    → Neutral (m >>= k)
Neutral-bind {E = E} {A = A} {B = B} m k first later h = go (m h) (first h)
  where
    go :
        (s : History × Result E A)
        → permits s.0 ≡ permits h
        → permits
            (elim s.1 as (λ _. History × Result E B) [ ok a ↦ k a s.0 | err e ↦ (s.0, err e) ]).0
          ≡ permits h
    go (h', ok a) same = later a h' ∙ same
    go (h', err e) same = same

pub ensure_home-Neutral :
    (env : Env) (m : WorkspaceManager) (id : Text) (uid gid : ℕ)
    → Neutral (ensure_home env m id uid gid)
unfolding ensure_home
ensure_home-Neutral env m id uid gid h = ground arith

run_to_end-Neutral :
    (env : Env) (req : ExecParams) (start : ℕ) (cid : Text) (output : List (Result Text LogOutput))
    → Neutral (run_to_end env req start cid output)
unfolding run_to_end
run_to_end-Neutral env req start cid output h = ground arith

module _ (env : Env) (cfg : SandboxConfig) (req : ExecParams) where
  pub create_container-Neutral : Neutral (create_container env cfg req)
  unfolding create_container
  create_container-Neutral h = ground arith

  started : ℕ → Text → List (Result Text LogOutput) → Io Error ExecOutcome
  started start cid output =
      lift_docker (λ g. (started_container cid ∷ g, env.start_container g cid))
      >> run_to_end env req start cid output

  attached : ℕ → Text → Io Error ExecOutcome
  unfolding started
  attached start cid =
      lift_docker (λ g. (attached_container cid ∷ g, env.attach_container g cid)) >>= λ output.
      started start cid output

  started-Neutral :
      (start : ℕ) (cid : Text) (output : List (Result Text LogOutput))
      → Neutral (started start cid output)
  unfolding started
  started-Neutral start cid output =
      Neutral-bind (lift_docker (λ g. (started_container cid ∷ g, env.start_container g cid)))
        (λ _. run_to_end env req start cid output) (λ g. refl)
        (λ _. run_to_end-Neutral env req start cid output)

  attached-Neutral : (start : ℕ) (cid : Text) → Neutral (attached start cid)
  unfolding attached
  attached-Neutral start cid =
      Neutral-bind (lift_docker (λ g. (attached_container cid ∷ g, env.attach_container g cid)))
        (started start cid) (λ g. refl) (started-Neutral start cid)

  exec_oneshot-Neutral : Neutral (exec_oneshot env cfg req)
  unfolding exec_oneshot attached started
  exec_oneshot-Neutral h =
      Neutral-bind (create_container env cfg req) (attached (env.now h)) create_container-Neutral
        (attached-Neutral (env.now h)) (read_clock ∷ h)

module _ (env : Env) (svc : SandboxService) (req : ExecRequest) where
  pub build_exec_params-Neutral : Neutral (build_exec_params env svc req)
  unfolding build_exec_params
  build_exec_params-Neutral =
      Neutral-bind
        (ensure_home env svc.workspaces req.workspace_id svc.sandbox_cfg.agent_uid
          svc.sandbox_cfg.agent_gid)
        (λ home. pure (exec_params env svc req home))
        (ensure_home-Neutral env svc.workspaces req.workspace_id svc.sandbox_cfg.agent_uid
          svc.sandbox_cfg.agent_gid)
        (λ _ _. refl)

  -- What `do_exec_oneshot` runs under its permit.
  unfoldable pub under_permit : Io Status ExecOutcome
  under_permit = lift_status (build_exec_params env svc req) >>= λ params.
      lift_status (exec_oneshot env svc.sandbox_cfg params)

  under_permit-Neutral : Neutral under_permit
  unfolding under_permit
  under_permit-Neutral =
      Neutral-bind (lift_status (build_exec_params env svc req))
        (λ params. lift_status (exec_oneshot env svc.sandbox_cfg params)) build_exec_params-Neutral
        (λ params. exec_oneshot-Neutral env svc.sandbox_cfg params)

  pub acquire_cases :
      (h : History)
      → (acquire_exec_permit env svc h ≡ (acquired_permit ∷ h, ok tt))
        ⊎ ((e : Status) × (acquire_exec_permit env svc h ≡ (h, err e)))
  unfolding acquire_exec_permit
  acquire_cases h = go (env.acquire h) refl svc.exec_queue_timeout refl
    where
      go :
          (p : Permit)
          → env.acquire h ≡ p
          → (t : Option ℕ) → svc.exec_queue_timeout ≡ t
          → (acquire_exec_permit env svc h ≡ (acquired_permit ∷ h, ok tt))
            ⊎ ((e : Status) × (acquire_exec_permit env svc h ≡ (h, err e)))
      go granted e t e' = inl (ground (arith, e))
      go closed e t e' =
          inr (record { code = internal; detail = message semaphore_closed }, ground (arith, e))
      go timed_out e none e' = inl (ground (arith, e, e'))
      go timed_out e (some n) e' = inr (
        record {
          code = resource_exhausted;
          detail = message (queue_full svc.exec_permit_capacity);
        },
        ground (arith, e, e'),
      )

  -- `do_exec_oneshot` gives back each permit that it takes: either it has acquired one permit and
  -- released one, whatever became of the command, or it was granted none, and then it has failed
  -- without a request.
  pub do_exec_oneshot-permits :
      (h : History)
      → let s = do_exec_oneshot env svc req h in
        (permits s.0 ≡ (suc (permits h).0, suc (permits h).1))
        ⊎ ((s.0 ≡ h) × ((e : Status) × (s.1 ≡ err e)))
  unfolding do_exec_oneshot under_permit
  do_exec_oneshot-permits h = elim (acquire_cases h) [
    | inl got ↦ inl (
        ap permits {x = (do_exec_oneshot env svc req h).0}
          {y = released_permit ∷ (under_permit (acquired_permit ∷ h)).0} (ground (arith, got))
        ∙ ap (λ c. (c.0, suc c.1)) (under_permit-Neutral (acquired_permit ∷ h)))
    | inr (e, refused) ↦ inr (ground (arith, refused), (e, ground (arith, refused)))
  ]
