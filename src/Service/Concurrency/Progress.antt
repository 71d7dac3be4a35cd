-- ===== src/Service/Concurrency/Progress.antt =====
-- How the handlers that are there come to their ends.
use scriptorium.Service.Concurrency.Phases.{weight, Lives-weighs, Lives-moves}
use scriptorium.Service.Concurrency.Capacity.{
  IsMidway, whole_run-Lives, IsBalanced, total, Step-IsBalanced, Reach-IsBalanced,
}
use scriptorium.Service.Lifecycle.{Phase, Moves, aside, acquire, Lives, outside}
use scriptorium.Service.Concurrency.{
  Handler, Server, whole_run, Move, Grants, take_one, give_back, neither, Reach, move, makes,
  one_move, holds,
}
use scriptorium.Base.{
  ℕ, ◌≡◌, [], ◌≢◌, ◌⊎◌, ◌++◌, ◌≤◌, ◌∷◌, inl, suc, inr, ◌∙◌, ap, refl, subst, zero, arith, List, All,
  length, ◌+◌, All-mono, sym, ◌-◌, length-append,
}
use scriptorium.World.Calls.{History, Env, Call, acquired_permit, released_permit}
use scriptorium.Service.{SandboxService}

abbrev pub IsDone : SandboxService → Handler → Type 0
IsDone svc t = whole_run svc t ≡ t.done

-- Moves one behind the other.
pub data Runs (svc : SandboxService) (s : Server) : Server → Type 0 where
  still : Runs svc s s
  and_then : {s' s'' : Server} → Runs svc s s' → Move svc s' s'' → Runs svc s s''

Runs-before :
    {svc : SandboxService} {s s' s'' : Server} → Move svc s s' → Runs svc s' s'' → Runs svc s s''
Runs-before first still = and_then still first
Runs-before first (and_then runs last) = and_then (Runs-before first runs) last

-- What is left to do, as the first request that is due and those behind it.
first_due :
    (new h : History)
    → (new ≡ []) ⊎ ((call : Call) × (rest : History) × (new ++ h ≡ rest ++ call ∷ h))
first_due [] h = inl refl
first_due (call ∷ new) h = elim (first_due new h) [
  | inl e ↦ inr (call, [], ap (λ k. call ∷ k ++ h) e)
  | inr (due, rest, e) ↦ inr (due, call ∷ rest, ap (λ k. call ∷ k) e)
]

-- With a free permit every request is granted, and without one every request but for a permit.
grants : (n : ℕ) (call : Call) → ((n ≡ 0) → call ≢ acquired_permit) → (m : ℕ) × Grants n call m
grants zero acquired_permit other = absurd (other refl refl)
grants (suc n) acquired_permit other = (n, take_one)
grants n released_permit other = (suc n, give_back)
grants n _ other = (n, neither tt)

acquires_outside :
    (env : Env) {p q : Phase} {h : History} → Moves env p h acquired_permit q → weight p ≡ 0
acquires_outside env acquire = refl
acquires_outside env (aside bad) = absurd bad

zero_or_more : (n : ℕ) → (n ≡ 0) ⊎ (1 ≤ n)
zero_or_more zero = inl refl
zero_or_more (suc n) = inr (omega arith)

module _ (svc : SandboxService) where
  abbrev CanMove : ℕ → Handler → Type 0
  CanMove n t =
      (call : Call) × (rest : History) × (m : ℕ) × (whole_run svc t ≡ rest ++ call ∷ t.done)
      × Grants n call m

  -- A handler that is not done can move, unless it waits for a permit and there is none.
  done_or_moves :
      (n : ℕ) (t : Handler)
      → IsMidway svc t
      → ((n ≡ 0) → 1 ≤ holds t.done)
      → IsDone svc t ⊎ CanMove n t
  done_or_moves n t (new, e) holder = elim (first_due new t.done) [
    | inl nil ↦ inl (e ∙ ap (λ k. k ++ t.done) nil)
    | inr (call, rest, e') ↦
        let (last, _, l) = whole_run-Lives svc t in
        let (p, q, l', moves) =
          Lives-moves t.env rest (subst (Lives t.env outside [] last) (e ∙ e') l) in
        let other : (n ≡ 0) → call ≢ acquired_permit = λ full asks. omega (
          arith,
          holder full,
          (Lives-weighs t.env l').0,
          acquires_outside t.env (subst (λ c. Moves t.env p t.done c q) asks moves),
        ) in
        let (m, granted) = grants n call other in inr (call, rest, m, e ∙ e', granted)
  ]

  abbrev Found : (Handler → Type 0) → List Handler → Type 0
  Found q ts =
      (before : List Handler) × (t : Handler) × (after : List Handler) × (ts ≡ before ++ t ∷ after)
      × q t
      × IsMidway svc t

  every_or_one :
      (p q : Handler → Type 0)
      → ((t : Handler) → IsMidway svc t → p t ⊎ q t)
      → (ts : List Handler) → All (IsMidway svc) ts
      → All p ts ⊎ Found q ts
  every_or_one p q test [] all = inl tt
  every_or_one p q test (t ∷ ts) (one, all) = elim (test t one) [
    | inr found ↦ inr ([], t, ts, refl, found, one)
    | inl holds_p ↦ elim (every_or_one p q test ts all) [
      | inl rest ↦ inl (holds_p, rest)
      | inr (before, u, after, e, found, mid) ↦
          inr (t ∷ before, u, after, ap (λ k. t ∷ k) e, found, mid)
    ]
  ]

  none_held : (ts : List Handler) → All (λ t. holds t.done ≡ 0) ts → total holds ts ≡ 0
  none_held [] all = refl
  none_held (t ∷ ts) (one, all) = omega (arith, one, none_held ts all)

  done_holds_none : (t : Handler) → IsDone svc t → holds t.done ≡ 0
  done_holds_none t e =
      let (last, free, l) = whole_run-Lives svc t in
      (Lives-weighs t.env (subst (Lives t.env outside [] last) e l)).0 ∙ free

  ended_holds_none : (ts : List Handler) → All (IsDone svc) ts → total holds ts ≡ 0
  ended_holds_none ts all =
      none_held ts (All-mono (IsDone svc) (λ t. holds t.done ≡ 0) done_holds_none ts all)

  moves_at :
      (s : Server) (before : List Handler) (t : Handler) (after : List Handler)
      → s.1 ≡ before ++ t ∷ after
      → CanMove s.0 t
      → (s' : Server) × Move svc s s'
  moves_at (n, ts) before t after e (call, rest, m, e', granted) = (
    (m, before ++ makes t call ∷ after),
    subst (λ us. Move svc (n, us) (m, before ++ makes t call ∷ after)) (sym e)
        (move before t after call rest e' granted),
  )

  -- As long as a handler is not done, one can move.
  ended_or_next :
      (s : Server)
      → IsBalanced svc s
      → 1 ≤ svc.exec_permit_capacity
      → All (IsDone svc) s.1 ⊎ ((s' : Server) × Move svc s s')
  ended_or_next (zero, ts) (balance, midway) some_permit =
      elim (every_or_one (λ t. holds t.done ≡ 0) (λ t. 1 ≤ holds t.done)
        (λ t _. zero_or_more (holds t.done)) ts midway) [
          | inl all ↦ absurd (omega (arith, none_held ts all, balance, some_permit))
          | inr (before, t, after, e, held, mid) ↦ elim (done_or_moves 0 t mid (λ _. held)) [
            | inl over ↦ absurd (omega (arith, held, done_holds_none t over))
            | inr can ↦ inr (moves_at (0, ts) before t after e can)
          ]
        ]
  ended_or_next (suc n, ts) (balance, midway) some_permit =
      elim (every_or_one (IsDone svc) (CanMove (suc n))
        (λ t mid. done_or_moves (suc n) t mid (λ full. absurd (omega (arith, full)))) ts midway) [
          | inl all ↦ inl all
          | inr (before, t, after, e, can, mid) ↦ inr (moves_at (suc n, ts) before t after e can)
        ]

  -- The requests that are still to be made.
  abbrev left : List Handler → ℕ
  left [] = 0
  left (t ∷ ts) = (length (whole_run svc t) - length t.done) + left ts

  left-append : (ts us : List Handler) → left (ts ++ us) ≡ left ts + left us
  left-append [] us = omega arith
  left-append (t ∷ ts) us = omega (arith, left-append ts us)

  Move-left : {s s' : Server} → Move svc s s' → left s.1 ≡ suc (left s'.1)
  Move-left (move before t after call rest e granted) = omega (
    arith,
    left-append before (t ∷ after),
    left-append before (makes t call ∷ after),
    ap length e,
    length-append rest (call ∷ t.done),
  )

  abbrev pub Drains : Server → Type 0
  Drains s =
      (s' : Server) × Runs svc s s' × All (IsDone svc) s'.1 × (s'.0 ≡ svc.exec_permit_capacity)

  drain :
      (k : ℕ) (s : Server)
      → IsBalanced svc s
      → 1 ≤ svc.exec_permit_capacity
      → left s.1 ≤ k
      → Drains s
  drain zero s balanced some_permit enough = elim (ended_or_next s balanced some_permit) [
    | inl all ↦ (s, still, all, omega (arith, balanced.0, ended_holds_none s.1 all))
    | inr (s', m) ↦ absurd (omega (arith, enough, Move-left m))
  ]
  drain (suc k) s balanced some_permit enough = elim (ended_or_next s balanced some_permit) [
    | inl all ↦ (s, still, all, omega (arith, balanced.0, ended_holds_none s.1 all))
    | inr (s', m) ↦
        let balanced' = Step-IsBalanced svc (one_move m) balanced in
        let (last, runs, all, free) =
          drain k s' balanced' some_permit (omega (arith, enough, Move-left m)) in
        (last, Runs-before m runs, all, free)
  ]

  -- Where there is a permit at all, the handlers of `exec` and of polled `exec_stream`s never block each
  -- other for good: from every state that a server gets to, requests of these handlers alone lead to one
  -- where each has come to its end and all permits are free.
  pub exec_handlers_drain : (s : Server) → Reach svc s → 1 ≤ svc.exec_permit_capacity → Drains s
  exec_handlers_drain s reach some_permit =
      drain (left s.1) s (Reach-IsBalanced svc reach) some_permit (omega arith)
