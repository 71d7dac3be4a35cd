-- ===== src/Service/Concurrency/Capacity.antt =====
-- How many containers are under way at once.
use mathlib.Core.Option.{some-ne-none}
use scriptorium.Service.Lifecycle.Streamed.{exec_stream_rpc-Lives}
use scriptorium.Service.Lifecycle.Oneshot.{do_exec_oneshot-Lives}
use scriptorium.Service.Concurrency.Phases.{
  under_way, Lives-halted, weight, Lives-weighs, Lives-moves, load-weight,
}
use scriptorium.Service.Concurrency.{
  Handler, Server, Step, Reach, whole_run, arrive, Grants, Body, run_of, stepped, streamed, move,
  makes, leave, oneshot, neither, begin, take_one, give_back, one_move, cancel, holds,
}
use scriptorium.Service.Lifecycle.{
  Phase, Lives, Moves, outside, aside, next, release, not_attached, not_started, ended, acquire,
  held, not_made, cleaned, Finishes, here, gone,
}
use scriptorium.Base.{
  ℕ, List, ◌++◌, ◌+◌, All, ◌∷◌, ◌≡◌, arith, [], ◌≤◌, refl, subst, sym, append-nil, some, All-append,
  inl, inr,
}
use scriptorium.Service.{SandboxService}
use scriptorium.World.Calls.{History, Env, Call}

abbrev pub total : (History → ℕ) → List Handler → ℕ
total f [] = 0
total f (t ∷ ts) = f t.done + total f ts

total-append :
    (f : History → ℕ) (ts us : List Handler) → total f (ts ++ us) ≡ total f ts + total f us
total-append f [] us = omega arith
total-append f (t ∷ ts) us = omega (arith, total-append f ts us)

Moves-Grants :
    (env : Env) {p q : Phase} {h : History} {call : Call} {n m : ℕ}
    → Moves env p h call q
    → Grants n call m
    → n + weight p ≡ m + weight q
Moves-Grants env acquire take_one = omega arith
Moves-Grants env (aside no_aside) take_one = absurd no_aside
Moves-Grants env (release held) give_back = omega arith
Moves-Grants env (release not_made) give_back = omega arith
Moves-Grants env (release (not_attached cid)) give_back = omega arith
Moves-Grants env (release (not_started cid)) give_back = omega arith
Moves-Grants env (release (ended cid)) give_back = omega arith
Moves-Grants env (release cleaned) give_back = omega arith
Moves-Grants env (aside no_aside) give_back = absurd no_aside
Moves-Grants env acquire (neither other) = absurd other
Moves-Grants env (release may) (neither other) = absurd other
Moves-Grants env _ (neither other) = refl

module _ (svc : SandboxService) where
  -- A whole run ends without a permit.
  abbrev pub EndsFree : Env → History → Type 0
  EndsFree env g = (p : Phase) × (weight p ≡ 0) × Lives env outside [] p g

  finished_free : (env : Env) (g : History) → Finishes env [] g → EndsFree env g
  finished_free env g (inl same) =
      (outside, refl, subst (Lives env outside [] outside) (sym same) here)
  finished_free env g (inr l) = (gone, refl, l)

  pub whole_run-Lives : (t : Handler) → EndsFree t.env (whole_run svc t)
  whole_run-Lives t = go t.body
    where
      go : (body : Body) → EndsFree t.env (run_of svc t.env t.req body)
      go oneshot = finished_free t.env _ (do_exec_oneshot-Lives t.env svc t.req [])
      go (streamed turns) = elim (exec_stream_rpc-Lives t.env svc t.req (some turns) []) [
        | inl finished ↦ finished_free t.env _ finished
        | inr (unpolled, more) ↦ absurd (some-ne-none turns unpolled)
      ]

  -- What the handler has done begins its run.
  abbrev pub IsMidway : Handler → Type 0
  IsMidway t = (rest : List Call) × (whole_run svc t ≡ rest ++ t.done)

  pub IsMidway-Lives : (t : Handler) → IsMidway t → (p : Phase) × Lives t.env outside [] p t.done
  IsMidway-Lives t (rest, e) =
      let (q, _, l) = whole_run-Lives t in
      Lives-halted t.env rest (subst (Lives t.env outside [] q) e l)

  abbrev pub IsBalanced : Server → Type 0
  IsBalanced (n, ts) = (n + total holds ts ≡ svc.exec_permit_capacity) × All IsMidway ts

  move_balances :
      {n m : ℕ} (t : Handler) (call : Call) (rest : List Call)
      → whole_run svc t ≡ rest ++ call ∷ t.done
      → Grants n call m
      → n + holds t.done ≡ m + holds (call ∷ t.done)
  move_balances t call rest e grants =
      let (last, _, l) = whole_run-Lives t in
      let (p, q, l', moves) = Lives-moves t.env rest (subst (Lives t.env outside [] last) e l) in
      omega (
        arith,
        Moves-Grants t.env moves grants,
        (Lives-weighs t.env l').0,
        (Lives-weighs t.env (next l' moves)).0,
      )

  pub Step-IsBalanced : {s s' : Server} → Step svc s s' → IsBalanced s → IsBalanced s'
  Step-IsBalanced (arrive env req body) (balance, midway) =
      (omega (arith, balance), ((run_of svc env req body, sym (append-nil _)), midway))
  Step-IsBalanced (one_move (move before t after call rest e grants)) (balance, midway) =
      let (all_before, (one, all_after)) = (All-append IsMidway before (t ∷ after)).0 midway in
      (
        omega (
          arith,
          balance,
          total-append holds before (t ∷ after),
          total-append holds before (makes t call ∷ after),
          move_balances t call rest e grants,
        ),
        (All-append IsMidway before (makes t call ∷ after)).1 (all_before, ((rest, e), all_after)),
      )
  Step-IsBalanced (leave before t after e) (balance, midway) =
      let (all_before, (one, all_after)) = (All-append IsMidway before (t ∷ after)).0 midway in
      let (last, free, l) = whole_run-Lives t in
      let w = (Lives-weighs t.env (subst (Lives t.env outside [] last) e l)).0 in
      (
        omega (
          arith,
          balance,
          total-append holds before (t ∷ after),
          total-append holds before after,
          w,
          free,
        ),
        (All-append IsMidway before after).1 (all_before, all_after),
      )
  Step-IsBalanced (cancel before t after) (balance, midway) =
      let (all_before, (one, all_after)) = (All-append IsMidway before (t ∷ after)).0 midway in
      (
        omega (
          arith,
          balance,
          total-append holds before (t ∷ after),
          total-append holds before after,
        ),
        (All-append IsMidway before after).1 (all_before, all_after),
      )

  pub Reach-IsBalanced : {s : Server} → Reach svc s → IsBalanced s
  Reach-IsBalanced begin = (omega arith, tt)
  Reach-IsBalanced (stepped reach step) = Step-IsBalanced step (Reach-IsBalanced reach)

  total-under_way : (ts : List Handler) → All IsMidway ts → total under_way ts ≤ total holds ts
  total-under_way [] all = omega arith
  total-under_way (t ∷ ts) (one, all) =
      let (p, l) = IsMidway-Lives t one in
      let (w, u) = Lives-weighs t.env l in
      omega (arith, w, u, load-weight p, total-under_way ts all)

  -- However the handlers of `exec` and of polled `exec_stream`s interleave, and whichever of them are
  -- dropped on the way, free permits and held ones add up to the capacity, so there are never more than
  -- that many handlers whose container has been started and is neither removed nor given up with its
  -- permit. A handler that is dropped is gone, whatever its container does. What the guard of a dropped
  -- stream spawns counts as done at once.
  pub exec_permits_bound :
      (s : Server)
      → Reach svc s
      → (s.0 + total holds s.1 ≡ svc.exec_permit_capacity)
        × (total under_way s.1 ≤ svc.exec_permit_capacity)
  exec_permits_bound s reach =
      let (balance, midway) = Reach-IsBalanced reach in
      (balance, omega (arith, balance, total-under_way s.1 midway))
