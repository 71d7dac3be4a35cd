-- ===== src/Service/Concurrency/Phases.antt =====
-- Where a handler stands between two of its requests.
use scriptorium.Service.Concurrency.{holds}
use scriptorium.Base.{ℕ, ◌≤◌, List, ◌∷◌, ◌≡◌, [], ◌++◌, refl, ◌∙◌, arith}
use scriptorium.Service.Lifecycle.{
  Phase, IsAside, Moves, Lives, outside, running, aside, left, start, next, here, awaited,
  fail_start, killed, release, acquire, make, attach, await, kill, remove, holding, gone,
}
use scriptorium.World.Calls.{
  History, Call, Env, acquired_permit, started_container, released_permit, removed_container,
  created_container, attached_container, waited_container, killed_container,
}

-- One while a container that the handler has started is neither removed nor left behind with its
-- permit given back.
abbrev pub under_way : History → ℕ
under_way [] = 0
under_way (started_container cid ∷ h) = 1
under_way (removed_container cid ∷ h) = 0
under_way (released_permit ∷ h) = 0
under_way (_ ∷ h) = under_way h

abbrev pub weight : Phase → ℕ
weight outside = 0
weight gone = 0
weight _ = 1

-- The most that `under_way` is at a phase.
abbrev pub load : Phase → ℕ
load (running cid) = 1
load (left cid) = 1
load (awaited cid) = 1
load (killed cid) = 1
load _ = 0

pub load-weight : (p : Phase) → load p ≤ weight p
load-weight outside = omega arith
load-weight holding = omega arith
load-weight gone = omega arith
load-weight _ = omega arith

IsAside-keeps :
    (call : Call) (h : History)
    → IsAside call
    → (holds (call ∷ h) ≡ holds h) × (under_way (call ∷ h) ≡ under_way h)
IsAside-keeps acquired_permit h bad = absurd bad
IsAside-keeps released_permit h bad = absurd bad
IsAside-keeps (created_container name spec) h bad = absurd bad
IsAside-keeps (attached_container cid) h bad = absurd bad
IsAside-keeps (started_container cid) h bad = absurd bad
IsAside-keeps (waited_container cid) h bad = absurd bad
IsAside-keeps (killed_container cid) h bad = absurd bad
IsAside-keeps (removed_container cid) h bad = absurd bad
IsAside-keeps _ h allowed = (refl, refl)

module _ (env : Env) where
  Moves-weighs :
      {p q : Phase} {h : History} {call : Call}
      → Moves env p h call q
      → (holds h ≡ weight p) × (under_way h ≡ load p)
      → (holds (call ∷ h) ≡ weight q) × (under_way (call ∷ h) ≡ load q)
  Moves-weighs acquire (w, l) = (refl, l)
  Moves-weighs make (w, l) = (w, l)
  Moves-weighs attach (w, l) = (w, l)
  Moves-weighs (start s) (w, l) = (w, refl)
  Moves-weighs (fail_start s) (w, l) = (w, refl)
  Moves-weighs await (w, l) = (w, l)
  Moves-weighs kill (w, l) = (w, l)
  Moves-weighs remove (w, l) = (w, refl)
  Moves-weighs (release may) (w, l) = (refl, refl)
  Moves-weighs {h = h} {call = call} (aside a) (w, l) =
      let (e, e') = IsAside-keeps call h a in (e ∙ w, e' ∙ l)

  pub Lives-weighs :
      {p : Phase} {h : History}
      → Lives env outside [] p h
      → (holds h ≡ weight p) × (under_way h ≡ load p)
  Lives-weighs here = (refl, refl)
  Lives-weighs (next l m) = Moves-weighs m (Lives-weighs l)

  -- A run can be halted in front of each request.
  pub Lives-halted :
      {p q : Phase} (rest : List Call) {g : History}
      → Lives env p [] q (rest ++ g)
      → (r : Phase) × Lives env p [] r g
  Lives-halted {q = q} [] l = (q, l)
  Lives-halted (call ∷ rest) (next l m) = Lives-halted rest l

  pub Lives-moves :
      {p q : Phase} (rest : List Call) {call : Call} {g : History}
      → Lives env p [] q (rest ++ call ∷ g)
      → (r r' : Phase) × Lives env p [] r g × Moves env r g call r'
  Lives-moves {q = q} [] (next {q = r} l m) = (r, q, l, m)
  Lives-moves (call ∷ rest) (next l m) = Lives-moves rest l
