-- ===== src/Service/Lifecycle.antt =====
-- The life of a container under its exec permit, as a machine whose steps are the requests.
pub mod Oneshot
pub mod Streamed
use scriptorium.Error.{ok, err}
use scriptorium.Base.{◌∷◌, All, ◌++◌, ◌≡◌, subst, sym, [], ◌⊎◌}
use scriptorium.Text.{Text}
use scriptorium.World.Trace.{Adds}
use scriptorium.World.Calls.{
  Call, History, Env, acquired_permit, created_container, ContainerSpec, attached_container,
  started_container, waited_container, killed_container, removed_container, released_permit,
}

-- Where a handler stands: `left` is a container that Docker did not start, and `gone` is behind the
-- permit's release.
pub data Phase : Type 0 where
  outside holding made over gone : Phase
  attached running left awaited killed : Text → Phase

-- The requests that are about neither the permit nor the container.
abbrev pub IsAside : Call → Type 0
IsAside acquired_permit = ⊥
IsAside released_permit = ⊥
IsAside (created_container name spec) = ⊥
IsAside (attached_container cid) = ⊥
IsAside (started_container cid) = ⊥
IsAside (waited_container cid) = ⊥
IsAside (killed_container cid) = ⊥
IsAside (removed_container cid) = ⊥
IsAside _ = Unit

-- Where the permit may go back: not while a container runs whose end nobody awaits, nor between
-- `kill` and `remove`.
pub data MayRelease : Phase → Type 0 where
  held : MayRelease holding
  not_made : MayRelease made
  not_attached : (cid : Text) → MayRelease (attached cid)
  not_started : (cid : Text) → MayRelease (left cid)
  ended : (cid : Text) → MayRelease (awaited cid)
  cleaned : MayRelease over

module _ (env : Env) where
  -- `Moves p h call q`: behind the history `h`, the request takes a handler from `p` to `q`.
  pub data Moves : Phase → History → Call → Phase → Type 0 where
    acquire : {h : History} → Moves outside h acquired_permit holding
    make :
        {h : History} {name : Text} {spec : ContainerSpec}
        → Moves holding h (created_container name spec) made
    attach : {h : History} {cid : Text} → Moves made h (attached_container cid) (attached cid)
    start :
        {h : History} {cid : Text}
        → env.start_container h cid ≡ ok tt
        → Moves (attached cid) h (started_container cid) (running cid)
    fail_start :
        {h : History} {cid e : Text}
        → env.start_container h cid ≡ err e
        → Moves (attached cid) h (started_container cid) (left cid)
    await : {h : History} {cid : Text} → Moves (running cid) h (waited_container cid) (awaited cid)
    kill : {h : History} {cid : Text} → Moves (awaited cid) h (killed_container cid) (killed cid)
    remove : {h : History} {cid : Text} → Moves (killed cid) h (removed_container cid) over
    release : {h : History} {p : Phase} → MayRelease p → Moves p h released_permit gone
    aside : {h : History} {p : Phase} {call : Call} → IsAside call → Moves p h call p

  -- Moves one behind the other, from a phase and a history.
  pub data Lives (p : Phase) (h : History) : Phase → History → Type 0 where
    here : Lives p h p h
    next :
        {q r : Phase} {g : History} {call : Call}
        → Lives p h q g
        → Moves q g call r
        → Lives p h r (call ∷ g)

  pub Lives-trans :
      {p q : Phase} {f g : History} {r : Phase} {h : History}
      → Lives p f q g
      → Lives q g r h
      → Lives p f r h
  Lives-trans l here = l
  Lives-trans l (next l' m) = next (Lives-trans l l') m

  pub Lives-aside : (p : Phase) (h g : History) → Adds IsAside h g → Lives p h p g
  Lives-aside p h g (new, e, all) = subst (Lives p h p) (sym e) (onto new all)
    where
      onto : (new : History) → All IsAside new → Lives p h p (new ++ h)
      onto [] all = here
      onto (call ∷ new) (one, all) = next (onto new all) (aside one)

  -- A handler from its beginning to its end: it is refused without a request, or it takes the moves
  -- from its permit to the release. No move but an aside leads on from there, so there is one permit
  -- and one container at most.
  abbrev pub Finishes : History → History → Type 0
  Finishes h g = (g ≡ h) ⊎ Lives outside h gone g
