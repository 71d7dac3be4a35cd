-- ===== src/World/Trace.antt =====
-- Which requests a program makes.
use scriptorium.Error.{Result, ok, err}
use scriptorium.World.{Io, ◌>>=◌, with_timeout, of_result, lift_err, attempt, ◌>>◌, map_err}
use scriptorium.Base.{
  ◌≡◌, [], ◌∷◌, ◌++◌, Option, All, ◌∙◌, ℕ, ap, refl, sym, some, append_assoc, Bool-cases,
  All-append, ltb, length, ◌+◌, inr, subst, arith, inl, none, ◌≤◌, ◌-◌, drop, length-append, suc,
  zero, Bool, if◌then◌else◌, true, false,
}
use scriptorium.World.Calls.{History, Call}

-- The history has grown by requests that `P` allows.
abbrev pub Adds {κ} : (Call → Type κ) → History → History → Type κ
Adds P h g = (new : History) × (g ≡ new ++ h) × All P new

pub record Makes {ℓ κ μ} {E : Type ℓ} {A : Type κ} (P : Call → Type μ) (m : Io E A) : Type μ where
  pub makes : (h : History) → Adds P h (m h).0

-- A value behind a change of errors is the value of the request.
pub answered {ℓ κ μ} :
    {E : Type ℓ} {F : Type κ} {A : Type μ} (f : E → F) (r : Result E A) (a : A)
    → map_err f r ≡ ok a
    → r ≡ ok a
answered f (ok b) a e = ground (arith, e)
answered f (err why) a e = absurd (ground (arith, e))

module _ {μ} {P : Call → Type μ} where
  pub Adds-refl : (h : History) → Adds P h h
  Adds-refl h = ([], refl, tt)

  pub Adds-one : (call : Call) (h : History) → P call → Adds P h (call ∷ h)
  Adds-one call h allowed = (call ∷ [], refl, (allowed, tt))

  pub Adds-trans : (f g h : History) → Adds P f g → Adds P g h → Adds P f h
  Adds-trans f g h (new, e, all) (new', e', all') = (
    new' ++ new,
    e' ∙ ap (λ k. new' ++ k) e ∙ sym (append_assoc new' new f),
    (All-append P new' new).1 (all', all),
  )

  pub Makes-one {ℓ κ} :
      {E : Type ℓ} {A : Type κ} (call : Call) (r : History → Result E A)
      → P call
      → Makes {E = E} {A = A} P (λ h. (call ∷ h, r h))
  Makes-one call r allowed = record { makes = λ h. Adds-one call h allowed }

  pub Makes-result {ℓ κ} : {E : Type ℓ} {A : Type κ} (r : Result E A) → Makes P (of_result r)
  Makes-result r = record { makes = λ h. Adds-refl h }

  pub Makes-lift {ℓ κ ν} :
      {E : Type ℓ} {F : Type κ} {A : Type ν} (f : E → F) (m : Io E A)
      → Makes P m
      → Makes P (lift_err f m)
  Makes-lift f m made = record { makes = made.makes }

  pub Makes-attempt {ℓ κ ν} :
      {E : Type ℓ} {F : Type κ} {A : Type ν} (m : Io E A) → Makes P m → Makes P (attempt {F = F} m)
  Makes-attempt m made = record { makes = made.makes }

  pub Makes-bind {ℓ κ ν} :
      {E : Type ℓ} {A : Type κ} {B : Type ν} (m : Io E A) (k : A → Io E B)
      → Makes P m
      → ((a : A) → Makes P (k a))
      → Makes P (m >>= k)
  Makes-bind {E = E} {A = A} {B = B} m k first later = record {
    makes = λ h. go h (m h) (first.makes h);
  }
    where
      go :
          (h : History) (s : History × Result E A)
          → Adds P h s.0
          → Adds P h
              (elim s.1 as (λ _. History × Result E B) [ ok a ↦ k a s.0 | err e ↦ (s.0, err e) ]).0
      go h (h', ok a) added = Adds-trans h h' (k a h').0 added ((later a).makes h')
      go h (h', err e) added = added

  -- The rest of a program may rely on what the request that comes first has answered.
  pub Makes-answer {ℓ κ ν} :
      {E : Type ℓ} {A : Type κ} {B : Type ν} (m : Io E A) (k : A → Io E B)
      → Makes P m
      → ((h : History) (a : A) → (m h).1 ≡ ok a → Makes P (k a))
      → Makes P (m >>= k)
  Makes-answer {E = E} {A = A} {B = B} m k first later = record {
    makes = λ h. go h (m h) (λ a e. later h a e) (first.makes h);
  }
    where
      go :
          (h : History) (s : History × Result E A)
          → ((a : A) → s.1 ≡ ok a → Makes P (k a))
          → Adds P h s.0
          → Adds P h
              (elim s.1 as (λ _. History × Result E B) [ ok a ↦ k a s.0 | err e ↦ (s.0, err e) ]).0
      go h (h', ok a) rest added = Adds-trans h h' (k a h').0 added ((rest a refl).makes h')
      go h (h', err e) rest added = added

  pub Makes-then {ℓ ν} :
      {E : Type ℓ} {B : Type ν} (m : Io E (Unit {0})) (k : Io E B)
      → Makes P m
      → Makes P k
      → Makes P (m >> k)
  Makes-then m k first later = Makes-bind m (λ _. k) first (λ _. later)

  -- A program that runs as another makes its requests.
  pub Makes-same {ℓ κ} :
      {E : Type ℓ} {A : Type κ} (m m' : Io E A)
      → ((h : History) → m' h ≡ m h)
      → Makes P m'
      → Makes P m
  Makes-same m m' same made = record {
    makes = λ h. subst (λ s. Adds P h s.0) (same h) (made.makes h);
  }

  pub Makes-if {ℓ κ} :
      {E : Type ℓ} {A : Type κ} (b : Bool) (m k : Io E A)
      → Makes P m
      → Makes P k
      → Makes P (if b then m else k)
  Makes-if true m k one other = one
  Makes-if false m k one other = other

  Adds-drop : (k : ℕ) (new h : History) → All P new → k ≤ length new → Adds P h (drop k (new ++ h))
  Adds-drop zero new h all short = (new, refl, all)
  Adds-drop (suc k) [] h all short = absurd (omega (arith, short))
  Adds-drop (suc k) (call ∷ new) h (_, all) short = Adds-drop k new h all (omega (arith, short))

  -- Where the time is up, the latest requests were not made.
  pub with_timeout-Makes {ℓ κ} :
      {E : Type ℓ} {A : Type κ} (limit : Option ℕ) (late : E) (m : Io E A)
      → Makes P m
      → Makes P (with_timeout limit late m)
  with_timeout-Makes none late m made = record { makes = made.makes }
  with_timeout-Makes {E = E} {A = A} (some n) late m made = record { makes = cut_or_kept }
    where
      cut_or_kept : (h : History) → Adds P h (with_timeout (some n) late m h).0
      cut_or_kept h = elim (Bool-cases (ltb (length h + n) (length (m h).0))) [
        | inr in_time ↦ subst (Adds P h) {x = (m h).0} (ground (arith, in_time)) (made.makes h)
        | inl too_late ↦
            let (new, e, all) = made.makes h in
            let k = length (m h).0 - (length h + n) in
            let short : k ≤ length new = omega (arith, ap length e, length-append new h) in
            let cut : Adds P h (drop k (m h).0) =
              subst (λ g. Adds P h (drop k g)) (sym e) (Adds-drop k new h all short) in
            subst (Adds P h) {x = drop k (m h).0} (ground (arith, too_late)) cut
      ]
