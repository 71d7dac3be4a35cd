-- ===== src/Base/Table.antt =====
-- Facts about all numbers below a bound, by evaluation.
use scriptorium.Base.{ℕ, zero, suc, Bool, true, false, ◌&&◌, ◌≡◌, ◌<◌, refl, arith}

unfoldable pub holds_below : ℕ → (ℕ → Bool) → Bool
holds_below zero test = true
holds_below (suc bound) test = holds_below bound test && test bound

pub holds_below-at :
    (bound : ℕ) (test : ℕ → Bool) (k : ℕ)
    → holds_below bound test ≡ true
    → k < bound
    → test k ≡ true
unfolding holds_below
holds_below-at zero test k all below = absurd (omega arith)
holds_below-at (suc bound) test k all below = ground (arith, holds_below-at bound test k)

unfoldable pub same : Bool → Bool → Bool
same true b = b
same false true = false
same false false = true

pub same_eq : (a b : Bool) → same a b ≡ true → a ≡ b
unfolding same
same_eq true b h = ground arith
same_eq false true h = cc
same_eq false false h = refl
