-- ===== src/FilePath/Parse.antt =====
-- What `components` makes of a text.
use scriptorium.Base.{
  ◌≡◌, refl, ◌≢◌, ◌⊎◌, inl, inr, List, [], ◌∷◌, ◌++◌, arith, All, append-nil, append_assoc, ◌==◌,
  Bool-cases,
}
use scriptorium.Text.{Text, codes, text_eq_iff}
use scriptorium.FilePath.{
  root_dir, normal, FilePath, components, split_slash, later_components, first_components,
}
use scriptorium.FilePath.Laws.{IsRootless}

later_components-IsRootless : (ps : List Text) → All IsRootless (later_components ps)
unfolding later_components
later_components-IsRootless [] = tt
later_components-IsRootless (p ∷ ps) = ground (arith, later_components-IsRootless ps)

first_components-IsRootless : (ps : List Text) → All IsRootless (first_components ps)
unfolding first_components
first_components-IsRootless [] = tt
first_components-IsRootless (p ∷ ps) =
    ground (arith, later_components-IsRootless ps, later_components-IsRootless (p ∷ ps))

-- The root stands first or nowhere.
pub components_cases :
    (s : Text)
    → ((p : FilePath) × (components s ≡ root_dir ∷ p) × All IsRootless p)
      ⊎ All IsRootless (components s)
unfolding components
components_cases [] = inr tt
components_cases (c ∷ s) = elim (Bool-cases (c == b'/')) [
  | inl e ↦
      inl
        (later_components (split_slash [] s), rw e, later_components-IsRootless (split_slash [] s))
  | inr e ↦ inr (rw e (first_components-IsRootless (split_slash (c ∷ []) s)))
]

pub split_slash_free : (acc s : Text) → All (λ c. c ≢ b'/') s → split_slash acc s ≡ (acc ++ s) ∷ []
unfolding split_slash
split_slash_free acc [] h = rw append-nil
split_slash_free acc (c ∷ s) h =
    ground (arith, split_slash_free (acc ++ c ∷ []) s h.1, append_assoc acc (c ∷ []) s)

-- A text that is not empty, holds no slash, and is neither `.` nor `..`, is one name.
pub components_name :
    (s : Text)
    → s ≢ []
    → All (λ c. c ≢ b'/') s
    → s ≢ codes "."
    → s ≢ codes ".."
    → components s ≡ normal s ∷ []
unfolding components
components_name [] nonempty h dot dots = absurd (nonempty refl)
components_name (c ∷ s) nonempty h dot dots = ground (
  arith,
  split_slash_free (c ∷ []) s h.1,
  text_eq_iff (c ∷ s) (codes "."),
  text_eq_iff (c ∷ s) (codes ".."),
)
