-- ===== src/FilePath/Laws.antt =====
-- Laws of path components, of `starts_with` and of `join`.
use scriptorium.Base.{◌≡◌, refl, ◌↔◌, true, [], ◌∷◌, ◌++◌, some, arith, All}
use scriptorium.Text.{Text, text_eq_iff}
use scriptorium.FilePath.{
  Component, root_dir, cur_dir, parent_dir, normal, FilePath, component_eq, join, starts_with,
  strip_prefix, path_eq,
}

pub component_eq_iff : (c d : Component) → (component_eq c d ≡ true) ↔ (c ≡ d)
unfolding component_eq
component_eq_iff root_dir root_dir = (λ h. refl, λ h. refl)
component_eq_iff cur_dir cur_dir = (λ h. refl, λ h. refl)
component_eq_iff parent_dir parent_dir = (λ h. refl, λ h. refl)
component_eq_iff (normal s) (normal t) = ground (arith, text_eq_iff s t)
component_eq_iff _ _ = (λ h. cc, λ h. cc)

pub starts_with-append : (base rest : FilePath) → starts_with (base ++ rest) base ≡ true
unfolding starts_with
starts_with-append [] rest = refl
starts_with-append (b ∷ base) rest =
    ground (arith, component_eq_iff b b, starts_with-append base rest)

append_of_starts_with :
    (p base : FilePath) → starts_with p base ≡ true → (rest : FilePath) × (p ≡ base ++ rest)
unfolding starts_with
append_of_starts_with p [] h = (p, refl)
append_of_starts_with [] (b ∷ base) h = cc
append_of_starts_with (c ∷ p) (b ∷ base) h =
    let h' : (component_eq c b ≡ true) × (starts_with p base ≡ true) = ground arith in
    let (rest, e) = append_of_starts_with p base h'.1 in
    (rest, cc (e, (component_eq_iff c b).0 h'.0))

-- `starts_with` finds just the extensions of the base.
pub starts_with_iff :
    (p base : FilePath) → (starts_with p base ≡ true) ↔ ((rest : FilePath) × (p ≡ base ++ rest))
starts_with_iff p base =
    (append_of_starts_with p base, λ (rest, e). rw e (starts_with-append base rest))

-- `strip_prefix` takes off just the base.
pub strip_prefix-append : (base rest : FilePath) → strip_prefix (base ++ rest) base ≡ some rest
unfolding strip_prefix
strip_prefix-append [] rest = refl
strip_prefix-append (b ∷ base) rest =
    ground (arith, component_eq_iff b b, strip_prefix-append base rest)

-- A path that neither is absolute nor begins with `.` is put behind the base.
pub join_relative :
    (base : FilePath) (s : Text) (p : FilePath) → join base (normal s ∷ p) ≡ base ++ normal s ∷ p
unfolding join
join_relative base s p = refl

abbrev pub IsNormal : Component → Type 0
IsNormal (normal s) = Unit
IsNormal _ = ⊥

-- Not the root: what can stand behind another component.
abbrev pub IsRootless : Component → Type 0
IsRootless root_dir = ⊥
IsRootless _ = Unit

pub path_eq_iff : (p q : FilePath) → (path_eq p q ≡ true) ↔ (p ≡ q)
unfolding path_eq
path_eq_iff [] [] = (λ h. refl, λ h. refl)
path_eq_iff [] (d ∷ q) = (λ h. cc, λ h. cc)
path_eq_iff (c ∷ p) [] = (λ h. cc, λ h. cc)
path_eq_iff (c ∷ p) (d ∷ q) = ground (arith, component_eq_iff c d, path_eq_iff p q)

-- An absolute path without `.` and `..`.
abbrev pub IsCleanPath : FilePath → Type 0
IsCleanPath p = (q : FilePath) × (p ≡ root_dir ∷ q) × All IsNormal q
