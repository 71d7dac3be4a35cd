-- ===== src/FilePath.antt =====
-- `std::path`: a path is the list of its components, as `Path::components` yields them. Two paths
-- that differ in repeated slashes, a trailing slash or inner `.` are one path here, as they are
-- for `Path::starts_with`, `==` and the file system.
pub mod Laws
pub mod Parse
use scriptorium.Base.{
  ◌≡◌, refl, Bool, true, false, List, [], ◌∷◌, ◌++◌, Option, none, some, ◌==◌, if◌then◌else◌, ◌&&◌,
  is_nil, any,
}
use scriptorium.Text.{Text, codes, text_eq}

-- `normal` holds a name, as `Component::Normal` does: not empty, without `/`, and neither `.` nor `..`,
-- which are `cur_dir` and `parent_dir`.
pub data Component : Type 0 where
  root_dir cur_dir parent_dir : Component
  normal : Text → Component

abbrev pub FilePath : Type 0
FilePath = List Component

unfoldable pub component_eq : Component → Component → Bool
component_eq root_dir root_dir = true
component_eq cur_dir cur_dir = true
component_eq parent_dir parent_dir = true
component_eq (normal s) (normal t) = text_eq s t
component_eq _ _ = false

-- The texts between slashes.
unfoldable pub split_slash : Text → Text → List Text
split_slash acc [] = acc ∷ []
split_slash acc (c ∷ s) =
    let next = split_slash [] s in
    let longer = split_slash (acc ++ c ∷ []) s in if c == b'/' then acc ∷ next else longer

-- A piece that is empty, or `.` where the path does not begin with it, is no component.
pub later_components : List Text → List Component
later_components [] = []
later_components (p ∷ ps) =
    let rest = later_components ps in
    if is_nil p
    then rest
    else if text_eq p (codes ".")
    then rest
    else if text_eq p (codes "..")
    then parent_dir ∷ rest
    else normal p ∷ rest

pub first_components : List Text → List Component
unfolding later_components
first_components [] = []
first_components (p ∷ ps) =
    if text_eq p (codes ".") then cur_dir ∷ later_components ps else later_components (p ∷ ps)

-- `Path::new(s).components()`
unfoldable pub components : Text → FilePath
unfolding split_slash first_components later_components text_eq
components [] = []
components (c ∷ s) =
    if c == b'/'
    then root_dir ∷ later_components (split_slash [] s)
    else first_components (split_slash [] (c ∷ s))

-- `Path::is_absolute`
unfoldable pub is_absolute : FilePath → Bool
is_absolute (root_dir ∷ p) = true
is_absolute _ = false

-- `Path::join`: an absolute path replaces the base, and a leading `.` is inner after the join.
unfoldable pub join : FilePath → FilePath → FilePath
join base (root_dir ∷ p) = root_dir ∷ p
join base (cur_dir ∷ p) = base ++ p
join base p = base ++ p

-- `Path::starts_with`
unfoldable pub starts_with : FilePath → FilePath → Bool
unfolding component_eq
starts_with p [] = true
starts_with [] (b ∷ base) = false
starts_with (c ∷ p) (b ∷ base) = component_eq c b && starts_with p base

-- `Path::strip_prefix`
unfoldable pub strip_prefix : FilePath → FilePath → Option FilePath
unfolding component_eq
strip_prefix p [] = some p
strip_prefix [] (b ∷ base) = none
strip_prefix (c ∷ p) (b ∷ base) = if component_eq c b then strip_prefix p base else none

abbrev pub last : FilePath → Option Component
last [] = none
last (c ∷ []) = some c
last (c ∷ d ∷ p) = last (d ∷ p)

abbrev pub init : FilePath → FilePath
init [] = []
init (c ∷ []) = []
init (c ∷ d ∷ p) = c ∷ init (d ∷ p)

-- `Path::parent`
unfoldable pub parent : FilePath → Option FilePath
parent p = elim (last p) [ none ↦ none | some root_dir ↦ none | some _ ↦ some (init p) ]

-- `Path::file_name`
unfoldable pub file_name : FilePath → Option Text
file_name p = elim (last p) [ some (normal s) ↦ some s | _ ↦ none ]

-- `rsplitn(2, '.')` of a file name: what stands after the last dot, and what stands before it.
pub split_last_dot : Text → Option (Text × Text)
split_last_dot [] = none
split_last_dot (c ∷ s) = elim (split_last_dot s) [
  | some (before, after) ↦ some (c ∷ before, after)
  | none ↦ if c == b'.' then some ([], s) else none
]

-- `Path::extension`: a name that begins with its only dot has none.
unfoldable pub extension : FilePath → Option Text
unfolding file_name split_last_dot
extension p = elim (file_name p) [
  | none ↦ none
  | some name ↦ elim (split_last_dot name) [
    | none ↦ none
    | some (before, after) ↦ if is_nil before then none else some after
  ]
]

-- `==` of paths
unfoldable pub path_eq : FilePath → FilePath → Bool
unfolding component_eq
path_eq [] [] = true
path_eq [] (d ∷ q) = false
path_eq (c ∷ p) [] = false
path_eq (c ∷ p) (d ∷ q) = component_eq c d && path_eq p q

-- Whether some component is `..`.
abbrev pub has_parent_dir : FilePath → Bool
has_parent_dir = any (λ c. component_eq c parent_dir)
