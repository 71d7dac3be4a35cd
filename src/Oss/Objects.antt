-- ===== src/Oss/Objects.antt =====
-- What the object store holds: an object is put whole, or put together from the parts of an upload.
use scriptorium.Oss.Multipart.{sent}
use scriptorium.Error.{ok, err}
use scriptorium.Oss.Cut.{IsCut, numbers, joined}
use scriptorium.Text.{Text, text_eq, text_eq_iff}
use scriptorium.World.Calls.{Call, Env, Bytes, History, completed_multipart, CompletedPart}
use scriptorium.Base.{
  ℕ, List, Option, none, some, if◌then◌else◌, ◌≡◌, All, ◌++◌, ◌<◌, ◌∷◌, ◌==◌, [], ◌+◌, length, refl,
  ◌&&◌, All-append, suc, All-mono, arith, map, ap, subst, append-nil, sym, ◌∙◌, append_assoc,
}

-- The bytes last sent as the part of that number.
abbrev pub piece : ℕ → List (ℕ × Bytes) → Option Bytes
piece n [] = none
piece n ((m, chunk) ∷ before) = let rest = piece n before in if m == n then some chunk else rest

-- One behind the other, where both are there.
abbrev pub chained : Option Bytes → Option Bytes → Option Bytes
chained (some bytes) (some more) = some (bytes ++ more)
chained _ _ = none

-- The parts of these numbers, one behind the other.
abbrev pub assembled : List ℕ → List (ℕ × Bytes) → Option Bytes
assembled [] parts = some []
assembled (n ∷ ns) parts = chained (piece n parts) (assembled ns parts)

-- The object of a bucket at a key. A request that fails leaves it as it was.
abbrev pub object : Env → Text → Text → History → Option Bytes
object env b k [] = none
object env b k (Call.put_object b' k' bytes content_type label ∷ h) =
    let old = object env b k h in
    if text_eq b' b && text_eq k' k
    then elim (env.put h b' k' bytes) [ ok _ ↦ some bytes | err e ↦ old ]
    else old
object env b k (completed_multipart b' k' u parts ∷ h) =
    let old = object env b k h in
    if text_eq b' b && text_eq k' k
    then elim (env.complete_multipart h k' u parts) [
      | ok _ ↦ assembled (map CompletedPart.part_number parts) (sent u h)
      | err e ↦ old
    ]
    else old
object env b k (_ ∷ h) = object env b k h

chained_nil : (x : Option Bytes) → chained x (some []) ≡ chained (some []) x
chained_nil none = refl
chained_nil (some bytes) = ap some (append-nil bytes)

chained_assoc : (x y z : Option Bytes) → chained x (chained y z) ≡ chained (chained x y) z
chained_assoc none y z = refl
chained_assoc (some a) none z = refl
chained_assoc (some a) (some b) none = refl
chained_assoc (some a) (some b) (some c) = ap some (sym (append_assoc a b c))

assembled-append :
    (ns : List ℕ) (n : ℕ) (parts : List (ℕ × Bytes))
    → assembled (ns ++ (n ∷ [])) parts ≡ chained (assembled ns parts) (piece n parts)
assembled-append [] n parts = chained_nil (piece n parts)
assembled-append (m ∷ ns) n parts =
    ap (chained (piece m parts)) (assembled-append ns n parts)
    ∙ chained_assoc (piece m parts) (assembled ns parts) (piece n parts)

-- A later part with another number changes nothing.
assembled-other :
    (ns : List ℕ) (n : ℕ) (chunk : Bytes) (parts : List (ℕ × Bytes))
    → All (λ m. m < n) ns
    → assembled ns ((n, chunk) ∷ parts) ≡ assembled ns parts
assembled-other [] n chunk parts all = refl
assembled-other (m ∷ ns) n chunk parts (small, all) =
    ap (chained (piece m ((n, chunk) ∷ parts))) (assembled-other ns n chunk parts all)
    ∙ ap (λ x. chained x (assembled ns parts)) (ground (arith, small))

numbers-bounded :
    (size first : ℕ) (new : List (ℕ × Bytes))
    → IsCut size first new
    → All (λ m. m < first + length new) (numbers new)
numbers-bounded size first [] cut = tt
numbers-bounded size first ((n, chunk) ∷ before) (e, _, _, _, cut) =
    (All-append (λ m. m < first + suc (length before)) (numbers before) (n ∷ [])).1 (
      All-mono (λ m. m < first + length before) (λ m. m < first + suc (length before))
          (λ m lt. omega (arith, lt)) (numbers before) (numbers-bounded size first before cut),
      (omega (arith, e), tt),
    )

-- The parts of a cut, taken in the order of their numbers, are what was cut.
pub assembled-joined :
    (size first : ℕ) (new old : List (ℕ × Bytes))
    → IsCut size first new
    → assembled (numbers new) (new ++ old) ≡ some (joined new)
assembled-joined size first [] old cut = refl
assembled-joined size first ((n, chunk) ∷ before) old (e, _, _, _, cut) =
    let parts = (n, chunk) ∷ (before ++ old) in
    let small : All (λ m. m < n) (numbers before) =
      subst (λ k. All (λ m. m < k) (numbers before)) (sym e)
        (numbers-bounded size first before cut) in
    let earlier : assembled (numbers before) parts ≡ some (joined before) =
      assembled-other (numbers before) n chunk (before ++ old) small
      ∙ assembled-joined size first before old cut in
    assembled-append (numbers before) n parts
    ∙ ap (λ x. chained x (piece n parts)) earlier
    ∙ ap (chained (some (joined before))) {x = piece n parts} {y = some chunk} (ground arith)

module _ (env : Env) (b k : Text) where
  pub object-put :
      (bytes : Bytes) (content_type : Text) (label : Option Text) (h : History)
      → env.put h b k bytes ≡ ok tt
      → object env b k (Call.put_object b k bytes content_type label ∷ h) ≡ some bytes
  object-put bytes content_type label h put =
      rw ((text_eq_iff b b).1 refl, (text_eq_iff k k).1 refl, put) refl

  pub object-completed :
      (u : Text) (parts : List CompletedPart) (h : History)
      → env.complete_multipart h k u parts ≡ ok tt
      → object env b k (completed_multipart b k u parts ∷ h)
        ≡ assembled (map CompletedPart.part_number parts) (sent u h)
  object-completed u parts h done =
      rw ((text_eq_iff b b).1 refl, (text_eq_iff k k).1 refl, done) refl
