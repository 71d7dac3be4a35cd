-- ===== src/Oss/Cut.antt =====
-- Lists of parts as cuts of a file, and what a run of `send_parts` is to give.
use scriptorium.Text.{Text}
use scriptorium.World.Calls.{Bytes, CompletedPart, History}
use scriptorium.Base.{
  ◌∷◌, ◌≤◌, ◌<◌, ◌≡◌, ◌++◌, ◌+◌, List, ℕ, [], length, Option, All, sym, arith, take, refl,
  append-nil, length-append, map, suc, append_assoc, All-append, ap, ◌∙◌, zero, ◌*◌, ◌-◌, subst,
}
use scriptorium.Error.{ok, Result, Error}
use scriptorium.Oss.Multipart.{sent}

-- The parts, the latest first: their numbers in the order of sending, and their bytes together.
abbrev pub numbers : List (ℕ × Bytes) → List ℕ
numbers [] = []
numbers ((n, chunk) ∷ before) = numbers before ++ (n ∷ [])

abbrev pub joined : List (ℕ × Bytes) → Bytes
joined [] = []
joined ((n, chunk) ∷ before) = joined before ++ chunk

-- Parts, the latest first, numbered on from `first`: none is empty or larger than a part may be, and
-- all but the latest are of exactly that size.
abbrev pub IsCut : ℕ → ℕ → List (ℕ × Bytes) → Type 0
IsCut size first [] = Unit
IsCut size first ((n, chunk) ∷ before) =
    (n ≡ first + length before)
    × (0 < length chunk)
    × (length chunk ≤ size)
    × All (λ p. length p.1 ≡ size) before
    × IsCut size first before

-- The numbers from 1 to the given one.
abbrev pub one_to : ℕ → List ℕ
one_to zero = []
one_to (suc n) = one_to n ++ (suc n ∷ [])

pub numbers-one_to :
    (size : ℕ) (parts : List (ℕ × Bytes))
    → IsCut size 1 parts
    → numbers parts ≡ one_to (length parts)
numbers-one_to size [] cut = refl
numbers-one_to size ((n, chunk) ∷ before) (e, _, _, _, cut) =
    ap (λ k. numbers before ++ (k ∷ [])) (e ∙ omega arith)
    ∙ ap (λ r. r ++ (suc (length before) ∷ [])) (numbers-one_to size before cut)

numbers-snoc :
    (parts : List (ℕ × Bytes)) (n : ℕ) (chunk : Bytes)
    → numbers (parts ++ ((n, chunk) ∷ [])) ≡ n ∷ numbers parts
numbers-snoc [] n chunk = refl
numbers-snoc ((k, c) ∷ parts) n chunk = rw (numbers-snoc parts n chunk) refl

joined-snoc :
    (parts : List (ℕ × Bytes)) (n : ℕ) (chunk : Bytes)
    → joined (parts ++ ((n, chunk) ∷ [])) ≡ chunk ++ joined parts
joined-snoc [] n chunk = sym (append-nil chunk)
joined-snoc ((k, c) ∷ parts) n chunk =
    rw (joined-snoc parts n chunk) (append_assoc chunk (joined parts) c)

IsCut-snoc :
    (size first : ℕ) (parts : List (ℕ × Bytes)) (chunk : Bytes)
    → 0 < size
    → length chunk ≡ size
    → IsCut size (first + 1) parts
    → IsCut size first (parts ++ ((first, chunk) ∷ []))
IsCut-snoc size first [] chunk p full cut =
    (omega arith, omega (arith, p, full), omega (arith, full), tt, tt)
IsCut-snoc size first ((k, c) ∷ parts) chunk p full (e, some, small, all, cut) = (
  omega (arith, e, length-append parts ((first, chunk) ∷ [])),
  some,
  small,
  (All-append (λ q. length q.1 ≡ size) parts ((first, chunk) ∷ [])).1 (all, (full, tt)),
  IsCut-snoc size first parts chunk p full cut,
)

-- The part numbers of S3 go from 1 to 10000.
abbrev pub max_parts : ℕ
max_parts = 10000

abbrev pub IsPartNumber : ℕ → Type 0
IsPartNumber n = (1 ≤ n) × (n ≤ max_parts)

-- What a run of the loop gives: `rest` is sent, in parts numbered from `n`.
abbrev pub Sends :
    Text
    → ℕ
    → ℕ
    → Bytes
    → List CompletedPart
    → Bytes
    → History
    → History × Result Error (List CompletedPart × Bytes)
    → Type 0
Sends u size n rest done hashed h s =
    (parts : List CompletedPart) × (new : List (ℕ × Bytes)) × (s.1 ≡ ok (parts, hashed ++ rest))
    × (sent u s.0 ≡ new ++ sent u h)
    × (joined new ≡ rest)
    × IsCut size n new
    × (n + length new ≤ 1 + max_parts)
    × (map CompletedPart.part_number parts ≡ map CompletedPart.part_number done ++ numbers new)

pub take_all : (m : ℕ) (xs : Bytes) → length xs ≤ m → take m xs ≡ xs
take_all zero [] h = refl
take_all zero (x ∷ xs) h = absurd (omega arith)
take_all (suc m) [] h = refl
take_all (suc m) (x ∷ xs) h = ap (λ r. x ∷ r) (take_all m xs (omega arith))

pub part_numbers-snoc :
    (done : List CompletedPart) (n : ℕ) (e_tag : Option Text)
    → map CompletedPart.part_number (done ++ (record { part_number = n; e_tag = e_tag } ∷ []))
      ≡ map CompletedPart.part_number done ++ (n ∷ [])
part_numbers-snoc [] n e_tag = refl
part_numbers-snoc (p ∷ done) n e_tag = ap (λ r. p.part_number ∷ r) (part_numbers-snoc done n e_tag)

-- A full part before those of a run is a run.
pub Sends-snoc :
    (u : Text) (size n : ℕ) (rest rest' chunk : Bytes) (done : List CompletedPart)
    (e_tag : Option Text) (hashed : Bytes) (h h' : History)
    (s : History × Result Error (List CompletedPart × Bytes))
    → 0 < size
    → length chunk ≡ size
    → chunk ++ rest' ≡ rest
    → sent u h' ≡ (n, chunk) ∷ sent u h
    → Sends u size
        (n + 1)
        rest'
        (done ++ (record { part_number = n; e_tag = e_tag } ∷ []))
        (hashed ++ chunk)
        h'
        s
    → Sends u size n rest done hashed h s
Sends-snoc u size n rest rest' chunk done e_tag hashed h h' s p full cut before
      (parts, new, e, e_sent, e_joined, good, few, e_numbers) =
    (
      parts,
      new ++ ((n, chunk) ∷ []),
      e ∙ ap (λ r. ok (parts, r)) (append_assoc hashed chunk rest' ∙ ap (λ r. hashed ++ r) cut),
      e_sent ∙ ap (λ r. new ++ r) before ∙ sym (append_assoc new ((n, chunk) ∷ []) (sent u h)),
      joined-snoc new n chunk ∙ ap (λ r. chunk ++ r) e_joined ∙ cut,
      IsCut-snoc size n new chunk p full good,
      omega (arith, few, length-append new ((n, chunk) ∷ [])),
      e_numbers
          ∙ ap (λ r. r ++ numbers new) (part_numbers-snoc done n e_tag)
          ∙ append_assoc (map CompletedPart.part_number done) (n ∷ []) (numbers new)
          ∙ ap (λ r. map CompletedPart.part_number done ++ r) (sym (numbers-snoc new n chunk)),
    )

-- What is left over needs a part of the size, and then one part fewer.
pub parts_left :
    (left size len : ℕ) → len ≤ left * size → 0 < len → (left' : ℕ) × (left ≡ suc left')
parts_left zero size len fits some_left = absurd (omega (arith, fits, some_left))
parts_left (suc left) size len fits some_left = (left, refl)

pub fits_later :
    (left left' size len len' : ℕ)
    → len ≤ left * size
    → left ≡ suc left'
    → len' ≡ len - size
    → len' ≤ left' * size
fits_later left left' size len len' fits e e' =
    let fits' : len ≤ suc left' * size = subst (λ k. len ≤ k * size) e fits in
    omega (arith, fits', e')
