-- ===== src/Oss/Multipart.antt =====
-- What `stream_parts` sends: the file, cut into parts.
use scriptorium.Text.{Text, text_eq, text_eq_iff}
use mathlib.Core.Path.{ap₂}
use scriptorium.Error.{ok}
use scriptorium.Base.{
  ℕ, ◌≤◌, drop, ◌≡◌, take, ◌++◌, ◌+◌, length, ◌-◌, ap, ◌<◌, arith, suc, ◌∷◌, zero, [], ◌∙◌, List,
  sym, refl, append-nil, is_nil, if◌then◌else◌, length-take, true, Bool-cases, inl, inr, false,
  append_assoc,
}
use scriptorium.FilePath.{FilePath}
use scriptorium.Oss.Upload.{fill}
use scriptorium.World.Calls.{Env, Bytes, History, uploaded_part, read_at}

-- `read` of the file gives what stands at the offset, as much as it likes but never more than there
-- is room for, and something wherever there is room and the file goes on.
pub record IsFile (env : Env) (path : FilePath) (contents : Bytes) : Type 0 where
  pub some_bytes :
      (h : History) (offset room : ℕ)
      → (n : ℕ) × (env.read h path offset room ≡ ok (take n (drop offset contents)))
        × (n ≤ room)
        × (n ≤ length (drop offset contents))
        × ((0 < room) → (0 < length (drop offset contents)) → 0 < n)

take-nil : (n : ℕ) → take {A = ℕ} n [] ≡ []
take-nil zero = refl
take-nil (suc n) = refl

drop-nil : (n : ℕ) → drop {A = ℕ} n [] ≡ []
drop-nil zero = refl
drop-nil (suc n) = refl

take-take-drop : (n m : ℕ) (xs : Bytes) → n ≤ m → take n xs ++ take (m - n) (drop n xs) ≡ take m xs
take-take-drop zero m xs h = ap (λ k. take k xs) (omega arith)
take-take-drop (suc n) zero xs h = absurd (omega arith)
take-take-drop (suc n) (suc m) [] h = take-nil (suc m - suc n)
take-take-drop (suc n) (suc m) (x ∷ xs) h =
    ap (λ ys. x ∷ ys)
      (ap (λ k. take n xs ++ take k (drop n xs)) (omega arith)
        ∙ take-take-drop n m xs (omega arith))

pub drop-drop : (n m : ℕ) (xs : Bytes) → drop m (drop n xs) ≡ drop (n + m) xs
drop-drop zero m xs = ap (λ k. drop k xs) (omega arith)
drop-drop (suc n) m [] = drop-nil m ∙ sym (drop-nil (suc n + m))
drop-drop (suc n) m (x ∷ xs) =
    drop-drop n m xs ∙ ap (λ k. drop k (x ∷ xs)) {x = suc (n + m)} (omega arith)

pub is_nil-lem : (xs : Bytes) → is_nil xs ≡ true → xs ≡ []
is_nil-lem [] h = refl
is_nil-lem (x ∷ xs) h = cc

pub nil_of_length : (xs : Bytes) → length xs ≡ 0 → xs ≡ []
nil_of_length [] h = refl
nil_of_length (x ∷ xs) h = absurd (omega arith)

pub pos_of_is_nil : (xs : Bytes) → is_nil xs ≡ false → 0 < length xs
pos_of_is_nil [] h = cc
pos_of_is_nil (x ∷ xs) h = omega arith

-- What is read and what is left to read make up the buffer.
refill :
    (n m k' offset offset' : ℕ) (contents : Bytes)
    → n ≤ m
    → k' ≡ m - n
    → offset' ≡ offset + n
    → take n (drop offset contents) ++ take k' (drop offset' contents)
      ≡ take m (drop offset contents)
refill n m k' offset offset' contents h e e' =
    ap (λ r. take n (drop offset contents) ++ r)
      (ap₂ (λ a b. take a (drop b contents)) e e'
        ∙ ap (take (m - n)) (sym (drop-drop offset n contents)))
    ∙ take-take-drop n m (drop offset contents) h

-- The parts that a history has sent for an upload, the latest first.
abbrev pub sent : Text → History → List (ℕ × Bytes)
sent u [] = []
sent u (uploaded_part bucket key upload_id n chunk ∷ h) =
    let before = sent u h in if text_eq upload_id u then (n, chunk) ∷ before else before
sent u (_ ∷ h) = sent u h

pub sent-here :
    (bucket key u : Text) (n : ℕ) (chunk : Bytes) (h : History)
    → sent u (uploaded_part bucket key u n chunk ∷ h) ≡ (n, chunk) ∷ sent u h
sent-here bucket key u n chunk h = rw ((text_eq_iff u u).1 refl) refl

-- One round of the inner loop.
fill_step :
    (env : Env) (path : FilePath) (fuel offset room : ℕ) (filled bytes : Bytes) (h : History)
    → env.read h path offset (suc room) ≡ ok bytes
    → fill env (suc fuel) path offset (suc room) filled h ≡ (
        if is_nil bytes
        then (read_at path offset ∷ h, ok filled)
        else fill env fuel path
            (offset + length bytes)
            (suc room - length bytes)
            (filled ++ bytes)
            (read_at path offset ∷ h))
unfolding fill
fill_step env path fuel offset room filled bytes h got = ground (arith, got)

module _ (env : Env) (path : FilePath) (contents : Bytes) (file : IsFile env path contents)
    (u : Text) where
  -- The buffer is filled from the offset, as far as the file goes, however short the reads are.
  pub fill_lem :
      (fuel offset room : ℕ) (filled : Bytes) (h : History)
      → room ≤ fuel
      → ((fill env fuel path offset room filled h).1
          ≡ ok (filled ++ take room (drop offset contents)))
        × (sent u (fill env fuel path offset room filled h).0 ≡ sent u h)
  unfolding fill
  fill_lem zero offset zero filled h le = (ap ok (sym (append-nil filled)), refl)
  fill_lem zero offset (suc room) filled h le = absurd (omega arith)
  fill_lem (suc fuel) offset zero filled h le = (ap ok (sym (append-nil filled)), refl)
  fill_lem (suc fuel) offset (suc room) filled h le =
      let (n, got, small, short, some) = file.some_bytes h offset (suc room) in
      let rest = drop offset contents in
      let bytes = take n rest in
      let len : length bytes ≡ n = omega (arith, length-take n rest) in
      elim (Bool-cases (is_nil bytes)) [
        | inl done ↦
            let none_left : rest ≡ [] =
              nil_of_length rest (ground (arith, some, ap length (is_nil-lem bytes done), len)) in
            rw (fill_step env path fuel offset room filled bytes h got, done)
              (
                ap ok (
                    sym (append-nil filled)
                    ∙ ap (λ r. filled ++ r) (sym (ap (take (suc room)) none_left))),
                refl,
              )
        | inr more ↦
            let ih =
              fill_lem fuel (offset + length bytes) (suc room - length bytes) (filled ++ bytes)
                (read_at path offset ∷ h) (omega (arith, pos_of_is_nil bytes more)) in
            rw (fill_step env path fuel offset room filled bytes h got, more)
              (
                ih.0
                    ∙ ap ok (
                        append_assoc filled bytes _
                        ∙ ap (λ r. filled ++ r)
                            (refill n (suc room) _ offset _ contents small (omega (arith, len))
                              (omega (arith, len)))),
                ih.1,
              )
      ]
