-- ===== src/Text.antt =====
-- `str` and `String`: a text is the list of its characters' code points. What the standard
-- library does with texts in the sources: UTF-8 length, equality, case classes, `format!` of
-- numbers, `trim`.
use Prim.Native.Char.{code}
use scriptorium.Base.{
  ℕ, zero, suc, ◌+◌, ◌-◌, ◌/◌, ◌%◌, ◌≡◌, refl, ◌↔◌, String, Bool, true, false, ◌&&◌, ◌||◌, List, [],
  ◌∷◌, ◌++◌, arith, ltb, leb, ◌==◌, if◌then◌else◌, length, replicate,
}

abbrev pub Text : Type 0
Text = List ℕ

-- A string literal of the source.
abbrev pub codes : String → Text
codes String.[] = []
codes (String.◌∷◌ c s) = code c ∷ codes s

unfoldable pub text_eq : Text → Text → Bool
text_eq [] [] = true
text_eq [] (d ∷ t) = false
text_eq (c ∷ s) [] = false
text_eq (c ∷ s) (d ∷ t) = c == d && text_eq s t

pub text_eq_iff : (s t : Text) → (text_eq s t ≡ true) ↔ (s ≡ t)
unfolding text_eq
text_eq_iff [] [] = (λ h. refl, λ h. refl)
text_eq_iff [] (d ∷ t) = (λ h. cc, λ h. cc)
text_eq_iff (c ∷ s) [] = (λ h. cc, λ h. cc)
text_eq_iff (c ∷ s) (d ∷ t) = ground (arith, text_eq_iff s t)

-- `char::encode_utf8`
unfoldable pub utf8_char : ℕ → List ℕ
utf8_char c =
    if ltb c 0x80
    then c ∷ []
    else if ltb c 0x800
    then (0xc0 + c / 64) ∷ (0x80 + c % 64) ∷ []
    else if ltb c 0x10000
    then (0xe0 + c / 4096) ∷ (0x80 + c / 64 % 64) ∷ (0x80 + c % 64) ∷ []
    else (0xf0 + c / 262144) ∷ (0x80 + c / 4096 % 64) ∷ (0x80 + c / 64 % 64) ∷ (0x80 + c % 64) ∷ []

-- `str::bytes`
unfoldable pub bytes : Text → List ℕ
unfolding utf8_char
bytes [] = []
bytes (c ∷ s) = utf8_char c ++ bytes s

-- `is_ascii_alphanumeric`, of `u8` and of `char`
abbrev pub is_ascii_alphanumeric : ℕ → Bool
is_ascii_alphanumeric c =
    leb b'0' c && leb c b'9' || leb b'A' c && leb c b'Z' || leb b'a' c && leb c b'z'

-- `char::is_whitespace`, as far as ASCII goes.
-- `char::is_whitespace`, the Unicode property White_Space
abbrev pub is_white_space : ℕ → Bool
is_white_space c =
    (leb 9 c && leb c 13)
    || c == 32
    || c == 0x85
    || c == 0xa0
    || c == 0x1680
    || (leb 0x2000 c && leb c 0x200a)
    || c == 0x2028
    || c == 0x2029
    || c == 0x202f
    || c == 0x205f
    || c == 0x3000

-- The digits of a number in a base of at least 2, most significant first. The fuel is the number
-- and one more, and each round divides.
unfoldable pub digits_fuel : ℕ → ℕ → ℕ → List ℕ → List ℕ
digits_fuel zero base n acc = acc
digits_fuel (suc f) base n acc =
    let rest = digits_fuel f base (n / base) (n % base ∷ acc) in
    if ltb n base then n ∷ acc else rest

abbrev pub digit_char : ℕ → ℕ
digit_char d = if ltb d 10 then b'0' + d else b'a' + (d - 10)

unfoldable pub chars_of_digits : List ℕ → Text
chars_of_digits [] = []
chars_of_digits (d ∷ ds) = digit_char d ∷ chars_of_digits ds

-- `{n}` and `{n:x}`
unfoldable pub decimal : ℕ → Text
unfolding digits_fuel chars_of_digits
decimal n = chars_of_digits (digits_fuel (suc n) 10 n [])

unfoldable pub hex : ℕ → Text
unfolding digits_fuel chars_of_digits
hex n = chars_of_digits (digits_fuel (suc n) 16 n [])

-- `{n:0w}` and `{n:0wx}`
abbrev pub pad_zeros : ℕ → Text → Text
pad_zeros w s = replicate (w - length s) b'0' ++ s
