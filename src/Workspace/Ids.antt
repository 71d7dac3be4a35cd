-- ===== src/Workspace/Ids.antt =====
-- `validate_workspace_id` against the rule of the documentation, which speaks of characters.
use scriptorium.Base.{
  ℕ, ◌+◌, ◌≤◌, ◌<◌, ◌≡◌, refl, ap, ◌↔◌, ◌⊎◌, inl, inr, Bool, true, ◌&&◌, [], ◌∷◌, arith, length,
  All, all, all-append, length-append, ◌/◌,
}
use scriptorium.Text.{Text, bytes, utf8_char}
use scriptorium.Error.{ok, err, invalid_workspace_id}
use scriptorium.Workspace.{id_byte, validate_workspace_id}

-- `[A-Za-z0-9_-]`
abbrev pub IsIdChar : ℕ → Type 0
IsIdChar c =
    ((b'0' ≤ c) × (c ≤ b'9'))
    ⊎ (((b'A' ≤ c) × (c ≤ b'Z')) ⊎ (((b'a' ≤ c) × (c ≤ b'z')) ⊎ ((c ≡ b'-') ⊎ (c ≡ b'_'))))

-- `[A-Za-z0-9_-]{1,128}`
pub record IsWorkspaceId (id : Text) : Type 0 where
  pub nonempty : 1 ≤ length id
  pub short : length id ≤ 128
  pub chars : All IsIdChar id

id_byte-IsIdChar : (c : ℕ) → (id_byte c ≡ true) ↔ IsIdChar c
unfolding id_byte
id_byte-IsIdChar c = (λ h. grind arith, λ h. ground arith)

id_byte-lt : (c : ℕ) → id_byte c ≡ true → c < 128
unfolding id_byte
id_byte-lt c h = ground arith

-- The bytes of a character pass the test just when it is one byte that passes.
utf8_char-id_byte : (c : ℕ) → all id_byte (utf8_char c) ≡ true → (c < 128) × (id_byte c ≡ true)
unfolding utf8_char
utf8_char-id_byte c h = ground (
  arith,
  id_byte-lt (0xc0 + c / 64),
  id_byte-lt (0xe0 + c / 4096),
  id_byte-lt (0xf0 + c / 262144),
)

and_split : (a b : Bool) → (a && b) ≡ true → (a ≡ true) × (b ≡ true)
and_split a b h = ground arith

utf8_char_ascii : (c : ℕ) → c < 128 → utf8_char c ≡ c ∷ []
unfolding utf8_char
utf8_char_ascii c h = ground arith

bytes-IsIdChar :
    (id : Text) → all id_byte (bytes id) ≡ true → All IsIdChar id × (length (bytes id) ≡ length id)
unfolding bytes
bytes-IsIdChar [] h = (tt, refl)
bytes-IsIdChar (c ∷ id) h =
    let p = and_split (all id_byte (utf8_char c)) (all id_byte (bytes id)) (rw all-append at h) in
    let head = utf8_char-id_byte c p.0 in
    let tail = bytes-IsIdChar id p.1 in
    (
      (((id_byte-IsIdChar c).0 head.1, tail.0)),
      (omega (
        arith,
        length-append (utf8_char c) (bytes id),
        ap length (utf8_char_ascii c head.0),
        tail.1,
      )),
    )

bytes_of_IsIdChar : (id : Text) → All IsIdChar id → bytes id ≡ id
unfolding bytes
bytes_of_IsIdChar [] h = refl
bytes_of_IsIdChar (c ∷ id) h =
    let small = id_byte-lt c ((id_byte-IsIdChar c).1 h.0) in
    rw (utf8_char_ascii c small, bytes_of_IsIdChar id h.1)

all-id_byte : (id : Text) → All IsIdChar id → all id_byte id ≡ true
all-id_byte [] h = refl
all-id_byte (c ∷ id) h = ground (arith, (id_byte-IsIdChar c).1 h.0, all-id_byte id h.1)

pub validated :
    (id : Text)
    → (validate_workspace_id id ≡ ok tt) ⊎ (validate_workspace_id id ≡ err invalid_workspace_id)
unfolding validate_workspace_id
validated id = ground arith

IsWorkspaceId-of_ok : (id : Text) → validate_workspace_id id ≡ ok tt → IsWorkspaceId id
unfolding validate_workspace_id
IsWorkspaceId-of_ok [] h = cc
IsWorkspaceId-of_ok (c ∷ id) h =
    let passed : all id_byte (bytes (c ∷ id)) ≡ true = ground arith in
    let chars = bytes-IsIdChar (c ∷ id) passed in
    record { nonempty = omega arith; short = ground (arith, chars.1); chars = chars.0 }

ok_of_IsWorkspaceId : (id : Text) → IsWorkspaceId id → validate_workspace_id id ≡ ok tt
unfolding validate_workspace_id
ok_of_IsWorkspaceId [] v = absurd (omega (arith, v.nonempty))
ok_of_IsWorkspaceId (c ∷ id) v =
    rw (bytes_of_IsIdChar (c ∷ id) v.chars) (ground (arith, v.short, all-id_byte (c ∷ id) v.chars))

-- An id is accepted just when it has 1 to 128 characters, all of them in `[A-Za-z0-9_-]`, and
-- else refused with `InvalidWorkspaceId`.
pub validate_workspace_id-IsWorkspaceId :
    (id : Text)
    → ((validate_workspace_id id ≡ ok tt) ↔ IsWorkspaceId id)
      × ((validate_workspace_id id ≡ err invalid_workspace_id) ↔ (¬ IsWorkspaceId id))
validate_workspace_id-IsWorkspaceId id = (
  (IsWorkspaceId-of_ok id, ok_of_IsWorkspaceId id),
  (
    λ bad v. absurd (ground (arith, bad, ok_of_IsWorkspaceId id v)),
    λ bad. elim (validated id) [
      | inl good ↦ absurd (bad (IsWorkspaceId-of_ok id good))
      | inr e ↦ e
    ],
  ),
)
