-- ===== src/Oss/Segments.antt =====
-- What a key looks like, and that ids cannot change its shape.
use scriptorium.FilePath.Parse.{split_slash_free}
use scriptorium.FilePath.{split_slash}
use scriptorium.Oss.Date.{
  ymd_from_unix, format_date, Ymd, ymd_from_unix-eq, civil_from_days, seconds_per_day,
}
use scriptorium.Text.{Text, chars_of_digits, digits_fuel, decimal, hex, pad_zeros, codes}
use scriptorium.Base.{
  ℕ, ◌≡◌, arith, All, true, map, length, max, ◌∷◌, ◌↔◌, [], ◌≢◌, refl, subst, length-map, All-mono,
  replicate, ◌++◌, List, suc, All-append, ◌-◌, append-nil, ◌/◌, ◌<◌, append_assoc, zero, ◌≤◌, ◌∙◌,
  ◌%◌, ap, sym, append_cancel_left,
}
use scriptorium.Oss.Key.{
  is_key_char, sanitize_char, sanitize_segment, nonce, build_key_at, nanos_per_second,
}

abbrev pub IsKeyChar : ℕ → Type 0
IsKeyChar c = is_key_char c ≡ true

sanitize_char-IsKeyChar : (c : ℕ) → IsKeyChar (sanitize_char c)
sanitize_char-IsKeyChar c = ground arith

map-IsKeyChar : (s : Text) → All IsKeyChar (map sanitize_char s)
map-IsKeyChar [] = tt
map-IsKeyChar (c ∷ s) = (sanitize_char-IsKeyChar c, map-IsKeyChar s)

map_id : (s : Text) → All IsKeyChar s → map sanitize_char s ≡ s
map_id [] h = refl
map_id (c ∷ s) h = ground (arith, map_id s h.1)

id_of_map : (s : Text) → map sanitize_char s ≡ s → All IsKeyChar s
id_of_map s e = subst (All IsKeyChar) e (map-IsKeyChar s)

-- A sanitised segment holds only `[A-Za-z0-9._-]`; it has one character for each of the input, or
-- one for an empty input; and it is the input just when that is such a text and not empty.
sanitize_segment-IsKeyChar :
    (s : Text)
    → All IsKeyChar (sanitize_segment s)
      × (length (sanitize_segment s) ≡ max 1 (length s))
      × ((sanitize_segment s ≡ s) ↔ (All IsKeyChar s × (s ≢ [])))
unfolding sanitize_segment
sanitize_segment-IsKeyChar [] = ((refl, tt), omega arith, (λ e. cc, λ h. absurd (h.1 refl)))
sanitize_segment-IsKeyChar (c ∷ s) = (
  map-IsKeyChar (c ∷ s),
  omega (arith, length-map sanitize_char (c ∷ s)),
  (λ e. (id_of_map (c ∷ s) e, λ q. cc), λ h. map_id (c ∷ s) h.0),
)

abbrev SlashFree : Text → Type 0
SlashFree = All (λ c. c ≢ b'/')

key_char-ne-slash : (c : ℕ) → IsKeyChar c → c ≢ b'/'
key_char-ne-slash c h = ground arith

sanitize_segment-SlashFree : (s : Text) → SlashFree (sanitize_segment s)
sanitize_segment-SlashFree s =
    All-mono IsKeyChar _ key_char-ne-slash (sanitize_segment s) (sanitize_segment-IsKeyChar s).0

chars_of_digits-SlashFree : (ds : List ℕ) → All (λ d. d < 16) ds → SlashFree (chars_of_digits ds)
unfolding chars_of_digits
chars_of_digits-SlashFree [] h = tt
chars_of_digits-SlashFree (d ∷ ds) h = (ground arith, chars_of_digits-SlashFree ds h.1)

digits_fuel-lt :
    (f base n : ℕ) (acc : List ℕ)
    → 0 < base
    → base ≤ 16
    → All (λ d. d < 16) acc
    → All (λ d. d < 16) (digits_fuel f base n acc)
unfolding digits_fuel
digits_fuel-lt zero base n acc p q h = h
digits_fuel-lt (suc f) base n acc p q h =
    ground (arith, digits_fuel-lt f base (n / base) (n % base ∷ acc) p q (omega arith, h))

decimal-SlashFree : (n : ℕ) → SlashFree (decimal n)
unfolding decimal
decimal-SlashFree n =
    chars_of_digits-SlashFree _ (digits_fuel-lt (suc n) 10 n [] (omega arith) (omega arith) tt)

hex-SlashFree : (n : ℕ) → SlashFree (hex n)
unfolding hex
hex-SlashFree n =
    chars_of_digits-SlashFree _ (digits_fuel-lt (suc n) 16 n [] (omega arith) (omega arith) tt)

zeros-SlashFree : (n : ℕ) → SlashFree (replicate n b'0')
zeros-SlashFree zero = tt
zeros-SlashFree (suc n) = (omega arith, zeros-SlashFree n)

append-SlashFree : (s t : Text) → SlashFree s → SlashFree t → SlashFree (s ++ t)
append-SlashFree s t hs ht = (All-append _ s t).1 (hs, ht)

pad_zeros-SlashFree : (w : ℕ) (s : Text) → SlashFree s → SlashFree (pad_zeros w s)
pad_zeros-SlashFree w s h = append-SlashFree _ s (zeros-SlashFree (w - length s)) h

padded-SlashFree : (w n : ℕ) → SlashFree (pad_zeros w (decimal n))
padded-SlashFree w n = pad_zeros-SlashFree w (decimal n) (decimal-SlashFree n)

dash-SlashFree : (s : Text) → SlashFree s → SlashFree (codes "-" ++ s)
dash-SlashFree s h = (omega arith, h)

format_date-SlashFree : (t : Ymd) → SlashFree (format_date t)
unfolding format_date
format_date-SlashFree t =
    append-SlashFree (pad_zeros 4 (decimal t.year)) _ (padded-SlashFree 4 t.year) (
      dash-SlashFree _ (
        append-SlashFree (pad_zeros 2 (decimal t.month)) _ (padded-SlashFree 2 t.month)
          (dash-SlashFree (pad_zeros 2 (decimal t.day)) (padded-SlashFree 2 t.day))))

ymd_from_unix-SlashFree : (secs : ℕ) → SlashFree (ymd_from_unix secs)
ymd_from_unix-SlashFree secs =
    subst SlashFree (sym (ymd_from_unix-eq secs))
      (format_date-SlashFree (civil_from_days (secs / seconds_per_day)))

nonce-SlashFree : (nanos : ℕ) → SlashFree (nonce nanos)
unfolding nonce
nonce-SlashFree nanos = pad_zeros-SlashFree 8 _ (hex-SlashFree _)

split_slash-append :
    (acc s rest : Text)
    → SlashFree s
    → split_slash acc (s ++ (codes "/" ++ rest)) ≡ (acc ++ s) ∷ split_slash [] rest
unfolding split_slash
split_slash-append acc [] rest h = rw append-nil
split_slash-append acc (c ∷ s) rest h =
    ground (arith, split_slash-append (acc ++ c ∷ []) s rest h.1, append_assoc acc (c ∷ []) s)

-- Behind its prefix a key has four pieces between slashes, whatever the ids hold: the tenant, the
-- workspace, the date, and the nonce with the basename.
pub build_key_at_pieces :
    (prefix tenant_id workspace_id basename : Text) (nanos : ℕ)
    → (rest : Text) × (build_key_at prefix tenant_id workspace_id basename nanos ≡ prefix ++ rest)
      × (split_slash [] rest
          ≡ sanitize_segment tenant_id
            ∷ sanitize_segment workspace_id
            ∷ ymd_from_unix (nanos / nanos_per_second)
            ∷ (nonce nanos ++ (codes "-" ++ sanitize_segment basename))
            ∷ [])
unfolding build_key_at
build_key_at_pieces prefix tenant_id workspace_id basename nanos = (
  _,
  refl,
  split_slash-append [] (sanitize_segment tenant_id) _ (sanitize_segment-SlashFree tenant_id)
      ∙ ap (λ ps. sanitize_segment tenant_id ∷ ps)
          (split_slash-append [] (sanitize_segment workspace_id) _
              (sanitize_segment-SlashFree workspace_id)
            ∙ ap (λ ps. sanitize_segment workspace_id ∷ ps)
                (split_slash-append [] (ymd_from_unix (nanos / nanos_per_second)) _
                    (ymd_from_unix-SlashFree _)
                  ∙ ap (λ ps. ymd_from_unix (nanos / nanos_per_second) ∷ ps)
                      (split_slash_free [] _ (
                        append-SlashFree (nonce nanos) _ (nonce-SlashFree nanos) (
                          dash-SlashFree (sanitize_segment basename)
                            (sanitize_segment-SlashFree basename)))))),
)

-- Two keys with one prefix are equal only for ids of one sanitised form, and of one day.
pub build_key_at_separates :
    (prefix tenant_id tenant_id' workspace_id workspace_id' basename basename' : Text)
    (nanos nanos' : ℕ)
    → build_key_at prefix tenant_id workspace_id basename nanos
      ≡ build_key_at prefix tenant_id' workspace_id' basename' nanos'
    → (sanitize_segment tenant_id ≡ sanitize_segment tenant_id')
      × (sanitize_segment workspace_id ≡ sanitize_segment workspace_id')
      × (ymd_from_unix (nanos / nanos_per_second) ≡ ymd_from_unix (nanos' / nanos_per_second))
build_key_at_separates prefix tenant_id tenant_id' workspace_id workspace_id' basename basename'
      nanos nanos' e =
    let (r, k, p) = build_key_at_pieces prefix tenant_id workspace_id basename nanos in
    let (r', k', p') = build_key_at_pieces prefix tenant_id' workspace_id' basename' nanos' in
    let same : r ≡ r' = append_cancel_left prefix r r' (sym k ∙ e ∙ k') in
    let pieces = sym p ∙ ap (split_slash []) same ∙ p' in
    (ground (arith, pieces), ground (arith, pieces), ground (arith, pieces))
