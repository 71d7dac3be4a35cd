-- ===== src/Fetch/Ranges.antt =====
-- The refused addresses as ranges of numbers.
use scriptorium.Base.Table.{holds_below, same_eq, same, holds_below-at}
use scriptorium.World.Calls.{v4, v6, IpAddr}
use scriptorium.Fetch.Address.{is_disallowed, zeros}
use Prim.Native.Nat.{bit_and}
use scriptorium.Base.{
  ◌*◌, ℕ, ◌<◌, ◌≡◌, refl, Bool, true, false, ◌&&◌, arith, leb, ◌==◌, List, ◌∷◌, ◌||◌, [], ◌+◌,
}

cgnat_table : holds_below 256 (λ b. same (bit_and b 0xc0 == 64) (leb 64 b && leb b 127)) ≡ true
unfolding holds_below same
cgnat_table = refl

ula_table :
    holds_below 65536 (λ s. same (bit_and s 0xfe00 == 0xfc00) (leb 0xfc00 s && leb s 0xfdff)) ≡ true
unfolding holds_below same
ula_table = refl

link_local_table :
    holds_below 65536 (λ s. same (bit_and s 0xffc0 == 0xfe80) (leb 0xfe80 s && leb s 0xfebf)) ≡ true
unfolding holds_below same
link_local_table = refl

multicast_table :
    holds_below 65536 (λ s. same (bit_and s 0xff00 == 0xff00) (leb 0xff00 s && leb s 0xffff)) ≡ true
unfolding holds_below same
multicast_table = refl

-- An IPv4 address as a number of 32 bits.
abbrev pub number_v4 : ℕ → ℕ → ℕ → ℕ → ℕ
number_v4 a b c d = ((a * 256 + b) * 256 + c) * 256 + d

abbrev pub in_range : ℕ → ℕ → ℕ → Bool
in_range first last x = leb first x && leb x last

abbrev pub in_some : List (ℕ × ℕ) → ℕ → Bool
in_some [] x = false
in_some ((first, last) ∷ rs) x = in_range first last x || in_some rs x

-- First and last address: 127/8, 10/8, 172.16/12, 192.168/16, 169.254/16, 255.255.255.255,
-- 192.0.2/24, 198.51.100/24, 203.0.113/24, 100.64/10 and 0/8.
abbrev pub blocked_v4 : List (ℕ × ℕ)
blocked_v4 =
    (0x7f000000, 0x7fffffff)
    ∷ (0x0a000000, 0x0affffff)
    ∷ (0xac100000, 0xac1fffff)
    ∷ (0xc0a80000, 0xc0a8ffff)
    ∷ (0xa9fe0000, 0xa9feffff)
    ∷ (0xffffffff, 0xffffffff)
    ∷ (0xc0000200, 0xc00002ff)
    ∷ (0xc6336400, 0xc63364ff)
    ∷ (0xcb007100, 0xcb0071ff)
    ∷ (0x64400000, 0x647fffff)
    ∷ (0x00000000, 0x00ffffff)
    ∷ []

or_assoc : (a b c : Bool) → (a || b || c) ≡ (a || (b || c))
or_assoc a b c = ground arith

or_false : (a : Bool) → (a || false) ≡ a
or_false a = ground arith

regroup :
    (z p q r s t : Bool)
    → (z && p || z && q || r || s || t) ≡ (z && (p || q) || (r || (s || (t || false))))
regroup z p q r s t = ground arith

cgnat_second : (b : ℕ) → b < 256 → (bit_and b 0xc0 == 64) ≡ (leb 64 b && leb b 127)
cgnat_second b h = same_eq _ _ (holds_below-at 256 _ b cgnat_table h)

-- What is to be refused.
abbrev pub is_blocked : IpAddr → Bool
is_blocked (v4 a b c d) = in_some blocked_v4 (number_v4 a b c d)
is_blocked (v6 a b c d e f g i) =
    zeros a b c d e f g && (i == 1 || i == 0)
    || in_some ((0xff00, 0xffff) ∷ (0xfc00, 0xfdff) ∷ (0xfe80, 0xfebf) ∷ []) a

module _ (a b c d : ℕ) (ha : a < 256) (hb : b < 256) (hc : c < 256) (hd : d < 256) where
  head_range :
      (k : ℕ) → (a == k) ≡ in_range (k * 16777216) (k * 16777216 + 16777215) (number_v4 a b c d)
  head_range k = ground arith

  two_range :
      (j k : ℕ)
      → k < 256
      → (a == j && b == k)
        ≡ in_range (j * 16777216 + k * 65536) (j * 16777216 + k * 65536 + 65535) (number_v4 a b c d)
  two_range j k h = ground arith

  span_range :
      (j k l : ℕ)
      → l < 256
      → (a == j && leb k b && leb b l)
        ≡ in_range (j * 16777216 + k * 65536) (j * 16777216 + l * 65536 + 65535) (number_v4 a b c d)
  span_range j k l h = ground arith

  three_range :
      (j k l : ℕ)
      → k < 256
      → l < 256
      → (a == j && b == k && c == l)
        ≡ in_range
            (j * 16777216 + k * 65536 + l * 256)
            (j * 16777216 + k * 65536 + l * 256 + 255)
            (number_v4 a b c d)
  three_range j k l hk hl = ground arith

  broadcast_range :
      (a == 255 && b == 255 && c == 255 && d == 255)
      ≡ in_range 0xffffffff 0xffffffff (number_v4 a b c d)
  broadcast_range = ground arith

  cgnat_range :
      (a == 100 && bit_and b 0xc0 == 64) ≡ in_range 0x64400000 0x647fffff (number_v4 a b c d)
  cgnat_range = rw (cgnat_second b hb) (ground arith)

  unspecified_zero :
      (r x : Bool)
      → (r || (a == 0 && b == 0 && c == 0 && d == 0) || x || a == 0)
        ≡ (r || x || in_range 0 0xffffff (number_v4 a b c d))
  unspecified_zero r x = ground arith

  is_disallowed-in_some_v4 : is_disallowed (v4 a b c d) ≡ in_some blocked_v4 (number_v4 a b c d)
  unfolding is_disallowed
  is_disallowed-in_some_v4 =
      rw
        (
          head_range 127,
          head_range 10,
          span_range 172 16 31 (omega arith),
          two_range 192 168 (omega arith),
          two_range 169 254 (omega arith),
          broadcast_range,
          three_range 192 0 2 (omega arith) (omega arith),
          three_range 198 51 100 (omega arith) (omega arith),
          three_range 203 0 113 (omega arith) (omega arith),
          cgnat_range,
          unspecified_zero,
        )
        (simp (or_assoc, or_false))

module _ (a b c d e f g i : ℕ) (ha : a < 65536) where
  is_disallowed-in_some_v6 : is_disallowed (v6 a b c d e f g i) ≡ is_blocked (v6 a b c d e f g i)
  unfolding is_disallowed
  is_disallowed-in_some_v6 =
      rw
        (
          same_eq _ _ (holds_below-at 65536 _ a multicast_table ha),
          same_eq _ _ (holds_below-at 65536 _ a ula_table ha),
          same_eq _ _ (holds_below-at 65536 _ a link_local_table ha),
        )
        (regroup (zeros a b c d e f g) (i == 1) (i == 0) _ _ _)

-- The octets of an IPv4 address are of 8 bits; of the segments of an IPv6 address, the first counts.
abbrev pub IsInRange : IpAddr → Type 0
IsInRange (v4 a b c d) = (a < 256) × (b < 256) × (c < 256) × (d < 256)
IsInRange (v6 a b c d e f g i) = a < 65536

-- An IPv4 address is refused just when its number lies in one of the blocked ranges, and an IPv6
-- address just when it is `::1` or `::` or its first segment lies in `ff00::/8`, `fc00::/7` or
-- `fe80::/10`; octets are below 256, and the first segment below 65536.
pub is_disallowed-is_blocked : (ip : IpAddr) → IsInRange ip → is_disallowed ip ≡ is_blocked ip
is_disallowed-is_blocked (v4 a b c d) (ha, hb, hc, hd) =
    is_disallowed-in_some_v4 a b c d ha hb hc hd
is_disallowed-is_blocked (v6 a b c d e f g i) ha = is_disallowed-in_some_v6 a b c d e f g i ha
