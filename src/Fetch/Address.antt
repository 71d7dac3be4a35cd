-- ===== src/Fetch/Address.antt =====
-- `is_disallowed`, over the tests of `std::net` that it calls.
use Prim.Native.Nat.{bit_and}
use scriptorium.Base.{ℕ, Bool, ◌&&◌, ◌||◌, leb, ◌==◌}
use scriptorium.World.Calls.{IpAddr, v4, v6}

-- `Ipv4Addr::is_private`
abbrev is_private : ℕ → ℕ → Bool
is_private a b = a == 10 || a == 172 && leb 16 b && leb b 31 || a == 192 && b == 168

abbrev is_link_local : ℕ → ℕ → Bool
is_link_local a b = a == 169 && b == 254

abbrev is_broadcast : ℕ → ℕ → ℕ → ℕ → Bool
is_broadcast a b c d = a == 255 && b == 255 && c == 255 && d == 255

-- `Ipv4Addr::is_documentation`
abbrev is_documentation : ℕ → ℕ → ℕ → Bool
is_documentation a b c =
    a == 192 && b == 0 && c == 2
    || a == 198 && b == 51 && c == 100
    || a == 203 && b == 0 && c == 113

abbrev is_unspecified : ℕ → ℕ → ℕ → ℕ → Bool
is_unspecified a b c d = a == 0 && b == 0 && c == 0 && d == 0

-- The first seven segments, as `is_loopback` and `is_unspecified` want them.
abbrev pub zeros : ℕ → ℕ → ℕ → ℕ → ℕ → ℕ → ℕ → Bool
zeros a b c d e f g = a == 0 && b == 0 && c == 0 && d == 0 && e == 0 && f == 0 && g == 0

unfoldable pub is_disallowed : IpAddr → Bool
is_disallowed (v4 a b c d) =
    a == 127
    || is_private a b
    || is_link_local a b
    || is_broadcast a b c d
    || is_documentation a b c
    || is_unspecified a b c d
    || a == 100 && bit_and b 0xc0 == 64
    || a == 0
is_disallowed (v6 a b c d e f g i) =
    zeros a b c d e f g && i == 1
    || zeros a b c d e f g && i == 0
    || bit_and a 0xff00 == 0xff00
    || bit_and a 0xfe00 == 0xfc00
    || bit_and a 0xffc0 == 0xfe80
