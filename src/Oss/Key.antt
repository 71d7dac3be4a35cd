-- ===== src/Oss/Key.antt =====
-- Object keys: `sanitize_segment` and `build_key`.
use Prim.Native.Nat.{bit_and}
use scriptorium.Text.{Text, pad_zeros, is_ascii_alphanumeric, hex, codes}
use scriptorium.Base.{ℕ, Bool, if◌then◌else◌, ◌++◌, is_nil, ◌||◌, map, ◌/◌, ◌==◌, ◌%◌, ◌^◌}
use scriptorium.Oss.Date.{ymd_from_unix}

-- The characters that a segment may hold.
abbrev pub is_key_char : ℕ → Bool
is_key_char c = is_ascii_alphanumeric c || c == b'-' || c == b'_' || c == b'.'

abbrev pub sanitize_char : ℕ → ℕ
sanitize_char c = if is_key_char c then c else b'_'

unfoldable pub sanitize_segment : Text → Text
sanitize_segment s = if is_nil s then codes "_" else map sanitize_char s

abbrev pub nanos_per_second : ℕ
nanos_per_second = 1_000_000_000

-- `format!("{:08x}", now.as_nanos() as u64 & 0xffff_ffff)`
unfoldable pub nonce : ℕ → Text
nonce nanos = pad_zeros 8 (hex (bit_and (nanos % 2 ^ 64) 0xffff_ffff))

-- From the tenant, the workspace, the basename and the time of the clock.
unfoldable pub build_key_at : Text → Text → Text → Text → ℕ → Text
build_key_at prefix tenant_id workspace_id basename nanos =
    prefix
    ++ (sanitize_segment tenant_id
        ++ (codes "/"
            ++ (sanitize_segment workspace_id
                ++ (codes "/"
                    ++ (ymd_from_unix (nanos / nanos_per_second)
                        ++ (codes "/"
                            ++ (nonce nanos ++ (codes "-" ++ sanitize_segment basename))))))))
