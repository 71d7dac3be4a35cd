-- ===== src/Oss/Date.antt =====
-- `ymd_from_unix` of src/oss.rs. All values are at least 0, since `secs` is, so they are natural
-- numbers here, and the branch of `era` for a negative `z` is never taken. Nothing overflows:
-- `secs` is below 2^64, so `z` is far below 2^63.
use scriptorium.Text.{Text, decimal, pad_zeros, codes}
use scriptorium.Base.{ℕ, ◌+◌, ◌-◌, ◌/◌, ◌*◌, ◌++◌, if◌then◌else◌, ltb, leb, ◌≡◌, refl}

abbrev pub seconds_per_day : ℕ
seconds_per_day = 86400

pub record Ymd : Type 0 where
  pub year : ℕ
  pub month : ℕ
  pub day : ℕ

abbrev pub ymd : ℕ → ℕ → ℕ → Ymd
ymd y m d = record { day = d; month = m; year = y }

-- From the year of the era and the day of that year, both counted from March.
unfoldable pub from_march : ℕ → ℕ → ℕ → Ymd
from_march era yoe doy =
    let y = yoe + era * 400 in
    let mp = (5 * doy + 2) / 153 in
    let d = doy - (153 * mp + 2) / 5 + 1 in
    let m = if ltb mp 10 then mp + 3 else mp - 9 in ymd (if leb m 2 then y + 1 else y) m d

-- From the era and the day of the era on.
unfoldable pub from_era : ℕ → ℕ → Ymd
unfolding from_march
from_era era doe =
    let yoe = (doe - doe / 1460 + doe / 36524 - doe / 146096) / 365 in
    from_march era yoe (doe - (365 * yoe + yoe / 4 - yoe / 100))

unfoldable pub civil_from_days : ℕ → Ymd
unfolding from_era
civil_from_days days =
    let z = days + 719468 in let era = z / 146097 in from_era era (z - era * 146097)

-- `{y:04}-{m:02}-{d:02}`
unfoldable pub format_date : Ymd → Text
format_date t =
    pad_zeros 4 (decimal t.year)
    ++ (codes "-" ++ (pad_zeros 2 (decimal t.month) ++ (codes "-" ++ pad_zeros 2 (decimal t.day))))

unfoldable pub ymd_from_unix : ℕ → Text
unfolding civil_from_days format_date decimal
ymd_from_unix secs = format_date (civil_from_days (secs / seconds_per_day))

pub ymd_from_unix-eq :
    (secs : ℕ) → ymd_from_unix secs ≡ format_date (civil_from_days (secs / seconds_per_day))
unfolding ymd_from_unix
ymd_from_unix-eq secs = refl
