-- ===== src/Oss/Calendar.antt =====
-- The dates of `civil_from_days` are those of the Gregorian calendar.

use native.Mathlib.Decide.{dec_lt}
use mathlib.Core.Path.{ap₂}
use scriptorium.Base.Table.{holds_below, holds_below-at}
use scriptorium.Base.{
  ℕ, if◌then◌else◌, Bool, ◌+◌, ◌%◌, ◌==◌, ltb, ◌*◌, suc, ◌&&◌, ◌||◌, zero, not, ◌/◌, ◌-◌, ◌<◌, ◌≤◌,
  arith, ◌≡◌, true, Bool-cases, leb, false, inl, refl, inr, ◌⊎◌, ◌∙◌, ap, sym,
}
use scriptorium.Oss.Date.{Ymd, ymd, from_march, from_era, civil_from_days}

unfoldable pub is_leap : ℕ → Bool
is_leap y = y % 4 == 0 && (not (y % 100 == 0) || y % 400 == 0)

abbrev pub month_length : Bool → ℕ → ℕ
month_length leap m =
    if m == 2
    then (if leap then 29 else 28)
    else if m == 4 || m == 6 || m == 9 || m == 11
    then 30
    else 31

abbrev pub days_in_month : ℕ → ℕ → ℕ
days_in_month y m = month_length (is_leap y) m

-- The day after a date.
unfoldable pub next_day : Ymd → Ymd
next_day t =
    if ltb t.day (days_in_month t.year t.month)
    then ymd t.year t.month (t.day + 1)
    else if ltb t.month 12
    then ymd t.year (t.month + 1) 1
    else ymd (t.year + 1) 1 1

-- The n-th day after 1970-01-01, by stepping through the calendar.
unfoldable pub nth_day : ℕ → Ymd
unfolding next_day
nth_day zero = ymd 1970 1 1
nth_day (suc n) = next_day (nth_day n)

abbrev year_start : ℕ → ℕ
year_start y = 365 * y + y / 4 - y / 100

year_of_era : ℕ → ℕ
year_of_era doe = (doe - doe / 1460 + doe / 36524 - doe / 146096) / 365

-- The end of a year of the era; the last one has its leap day.
abbrev year_end : ℕ → ℕ
year_end y = if y == 399 then 146097 else year_start (y + 1)

year_of_era_range :
    (doe : ℕ)
    → doe < 146097
    → (year_of_era doe ≤ 399)
      × (year_start (year_of_era doe) ≤ doe)
      × (doe < year_start (year_of_era doe + 1) + 1)
      × ((doe < year_start (year_of_era doe + 1)) ⊎ (doe ≡ 146096))
unfolding year_of_era
year_of_era_range doe h = (omega arith, omega arith, omega arith, omega arith)

-- The days of a year that begins in March: the leap day is its last.
abbrev march_length : ℕ → ℕ
march_length y = if is_leap (y + 1) then 366 else 365

-- Month and day `m' d'` follow `m d` within such a year.
step_ok : Bool → ℕ → ℕ → ℕ → ℕ → Bool
step_ok leap m d m' d' =
    if ltb d (month_length leap m)
    then m' == m && d' == d + 1
    else if ltb m 12
    then m' == m + 1 && d' == 1 && not (m == 2)
    else m == 12 && m' == 1 && d' == 1

step_ok-next_day :
    (leap : Bool) (y m d m' d' : ℕ)
    → is_leap (y + 1) ≡ leap
    → step_ok leap m d m' d' ≡ true
    → ymd (if leb m' 2 then y + 1 else y) m' d' ≡ next_day (ymd (if leb m 2 then y + 1 else y) m d)
unfolding step_ok next_day
step_ok-next_day leap y m d m' d' e h = ground arith

abbrev month_of : ℕ → ℕ
month_of doy = let mp = (5 * doy + 2) / 153 in if ltb mp 10 then mp + 3 else mp - 9

abbrev day_of : ℕ → ℕ
day_of doy = doy - (153 * ((5 * doy + 2) / 153) + 2) / 5 + 1

abbrev month_step : Bool → ℕ → Bool
month_step leap doy =
    step_ok leap (month_of doy) (day_of doy) (month_of (doy + 1)) (day_of (doy + 1))

month_table :
    (holds_below 364 (month_step false) ≡ true) × (holds_below 365 (month_step true) ≡ true)
unfolding holds_below step_ok
month_table = (refl, refl)

march_step :
    (era y doy : ℕ)
    → doy + 1 < march_length (y + era * 400)
    → from_march era y (doy + 1) ≡ next_day (from_march era y doy)
unfolding from_march
march_step era y doy h = elim (Bool-cases (is_leap (y + era * 400 + 1))) [
  | inl leap ↦
      step_ok-next_day true (y + era * 400) _ _ _ _ leap
        (holds_below-at 365 (month_step true) doy month_table.1 (ground (arith, leap)))
  | inr common ↦
      step_ok-next_day false (y + era * 400) _ _ _ _ common
        (holds_below-at 364 (month_step false) doy month_table.0 (ground (arith, common)))
]

march_wrap :
    (era y doy : ℕ)
    → doy + 1 ≡ march_length (y + era * 400)
    → from_march era (y + 1) 0 ≡ next_day (from_march era y doy)
unfolding next_day from_march is_leap
march_wrap era y doy h = ground arith

march_length-lem : (era y : ℕ) → y ≤ 399 → year_start y + march_length (y + era * 400) ≡ year_end y
unfolding is_leap
march_length-lem era y h = ground arith

-- The year of the next day.
year_of_era_step :
    (doe : ℕ)
    → doe + 1 < 146097
    → ((year_of_era (doe + 1) ≡ year_of_era doe) × (doe + 1 < year_end (year_of_era doe)))
      ⊎ ((year_of_era (doe + 1) ≡ year_of_era doe + 1) × (doe + 1 ≡ year_end (year_of_era doe)))
year_of_era_step doe h =
    ground (arith, year_of_era_range doe (omega arith), year_of_era_range (doe + 1) h)

abbrev day_of_year : ℕ → ℕ
day_of_year doe = doe - year_start (year_of_era doe)

from_era_lem : (era doe : ℕ) → from_era era doe ≡ from_march era (year_of_era doe) (day_of_year doe)
unfolding from_era year_of_era
from_era_lem era doe = refl

from_era_step :
    (era doe : ℕ) → doe + 1 < 146097 → from_era era (doe + 1) ≡ next_day (from_era era doe)
from_era_step era doe h =
    from_era_lem era (doe + 1)
    ∙ elim (year_of_era_step doe h) [
      | inl (same_year, before) ↦
          ap₂ (from_march era) same_year (omega (arith, range, ap year_start same_year))
          ∙ march_step era y (day_of_year doe) (omega (arith, range, length, before))
      | inr (new_year, end) ↦
          ap₂ (from_march era) new_year (
            ground (
              arith,
              range,
              (year_of_era_range (doe + 1) h).0,
              ap year_start new_year,
              length,
              end,
            ))
          ∙ march_wrap era y (day_of_year doe) (omega (arith, range, length, end))
    ]
    ∙ ap next_day (sym (from_era_lem era doe))
  where
    y : ℕ
    y = year_of_era doe

    range : (y ≤ 399) × (year_start y ≤ doe)
    range = let r = year_of_era_range doe (omega arith) in (r.0, r.1)

    length : year_start y + march_length (y + era * 400) ≡ year_end y
    length = march_length-lem era y range.0

from_era_wrap : (era : ℕ) → from_era (era + 1) 0 ≡ next_day (from_era era 146096)
unfolding from_era from_march next_day is_leap
from_era_wrap era = ground arith

civil_from_days-eq :
    (n : ℕ) → civil_from_days n ≡ from_era ((n + 719468) / 146097) ((n + 719468) % 146097)
unfolding civil_from_days
civil_from_days-eq n = ap (from_era ((n + 719468) / 146097)) (omega arith)

civil_from_days_step : (n : ℕ) → civil_from_days (n + 1) ≡ next_day (civil_from_days n)
civil_from_days_step n =
    civil_from_days-eq (n + 1)
    ∙ elim (dec_lt ((n + 719468) % 146097 + 1) 146097) [
      | yes inside ↦
          ap₂ from_era (omega arith) (omega arith)
          ∙ from_era_step ((n + 719468) / 146097) ((n + 719468) % 146097) inside
      | no last ↦
          ap₂ from_era (omega arith) (omega arith)
          ∙ from_era_wrap ((n + 719468) / 146097)
          ∙ ap (λ k. next_day (from_era ((n + 719468) / 146097) k)) (omega arith)
    ]
    ∙ ap next_day (sym (civil_from_days-eq n))

-- Day n of the Unix epoch is the n-th day after 1970-01-01 of the Gregorian calendar, for every n.
pub civil_from_days-nth_day : (n : ℕ) → civil_from_days n ≡ nth_day n
unfolding nth_day civil_from_days from_era from_march
civil_from_days-nth_day zero = refl
civil_from_days-nth_day (suc n) =
    ap civil_from_days (omega arith)
    ∙ civil_from_days_step n
    ∙ ap next_day (civil_from_days-nth_day n)
