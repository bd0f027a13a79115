-- ===== src/Rtc/Civil.antt =====
-- `days_from_civil` against the calendar: the lengths of the years and months since 1970, added up.
use core_z_os.Base.{
  ℕ, zero, suc, ◌+◌, ◌-◌, ◌*◌, ◌/◌, ◌%◌, ◌^◌, ◌≤◌, ◌<◌, ◌≡◌, refl, Bool, not, ◌&&◌, ◌||◌, arith,
  ltb, leb, ◌==◌, ◌∙◌, if◌then◌else◌,
}
use core_z_os.Base.Int.{pos, ◌+ℤ◌, ◌-ℤ◌, ◌*ℤ◌, to_u64, to_int}
use core_z_os.Rtc.{civil_era, civil_yoe, civil_doy, civil_doe, days_from_civil}

abbrev pub is_leap : ℕ → Bool
is_leap y = y % 4 == 0 && not (y % 100 == 0) || y % 400 == 0

abbrev pub year_length : ℕ → ℕ
year_length y = if is_leap y then 366 else 365

-- The days from 1 January 1970 to 1 January of the year 1970 + n.
unfoldable pub days_to_year : ℕ → ℕ
days_to_year zero = 0
days_to_year (suc n) = days_to_year n + year_length (1970 + n)

abbrev pub month_length : ℕ → ℕ → ℕ
month_length y m =
    if m == 2 then year_length y - 337 else if m == 4 || m == 6 || m == 9 || m == 11 then 30 else 31

-- The days from 1 January to the first of the month m + 1.
unfoldable pub days_to_month : ℕ → ℕ → ℕ
days_to_month y zero = 0
days_to_month y (suc m) = days_to_month y m + month_length y (suc m)

-- The number of days from 1 January 1970.
unfoldable pub day_number : ℕ → ℕ → ℕ → ℕ
unfolding days_to_year days_to_month
day_number y m d = days_to_year (y - 1970) + days_to_month y (m - 1) + (d - 1)

div_step_4 : (k : ℕ) → suc k / 4 ≡ k / 4 + (if suc k % 4 == 0 then 1 else 0)
div_step_4 k = ground arith

div_step_100 : (k : ℕ) → suc k / 100 ≡ k / 100 + (if suc k % 100 == 0 then 1 else 0)
div_step_100 k = ground arith

div_step_400 : (k : ℕ) → suc k / 400 ≡ k / 400 + (if suc k % 400 == 0 then 1 else 0)
div_step_400 k = ground arith

-- A year has a leap day for 4, less one for 100, and one for 400.
year_length_lem :
    (y : ℕ)
    → year_length y + (if y % 100 == 0 then 1 else 0)
      ≡ 365 + (if y % 4 == 0 then 1 else 0) + (if y % 400 == 0 then 1 else 0)
year_length_lem y = ground arith

-- The leap days up to the year n + 1969, in closed form.
days_to_year_closed :
    (n : ℕ) → days_to_year n + 477 + (n + 1969) / 100 ≡ 365 * n + (n + 1969) / 4 + (n + 1969) / 400
unfolding days_to_year
days_to_year_closed zero = refl
days_to_year_closed (suc n) = ground (
  arith,
  days_to_year_closed n,
  year_length_lem (1970 + n),
  div_step_4 (n + 1969),
  div_step_100 (n + 1969),
  div_step_400 (n + 1969),
)

-- Where nothing wraps, the parts of `days_from_civil` are these.
civil_era_pos : (y : ℕ) → civil_era (pos y) ≡ pos (y / 400)
unfolding civil_era
civil_era_pos y = ground arith

civil_yoe_pos : (y : ℕ) → civil_yoe (pos y) ≡ y % 400
unfolding civil_yoe
civil_yoe_pos y = rw civil_era_pos (ground arith)

abbrev march_day : ℕ → ℕ → ℕ
march_day m d = (153 * (if ltb 2 m then m - 3 else m + 9) + 2) / 5 + (d - 1)

civil_doy_lem : (m d : ℕ) → 1 ≤ m → m ≤ 12 → 1 ≤ d → d ≤ 31 → civil_doy m d ≡ march_day m d
unfolding civil_doy
civil_doy_lem m d h1 h2 h3 h4 = ground arith

march_day_bound : (m d : ℕ) → m ≤ 12 → d ≤ 31 → march_day m d < 368
march_day_bound m d h1 h2 = ground arith

civil_doe_lem :
    (y doy : ℕ)
    → doy < 368
    → civil_doe (y % 400) doy + y / 100 + 146097 * (y / 400) ≡ 365 * y + y / 4 + y / 400 + doy
unfolding civil_doe
civil_doe_lem y doy h = omega arith

civil_doe_bound : (yoe doy : ℕ) → yoe < 400 → doy < 368 → civil_doe yoe doy < 2 ^ 20
unfolding civil_doe
civil_doe_bound yoe doy h1 h2 = omega arith

civil_year_lem :
    (y m : ℕ)
    → 1 ≤ y
    → (if leb m 2 then pos y -ℤ pos 1 else pos y) ≡ pos (y - (if leb m 2 then 1 else 0))
unfolding ◌-ℤ◌
civil_year_lem y m h = ground arith

-- The year that begins on 1 March.
abbrev shifted_year : ℕ → ℕ → ℕ
shifted_year y m = y - (if leb m 2 then 1 else 0)

days_from_shifted :
    (y doe : ℕ)
    → y < 2 ^ 20
    → 1969 ≤ y
    → doe < 2 ^ 20
    → 719468 ≤ y / 400 * 146097 + doe
    → to_u64 (pos (y / 400) *ℤ pos 146097 +ℤ to_int doe -ℤ pos 719468)
      ≡ y / 400 * 146097 + doe - 719468
unfolding ◌+ℤ◌ ◌-ℤ◌ ◌*ℤ◌
days_from_shifted y doe h1 h2 h3 h4 = ground arith

-- The months before the month m, counted from 1 March.
days_to_month_lem :
    (y m : ℕ)
    → m < 12
    → days_to_month y m + (if leb (suc m) 2 then 306 else 0)
      ≡ march_day (suc m) 1 + (if leb (suc m) 2 then 0 else year_length y - 306)
unfolding days_to_month
days_to_month_lem y zero h = refl
days_to_month_lem y (suc m) h = ground (arith, days_to_month_lem y m)

-- Days are counted alike from 1 January and from 1 March.
day_number_closed :
    (y m d : ℕ)
    → 1970 ≤ y
    → m < 12
    → 1 ≤ d
    → d ≤ 31
    → day_number y (suc m) d + 719468 + shifted_year y (suc m) / 100
      ≡ 365 * shifted_year y (suc m)
        + shifted_year y (suc m) / 4
        + shifted_year y (suc m) / 400
        + march_day (suc m) d
unfolding day_number
day_number_closed y m d h1 h2 h3 h4 = ground (
  arith,
  days_to_year_closed (y - 1970),
  days_to_month_lem y m,
  year_length_lem y,
  div_step_4 (y - 1),
  div_step_100 (y - 1),
  div_step_400 (y - 1),
)

-- `days_from_civil` is the number of days since 1 January 1970, for every day of the calendar from
-- then to the year 2 ^ 20: the years' and months' lengths added up, with the leap years of the
-- Gregorian rule.
pub days_from_civil-eq-day_number :
    (y m d : ℕ)
    → 1970 ≤ y
    → y < 2 ^ 20
    → 1 ≤ m
    → m ≤ 12
    → 1 ≤ d
    → d ≤ 31
    → days_from_civil (pos y) m d ≡ day_number y m d
unfolding days_from_civil
days_from_civil-eq-day_number y zero d h0 h1 h2 h3 h4 h5 = elim h2 [ ]
days_from_civil-eq-day_number y (suc m) d h0 h1 h2 h3 h4 h5 =
    rw
      (
        civil_year_lem y (suc m) (omega arith),
        civil_era_pos,
        civil_yoe_pos,
        civil_doy_lem (suc m) d (omega arith) h3 h4 h5,
      )
      (days_from_shifted shifted doe (ground arith) (ground arith) fits late
        ∙ omega (
          arith,
          civil_doe_lem shifted (march_day (suc m) d) (march_day_bound (suc m) d h3 h5),
          day_number_closed y m d h0 h3 h4 h5,
          late,
        ))
  where
    shifted : ℕ
    shifted = shifted_year y (suc m)

    doe : ℕ
    doe = civil_doe (shifted % 400) (march_day (suc m) d)

    fits : doe < 2 ^ 20
    fits =
        civil_doe_bound (shifted % 400) (march_day (suc m) d) (omega arith)
          (march_day_bound (suc m) d h3 h5)

    late : 719468 ≤ shifted / 400 * 146097 + doe
    late = omega (
      arith,
      civil_doe_lem shifted (march_day (suc m) d) (march_day_bound (suc m) d h3 h5),
      day_number_closed y m d h0 h3 h4 h5,
    )

pub day_number-lt :
    (y m d : ℕ)
    → 1970 ≤ y
    → y < 2 ^ 20
    → 1 ≤ m
    → m ≤ 12
    → 1 ≤ d
    → d ≤ 31
    → day_number y m d < 2 ^ 30
day_number-lt y zero d h0 h1 h2 h3 h4 h5 = elim h2 [ ]
day_number-lt y (suc m) d h0 h1 h2 h3 h4 h5 =
    omega (arith, day_number_closed y m d h0 h3 h4 h5, march_day_bound (suc m) d h3 h5)
