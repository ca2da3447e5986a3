-- ===== src/Rtc/Date/Calendar.antt =====
-- The Gregorian calendar, and the day after a date in it.
use camkes_vm.Common.{
  ℕ, ◌+◌, ◌-◌, ◌*◌, ◌/◌, ◌%◌, ◌^◌, ◌<◌, ◌≤◌, ◌≡◌, refl, Bool, ap, arith, sym, ◌∙◌, List, [], ◌∷◌,
  if◌then◌else◌, not, ◌==◌, ◌&&◌, ◌||◌, true, false, holds_below, holds_below_sound, leb, get_or,
  ltb,
}
use camkes_vm.Rtc.State.{Tm, int_rem}
use camkes_vm.Rtc.Date.{get_days_in_month, days_tab, is_leap}

-- days of the Gregorian calendar before a year
unfoldable pub days_before_year : ℕ → ℕ
days_before_year y = 365 * y + (y + 3) / 4 + (y + 399) / 400 - (y + 99) / 100

-- the days of a common year before each month
abbrev month_starts : List ℕ
month_starts = 0 ∷ 31 ∷ 59 ∷ 90 ∷ 120 ∷ 151 ∷ 181 ∷ 212 ∷ 243 ∷ 273 ∷ 304 ∷ 334 ∷ 365 ∷ []

-- a leap year of the Gregorian calendar
unfoldable pub is_gregorian_leap : ℕ → Bool
is_gregorian_leap y = y % 4 == 0 && (not (y % 100 == 0) || y % 400 == 0)

abbrev pub month_start : ℕ → Bool → ℕ
month_start m leap = get_or month_starts m 0 + (if leb 2 m && leap then 1 else 0)

-- days of a year before a month
unfoldable pub days_before_month : ℕ → ℕ → ℕ
days_before_month m y = month_start m (is_gregorian_leap y)

-- The year counts from 1900.
unfoldable pub day_number : Tm → ℕ
day_number tm =
    days_before_year (tm.year + 1900) + days_before_month tm.month (tm.year + 1900) + tm.day

-- seconds up to a date and time
unfoldable pub instant : Tm → ℕ
instant tm = ((day_number tm * 24 + tm.hour) * 60 + tm.minute) * 60 + tm.second

-- A date and a time that exist.
pub record IsDate (tm : Tm) : Type 0 where
  pub second_in : tm.second < 60
  pub minute_in : tm.minute < 60
  pub hour_in : tm.hour < 24
  pub month_in : tm.month < 12
  pub day_from : 1 ≤ tm.day
  pub day_to : tm.day ≤ get_days_in_month tm.month (tm.year + 1900)

pub days_bounds : (m y : ℕ) → m < 12 → (28 ≤ get_days_in_month m y) × (get_days_in_month m y ≤ 31)
unfolding get_days_in_month holds_below
days_bounds m y h = ground (
  arith,
  holds_below_sound
      (λ k.
        leb 28 (get_or days_tab k 0)
        && leb (get_or days_tab k 0) 31
        && (not (k == 1) || get_or days_tab k 0 == 28))
      12 m h table,
)
  where
    table :
        holds_below
          (λ k.
            leb 28 (get_or days_tab k 0)
            && leb (get_or days_tab k 0) 31
            && (not (k == 1) || get_or days_tab k 0 == 28))
          12
        ≡ true
    table = refl

abbrev year_length : Bool → ℕ
year_length leap = if leap then 366 else 365

is_leap_lem : (y : ℕ) → y < 2 ^ 31 → is_leap y ≡ is_gregorian_leap y
unfolding is_gregorian_leap
is_leap_lem y h = rw (rem 4, rem 100, rem 400) refl
  where
    rem : (k : ℕ) → int_rem y k ≡ y % k
    rem k = ground arith

-- The table of the code and that of the calendar, for every month and both lengths of a year.
abbrev month_days : ℕ → Bool → ℕ
month_days m leap = get_or days_tab m 0 + (if m == 1 && leap then 1 else 0)

abbrev fits : ℕ → Bool → Bool
fits m leap = month_start (m + 1) leap == month_start m leap + month_days m leap

month_table : holds_below (λ m. fits m true && fits m false) 12 ≡ true
unfolding holds_below
month_table = refl

month_fits :
    (m : ℕ) (leap : Bool)
    → m < 12
    → month_start (m + 1) leap ≡ month_start m leap + month_days m leap
month_fits m true h =
    ground (arith, holds_below_sound (λ k. fits k true && fits k false) 12 m h month_table)
month_fits m false h =
    ground (arith, holds_below_sound (λ k. fits k true && fits k false) 12 m h month_table)

get_days_in_month_lem : (m y : ℕ) → m < 12 → get_days_in_month m y ≡ month_days m (is_leap y)
unfolding get_days_in_month
get_days_in_month_lem m y h = ground arith

before_next_month :
    (m y : ℕ)
    → m < 12
    → y < 2 ^ 31
    → days_before_month (m + 1) y ≡ days_before_month m y + get_days_in_month m y
unfolding days_before_month
before_next_month m y h k =
    month_fits m (is_gregorian_leap y) h
    ∙ ap (λ b. month_start m (is_gregorian_leap y) + month_days m b) (sym (is_leap_lem y k))
    ∙ ap (λ n. month_start m (is_gregorian_leap y) + n) (sym (get_days_in_month_lem m y h))

twelve_months : (y : ℕ) → days_before_month 12 y ≡ year_length (is_gregorian_leap y)
unfolding days_before_month
twelve_months y = ground arith

-- one for a multiple of `k`
abbrev one_if : Bool → ℕ
one_if b = if b then 1 else 0

fours : (y : ℕ) → (y + 1 + 3) / 4 ≡ (y + 3) / 4 + one_if (y % 4 == 0)
fours y = ground arith

centuries : (y : ℕ) → (y + 1 + 99) / 100 ≡ (y + 99) / 100 + one_if (y % 100 == 0)
centuries y = ground arith

cycles : (y : ℕ) → (y + 1 + 399) / 400 ≡ (y + 399) / 400 + one_if (y % 400 == 0)
cycles y = ground arith

days_in_year :
    (a b c : ℕ)
    → (c ≡ 0 → b ≡ 0)
    → (b ≡ 0 → a ≡ 0)
    → 365 + one_if (a == 0) + one_if (c == 0)
      ≡ year_length (a == 0 && (not (b == 0) || c == 0)) + one_if (b == 0)
days_in_year a b c h k = ground (arith, h, k)

next_year : (y : ℕ) → days_before_year (y + 1) ≡ days_before_year y + days_before_month 12 y
unfolding days_before_year is_gregorian_leap
next_year y = omega (
  arith,
  fours y,
  centuries y,
  cycles y,
  twelve_months y,
  days_in_year (y % 4) (y % 100) (y % 400) (λ e. omega arith) (λ e. omega arith),
)

-- The day after, in plain numbers.
unfoldable pub next_date : Tm → Tm
next_date tm =
    if ltb tm.day (get_days_in_month tm.month (tm.year + 1900))
    then record tm { day = tm.day + 1 }
    else if ltb tm.month 11
    then record tm { day = 1; month = tm.month + 1 }
    else record tm { day = 1; month = 0; year = tm.year + 1 }

no_days : (y : ℕ) → days_before_month 0 y ≡ 0
unfolding days_before_month
no_days y = refl

-- The days up to a date, by its fields.
abbrev days_to : ℕ → ℕ → ℕ → ℕ
days_to y m d = days_before_year y + days_before_month m y + d

days_to_month :
    (y m d : ℕ)
    → y < 2 ^ 31
    → m < 12
    → d ≡ get_days_in_month m y
    → days_to y (m + 1) 1 ≡ days_to y m d + 1
days_to_month y m d k l h = omega (arith, before_next_month m y l k)

days_to_year :
    (y m d : ℕ)
    → y < 2 ^ 31
    → m ≡ 11
    → d ≡ get_days_in_month m y
    → days_to (y + 1) 0 1 ≡ days_to y m d + 1
days_to_year y m d k e h = omega (
  arith,
  next_year y,
  first,
  before_next_month m y (omega arith) k,
  ap (λ n. days_before_month (n + 1) y) e,
)
  where
    first : days_before_month 0 (y + 1) ≡ 0
    first = no_days (y + 1)

pub next_date_lem :
    (tm : Tm) → IsDate tm → tm.year < 30000 → day_number (next_date tm) ≡ day_number tm + 1
unfolding next_date day_number
next_date_lem tm v h = ground (
  arith,
  v.day_to,
  v.month_in,
  days_to_month (tm.year + 1900) tm.month tm.day,
  days_to_year (tm.year + 1900) tm.month tm.day,
)

pub next_date-IsDate : (tm : Tm) → IsDate tm → IsDate (next_date tm)
unfolding next_date
next_date-IsDate tm v = record {
  second_in = ground (arith, v.second_in);
  minute_in = ground (arith, v.minute_in);
  hour_in = ground (arith, v.hour_in);
  month_in = ground (arith, v.month_in);
  day_from = ground (arith, v.day_from);
  day_to = ground (
    arith,
    v.day_to,
    v.month_in,
    days_bounds (tm.month + 1) (tm.year + 1900),
    days_bounds 0 (tm.year + 1 + 1900),
  );
}
