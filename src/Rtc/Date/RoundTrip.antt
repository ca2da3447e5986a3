-- ===== src/Rtc/Date/RoundTrip.antt =====
-- The clock copied to the registers, and set from them.
use camkes_vm.Common.{
  ℕ, ◌+◌, ◌-◌, ◌%◌, ◌^◌, ◌<◌, ◌≤◌, ◌≡◌, refl, ap, ◌∙◌, if◌then◌else◌, arith, Bool, true, Bool-cases,
  inl, inr, u8, u32, has, holds_below, holds_below_sound, ltb, ◌==◌, ◌&&◌,
}
use camkes_vm.Rtc.State.{TmTypes, IsTmTypes, Tm, RtcState, rtc_reg_b, reg_b_dm, reg_b_24h}
use camkes_vm.Rtc.Date.{
  rtc_to_bcd, rtc_from_bcd, set_hour, copy_hour, year_digits, rtc_set_time, rtc_copy_date,
}
use camkes_vm.Rtc.Date.Calendar.{IsDate, days_bounds}

bcd_table :
    holds_below (λ n. rtc_from_bcd 0 (u8 (rtc_to_bcd 0 n)) == n && ltb (rtc_to_bcd 0 n) 256) 100
    ≡ true
unfolding holds_below rtc_from_bcd rtc_to_bcd
bcd_table = refl

-- Numbers below 100 go through both formats.
from_bcd-to_bcd : (b n : ℕ) → n < 100 → rtc_from_bcd b (u8 (rtc_to_bcd b n)) ≡ n
unfolding rtc_from_bcd rtc_to_bcd
from_bcd-to_bcd b n h = elim (Bool-cases (has b reg_b_dm)) [
  | inl e ↦ ground (arith, e)
  | inr e ↦ ground (
    arith,
    e,
    holds_below_sound (λ n. rtc_from_bcd 0 (u8 (rtc_to_bcd 0 n)) == n && ltb (rtc_to_bcd 0 n) 256)
        100 n h bcd_table,
  )
]

-- Hours below 24 go through both formats, and leave room for the bit of the afternoon.
hour_table : holds_below (λ n. ltb (rtc_to_bcd 0 n) 128) 24 ≡ true
unfolding holds_below rtc_to_bcd
hour_table = refl

to_bcd_small : (b n : ℕ) → n < 24 → rtc_to_bcd b n < 128
unfolding rtc_to_bcd
to_bcd_small b n h = elim (Bool-cases (has b reg_b_dm)) [
  | inl e ↦ ground (arith, e)
  | inr e ↦ ground (arith, e, holds_below_sound (λ n. ltb (rtc_to_bcd 0 n) 128) 24 n h hour_table)
]

hour_back :
    (b n : ℕ)
    → n < 24
    → (rtc_from_bcd b (rtc_to_bcd b n % 128) ≡ n)
      × (rtc_from_bcd b ((rtc_to_bcd b n + 128) % 128) ≡ n)
hour_back b n h = (
  ap (rtc_from_bcd b) (omega (arith, to_bcd_small b n h)) ∙ back,
  ap (rtc_from_bcd b) (omega (arith, to_bcd_small b n h)) ∙ back,
)
  where
    back : rtc_from_bcd b (u8 (rtc_to_bcd b n)) ≡ n
    back = from_bcd-to_bcd b n (omega arith)

-- The register of the hours, in plain numbers.
abbrev stored_hour : ℕ → ℕ → ℕ
stored_hour b n =
    if has b reg_b_24h
    then rtc_to_bcd b n
    else rtc_to_bcd b (n % 12) + (if ltb n 12 then 0 else 128)

-- The two digits of a year, whose type is unsigned or not: below 1900, the difference to 1900 wraps
-- around in an unsigned type.
abbrev pub two_digits : Bool → ℕ → ℕ
two_digits is_unsigned year = if is_unsigned && ltb year 1900 then (year + 96) % 100 else year % 100

-- What `rtc_set_time` reads from the registers that `rtc_copy_date` wrote for `tm`.
pub record ReadBack (fit : TmTypes) (tm u : Tm) : Type 0 where
  pub second_same : u.second ≡ tm.second
  pub minute_same : u.minute ≡ tm.minute
  pub hour_same : u.hour ≡ tm.hour
  pub day_same : u.day ≡ tm.day
  pub last_digits : u.year ≡ two_digits fit.year_unsigned tm.year
  pub month_less : 1 ≤ tm.month → u.month + 1 ≡ tm.month
  pub before_january : tm.month ≡ 0 → u.month ≡ fit.small 0xffffffff

module _ (fit : TmTypes) (w : IsTmTypes fit) where
  copy_hour_lem : (b n : ℕ) → n < 24 → copy_hour fit b n ≡ stored_hour b n
  unfolding copy_hour
  copy_hour_lem b n h = ground (arith, to_bcd_small b n h, to_bcd_small b (n % 12) (omega arith))

  copy_hour_byte : (b n : ℕ) → n < 24 → u8 (copy_hour fit b n) ≡ copy_hour fit b n
  copy_hour_byte b n h =
      ground (arith, copy_hour_lem b n h, to_bcd_small b n h, to_bcd_small b (n % 12) (omega arith))

  set_hour-copy_hour : (b n : ℕ) → n < 24 → set_hour fit b (copy_hour fit b n) ≡ n
  unfolding set_hour
  set_hour-copy_hour b n h = rw (copy_hour_lem b n h) (
      ground (
        arith,
        hour_back b n h,
        hour_back b (n % 12) (omega arith),
        to_bcd_small b n h,
        to_bcd_small b (n % 12) (omega arith),
        w.small_lem n,
        w.small_lem (n % 12),
        w.small_lem (u32 (n % 12 + 12)),
      ))

  year_digits_lem :
      (year : ℕ) → year < 2 ^ 15 → year_digits fit year 1900 ≡ two_digits fit.year_unsigned year
  unfolding year_digits
  year_digits_lem year h = elim (Bool-cases fit.year_unsigned) [
    | inl e ↦ ground (arith, e)
    | inr e ↦ ground (arith, e)
  ]

  -- The year that is read back from the register.
  abbrev year_field : ℕ → ℕ → ℕ → ℕ
  year_field b year base = fit.wide (
      u32 (rtc_from_bcd b (u8 (rtc_to_bcd b (year_digits fit year base))) + base + (2 ^ 32 - 1900)))

  year_field_lem :
      (b year : ℕ) → year < 2 ^ 15 → year_field b year 1900 ≡ two_digits fit.year_unsigned year
  year_field_lem b year h =
      let digits = year_digits_lem year h in
      let small : two_digits fit.year_unsigned year < 100 = ground arith in
      let back = from_bcd-to_bcd b (year_digits fit year 1900) (omega (arith, digits, small)) in
      ap fit.wide (omega (arith, digits, back, small))
      ∙ w.wide_lem (two_digits fit.year_unsigned year) (omega (arith, small))

  -- For types of the fields that hold times and years, and a base year of 1900, the clock set from
  -- the registers that were copied from it has the same time and day, in both formats of numbers and
  -- of hours. Its year has the last two digits only, and they are those of 96 more if the arithmetic
  -- of years is unsigned and the year below 1900. Its month is one less, and for January, which is
  -- 0, it is what a field holds of -1.
  pub rtc_set_time-rtc_copy_date :
      (s : RtcState)
      → IsDate s.current_tm
      → s.current_tm.year < 2 ^ 15
      → s.base_year ≡ 1900
      → ReadBack fit s.current_tm (rtc_set_time fit (rtc_copy_date fit s)).current_tm
  unfolding rtc_set_time rtc_copy_date
  rtc_set_time-rtc_copy_date s v h base =
      let b = s.cmos_data rtc_reg_b in
      let tm = s.current_tm in
      let days = days_bounds tm.month (tm.year + 1900) v.month_in in
      record {
        second_same =
            ground (arith, v.second_in, from_bcd-to_bcd b tm.second, w.small_lem tm.second);
        minute_same =
            ground (arith, v.minute_in, from_bcd-to_bcd b tm.minute, w.small_lem tm.minute);
        hour_same =
            ap (set_hour fit b) (copy_hour_byte b tm.hour v.hour_in)
            ∙ set_hour-copy_hour b tm.hour v.hour_in;
        day_same = ground (arith, v.day_to, days, from_bcd-to_bcd b tm.day, w.small_lem tm.day);
        last_digits = ap (year_field b tm.year) base ∙ year_field_lem b tm.year h;
        month_less = λ one. ground (
          arith,
          one,
          v.month_in,
          from_bcd-to_bcd b tm.month,
          w.small_lem (u32 (tm.month + (2 ^ 32 - 1))),
        );
        before_january = λ z. ap fit.small (omega (arith, z, from_bcd-to_bcd b tm.month));
      }
