-- ===== src/Rtc/Date.antt =====
-- The time registers of mc146818rtc.c: BCD, `rtc_set_time`, `rtc_copy_date`, and the calendar.
pub mod Calendar
pub mod Next
pub mod RoundTrip
use camkes_vm.Common.{
  ℕ, ◌+◌, ◌-◌, ◌*◌, ◌/◌, ◌%◌, ◌^◌, Bool, not, ◌&&◌, ◌||◌, List, [], ◌∷◌, get_or, bit_or, u8, u32,
  has, set_flag, leb, ltb, if◌then◌else◌, ◌==◌,
}
use camkes_vm.Rtc.State.{
  TmTypes, Tm, RtcState, poke, int_lt, int_quot, int_rem, rtc_seconds, rtc_minutes, rtc_hours,
  rtc_day_of_month, rtc_month, rtc_year, rtc_reg_b, reg_b_dm, reg_b_24h,
}

-- `reg_b` is the register that says whether numbers are binary.
unfoldable pub rtc_to_bcd : ℕ → ℕ → ℕ
rtc_to_bcd reg_b a =
    if has reg_b reg_b_dm then a else bit_or (u32 (int_quot a 10 * 16)) (int_rem a 10)

-- for a byte `a`
unfoldable pub rtc_from_bcd : ℕ → ℕ → ℕ
rtc_from_bcd reg_b a = if has reg_b reg_b_dm then a else a / 16 * 10 + a % 16

abbrev pub days_tab : List ℕ
days_tab = 31 ∷ 28 ∷ 31 ∷ 30 ∷ 31 ∷ 30 ∷ 31 ∷ 31 ∷ 30 ∷ 31 ∷ 30 ∷ 31 ∷ []

abbrev pub is_leap : ℕ → Bool
is_leap year = int_rem year 4 == 0 && (not (int_rem year 100 == 0) || int_rem year 400 == 0)

unfoldable pub get_days_in_month : ℕ → ℕ → ℕ
get_days_in_month month year =
    if leb 12 month
    then 31
    else if month == 1 && is_leap year
    then get_or days_tab month 0 + 1
    else get_or days_tab month 0

module _ (fit : TmTypes) where
  -- The hours: bit 7 is for the afternoon in the format of 12 hours.
  unfoldable pub set_hour : ℕ → ℕ → ℕ
  set_hour reg_b h =
      let hour = fit.small (rtc_from_bcd reg_b (h % 128)) in
      if not (has reg_b reg_b_24h) && has h 0x80 then fit.small (u32 (hour + 12)) else hour

  unfoldable pub rtc_set_time : RtcState → RtcState
  rtc_set_time s =
      let b = s.cmos_data rtc_reg_b in
      record s {
        current_tm = record {
          second = fit.small (rtc_from_bcd b (s.cmos_data rtc_seconds));
          minute = fit.small (rtc_from_bcd b (s.cmos_data rtc_minutes));
          hour = set_hour b (s.cmos_data rtc_hours);
          day = fit.small (rtc_from_bcd b (s.cmos_data rtc_day_of_month));
          month = fit.small (u32 (rtc_from_bcd b (s.cmos_data rtc_month) + (2 ^ 32 - 1)));
          year =
              fit.wide
                (u32 (rtc_from_bcd b (s.cmos_data rtc_year) + s.base_year + (2 ^ 32 - 1900)));
        };
      }

  -- `(tm->year - s->base_year) % 100`, in the arithmetic of the year's type
  unfoldable pub year_digits : ℕ → ℕ → ℕ
  year_digits year base_year =
      let d = u32 (year + (2 ^ 32 - base_year)) in
      let r = if fit.year_unsigned then d % 100 else int_rem d 100 in
      if int_lt r 0 then u32 (r + 100) else r

  -- what the register of the hours gets
  unfoldable pub copy_hour : ℕ → ℕ → ℕ
  copy_hour reg_b hour =
      if has reg_b reg_b_24h
      then u8 (rtc_to_bcd reg_b hour)
      else (let h = u8 (rtc_to_bcd reg_b (int_rem hour 12)) in
          if int_lt hour 12 then h else set_flag h 0x80)

  unfoldable pub rtc_copy_date : RtcState → RtcState
  rtc_copy_date s =
      let b = s.cmos_data rtc_reg_b in
      let tm = s.current_tm in
      poke rtc_year (rtc_to_bcd b (year_digits tm.year s.base_year)) (
        poke rtc_month (rtc_to_bcd b tm.month) (
          poke rtc_day_of_month (rtc_to_bcd b tm.day) (
            poke rtc_hours (copy_hour b tm.hour) (
              poke rtc_minutes (rtc_to_bcd b tm.minute)
                (poke rtc_seconds (rtc_to_bcd b tm.second) s)))))

  unfoldable pub next_month : Tm → Tm
  next_month tm =
      let t = record tm { day = fit.small 1; month = fit.small (u32 (tm.month + 1)) } in
      if int_lt t.month 12
      then t
      else record t { month = fit.small 0; year = fit.wide (u32 (t.year + 1)) }

  unfoldable pub next_day : Tm → Tm
  next_day tm =
      let t = record tm { day = fit.small (u32 (tm.day + 1)) } in
      if int_lt t.day 1
      then record t { day = fit.small 1 }
      else if int_lt (get_days_in_month tm.month (u32 (tm.year + 1900))) t.day
      then next_month t
      else t

  unfoldable pub next_hour : Tm → Tm
  next_hour tm =
      let t = record tm { hour = fit.small (u32 (tm.hour + 1)) } in
      if leb 24 t.hour then next_day (record t { hour = fit.small 0 }) else t

  unfoldable pub next_minute : Tm → Tm
  next_minute tm =
      let t = record tm { minute = fit.small (u32 (tm.minute + 1)) } in
      if leb 60 t.minute then next_hour (record t { minute = fit.small 0 }) else t

  unfoldable pub rtc_next_second : Tm → Tm
  rtc_next_second tm =
      let t = record tm { second = fit.small (u32 (tm.second + 1)) } in
      if leb 60 t.second then next_minute (record t { second = fit.small 0 }) else t
