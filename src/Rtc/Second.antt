-- ===== src/Rtc/Second.antt =====
-- `rtc_update_second` and `rtc_update_second2` of mc146818rtc.c: the clock moves on by a second,
-- and then the registers, the alarm and the interrupt follow.
pub mod Update
use camkes_vm.Common.{
  ℕ, ◌+◌, ◌/◌, ◌%◌, ◌^◌, Bool, ◌&&◌, ◌||◌, u64, has, set_flag, clear_flag, if◌then◌else◌, ◌==◌,
}
use camkes_vm.Host.{emit, oneshot_absolute, timer_second_timer, timer_second_timer2}
use camkes_vm.Rtc.State.{
  TmTypes, RtcState, poke, rtc_seconds_alarm, rtc_minutes_alarm, rtc_hours_alarm, rtc_reg_a,
  rtc_reg_b, rtc_reg_c, reg_a_uip, reg_b_set, reg_b_aie, reg_b_uie, reg_c_uf, reg_c_irqf, reg_c_af,
  get_ticks_per_sec,
}
use camkes_vm.Rtc.Date.{rtc_from_bcd, rtc_copy_date, rtc_next_second}
use camkes_vm.Rtc.Periodic.{call, raise}

-- a hundredth of a second
abbrev pub delay : ℕ
delay = get_ticks_per_sec / 100

-- A match with an alarm register, or the register says that any value will do.
abbrev pub alarm_field : ℕ → ℕ → ℕ → Bool
alarm_field reg_b alarm value = alarm / 64 % 4 == 3 || rtc_from_bcd reg_b alarm == value

unfoldable pub alarm_matches : RtcState → Bool
alarm_matches s =
    let b = s.cmos_data rtc_reg_b in
    alarm_field b (s.cmos_data rtc_seconds_alarm) s.current_tm.second
    && alarm_field b (s.cmos_data rtc_minutes_alarm) s.current_tm.minute
    && alarm_field b (s.cmos_data rtc_hours_alarm) s.current_tm.hour

-- `cmos_data[RTC_REG_C] |= 0xa0`
unfoldable pub ring_alarm : RtcState → RtcState
ring_alarm s =
    if has (s.cmos_data rtc_reg_b) reg_b_aie && alarm_matches s
    then raise (poke rtc_reg_c (set_flag (set_flag (s.cmos_data rtc_reg_c) reg_c_irqf) reg_c_af) s)
    else s

unfoldable pub end_update : RtcState → RtcState
end_update s =
    let t = poke rtc_reg_c (set_flag (s.cmos_data rtc_reg_c) reg_c_uf) s in
    if has (t.cmos_data rtc_reg_b) reg_b_uie
    then raise (poke rtc_reg_c (set_flag (t.cmos_data rtc_reg_c) reg_c_irqf) t)
    else t

-- The next second, at which the update starts.
unfoldable pub arm_second : RtcState → RtcState
arm_second s =
    let time = u64 (s.next_second_time + get_ticks_per_sec) in
    record s {
      next_second_time = time;
      world = emit (oneshot_absolute timer_second_timer time) s.world;
    }

module _ (fit : TmTypes) where
  unfoldable pub rtc_update_second : RtcState → RtcState
  rtc_update_second s =
      if s.cmos_data rtc_reg_a / 16 % 8 == 2
      then (let t = record s { current_tm = rtc_next_second fit s.current_tm } in
          let u =
            if has (t.cmos_data rtc_reg_b) reg_b_set
            then t
            else poke rtc_reg_a (set_flag (t.cmos_data rtc_reg_a) reg_a_uip) t in
          call u (
            emit (oneshot_absolute timer_second_timer2 (u64 (u.next_second_time + delay))) u.world))
      else arm_second s

  unfoldable pub rtc_update_second2 : RtcState → RtcState
  rtc_update_second2 s =
      let t = if has (s.cmos_data rtc_reg_b) reg_b_set then s else rtc_copy_date fit s in
      let u = end_update (ring_alarm t) in
      arm_second (poke rtc_reg_a (clear_flag (u.cmos_data rtc_reg_a) reg_a_uip) u)
