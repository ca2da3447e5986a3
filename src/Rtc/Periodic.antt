-- ===== src/Rtc/Periodic.antt =====
-- The periodic and the coalesced timer of mc146818rtc.c.
pub mod Rearm
use camkes_vm.Common.{
  ℕ, ◌+◌, ◌-◌, ◌*◌, ◌/◌, ◌%◌, ◌^◌, Bool, not, ◌&&◌, u32, u64, min, has, set_flag, leb,
  if◌then◌else◌, ◌==◌,
}
use camkes_vm.Host.{
  World, now, tick, emit, stop, oneshot_absolute, set_irq_level, timer_periodic_timer,
  timer_coalesced_timer, irq_rtc,
}
use camkes_vm.Rtc.State.{
  RtcState, poke, rtc_reg_a, rtc_reg_b, rtc_reg_c, reg_b_pie, reg_b_sqwe, rtc_td_hack,
  rtc_reinject_on_ack_count, get_ticks_per_sec,
}
use camkes_vm.Rtc.Ticks.{muldiv64}

abbrev pub call : RtcState → World → RtcState
call s w = record s { world = w }

abbrev pub raise : RtcState → RtcState
raise s = call s (emit (set_irq_level irq_rtc 1) s.world)

-- `cmos_data[RTC_REG_C] |= 0xc0`
abbrev pub flag_periodic : RtcState → RtcState
flag_periodic s = poke rtc_reg_c (set_flag (set_flag (s.cmos_data rtc_reg_c) 0x80) 0x40) s

unfoldable pub rtc_coalesced_timer_update : RtcState → RtcState
rtc_coalesced_timer_update s =
    if s.irq_coalesced == 0
    then call s (emit (stop timer_coalesced_timer) s.world)
    else (let c = min s.irq_coalesced 7 + 1 in
        let next_clock = u64 (now s.world + muldiv64 (s.period / c) get_ticks_per_sec 32768) in
        call s (emit (oneshot_absolute timer_coalesced_timer next_clock) (tick s.world)))

unfoldable pub rtc_coalesced_timer : RtcState → RtcState
rtc_coalesced_timer s =
    rtc_coalesced_timer_update (if s.irq_coalesced == 0 then s else raise (flag_periodic s))

-- The period in cycles of the 32 kHz clock, for the code in register A.
unfoldable pub period_of : ℕ → ℕ
period_of code = 2 ^ ((if leb code 2 then code + 7 else code) - 1)

-- The next multiple of the period, in those cycles. A period is a power of two, so the mask is a
-- rounding.
unfoldable pub next_irq_clock : ℕ → ℕ → ℕ
next_irq_clock period current_time =
    u64 (muldiv64 current_time 32768 get_ticks_per_sec / period * period + period)

unfoldable pub periodic_time : ℕ → ℕ → ℕ
periodic_time period current_time =
    u64 (muldiv64 (next_irq_clock period current_time) get_ticks_per_sec 32768 + 1)

-- The interrupts that were missed, in the new period.
unfoldable pub scaled : ℕ → RtcState → ℕ
scaled period s =
    if period == s.period then s.irq_coalesced else u32 (s.irq_coalesced * s.period) / period

unfoldable pub period_code : RtcState → ℕ
period_code s = s.cmos_data rtc_reg_a % 16

abbrev pub is_periodic : RtcState → Bool
is_periodic s = not (period_code s == 0) && has (s.cmos_data rtc_reg_b) reg_b_pie

unfoldable pub rtc_timer_update : RtcState → ℕ → RtcState
rtc_timer_update s current_time =
    let period = period_of (period_code s) in
    let time = periodic_time period current_time in
    if is_periodic s
    then record s {
      irq_coalesced = scaled period s;
      period = period;
      next_periodic_time = time;
      world = emit (oneshot_absolute timer_periodic_timer time) s.world;
    }
    else record s { irq_coalesced = 0; world = emit (stop timer_periodic_timer) s.world }

-- The interrupt; the count is reset only under the hack, which is off.
unfoldable pub pulse : RtcState → RtcState
pulse s =
    let t = flag_periodic s in
    raise (
      if not (rtc_td_hack == 0) && leb rtc_reinject_on_ack_count t.irq_reinject_on_ack_count
      then record t { irq_reinject_on_ack_count = 0 }
      else t)

unfoldable pub square_wave : RtcState → RtcState
square_wave s = if has (s.cmos_data rtc_reg_b) reg_b_sqwe then raise s else s

unfoldable pub rtc_periodic_timer : RtcState → RtcState
rtc_periodic_timer s =
    let t = rtc_timer_update s s.next_periodic_time in
    square_wave (if has (t.cmos_data rtc_reg_b) reg_b_pie then pulse t else t)
