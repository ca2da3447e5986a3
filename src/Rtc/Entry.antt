-- ===== src/Rtc/Entry.antt =====
-- The functions of mc146818rtc.c that the rest of the VMM calls, and the reset.
use camkes_vm.Common.{ℕ, ◌+◌, ◌*◌, ◌/◌, ◌^◌, u32, u64, has, clear_flag, leb, if◌then◌else◌, ◌==◌}
use camkes_vm.Host.{
  IoFault, handled, error, now, tick, emit, set_irq_level, oneshot_absolute, irq_rtc,
  timer_periodic_timer, timer_coalesced_timer, timer_second_timer, timer_second_timer2,
}
use camkes_vm.Rtc.State.{
  TmTypes, Tm, RtcState, poke, int_quot, rtc_reg_a, rtc_reg_b, rtc_reg_c, rtc_reg_d, reg_b_pie,
  reg_b_aie, reg_b_sqwe, reg_c_uf, reg_c_irqf, reg_c_pf, reg_c_af, rtc_td_hack, get_ticks_per_sec,
}
use camkes_vm.Rtc.Date.{rtc_to_bcd, rtc_copy_date}
use camkes_vm.Rtc.Periodic.{call, rtc_periodic_timer, rtc_coalesced_timer}
use camkes_vm.Rtc.Second.{rtc_update_second, rtc_update_second2}
use camkes_vm.Rtc.Ports.{cmos_ioport_read, cmos_ioport_write}

unfoldable pub rtc_set_memory : ℕ → ℕ → RtcState → RtcState
rtc_set_memory addr val s = if leb addr 127 then poke addr val s else s

unfoldable pub rtc_reset : RtcState → RtcState
rtc_reset s =
    let b =
      clear_flag (clear_flag (clear_flag (s.cmos_data rtc_reg_b) reg_b_pie) reg_b_aie) reg_b_sqwe in
    let c =
      clear_flag
        (clear_flag (clear_flag (clear_flag (s.cmos_data rtc_reg_c) reg_c_uf) reg_c_irqf) reg_c_pf)
        reg_c_af in
    let t = poke rtc_reg_c c (poke rtc_reg_b b s) in
    let u = call t (emit (set_irq_level irq_rtc 0) t.world) in
    if rtc_td_hack == 0 then u else record u { irq_coalesced = 0 }

module _ (fit : TmTypes) where
  unfoldable pub rtc_set_date : Tm → RtcState → RtcState
  rtc_set_date tm s = rtc_copy_date fit (record s { current_tm = tm })

  -- the century, in the arithmetic of the year's type
  unfoldable pub century : ℕ → ℕ
  century year = u32 ((if fit.year_unsigned then year / 100 else int_quot year 100) + 19)

  -- `host` is what `system_rtc_time_date` returns.
  unfoldable pub rtc_set_date_from_host : Tm → RtcState → RtcState
  rtc_set_date_from_host host s =
      let t = rtc_set_date host s in
      let val = rtc_to_bcd (t.cmos_data rtc_reg_b) (century host.year) in
      rtc_set_memory 0x37 val (rtc_set_memory 0x32 val t)

  unfoldable pub rtc_initfn : Tm → RtcState → RtcState
  rtc_initfn host s =
      let t =
        rtc_set_date_from_host host (
          poke rtc_reg_d 0x80
            (poke rtc_reg_c 0x00 (poke rtc_reg_b 0x02 (poke rtc_reg_a 0x26 s)))) in
      let time = u64 (now t.world + get_ticks_per_sec * 99 / 100) in
      record t {
        next_second_time = time;
        world = emit (oneshot_absolute timer_second_timer2 time) (tick t.world);
      }

  unfoldable pub rtc_pre_init : Tm → RtcState → RtcState
  rtc_pre_init host s = rtc_reset (rtc_initfn host (record s { base_year = 1900 }))

  unfoldable pub rtc_timer_interrupt : ℕ → RtcState → RtcState
  rtc_timer_interrupt completed s =
      let s1 = if has completed (2 ^ timer_periodic_timer) then rtc_periodic_timer s else s in
      let s2 = if has completed (2 ^ timer_coalesced_timer) then rtc_coalesced_timer s1 else s1 in
      let s3 = if has completed (2 ^ timer_second_timer) then rtc_update_second fit s2 else s2 in
      if has completed (2 ^ timer_second_timer2) then rtc_update_second2 fit s3 else s3

  -- Another size than a byte fails an assertion; the `error` stands for that.
  unfoldable pub cmos_port_in : ℕ → ℕ → RtcState → IoFault (ℕ × RtcState)
  cmos_port_in port_no size s = if size == 1 then handled (cmos_ioport_read port_no s) else error

  unfoldable pub cmos_port_out : ℕ → ℕ → ℕ → RtcState → IoFault RtcState
  cmos_port_out port_no size value s =
      if size == 1 then handled (cmos_ioport_write fit port_no value s) else error
