-- ===== src/Rtc/Ports.antt =====
-- `cmos_ioport_write` and `cmos_ioport_read` of mc146818rtc.c.
use camkes_vm.Common.{
  ℕ, ◌+◌, ◌%◌, Bool, not, ◌&&◌, ◌||◌, has, clear_flag, leb, ltb, if◌then◌else◌, ◌==◌,
}
use camkes_vm.Host.{now, tick, emit, set_irq_level, irq_rtc}
use camkes_vm.Rtc.State.{
  TmTypes, RtcState, poke, rtc_seconds, rtc_minutes, rtc_hours, rtc_year, rtc_reg_a, rtc_reg_b,
  rtc_reg_c, rtc_reg_d, reg_a_uip, reg_b_set, reg_b_uie, reg_b_dm, reg_b_24h,
  rtc_reinject_on_ack_count,
}
use camkes_vm.Rtc.Date.{rtc_set_time, rtc_copy_date}
use camkes_vm.Rtc.Periodic.{call, raise, rtc_timer_update}

-- The registers of the time: the seconds, minutes and hours, and those from the day of the week
-- to the year.
abbrev pub is_time_reg : ℕ → Bool
is_time_reg i =
    i == rtc_seconds || i == rtc_minutes || i == rtc_hours || (leb 6 i && leb i rtc_year)

abbrev pub differs : ℕ → ℕ → ℕ → Bool
differs a b m = if has a m then not (has b m) else has b m

-- `rtc_timer_update(s, init_timer_time())`
abbrev pub update_now : RtcState → RtcState
update_now s = rtc_timer_update (call s (tick s.world)) (now s.world)

unfoldable pub write_reg_a : ℕ → RtcState → RtcState
write_reg_a val s = update_now (
    poke rtc_reg_a (val % 128 + (if has (s.cmos_data rtc_reg_a) reg_a_uip then reg_a_uip else 0)) s)

module _ (fit : TmTypes) where
  unfoldable pub write_time : ℕ → ℕ → RtcState → RtcState
  write_time i val s =
      let t = poke i val s in
      if has (t.cmos_data rtc_reg_b) reg_b_set then t else rtc_set_time fit t

  -- What changes before register B is written.
  unfoldable pub change_set : ℕ → RtcState → RtcState
  change_set val s =
      if has val reg_b_set
      then poke rtc_reg_a (clear_flag (s.cmos_data rtc_reg_a) reg_a_uip) s
      else if has (s.cmos_data rtc_reg_b) reg_b_set
      then rtc_set_time fit s
      else s

  -- Register B is written, and a change of the format is carried out.
  unfoldable pub store_reg_b : ℕ → RtcState → RtcState
  store_reg_b val s =
      let b = s.cmos_data rtc_reg_b in
      let t = poke rtc_reg_b val s in
      if (differs b val reg_b_dm || differs b val reg_b_24h) && not (has val reg_b_set)
      then rtc_copy_date fit t
      else t

  unfoldable pub write_reg_b : ℕ → RtcState → RtcState
  write_reg_b val s =
      update_now (
        store_reg_b (if has val reg_b_set then clear_flag val reg_b_uie else val)
          (change_set val s))

  unfoldable pub write_register : ℕ → RtcState → RtcState
  write_register val s =
      let i = s.cmos_index in
      if is_time_reg i
      then write_time i val s
      else if i == rtc_reg_a
      then write_reg_a val s
      else if i == rtc_reg_b
      then write_reg_b val s
      else if i == rtc_reg_c || i == rtc_reg_d
      then s
      else poke i val s

  unfoldable pub cmos_ioport_write : ℕ → ℕ → RtcState → RtcState
  cmos_ioport_write addr val s =
      if addr % 2 == 0 then record s { cmos_index = val % 128 } else write_register val s

-- A read of register C takes the interrupts back, unless one is given again.
unfoldable pub acknowledge : RtcState → RtcState
acknowledge s =
    let t = call s (emit (set_irq_level irq_rtc 0) s.world) in
    if not (t.irq_coalesced == 0) && ltb t.irq_reinject_on_ack_count rtc_reinject_on_ack_count
    then raise (record t { irq_reinject_on_ack_count = t.irq_reinject_on_ack_count + 1 })
    else poke rtc_reg_c 0 t

unfoldable pub cmos_ioport_read : ℕ → RtcState → ℕ × RtcState
cmos_ioport_read addr s =
    if addr % 2 == 0
    then (0xff, s)
    else (s.cmos_data s.cmos_index, if s.cmos_index == rtc_reg_c then acknowledge s else s)
