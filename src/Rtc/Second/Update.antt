-- ===== src/Rtc/Second/Update.antt =====
-- What `rtc_update_second2` leaves: the flags of register C, the line, and the next second.
use camkes_vm.Common.{
  ℕ, ap₂, leb, ◌==◌, ◌+◌, ◌-◌, ◌*◌, ◌/◌, ◌≡◌, ◌∙◌, u8, Bool, true, false, ◌&&◌, ◌||◌, some, arith,
  has, clear_flag, u64, if◌then◌else◌,
}
use camkes_vm.Host.{level, armed, irq_rtc, timer_second_timer}
use camkes_vm.Rtc.State.{
  TmTypes, RtcState, poke, rtc_reg_a, rtc_reg_b, rtc_reg_c, reg_a_uip, reg_b_set, reg_b_uie,
  reg_c_uf, reg_c_af, reg_c_irqf, get_ticks_per_sec,
}
use camkes_vm.Rtc.Date.{rtc_from_bcd, rtc_copy_date}
use camkes_vm.Rtc.Second.{
  alarm_field, alarm_matches, ring_alarm, end_update, arm_second, rtc_update_second2,
}

-- The number in a register: bit 2 of register B is set for binary numbers, else the digits are
-- decimal, and each ten is written as sixteen.
abbrev pub number : ℕ → ℕ → ℕ
number reg_b a = if has reg_b 4 then a else a - 6 * (a / 16)

-- Whether the alarm register at `index` is due at `value`: one with both top bits always is.
abbrev pub due : RtcState → ℕ → ℕ → Bool
due s index value =
    leb 192 (u8 (s.cmos_data index)) || number (s.cmos_data 11) (s.cmos_data index) == value

-- The registers 1, 3 and 5 are due at the second, the minute and the hour from 0 to 23.
unfoldable pub due_now : RtcState → Bool
due_now s = due s 1 s.current_tm.second && due s 3 s.current_tm.minute && due s 5 s.current_tm.hour

-- The alarm is enabled, by bit 5 of register B, and due.
abbrev pub rings : RtcState → Bool
rings s = has (s.cmos_data 11) 32 && due_now s

-- The update is enabled to interrupt.
abbrev pub reports : RtcState → Bool
reports s = has (s.cmos_data rtc_reg_b) reg_b_uie

-- What holds after the second half of an update that started in `s`.
pub record Updated (s t : RtcState) : Type 0 where
  pub not_in_progress : has (t.cmos_data rtc_reg_a) reg_a_uip ≡ false
  pub update_flag : has (t.cmos_data rtc_reg_c) reg_c_uf ≡ true
  pub alarm_flag :
      has (t.cmos_data rtc_reg_c) reg_c_af ≡ (has (s.cmos_data rtc_reg_c) reg_c_af || rings s)
  pub irq_flag :
      has (t.cmos_data rtc_reg_c) reg_c_irqf
      ≡ (has (s.cmos_data rtc_reg_c) reg_c_irqf || (rings s || reports s))
  pub line :
      level irq_rtc t.world.log ≡ (if rings s || reports s then 1 else level irq_rtc s.world.log)
  pub next_second :
      armed timer_second_timer t.world.log ≡ some (u64 (s.next_second_time + get_ticks_per_sec))

alarm_field-due :
    (s : RtcState) (index value : ℕ)
    → alarm_field (s.cmos_data 11) (s.cmos_data index) value ≡ due s index value
unfolding rtc_from_bcd
alarm_field-due s index value = ground arith

alarm_matches-due_now : (s : RtcState) → alarm_matches s ≡ due_now s
unfolding alarm_matches due_now
alarm_matches-due_now s =
    ap₂ (λ a b. a && b)
      (ap₂ (λ a b. a && b) (alarm_field-due s 1 s.current_tm.second)
        (alarm_field-due s 3 s.current_tm.minute))
      (alarm_field-due s 5 s.current_tm.hour)

cleared : (x : ℕ) → has (u8 (clear_flag x 0x80)) 0x80 ≡ false
cleared x = ground arith

ring_alarm-af :
    (s : RtcState)
    → has ((ring_alarm s).cmos_data rtc_reg_c) reg_c_af
      ≡ (has (s.cmos_data rtc_reg_c) reg_c_af || rings s)
unfolding ring_alarm
ring_alarm-af s = ground (arith, alarm_matches-due_now s)

end_update-af :
    (s : RtcState)
    → has ((end_update s).cmos_data rtc_reg_c) reg_c_af ≡ has (s.cmos_data rtc_reg_c) reg_c_af
unfolding end_update
end_update-af s = ground arith

-- The steps after the registers were copied.
finish :
    (t : RtcState)
    → Updated t (
        arm_second (
          poke rtc_reg_a
            (clear_flag ((end_update (ring_alarm t)).cmos_data rtc_reg_a) reg_a_uip)
            (end_update (ring_alarm t))))
unfolding end_update ring_alarm arm_second
finish t = record {
  not_in_progress = cleared ((end_update (ring_alarm t)).cmos_data rtc_reg_a);
  update_flag = ground arith;
  alarm_flag = end_update-af (ring_alarm t) ∙ ring_alarm-af t;
  irq_flag = ground (arith, alarm_matches-due_now t);
  line = ground (arith, alarm_matches-due_now t);
  next_second = ground arith;
}

-- Copying the registers changes nothing that the rest looks at.
Updated-copied :
    (fit : TmTypes) (b : Bool) (s u : RtcState)
    → Updated (if b then s else rtc_copy_date fit s) u
    → Updated s u
unfolding rtc_copy_date due_now
Updated-copied fit true s u v = v
Updated-copied fit false s u v = record {
  not_in_progress = v.not_in_progress;
  update_flag = v.update_flag;
  alarm_flag = v.alarm_flag;
  irq_flag = v.irq_flag;
  line = v.line;
  next_second = v.next_second;
}

-- The second half of an update clears the bit of an update in progress and sets the flag of the
-- update. It sets the flag of the alarm exactly when the alarm is enabled and each of its registers
-- has both top bits set or is, as a number in the format in use, the second, the minute or the hour
-- of the day: in the format of 12 hours too, where bit 7 is not taken for the afternoon. It sets the
-- interrupt flag, with a high line, exactly when it sets that of the alarm or the update is to
-- interrupt. A flag that was set stays set, and else the line is as before. The next update starts a
-- second later.
pub rtc_update_second2-Updated :
    (fit : TmTypes) (s : RtcState) → Updated s (rtc_update_second2 fit s)
unfolding rtc_update_second2
rtc_update_second2-Updated fit s =
    Updated-copied fit (has (s.cmos_data rtc_reg_b) reg_b_set) s (rtc_update_second2 fit s)
      (finish (if has (s.cmos_data rtc_reg_b) reg_b_set then s else rtc_copy_date fit s))
