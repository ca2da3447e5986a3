-- ===== src/Rtc/Valid.antt =====
-- The invariant of the clock: the index is in the memory, no interrupt waits to be given again, and
-- the interrupt flag of register C comes with a high line.
pub mod Ports
pub mod Entry
pub mod Runs
use camkes_vm.Common.{ℕ, ◌<◌, ◌≡◌, Bool, true, false, arith, has, if◌then◌else◌}
use camkes_vm.Host.{level, irq_rtc}
use camkes_vm.Rtc.State.{TmTypes, Tm, RtcState, poke, rtc_reg_c, reg_c_irqf}
use camkes_vm.Rtc.Date.{rtc_set_time, rtc_copy_date}
use camkes_vm.Rtc.Periodic.{
  rtc_coalesced_timer, rtc_coalesced_timer_update, rtc_timer_update, scaled, pulse, square_wave,
  rtc_periodic_timer,
}
use camkes_vm.Rtc.Second.{ring_alarm, end_update, arm_second, rtc_update_second, rtc_update_second2}
use camkes_vm.Rtc.Ports.{
  write_time, write_reg_a, change_set, store_reg_b, write_reg_b, write_register, cmos_ioport_write,
  acknowledge, cmos_ioport_read,
}
use camkes_vm.Rtc.Entry.{
  rtc_set_memory, rtc_reset, rtc_set_date, rtc_set_date_from_host, rtc_initfn, rtc_pre_init,
  rtc_timer_interrupt,
}

pub record IsRtc (s : RtcState) : Type 0 where
  pub index_in : s.cmos_index < 128
  pub none_waits : s.irq_coalesced ≡ 0
  pub line_up : has (s.cmos_data rtc_reg_c) reg_c_irqf ≡ true → level irq_rtc s.world.log ≡ 1

IsRtc-if : (b : Bool) (s t : RtcState) → IsRtc s → IsRtc t → IsRtc (if b then s else t)
IsRtc-if true s t v w = v
IsRtc-if false s t v w = w

rtc_timer_update-IsRtc : (s : RtcState) (time : ℕ) → IsRtc s → IsRtc (rtc_timer_update s time)
unfolding rtc_timer_update scaled
rtc_timer_update-IsRtc s time v = record {
  index_in = ground (arith, v.index_in);
  none_waits = ground (arith, v.none_waits);
  line_up = λ e. ground (arith, v.line_up, e);
}

pulse-IsRtc : (s : RtcState) → IsRtc s → IsRtc (pulse s)
unfolding pulse
pulse-IsRtc s v = record {
  index_in = v.index_in;
  none_waits = v.none_waits;
  line_up = λ e. ground arith;
}

square_wave-IsRtc : (s : RtcState) → IsRtc s → IsRtc (square_wave s)
unfolding square_wave
square_wave-IsRtc s v = record {
  index_in = ground (arith, v.index_in);
  none_waits = ground (arith, v.none_waits);
  line_up = λ e. ground (arith, v.line_up, e);
}

rtc_periodic_timer-IsRtc : (s : RtcState) → IsRtc s → IsRtc (rtc_periodic_timer s)
unfolding rtc_periodic_timer
rtc_periodic_timer-IsRtc s v =
    let w = rtc_timer_update-IsRtc s s.next_periodic_time v in
    square_wave-IsRtc _ (IsRtc-if _ _ _ (pulse-IsRtc _ w) w)

rtc_coalesced_timer-IsRtc : (s : RtcState) → IsRtc s → IsRtc (rtc_coalesced_timer s)
unfolding rtc_coalesced_timer rtc_coalesced_timer_update
rtc_coalesced_timer-IsRtc s v = record {
  index_in = ground (arith, v.index_in, v.none_waits);
  none_waits = ground (arith, v.none_waits);
  line_up = λ e. ground (arith, v.line_up, v.none_waits, e);
}

ring_alarm-IsRtc : (s : RtcState) → IsRtc s → IsRtc (ring_alarm s)
unfolding ring_alarm
ring_alarm-IsRtc s v = record {
  index_in = ground (arith, v.index_in);
  none_waits = ground (arith, v.none_waits);
  line_up = λ e. ground (arith, v.line_up, e);
}

end_update-IsRtc : (s : RtcState) → IsRtc s → IsRtc (end_update s)
unfolding end_update
end_update-IsRtc s v = record {
  index_in = ground (arith, v.index_in);
  none_waits = ground (arith, v.none_waits);
  line_up = λ e. ground (arith, v.line_up, e);
}

arm_second-IsRtc : (s : RtcState) → IsRtc s → IsRtc (arm_second s)
unfolding arm_second
arm_second-IsRtc s v = record {
  index_in = v.index_in;
  none_waits = v.none_waits;
  line_up = v.line_up;
}

acknowledge-IsRtc : (s : RtcState) → IsRtc s → IsRtc (acknowledge s)
unfolding acknowledge
acknowledge-IsRtc s v = record {
  index_in = ground (arith, v.index_in);
  none_waits = ground (arith, v.none_waits);
  line_up = λ e. ground (arith, v.none_waits, e);
}

-- A read keeps the invariant.
pub cmos_ioport_read-IsRtc : (addr : ℕ) (s : RtcState) → IsRtc s → IsRtc (cmos_ioport_read addr s).1
unfolding cmos_ioport_read
cmos_ioport_read-IsRtc addr s v =
    let w = acknowledge-IsRtc s v in
    record {
      index_in = ground (arith, v.index_in, w.index_in);
      none_waits = ground (arith, v.none_waits, w.none_waits);
      line_up = λ e. ground (arith, v.line_up, w.line_up, e);
    }
