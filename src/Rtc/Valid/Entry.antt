-- ===== src/Rtc/Valid/Entry.antt =====
-- The invariant of the clock through the functions that the rest of the VMM calls.
use camkes_vm.Common.{ℕ, Bool, ◌<◌, ◌≡◌, ◌^◌, arith, has, if◌then◌else◌}
use camkes_vm.Host.{
  timer_periodic_timer, timer_coalesced_timer, timer_second_timer, timer_second_timer2,
}
use camkes_vm.Rtc.State.{TmTypes, Tm, RtcState, rtc_reg_a, rtc_reg_b, reg_b_set}
use camkes_vm.Rtc.Date.{rtc_copy_date}
use camkes_vm.Rtc.Periodic.{rtc_coalesced_timer, rtc_periodic_timer}
use camkes_vm.Rtc.Second.{rtc_update_second, rtc_update_second2}
use camkes_vm.Rtc.Entry.{
  rtc_set_memory, rtc_reset, rtc_set_date, rtc_set_date_from_host, rtc_initfn, rtc_pre_init,
  rtc_timer_interrupt,
}
use camkes_vm.Rtc.Valid.{
  IsRtc, IsRtc-if, rtc_periodic_timer-IsRtc, rtc_coalesced_timer-IsRtc, ring_alarm-IsRtc,
  end_update-IsRtc, arm_second-IsRtc,
}
use camkes_vm.Rtc.Valid.Ports.{poke-IsRtc, rtc_copy_date-IsRtc}

-- The function of a timer, called if the timer went off.
if_off-IsRtc :
    (off : Bool) (f : RtcState → RtcState) (s : RtcState)
    → ((t : RtcState) → IsRtc t → IsRtc (f t))
    → IsRtc s
    → IsRtc (if off then f s else s)
if_off-IsRtc off f s keep v = IsRtc-if off (f s) s (keep s v) v

module _ (fit : TmTypes) where
  rtc_update_second-IsRtc : (s : RtcState) → IsRtc s → IsRtc (rtc_update_second fit s)
  unfolding rtc_update_second
  rtc_update_second-IsRtc s v =
      let w = arm_second-IsRtc s v in
      record {
        index_in = ground (arith, v.index_in, w.index_in);
        none_waits = ground (arith, v.none_waits, w.none_waits);
        line_up = λ e. ground (arith, v.line_up, w.line_up, e);
      }

  rtc_update_second2-IsRtc : (s : RtcState) → IsRtc s → IsRtc (rtc_update_second2 fit s)
  unfolding rtc_update_second2
  rtc_update_second2-IsRtc s v = arm_second-IsRtc _ (
      poke-IsRtc rtc_reg_a _ _ (λ e. absurd (omega (arith, e)))
        (end_update-IsRtc _ (
          ring_alarm-IsRtc
            (if has (s.cmos_data rtc_reg_b) reg_b_set then s else rtc_copy_date fit s)
            (IsRtc-if _ s (rtc_copy_date fit s) v (rtc_copy_date-IsRtc fit s v)))))

  -- The timer interrupt keeps the invariant, for every set of timers that went off.
  pub rtc_timer_interrupt-IsRtc :
      (completed : ℕ) (s : RtcState) → IsRtc s → IsRtc (rtc_timer_interrupt fit completed s)
  unfolding rtc_timer_interrupt
  rtc_timer_interrupt-IsRtc completed s v =
      let s1 : RtcState =
        if has completed (2 ^ timer_periodic_timer) then rtc_periodic_timer s else s in
      let s2 : RtcState =
        if has completed (2 ^ timer_coalesced_timer) then rtc_coalesced_timer s1 else s1 in
      let s3 : RtcState =
        if has completed (2 ^ timer_second_timer) then rtc_update_second fit s2 else s2 in
      let v1 =
        if_off-IsRtc (has completed (2 ^ timer_periodic_timer)) rtc_periodic_timer s
          rtc_periodic_timer-IsRtc v in
      let v2 =
        if_off-IsRtc (has completed (2 ^ timer_coalesced_timer)) rtc_coalesced_timer s1
          rtc_coalesced_timer-IsRtc v1 in
      let v3 =
        if_off-IsRtc (has completed (2 ^ timer_second_timer)) (rtc_update_second fit) s2
          rtc_update_second-IsRtc v2 in
      if_off-IsRtc (has completed (2 ^ timer_second_timer2)) (rtc_update_second2 fit) s3
        rtc_update_second2-IsRtc v3

  -- From a state with no interrupt to give again and an index in the memory, as zeros are, the
  -- initialisation of the clock sets the invariant up.
  pub rtc_pre_init-IsRtc :
      (host : Tm) (s : RtcState)
      → s.cmos_index < 128
      → s.irq_coalesced ≡ 0
      → IsRtc (rtc_pre_init fit host s)
  unfolding rtc_pre_init rtc_reset rtc_initfn rtc_set_date_from_host rtc_set_memory rtc_set_date
      rtc_copy_date
  rtc_pre_init-IsRtc host s h k = record {
    index_in = h;
    none_waits = k;
    line_up = λ e. absurd (ground (arith, e));
  }
