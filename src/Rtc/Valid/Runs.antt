-- ===== src/Rtc/Valid/Runs.antt =====
-- The clock of mc146818rtc.c over any sequence of accesses and timer interrupts.
use camkes_vm.Common.{ℕ, ◌<◌, ◌≡◌}
use camkes_vm.Rtc.State.{TmTypes, Tm, RtcState}
use camkes_vm.Rtc.Ports.{cmos_ioport_write, cmos_ioport_read}
use camkes_vm.Rtc.Entry.{rtc_pre_init, rtc_timer_interrupt}
use camkes_vm.Rtc.Valid.{IsRtc, cmos_ioport_read-IsRtc}
use camkes_vm.Rtc.Valid.Ports.{cmos_ioport_write-IsRtc}
use camkes_vm.Rtc.Valid.Entry.{rtc_timer_interrupt-IsRtc, rtc_pre_init-IsRtc}

module _ (fit : TmTypes) where
  -- One access of the guest, or a timer interrupt for a set of timers.
  pub data Step : RtcState → RtcState → Type 0 where
    write : (addr val : ℕ) (s : RtcState) → Step s (cmos_ioport_write fit addr val s)
    read : (addr : ℕ) (s : RtcState) → Step s (cmos_ioport_read addr s).1
    timer_went_off : (completed : ℕ) (s : RtcState) → Step s (rtc_timer_interrupt fit completed s)

  pub data Run (s : RtcState) : RtcState → Type 0 where
    here : Run s s
    next : {t u : RtcState} → Run s t → Step t u → Run s u

  Step-IsRtc : {s t : RtcState} → Step s t → IsRtc s → IsRtc t
  Step-IsRtc (write addr val s) v = cmos_ioport_write-IsRtc fit addr val s v
  Step-IsRtc (read addr s) v = cmos_ioport_read-IsRtc addr s v
  Step-IsRtc (timer_went_off completed s) v = rtc_timer_interrupt-IsRtc fit completed s v

  Run-IsRtc : {s t : RtcState} → Run s t → IsRtc s → IsRtc t
  Run-IsRtc here v = v
  Run-IsRtc (next r e) v = Step-IsRtc e (Run-IsRtc r v)

  -- From zeros, as far as the index and the interrupts to give again go, every state that the
  -- initialisation of the clock and any sequence of reads, writes and timer interrupts lead to
  -- keeps the invariant: the index is in the memory, no interrupt waits to be given again, and with
  -- the interrupt flag the line is high.
  pub rtc_pre_init-IsRtc-Run :
      (host : Tm) (s t : RtcState)
      → s.cmos_index < 128
      → s.irq_coalesced ≡ 0
      → Run (rtc_pre_init fit host s) t
      → IsRtc t
  rtc_pre_init-IsRtc-Run host s t h k r = Run-IsRtc r (rtc_pre_init-IsRtc fit host s h k)
