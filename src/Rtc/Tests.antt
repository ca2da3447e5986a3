-- ===== src/Rtc/Tests.antt =====
-- Concrete states of the clock at which the theorems apply.
use camkes_vm.Common.{◌+◌, ◌*◌, ◌/◌, ◌%◌, ◌≡◌, refl, arith, [], false, if◌then◌else◌, ◌==◌}
use camkes_vm.Host.{World}
use camkes_vm.Rtc.State.{TmTypes, IsTmTypes, Tm, RtcState}
use camkes_vm.Rtc.Ticks.{muldiv64}
use camkes_vm.Rtc.Ticks.Exact.{muldiv64-exact}
use camkes_vm.Rtc.Date.{get_days_in_month, rtc_set_time, rtc_copy_date, rtc_next_second}
use camkes_vm.Rtc.Date.Calendar.{IsDate, instant}
use camkes_vm.Rtc.Date.Next.{instant-rtc_next_second}
use camkes_vm.Rtc.Date.RoundTrip.{ReadBack, rtc_set_time-rtc_copy_date}
use camkes_vm.Rtc.Periodic.{rtc_periodic_timer, period_code}
use camkes_vm.Rtc.Periodic.Rearm.{GoesOn, rtc_periodic_timer-GoesOn}
use camkes_vm.Rtc.Second.{rtc_update_second2}
use camkes_vm.Rtc.Second.Update.{Updated, rtc_update_second2-Updated}
use camkes_vm.Rtc.Ports.{cmos_ioport_write, cmos_ioport_read}
use camkes_vm.Rtc.Entry.{rtc_pre_init, rtc_timer_interrupt}
use camkes_vm.Rtc.Valid.{IsRtc}
use camkes_vm.Rtc.Valid.Runs.{write, read, timer_went_off, here, next, rtc_pre_init-IsRtc-Run}

-- bytes, and 16 bits for the year
abbrev byte_types : TmTypes
byte_types = record { small = λ n. n % 256; wide = λ n. n % 65536; year_unsigned = false }

byte_types-IsTmTypes : IsTmTypes byte_types
byte_types-IsTmTypes = record { small_lem = λ n h. omega arith; wide_lem = λ n h. omega arith }

abbrev start_world : World
start_world = record { clock = λ n. 1000; reads = 0; log = [] }

-- the last second of 1999
abbrev last_second : Tm
last_second = record { second = 59; minute = 59; hour = 23; day = 31; month = 11; year = 99 }

last_second-IsDate : IsDate last_second
unfolding get_days_in_month
last_second-IsDate = record {
  second_in = omega arith;
  minute_in = omega arith;
  hour_in = omega arith;
  month_in = omega arith;
  day_from = omega arith;
  day_to = omega arith;
}

-- a rate of 1024 Hz, with the periodic interrupt enabled
abbrev rated : RtcState
rated = record {
  cmos_data = λ i. if i == 10 then 0x26 else if i == 11 then 0x42 else 0;
  cmos_index = 0;
  current_tm = last_second;
  base_year = 1900;
  next_periodic_time = 1000000;
  next_second_time = 2000000;
  irq_reinject_on_ack_count = 0;
  irq_coalesced = 0;
  period = 32;
  world = start_world;
}

instant-rtc_next_second_example :
    IsDate (rtc_next_second byte_types last_second)
    × (instant (rtc_next_second byte_types last_second) ≡ instant last_second + 1)
instant-rtc_next_second_example =
    instant-rtc_next_second byte_types byte_types-IsTmTypes last_second last_second-IsDate
      (omega arith)

muldiv64-exact_example : muldiv64 123456789012 32768 1000000000 ≡ 123456789012 * 32768 / 1000000000
muldiv64-exact_example =
    muldiv64-exact 123456789012 32768 1000000000 (omega arith) (omega arith) (omega arith)
      (omega arith) (omega arith)

rtc_periodic_timer-GoesOn_example : GoesOn rated (rtc_periodic_timer rated)
unfolding period_code
rtc_periodic_timer-GoesOn_example = rtc_periodic_timer-GoesOn rated refl (omega arith)

rtc_set_time-rtc_copy_date_example :
    ReadBack byte_types last_second
      (rtc_set_time byte_types (rtc_copy_date byte_types rated)).current_tm
rtc_set_time-rtc_copy_date_example =
    rtc_set_time-rtc_copy_date byte_types byte_types-IsTmTypes rated last_second-IsDate
      (omega arith) refl

rtc_update_second2-Updated_example : Updated rated (rtc_update_second2 byte_types rated)
rtc_update_second2-Updated_example = rtc_update_second2-Updated byte_types rated

abbrev set_up : RtcState
set_up = rtc_pre_init byte_types last_second rated

abbrev index_written : RtcState
index_written = cmos_ioport_write byte_types 0x70 12 set_up

abbrev expired : RtcState
expired = rtc_timer_interrupt byte_types 16 index_written

rtc_pre_init-IsRtc-Run_example : IsRtc (cmos_ioport_read 0x71 expired).1
rtc_pre_init-IsRtc-Run_example =
    rtc_pre_init-IsRtc-Run byte_types last_second rated (cmos_ioport_read 0x71 expired).1
      (omega arith) refl
      (next (next (next here (write 0x70 12 set_up)) (timer_went_off 16 index_written))
        (read 0x71 expired))
