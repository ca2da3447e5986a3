-- ===== src/Events/Tests.antt =====
-- An event dispatched to devices that were initialised from zeros.
use camkes_vm.Common.{◌*◌, ◌/◌, ◌^◌, ◌+◌, [], ◌∷◌, replicate, pos, false, arith, refl}
use camkes_vm.Host.{World}
use camkes_vm.Serial.State.{SerialFifo, SerialState}
use camkes_vm.Serial.Receive.{GetcharBuf}
use camkes_vm.Serial.Receive.Buffer.{IsPage}
use camkes_vm.Serial.Entry.{serial_pre_init}
use camkes_vm.Serial.Valid.Entry.{serial_pre_init-IsValid}
use camkes_vm.Pit.State.{Arith, PitChannel, PitState}
use camkes_vm.Pit.Timer.{pit_pre_init}
use camkes_vm.Pit.Valid.{IsLoaded, pit_pre_init-IsPit}
use camkes_vm.Rtc.State.{TmTypes, Tm, RtcState}
use camkes_vm.Rtc.Entry.{rtc_pre_init}
use camkes_vm.Rtc.Valid.Entry.{rtc_pre_init-IsRtc}
use camkes_vm.Events.{Machine, Badges, handle_async_event}
use camkes_vm.Events.Timed.{IsMachine}
use camkes_vm.Events.Valid.{RunsValid, handle_async_event-RunsValid}

abbrev world : World
world = record { clock = λ n. 1000 * n; reads = 0; log = [] }

abbrev ratio : Arith
ratio = record { muldivu64 = λ a b c. a * b / c; round_down = λ n b. n / b * b }

abbrev exact_types : TmTypes
exact_types = record { small = λ n. n; wide = λ n. n; year_unsigned = false }

abbrev no_fifo : SerialFifo
no_fifo = record { buf = replicate 16 0; count = 0; itl = 0; tail = 0; head = 0 }

abbrev zero_serial : SerialState
zero_serial = record {
  divider = 0;
  rbr = 0;
  thr = 0;
  tsr = 0;
  ier = 0;
  iir = 0;
  lcr = 0;
  mcr = 0;
  lsr = 0;
  msr = 0;
  scr = 0;
  fcr = 0;
  thr_ipending = 0;
  last_break_enable = 0;
  baudbase = 0;
  tsr_retry = pos 0;
  last_xmit_ts = 0;
  recv_fifo = no_fifo;
  xmit_fifo = no_fifo;
  timeout_ipending = 0;
  char_transmit_time = 0;
  poll_msl = pos 0;
  serial_level = 0;
  chars_sent = 0;
  world = world;
}

abbrev zero_channel : PitChannel
zero_channel = record {
  count = 0;
  latched_count = 0;
  count_latched = 0;
  status_latched = 0;
  status = 0;
  read_state = 0;
  write_state = 0;
  write_latch = 0;
  rw_mode = 0;
  mode = 0;
  bcd = 0;
  gate = 0;
  count_load_time = 0;
  next_transition_time = 0;
  irq_timer = 0;
  irq_disabled = 0;
}

abbrev zero_pit : PitState
zero_pit = record {
  channel0 = zero_channel;
  channel1 = zero_channel;
  channel2 = zero_channel;
  world = world;
}

zero_pit-IsLoaded : IsLoaded zero_pit
zero_pit-IsLoaded = omega arith

abbrev epoch : Tm
epoch = record { second = 0; minute = 0; hour = 0; day = 1; month = 0; year = 70 }

abbrev zero_rtc : RtcState
zero_rtc = record {
  cmos_data = λ i. 0;
  cmos_index = 0;
  current_tm = epoch;
  base_year = 0;
  next_periodic_time = 0;
  next_second_time = 0;
  irq_reinject_on_ack_count = 0;
  irq_coalesced = 0;
  period = 0;
  world = world;
}

-- Two characters wait.
abbrev page : GetcharBuf
page = record { head = 0; tail = 2; chars = 72 ∷ 105 ∷ [] }

page-IsPage : IsPage page
page-IsPage = omega arith

abbrev machine : Machine
machine = record {
  pit = pit_pre_init ratio zero_pit;
  rtc = rtc_pre_init exact_types epoch zero_rtc;
  serial = serial_pre_init zero_serial;
  page = page;
  calls = [];
}

machine-IsMachine : IsMachine machine
machine-IsMachine = record {
  pit_valid = pit_pre_init-IsPit ratio zero_pit zero_pit-IsLoaded;
  rtc_valid = rtc_pre_init-IsRtc exact_types epoch zero_rtc (omega arith) refl;
  serial_valid = serial_pre_init-IsValid zero_serial (omega arith);
  page_valid = page-IsPage;
}

abbrev badges : Badges
badges = record {
  init_timer = 2 ^ 27 + 1;
  getchar = 2 ^ 27 + 2;
  irq_badges = (2 ^ 27 + 4) ∷ (2 ^ 27 + 8) ∷ [];
  devices = (2 ^ 27 + 16) ∷ [];
}

-- The timers and the console notify at once, with every timer off, and so do a line and a device.
handle_async_event-RunsValid_example :
    RunsValid ratio exact_types badges
      (2 ^ 27 + 27)
      511
      machine
      (handle_async_event ratio exact_types badges (2 ^ 27 + 27) 511 machine)
handle_async_event-RunsValid_example =
    handle_async_event-RunsValid ratio exact_types badges (2 ^ 27 + 27) 511 machine
      machine-IsMachine
