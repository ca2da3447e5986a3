-- ===== src/Serial/Tests.antt =====
-- Runs of the UART model of serial.c, and its theorems at concrete states.
use camkes_vm.Common.{◌*◌, ◌≡◌, ◌⊎◌, refl, some, [], ◌∷◌, ◌++◌, arith, replicate, pos}
use camkes_vm.Host.{World}
use camkes_vm.Serial.Valid.Entry.{EndsValid}
use camkes_vm.Serial.Runs.{
  read, write, timers_went_off, characters_came, accesses, serial_pre_init-EndsValid,
}
use camkes_vm.Serial.State.{SerialFifo, SerialState}
use camkes_vm.Serial.Fifo.Queue.{IsRing, contents}
use camkes_vm.Serial.Fifo.Run.{put, get, returned, spec_returned, returned_refines}
use camkes_vm.Serial.Receive.{GetcharBuf, serial_can_receive, receive_pending}
use camkes_vm.Serial.Receive.Buffer.{IsPage, waiting}
use camkes_vm.Serial.Receive.Drain.{receive_pending_ends, receive_pending_order}
use camkes_vm.Serial.Entry.{serial_pre_init}
use camkes_vm.Serial.Valid.{IsValid}

abbrev idle_fifo : SerialFifo
idle_fifo = record { buf = replicate 16 0; count = 0; itl = 1; tail = 0; head = 0 }

abbrev world : World
world = record { clock = λ n. 1000 * n; reads = 0; log = [] }

-- The UART with its registers as after a reset.
abbrev plain : SerialState
plain = record {
  divider = 12;
  rbr = 0;
  thr = 0;
  tsr = 0;
  ier = 0;
  iir = 1;
  lcr = 0;
  mcr = 8;
  lsr = 0x60;
  msr = 0xB0;
  scr = 0;
  fcr = 0;
  thr_ipending = 0;
  last_break_enable = 0;
  baudbase = 115200;
  tsr_retry = pos 0;
  last_xmit_ts = 0;
  recv_fifo = idle_fifo;
  xmit_fifo = idle_fifo;
  timeout_ipending = 0;
  char_transmit_time = 1041660;
  poll_msl = pos 0;
  serial_level = 0;
  chars_sent = 0;
  world = world;
}

-- The same with the queues enabled.
abbrev queued : SerialState
queued = record plain { fcr = 1 }

-- The same with the divisor latch open.
abbrev latched : SerialState
latched = record plain { lcr = 0x83 }

-- The page with the characters `H` and `i`.
abbrev page : GetcharBuf
page = record { head = 0; tail = 2; chars = b'H' ∷ b'i' ∷ [] }

plain-IsValid : IsValid plain
plain-IsValid = ground arith

queued-IsValid : IsValid queued
queued-IsValid = ground arith

latched-IsValid : IsValid latched
latched-IsValid = ground arith

page-IsPage : IsPage page
page-IsPage = omega arith

idle-IsRing : IsRing idle_fifo
idle-IsRing = omega arith

serial_pre_init-EndsValid_example : EndsValid (
    accesses
      (write 0 b'A' ∷ read 6 ∷ characters_came ∷ timers_went_off 1 ∷ [])
      (some (serial_pre_init plain, page)))
serial_pre_init-EndsValid_example =
    serial_pre_init-EndsValid plain page
      (write 0 b'A' ∷ read 6 ∷ characters_came ∷ timers_went_off 1 ∷ []) (omega arith) page-IsPage

receive_pending_ends_example :
    (t : SerialState) × (q : GetcharBuf) × (receive_pending queued page ≡ some (t, q))
    × IsValid t
    × IsPage q
    × ((serial_can_receive t ≡ 0) ⊎ (waiting q ≡ []))
receive_pending_ends_example = receive_pending_ends queued page queued-IsValid page-IsPage

receive_pending_order_example :
    (t : SerialState) × (q : GetcharBuf) × (receive_pending queued page ≡ some (t, q))
    × (contents t.recv_fifo ++ waiting q ≡ contents queued.recv_fifo ++ waiting page)
receive_pending_order_example = receive_pending_order queued page queued-IsValid page-IsPage refl

returned_refines_example :
    returned (put 7 ∷ put 8 ∷ get ∷ get ∷ get ∷ []) idle_fifo
    ≡ spec_returned (put 7 ∷ put 8 ∷ get ∷ get ∷ get ∷ []) []
returned_refines_example =
    returned_refines (put 7 ∷ put 8 ∷ get ∷ get ∷ get ∷ []) idle_fifo idle-IsRing

-- The bytes 0 to 15 in the transmit queue.
abbrev full_fifo : SerialFifo
full_fifo = record idle_fifo {
  buf = 0 ∷ 1 ∷ 2 ∷ 3 ∷ 4 ∷ 5 ∷ 6 ∷ 7 ∷ 8 ∷ 9 ∷ 10 ∷ 11 ∷ 12 ∷ 13 ∷ 14 ∷ 15 ∷ [];
  count = 16;
}

abbrev spent : SerialState
spent = record plain { chars_sent = 16; thr = b'B' }
