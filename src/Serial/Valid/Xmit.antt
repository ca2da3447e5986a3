-- ===== src/Serial/Valid/Xmit.antt =====
-- The invariant through `serial_xmit` of serial.c.
use camkes_vm.Common.{ℕ, arith, [], ◌∷◌, set_flag}
use camkes_vm.Host.{now, tick}
use camkes_vm.Serial.State.{SerialState, lsr_temt}
use camkes_vm.Serial.Fifo.{fifo_get}
use camkes_vm.Serial.Fifo.Queue.{get_byte-InBounds}
use camkes_vm.Serial.Xmit.{load_tsr, send_tsr, finish_xmit, serial_xmit}
use camkes_vm.Serial.Valid.{IsValid}
use camkes_vm.Serial.Valid.Update.{serial_update_irq-IsValid}
use camkes_vm.Serial.Valid.Receive.{serial_receive1-IsValid}

load_tsr-IsValid : (s : SerialState) → IsValid s → IsValid (load_tsr s)
unfolding load_tsr fifo_get
load_tsr-IsValid s v = ground (arith, get_byte-InBounds s.xmit_fifo)

send_tsr-IsValid : (ts : ℕ) (s : SerialState) → IsValid s → IsValid (send_tsr ts s).1
unfolding send_tsr
send_tsr-IsValid ts s v = ground (arith, serial_receive1-IsValid (s.tsr ∷ []) s v.sound)

finish_xmit-IsValid : (s : SerialState) → IsValid s → IsValid (finish_xmit s)
unfolding finish_xmit
finish_xmit-IsValid s v = ground (
  arith,
  serial_update_irq-IsValid (record s {
    last_xmit_ts = now s.world;
    world = tick s.world;
    lsr = set_flag s.lsr lsr_temt;
    thr_ipending = 1;
  }),
)

pub serial_xmit-IsValid : (s : SerialState) → IsValid s → IsValid (serial_xmit s)
unfolding serial_xmit
serial_xmit-IsValid s v = ground (
  arith,
  send_tsr-IsValid (now s.world) (load_tsr t) (load_tsr-IsValid t w),
  finish_xmit-IsValid (send_tsr (now s.world) (load_tsr t)).1,
)
  where
    t : SerialState
    t = record s { world = tick s.world }

    w : IsValid t
    w = ground arith
