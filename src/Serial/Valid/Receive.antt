-- ===== src/Serial/Valid/Receive.antt =====
-- The invariant through the receiving side of serial.c, and the end of its loops.
use camkes_vm.Common.{ℕ, ◌≡◌, refl, arith, true, List, [], ◌∷◌, has, set_flag}
use camkes_vm.Serial.State.{SerialState, fcr_fe, lsr_dr}
use camkes_vm.Serial.Fifo.{recv, fifo_put}
use camkes_vm.Serial.Fifo.Queue.{put_byte-IsRing}
use camkes_vm.Serial.Receive.{put_all, serial_receive1, arm_fifo_timeout, fifo_timeout_int}
use camkes_vm.Serial.Valid.{HasWidths, IsSound, IsValid}
use camkes_vm.Serial.Valid.Update.{serial_update_irq-IsValid}

fifo_put-HasWidths : (c : ℕ) (s : SerialState) → HasWidths s → HasWidths (fifo_put recv c s)
unfolding fifo_put
fifo_put-HasWidths c s v = ground (arith, put_byte-IsRing c s.recv_fifo)

put_all-HasWidths : (cs : List ℕ) (s : SerialState) → HasWidths s → HasWidths (put_all cs s)
unfolding put_all
put_all-HasWidths [] s v = v
put_all-HasWidths (c ∷ cs) s v = put_all-HasWidths cs (fifo_put recv c s) (fifo_put-HasWidths c s v)

fcr-put_all : (cs : List ℕ) (s : SerialState) → (put_all cs s).fcr ≡ s.fcr
unfolding put_all fifo_put
fcr-put_all [] s = refl
fcr-put_all (c ∷ cs) s = fcr-put_all cs (fifo_put recv c s)

enabled-IsSound :
    (s : SerialState)
    → HasWidths s
    → has s.fcr fcr_fe ≡ true
    → IsSound (arm_fifo_timeout (record s { lsr = set_flag s.lsr lsr_dr }))
enabled-IsSound s v fe = ground arith

-- Characters that arrive keep the invariant.
pub serial_receive1-IsValid :
    (buf : List ℕ) (s : SerialState) → IsSound s → IsValid (serial_receive1 buf s)
unfolding serial_receive1
serial_receive1-IsValid buf s v = serial_update_irq-IsValid _ (
    ground (
      arith,
      enabled-IsSound (put_all buf s) (put_all-HasWidths buf s v.widths),
      fcr-put_all buf s,
    ))

pub fifo_timeout_int-IsValid : (s : SerialState) → IsValid s → IsValid (fifo_timeout_int s)
unfolding fifo_timeout_int
fifo_timeout_int-IsValid s v =
    ground (arith, serial_update_irq-IsValid (record s { timeout_ipending = 1 }))
