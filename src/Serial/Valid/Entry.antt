-- ===== src/Serial/Valid/Entry.antt =====
-- The invariant through the functions of serial.c that the rest of the VMM calls.
use camkes_vm.Common.{ℕ, ◌≡◌, refl, Option, some, arith, Bool, true, false, if◌then◌else◌}
use camkes_vm.Host.{
  level, irq_tty_s0, timer_fifo_timeout, timer_transmit_timer, timer_modem_status_timer,
  timer_more_chars,
}
use camkes_vm.Serial.State.{SerialState}
use camkes_vm.Serial.Fifo.{fifo_clear}
use camkes_vm.Serial.Fifo.Queue.{clear_fifo-IsRing}
use camkes_vm.Serial.Receive.{GetcharBuf, receive_pending}
use camkes_vm.Serial.Receive.Buffer.{IsPage}
use camkes_vm.Serial.Receive.Drain.{receive_pending_ends}
use camkes_vm.Serial.Xmit.{serial_xmit}
use camkes_vm.Serial.Entry.{serial_reset, serial_pre_init, serial_timer_interrupt, went_off}
use camkes_vm.Serial.Valid.{IsValid}
use camkes_vm.Serial.Valid.Update.{serial_update_msl-IsValid}
use camkes_vm.Serial.Valid.Receive.{fifo_timeout_int-IsValid}
use camkes_vm.Serial.Valid.Xmit.{serial_xmit-IsValid}

-- What the loader leaves in the static variable: zeros. Only the FIFO control register matters
-- beyond what `serial_reset` sets.
pub record IsFresh (s : SerialState) : Type 0 where
  pub fcr_zero : s.fcr ≡ 0
  pub line_low : level irq_tty_s0 s.world.log ≡ 0

-- `serial_pre_init` sets the invariant up.
pub serial_pre_init-IsValid : (s : SerialState) → IsFresh s → IsValid (serial_pre_init s)
unfolding serial_pre_init serial_reset fifo_clear
serial_pre_init-IsValid s v =
    serial_update_msl-IsValid _
      (ground (arith, clear_fifo-IsRing s.recv_fifo, clear_fifo-IsRing s.xmit_fifo))

IsValid-if : (b : Bool) (s t : SerialState) → IsValid s → IsValid t → IsValid (if b then s else t)
IsValid-if true s t v w = v
IsValid-if false s t v w = w

abbrev pub EndsValid : Option (SerialState × GetcharBuf) → Type 0
EndsValid o = (t : SerialState) × (q : GetcharBuf) × (o ≡ some (t, q)) × IsValid t × IsPage q

pub receive_pending-EndsValid :
    (s : SerialState) (b : GetcharBuf) → IsValid s → IsPage b → EndsValid (receive_pending s b)
receive_pending-EndsValid s b v w =
    let (t, q, e, valid, page, _) = receive_pending_ends s b v w in (t, q, e, valid, page)

EndsValid-if :
    (b : Bool) (o p : Option (SerialState × GetcharBuf))
    → EndsValid o
    → EndsValid p
    → EndsValid (if b then o else p)
EndsValid-if true o p v w = v
EndsValid-if false o p v w = w

after_transmit : (s : SerialState) → IsValid s → IsValid (serial_xmit (record s { chars_sent = 0 }))
after_transmit s v = serial_xmit-IsValid _ (ground arith)

-- The timer interrupt returns for every set of timers that went off, and keeps the invariants of
-- the UART and of the page.
pub serial_timer_interrupt-EndsValid :
    (completed : ℕ) (s : SerialState) (b : GetcharBuf)
    → IsValid s
    → IsPage b
    → EndsValid (serial_timer_interrupt completed s b)
unfolding serial_timer_interrupt
serial_timer_interrupt-EndsValid completed s b v w =
    let v₁ =
      IsValid-if (went_off completed timer_fifo_timeout) _ _ (fifo_timeout_int-IsValid s v) v in
    let v₂ = IsValid-if (went_off completed timer_transmit_timer) _ _ (after_transmit _ v₁) v₁ in
    let v₃ =
      IsValid-if (went_off completed timer_modem_status_timer) _ _ (serial_update_msl-IsValid _ v₂)
        v₂ in
    EndsValid-if (went_off completed timer_more_chars) _ _ (receive_pending-EndsValid _ b v₃ w)
      (_, b, refl, v₃, w)
