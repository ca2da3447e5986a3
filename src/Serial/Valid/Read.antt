-- ===== src/Serial/Valid/Read.antt =====
-- The invariant through `serial_ioport_read` of serial.c.
use camkes_vm.Common.{
  ℕ, ◌*◌, ◌/◌, ◌≡◌, ◌<◌, arith, clear_flag, has, ◌==◌, if◌then◌else◌, Bool, true, false, ◌||◌, ◌%◌,
  Bool-cases, inl, inr,
}
use camkes_vm.Serial.State.{SerialState, lsr_bi, lsr_oe, lsr_dr, lcr_dlab, mcr_loop, fcr_fe}
use camkes_vm.Serial.Fifo.{recv, fifo_get, get_byte}
use camkes_vm.Serial.Fifo.Queue.{get_byte-IsRing}
use camkes_vm.Serial.Read.{
  read_rbr, read_iir, read_lsr, read_msr, poll_msr, take_msr, note_taken, serial_ioport_read,
  clear_ready,
}
use camkes_vm.Serial.Valid.{IsSound, IsValid}
use camkes_vm.Serial.Valid.Update.{
  lsr-IsSound, serial_update_irq-IsValid, serial_update_msl-IsValid,
}

read_iir-IsValid : (s : SerialState) → IsValid s → IsValid (read_iir s).1
unfolding read_iir
read_iir-IsValid s v = ground (arith, serial_update_irq-IsValid (record s { thr_ipending = 0 }))

cleared_lsr :
    (l : ℕ)
    → l < 256
    → (clear_flag (clear_flag l lsr_bi) lsr_oe < 256)
      × (has (clear_flag (clear_flag l lsr_bi) lsr_oe) lsr_dr ≡ has l lsr_dr)
cleared_lsr l h = ground arith

choice :
    (b : Bool) (p q : ℕ × SerialState) → IsValid p.1 → IsValid q.1 → IsValid (if b then p else q).1
choice true p q v w = v
choice false p q v w = w

read_lsr-IsValid : (s : SerialState) → IsValid s → IsValid (read_lsr s).1
unfolding read_lsr
read_lsr-IsValid s v =
    choice (has s.lsr lsr_bi || has s.lsr lsr_oe) _ _
      (serial_update_irq-IsValid _ (
        lsr-IsSound _ s (cleared_lsr s.lsr v.sound.widths.lsr_in).0
          (cleared_lsr s.lsr v.sound.widths.lsr_in).1 v.sound))
      v

poll_msr-IsValid : (s : SerialState) → IsValid s → IsValid (poll_msr s)
unfolding poll_msr
poll_msr-IsValid s v = ground (arith, serial_update_msl-IsValid s)

take_msr-IsValid : (s : SerialState) → IsValid s → IsValid (take_msr s).1
unfolding take_msr
take_msr-IsValid s v =
    ground (arith, serial_update_irq-IsValid (record s { msr = s.msr / 16 % 16 * 16 }))

read_msr-IsValid : (s : SerialState) → IsValid s → IsValid (read_msr s).1
unfolding read_msr
read_msr-IsValid s v =
    choice (has s.mcr mcr_loop) _ _ v (take_msr-IsValid (poll_msr s) (poll_msr-IsValid s v))

-- An empty queue needs no sign of data; a queue that is not keeps the sign it had.
note_taken-IsSound : (s : SerialState) → IsSound s → IsSound (note_taken s)
unfolding note_taken
note_taken-IsSound s v = ground arith

get_byte-IsSound : (s : SerialState) → IsSound s → IsSound (fifo_get recv s).1
unfolding fifo_get get_byte
get_byte-IsSound s v = ground (arith, get_byte-IsRing s.recv_fifo)

-- While the queues are disabled nothing waits in them.
disabled-IsSound :
    (s : SerialState)
    → has s.fcr fcr_fe ≡ false
    → IsSound s
    → IsSound (record s { lsr = clear_ready s.lsr })
disabled-IsSound s e v = ground arith

read_rbr-IsValid : (s : SerialState) → IsValid s → IsValid (read_rbr s).1
unfolding read_rbr
read_rbr-IsValid s v = elim (Bool-cases (has s.fcr fcr_fe)) [
  | inl e ↦ rw e (
      serial_update_irq-IsValid _ (
        still (note_taken (fifo_get recv s).1) (note_taken-IsSound _ (get_byte-IsSound s v.sound))))
  | inr e ↦ rw e (serial_update_irq-IsValid _ (disabled-IsSound s e v.sound))
]
  where
    still : (t : SerialState) → IsSound t → IsSound (record t { timeout_ipending = 0 })
    still t w = ground arith

-- A read of any port of the UART keeps the invariant.
pub serial_ioport_read-IsValid :
    (addr : ℕ) (s : SerialState) → IsValid s → IsValid (serial_ioport_read addr s).1
unfolding serial_ioport_read
serial_ioport_read-IsValid addr s v =
    choice (addr % 8 == 0) _ _ (choice (has s.lcr lcr_dlab) _ _ v (read_rbr-IsValid s v)) (
      choice (addr % 8 == 1) _ _ (choice (has s.lcr lcr_dlab) _ _ v v) (
        choice (addr % 8 == 2) _ _ (read_iir-IsValid s v) (
          choice (addr % 8 == 3) _ _ v (
            choice (addr % 8 == 4) _ _ v (
              choice (addr % 8 == 5) _ _ (read_lsr-IsValid s v)
                (choice (addr % 8 == 6) _ _ (read_msr-IsValid s v) v))))))
