-- ===== src/Serial/Read.antt =====
-- `serial_ioport_read` of serial.c. Each function returns the value read and the new state.
use camkes_vm.Common.{ℕ, ◌+◌, ◌*◌, ◌/◌, ◌%◌, ◌||◌, ◌==◌, if◌then◌else◌, has, clear_flag, is_neg}
use camkes_vm.Serial.State.{
  SerialState, fcr_fe, iir_thri, lcr_dlab, lsr_bi, lsr_dr, lsr_oe, mcr_loop,
}
use camkes_vm.Serial.Fifo.{recv, fifo_get}
use camkes_vm.Serial.Irq.{serial_update_irq, any_delta}
use camkes_vm.Serial.Line.{serial_update_msl}
use camkes_vm.Serial.Receive.{arm_fifo_timeout}

abbrev pub clear_ready : ℕ → ℕ
clear_ready lsr = clear_flag (clear_flag lsr lsr_dr) lsr_bi

-- After a byte is taken from the receive queue: the line status if it was the last, or the timer.
unfoldable pub note_taken : SerialState → SerialState
note_taken s =
    if s.recv_fifo.count == 0 then record s { lsr = clear_ready s.lsr } else arm_fifo_timeout s

-- Register 0: the receive buffer.
unfoldable pub read_rbr : SerialState → ℕ × SerialState
read_rbr s =
    if has s.fcr fcr_fe
    then (let (c, t) = fifo_get recv s in
        (c, serial_update_irq (record (note_taken t) { timeout_ipending = 0 })))
    else (s.rbr, serial_update_irq (record s { lsr = clear_ready s.lsr }))

-- Register 2: reading the transmit interrupt takes it back.
unfoldable pub read_iir : SerialState → ℕ × SerialState
read_iir s =
    if s.iir / 2 % 4 * 2 == iir_thri
    then (s.iir, serial_update_irq (record s { thr_ipending = 0 }))
    else (s.iir, s)

-- Register 5: the break and overrun bits are cleared.
unfoldable pub read_lsr : SerialState → ℕ × SerialState
read_lsr s =
    if has s.lsr lsr_bi || has s.lsr lsr_oe
    then (s.lsr, serial_update_irq (record s { lsr = clear_flag (clear_flag s.lsr lsr_bi) lsr_oe }))
    else (s.lsr, s)

-- Register 6 in loopback: the modem's outputs stand at its inputs.
abbrev pub looped_msr : ℕ → ℕ
looped_msr mcr = mcr / 4 % 4 * 64 + mcr / 2 % 2 * 16 + mcr % 2 * 32

-- The modem status is brought up to date before it is read.
unfoldable pub poll_msr : SerialState → SerialState
poll_msr s = if is_neg s.poll_msl then s else serial_update_msl s

-- The status, whose delta bits are cleared.
unfoldable pub take_msr : SerialState → ℕ × SerialState
take_msr s =
    if any_delta s.msr
    then (s.msr, serial_update_irq (record s { msr = s.msr / 16 % 16 * 16 }))
    else (s.msr, s)

unfoldable pub read_msr : SerialState → ℕ × SerialState
read_msr s = if has s.mcr mcr_loop then (looped_msr s.mcr, s) else take_msr (poll_msr s)

unfoldable pub serial_ioport_read : ℕ → SerialState → ℕ × SerialState
serial_ioport_read addr s =
    if addr % 8 == 0
    then if has s.lcr lcr_dlab then (s.divider % 256, s) else read_rbr s
    else if addr % 8 == 1
    then if has s.lcr lcr_dlab then (s.divider / 256 % 256, s) else (s.ier, s)
    else if addr % 8 == 2
    then read_iir s
    else if addr % 8 == 3
    then (s.lcr, s)
    else if addr % 8 == 4
    then (s.mcr, s)
    else if addr % 8 == 5
    then read_lsr s
    else if addr % 8 == 6
    then read_msr s
    else (s.scr, s)
