-- ===== src/Serial/Write.antt =====
-- `serial_ioport_write` of serial.c, a function for each register that the guest writes.
use camkes_vm.Common.{
  u8, u16, ℕ, ◌+◌, ◌*◌, ◌/◌, ◌%◌, ◌^◌, Option, some, ◌==◌, if◌then◌else◌, has, set_flag, clear_flag,
  bit_or, pos, is_neg,
}
use mathlib.Core.Option
use camkes_vm.Host.{emit, stop, timer_fifo_timeout}
use camkes_vm.Serial.State.{
  SerialState, fcr_fe, fcr_rfr, fcr_xfr, ier_msi, lcr_dlab, lsr_temt, lsr_thre,
}
use camkes_vm.Serial.Fifo.{xmit, recv, fifo_put, fifo_clear}
use camkes_vm.Serial.Irq.{serial_update_irq}
use camkes_vm.Serial.Line.{serial_update_parameters, serial_update_msl}
use camkes_vm.Serial.Xmit.{serial_xmit}

-- Register 0 with the divisor latch: `(divider & 0xff00) | val`.
unfoldable pub write_divider_low : ℕ → SerialState → SerialState
write_divider_low val s = record s { divider = u16 (bit_or (s.divider / 256 * 256) val) }

-- Register 1 with the divisor latch: `(divider & 0x00ff) | (val << 8)`.
unfoldable pub write_divider_high : ℕ → SerialState → SerialState
write_divider_high val s = record s {
  divider = u16 (bit_or (s.divider % 256) (val * 256 % 2 ^ 32));
}

-- A byte for the transmit queue.
unfoldable pub queue_byte : SerialState → SerialState
queue_byte s =
    let q = fifo_put xmit s.thr s in
    serial_update_irq
      (record q { thr_ipending = 0; lsr = clear_flag (clear_flag q.lsr lsr_temt) lsr_thre })

-- A byte for the holding register alone.
unfoldable pub hold_byte : SerialState → SerialState
hold_byte s = serial_update_irq (record s { thr_ipending = 0; lsr = clear_flag s.lsr lsr_thre })

-- Register 0, up to the call of `serial_xmit`.
unfoldable pub accept_byte : ℕ → SerialState → SerialState
accept_byte val s =
    let t = record s { thr = u8 val } in if has t.fcr fcr_fe then queue_byte t else hold_byte t

unfoldable pub write_thr : ℕ → SerialState → SerialState
write_thr val s = serial_xmit (accept_byte val s)

-- Register 1: the polling of the modem status follows the enable bit.
unfoldable pub poll_modem : SerialState → SerialState
poll_modem s =
    if is_neg s.poll_msl
    then s
    else if has s.ier ier_msi
    then serial_update_msl (record s { poll_msl = pos 1 })
    else record s { poll_msl = pos 0 }

unfoldable pub write_ier : ℕ → SerialState → SerialState
write_ier val s =
    let t = poll_modem (record s { ier = val % 16 }) in
    if has t.lsr lsr_thre then serial_update_irq (record t { thr_ipending = 1 }) else t

-- `switch (val & 0xC0)`: the bytes at which the receive interrupt comes
abbrev pub trigger_level : ℕ → ℕ
trigger_level val =
    if val / 64 % 4 == 0
    then 1
    else if val / 64 % 4 == 1
    then 4
    else if val / 64 % 4 == 2
    then 8
    else 14

-- `val & 0xC9`: the bits of the FIFO control register that stick
abbrev pub sticky : ℕ → ℕ
sticky val = val / 64 % 4 * 64 + val / 8 % 2 * 8 + val % 2

-- A change of the enable bit resets both queues.
abbrev pub fcr_request : ℕ → ℕ → ℕ
fcr_request fcr val = if val % 2 == fcr % 2 then val else set_flag (set_flag val fcr_xfr) fcr_rfr

-- The queues are cleared as asked.
unfoldable pub reset_recv : SerialState → SerialState
reset_recv s =
    fifo_clear recv
      (record s { world = emit (stop timer_fifo_timeout) s.world; timeout_ipending = 0 })

unfoldable pub flush : ℕ → SerialState → SerialState
flush val s =
    let t = if has val fcr_rfr then reset_recv s else s in
    if has val fcr_xfr then fifo_clear xmit t else t

-- The enable bit's effect on `iir` and the trigger level.
unfoldable pub set_enable : ℕ → SerialState → SerialState
set_enable val s =
    if has val fcr_fe
    then record s {
      iir = set_flag (set_flag s.iir 0x40) 0x80;
      recv_fifo = record s.recv_fifo { itl = trigger_level val };
    }
    else record s { iir = s.iir % 64 }

unfoldable pub apply_fcr : ℕ → SerialState → SerialState
apply_fcr val s = serial_update_irq (record (set_enable val (flush val s)) { fcr = sticky val })

unfoldable pub write_fcr : ℕ → SerialState → SerialState
write_fcr val s = if s.fcr == u8 val then s else apply_fcr (fcr_request s.fcr (u8 val)) s

abbrev pub set_break : ℕ → SerialState → SerialState
set_break val s = record s { last_break_enable = val / 64 % 2 }

unfoldable pub write_lcr : ℕ → SerialState → Option SerialState
write_lcr val s = Option.map (set_break val) (serial_update_parameters (record s { lcr = u8 val }))

-- `none` is a failed assertion of `serial_update_parameters`.
unfoldable pub serial_ioport_write : ℕ → ℕ → SerialState → Option SerialState
serial_ioport_write addr val s =
    if addr % 8 == 0
    then (if has s.lcr lcr_dlab
        then serial_update_parameters (write_divider_low val s)
        else some (write_thr val s))
    else if addr % 8 == 1
    then (if has s.lcr lcr_dlab
        then serial_update_parameters (write_divider_high val s)
        else some (write_ier val s))
    else if addr % 8 == 2
    then some (write_fcr val s)
    else if addr % 8 == 3
    then write_lcr val s
    else if addr % 8 == 4
    then some (record s { mcr = val % 32 })
    else if addr % 8 == 7
    then some (record s { scr = u8 val })
    else some s
