-- ===== src/Serial/Entry.antt =====
-- The functions of serial.c that the rest of the VMM calls.
use camkes_vm.Common.{ℕ, ◌*◌, ◌/◌, ◌^◌, Bool, Option, some, ◌==◌, if◌then◌else◌, has, pos}
use mathlib.Core.Option
use camkes_vm.Host.{
  IoFault, handled, error, now, tick, timer_fifo_timeout, timer_transmit_timer,
  timer_modem_status_timer, timer_more_chars,
}
use camkes_vm.Serial.State.{SerialState, ticks_per_sec, iir_no_int}
use camkes_vm.Serial.Fifo.{xmit, recv, fifo_clear}
use camkes_vm.Serial.Line.{serial_update_msl}
use camkes_vm.Serial.Receive.{GetcharBuf, fifo_timeout_int, receive_pending}
use camkes_vm.Serial.Xmit.{serial_xmit}
use camkes_vm.Serial.Read.{serial_ioport_read}
use camkes_vm.Serial.Write.{serial_ioport_write}

-- 0xB0 is `DCD | DSR | CTS`, 0x60 is `TEMT | THRE` and 0x08 is `OUT2`.
unfoldable pub serial_reset : SerialState → SerialState
serial_reset s =
    let t = record s {
      rbr = 0;
      ier = 0;
      iir = iir_no_int;
      lcr = 0;
      lsr = 0x60;
      msr = 0xB0;
      divider = 0x0C;
      mcr = 0x08;
      scr = 0;
      tsr_retry = pos 0;
      char_transmit_time = ticks_per_sec / 9600 * 10;
      poll_msl = pos 0;
    } in
    let q = fifo_clear xmit (fifo_clear recv t) in
    record q {
      last_xmit_ts = now q.world;
      world = tick q.world;
      thr_ipending = 0;
      last_break_enable = 0;
      serial_level = 0;
    }

unfoldable pub serial_pre_init : SerialState → SerialState
serial_pre_init s =
    serial_update_msl (serial_reset (record s { serial_level = 0; baudbase = 115200 }))

-- `completed` holds a bit for each timer that went off.
abbrev pub went_off : ℕ → ℕ → Bool
went_off completed timer = has completed (2 ^ timer)

unfoldable pub serial_timer_interrupt :
    ℕ → SerialState → GetcharBuf → Option (SerialState × GetcharBuf)
serial_timer_interrupt completed s b =
    let s₁ = if went_off completed timer_fifo_timeout then fifo_timeout_int s else s in
    let s₂ =
      if went_off completed timer_transmit_timer
      then serial_xmit (record s₁ { chars_sent = 0 })
      else s₁ in
    let s₃ = if went_off completed timer_modem_status_timer then serial_update_msl s₂ else s₂ in
    if went_off completed timer_more_chars then receive_pending s₃ b else some (s₃, b)

unfoldable pub serial_character_interrupt :
    SerialState → GetcharBuf → Option (SerialState × GetcharBuf)
serial_character_interrupt s b = receive_pending s b

-- The outer `none` is a failed assertion.
unfoldable pub serial_port_in : ℕ → ℕ → SerialState → IoFault (ℕ × SerialState)
serial_port_in port_no size s = if size == 1 then handled (serial_ioport_read port_no s) else error

unfoldable pub serial_port_out : ℕ → ℕ → ℕ → SerialState → Option (IoFault SerialState)
serial_port_out port_no size value s =
    if size == 1 then Option.map handled (serial_ioport_write port_no value s) else some error
