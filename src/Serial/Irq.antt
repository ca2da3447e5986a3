-- ===== src/Serial/Irq.antt =====
-- `serial_update_irq` of serial.c.
use camkes_vm.Common.{ℕ, ◌+◌, ◌*◌, ◌/◌, ◌%◌, Bool, not, ◌&&◌, ◌||◌, leb, ◌==◌, if◌then◌else◌, has}
use camkes_vm.Host.{emit, set_irq_level, irq_tty_s0}
use camkes_vm.Serial.State.{
  SerialState, ier_rlsi, ier_rdi, ier_thri, ier_msi, iir_no_int, iir_rlsi, iir_cti, iir_rdi,
  iir_thri, iir_msi, lsr_dr, fcr_fe,
}

-- `lsr & UART_LSR_INT_ANY`, the mask 0x1E
abbrev pub line_error : ℕ → Bool
line_error lsr = not (lsr / 2 % 16 == 0)

-- `msr & UART_MSR_ANY_DELTA`, the mask 0x0F
abbrev pub any_delta : ℕ → Bool
any_delta msr = not (msr % 16 == 0)

-- `tmp_iir`: the pending interrupt of the highest priority
unfoldable pub pending_iir : SerialState → ℕ
pending_iir s =
    if has ier ier_rlsi && line_error s.lsr
    then iir_rlsi
    else if has ier ier_rdi && not (s.timeout_ipending == 0)
    then iir_cti
    else if has ier ier_rdi
        && has s.lsr lsr_dr
        && (not (has s.fcr fcr_fe) || leb s.recv_fifo.itl s.recv_fifo.count)
    then iir_rdi
    else if has ier ier_thri && not (s.thr_ipending == 0)
    then iir_thri
    else if has ier ier_msi && any_delta s.msr
    then iir_msi
    else iir_no_int
  where
    open s use {ier}

-- The two parts of `iir` share no bit, so `|` is `+`.
unfoldable pub serial_update_irq : SerialState → SerialState
serial_update_irq s =
    let tmp_iir = pending_iir s in
    record s {
      iir = tmp_iir + s.iir / 16 % 16 * 16;
      world = emit (set_irq_level irq_tty_s0 (if tmp_iir == iir_no_int then 0 else 1)) s.world;
    }
