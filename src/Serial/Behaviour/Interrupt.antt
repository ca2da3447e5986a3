-- ===== src/Serial/Behaviour/Interrupt.antt =====
-- The interrupt that the UART of serial.c reports.
use camkes_vm.Common.{◌≡◌, arith, Bool, not, ◌&&◌, ◌||◌, has, leb, ◌==◌, if◌then◌else◌}
use camkes_vm.Host.{level, irq_tty_s0}
use camkes_vm.Serial.State.{SerialState, ier_rlsi, ier_rdi, ier_thri, ier_msi, lsr_dr, fcr_fe}
use camkes_vm.Serial.Irq.{pending_iir, serial_update_irq, line_error, any_delta}

-- The five sources of an interrupt, as the guest enables them.
abbrev pub line_source : SerialState → Bool
line_source s = has s.ier ier_rlsi && line_error s.lsr

abbrev pub timeout_source : SerialState → Bool
timeout_source s = has s.ier ier_rdi && not (s.timeout_ipending == 0)

abbrev pub data_source : SerialState → Bool
data_source s =
    has s.ier ier_rdi
    && has s.lsr lsr_dr
    && (not (has s.fcr fcr_fe) || leb s.recv_fifo.itl s.recv_fifo.count)

abbrev pub transmit_source : SerialState → Bool
transmit_source s = has s.ier ier_thri && not (s.thr_ipending == 0)

abbrev pub modem_source : SerialState → Bool
modem_source s = has s.ier ier_msi && any_delta s.msr

abbrev pub any_source : SerialState → Bool
any_source s =
    line_source s || timeout_source s || data_source s || transmit_source s || modem_source s

-- After `serial_update_irq` the line is high exactly when some enabled source is active.
serial_update_irq-level :
    (s : SerialState)
    → level irq_tty_s0 (serial_update_irq s).world.log ≡ (if any_source s then 1 else 0)
unfolding serial_update_irq pending_iir
serial_update_irq-level s = ground arith
