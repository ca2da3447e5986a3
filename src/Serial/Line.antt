-- ===== src/Serial/Line.antt =====
-- `serial_update_parameters` and `serial_update_msl` of serial.c.
use camkes_vm.Common.{
  u64, ℕ, ◌+◌, ◌*◌, ◌/◌, ◌%◌, not, ◌&&◌, Option, none, some, ◌==◌, if◌then◌else◌, has, set_flag,
  clear_flag, bit_or, bit_xor,
}
use camkes_vm.Serial.State.{SerialState, ticks_per_sec, msr_cts, msr_dcd, msr_teri, msr_ri}
use camkes_vm.Serial.Irq.{serial_update_irq}

-- start bit, parity bit, data bits and stop bits of a character
abbrev pub frame_size : ℕ → ℕ
frame_size lcr =
    1 + (if has lcr 0x08 then 1 else 0) + (lcr % 4 + 5) + (if has lcr 0x04 then 2 else 1)

-- `none` is the failure of `assert(speed > 0)`.
unfoldable pub serial_update_parameters : SerialState → Option SerialState
serial_update_parameters s =
    if s.divider == 0
    then some s
    else let speed = s.baudbase / s.divider in
      if speed == 0
      then none
      else some (record s { char_transmit_time = u64 (ticks_per_sec / speed * frame_size s.lcr) })

-- CTS and DCD are always on.
abbrev pub lines_up : ℕ → ℕ
lines_up omsr = set_flag (set_flag omsr msr_cts) msr_dcd

-- The new modem status: the lines, with a delta bit for each that changed. The bit for the ring
-- indicator is dropped unless it fell.
unfoldable pub msr_with_deltas : ℕ → ℕ
msr_with_deltas omsr =
    let msr = lines_up omsr in
    let deltas = bit_or msr (bit_xor (msr / 16) (omsr / 16)) in
    if has deltas msr_teri && not (has omsr msr_ri) then clear_flag deltas msr_teri else deltas

-- The ioctl on the host's port is compiled out, with the branch for its failure (`if (0)`).
unfoldable pub serial_update_msl : SerialState → SerialState
serial_update_msl s =
    if lines_up s.msr == s.msr
    then s
    else serial_update_irq (record s { msr = msr_with_deltas s.msr })
