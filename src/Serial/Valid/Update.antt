-- ===== src/Serial/Valid/Update.antt =====
-- The invariant through `serial_update_irq`, `serial_update_parameters` and `serial_update_msl`.
use camkes_vm.Common.{
  ℕ, ◌%◌, ◌<◌, ◌≡◌, refl, some, arith, holds_below, holds_below_sound, ltb, true, has, ◌==◌,
  if◌then◌else◌,
}
use camkes_vm.Serial.State.{SerialState, iir_no_int, lsr_dr}
use camkes_vm.Serial.Irq.{pending_iir, serial_update_irq}
use camkes_vm.Serial.Line.{serial_update_parameters, serial_update_msl, msr_with_deltas}
use camkes_vm.Serial.Valid.{IsSound, IsValid}

pub pending_iir-lt : (s : SerialState) → pending_iir s < 16
unfolding pending_iir
pending_iir-lt s = ground arith

-- The only odd value is the one for no interrupt.
pending_iir_odd :
    (s : SerialState) → pending_iir s % 2 ≡ (if pending_iir s == iir_no_int then 1 else 0)
unfolding pending_iir
pending_iir_odd s = ground arith

-- Whatever was changed before, `serial_update_irq` makes the line agree with `iir`.
pub serial_update_irq-IsValid : (s : SerialState) → IsSound s → IsValid (serial_update_irq s)
unfolding serial_update_irq
serial_update_irq-IsValid s v = record {
  sound = ground (arith, pending_iir-lt s);
  line = ground (arith, pending_iir_odd s);
}

pub serial_update_parameters-IsValid :
    (s : SerialState) {t : SerialState}
    → IsValid s
    → serial_update_parameters s ≡ some t
    → IsValid t
unfolding serial_update_parameters
serial_update_parameters-IsValid s v e = ground arith

-- The line status may change as long as it goes on to say whether data is ready.
pub lsr-IsSound :
    (l : ℕ) (s : SerialState)
    → l < 256
    → has l lsr_dr ≡ has s.lsr lsr_dr
    → IsSound s
    → IsSound (record s { lsr = l })
lsr-IsSound l s h e v = ground arith

msr_with_deltas_table : holds_below (λ m. ltb (msr_with_deltas m) 256) 256 ≡ true
unfolding holds_below msr_with_deltas
msr_with_deltas_table = refl

pub msr_with_deltas-lt : (m : ℕ) → m < 256 → msr_with_deltas m < 256
msr_with_deltas-lt m h =
    ground
      (arith, holds_below_sound (λ k. ltb (msr_with_deltas k) 256) 256 m h msr_with_deltas_table)

pub serial_update_msl-IsValid : (s : SerialState) → IsValid s → IsValid (serial_update_msl s)
unfolding serial_update_msl
serial_update_msl-IsValid s v = ground (
  arith,
  msr_with_deltas-lt s.msr,
  serial_update_irq-IsValid (record s { msr = msr_with_deltas s.msr }),
)
