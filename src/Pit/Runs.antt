-- ===== src/Pit/Runs.antt =====
-- The interval timer of i8254.c over any sequence of accesses and timer interrupts.
use camkes_vm.Common.{ℕ, ◌<◌}
use camkes_vm.Pit.State.{Arith, PitState}
use camkes_vm.Pit.Ports.{pit_ioport_write, pit_ioport_read}
use camkes_vm.Pit.Timer.{pit_pre_init, pit_timer_interrupt}
use camkes_vm.Pit.Valid.{
  IsPit, IsLoaded, pit_ioport_write-IsPit, pit_ioport_read-IsPit, pit_pre_init-IsPit,
  pit_timer_interrupt-IsPit,
}

module _ (lib : Arith) where
  -- One access of the guest, with a byte to write, or a timer interrupt.
  pub data Step : PitState → PitState → Type 0 where
    write : (addr val : ℕ) (p : PitState) → val < 256 → Step p (pit_ioport_write lib addr val p)
    read : (addr : ℕ) (p : PitState) → Step p (pit_ioport_read lib addr p).1
    timer_went_off : (p : PitState) → Step p (pit_timer_interrupt lib p)

  pub data Run (p : PitState) : PitState → Type 0 where
    here : Run p p
    next : {q r : PitState} → Run p q → Step q r → Run p r

  Step-IsPit : {p q : PitState} → Step p q → IsPit p → IsPit q
  Step-IsPit (write addr val p h) v = pit_ioport_write-IsPit lib addr val p h v
  Step-IsPit (read addr p) v = (pit_ioport_read-IsPit lib addr p v).0
  Step-IsPit (timer_went_off p) v = pit_timer_interrupt-IsPit lib p v

  Run-IsPit : {p q : PitState} → Run p q → IsPit p → IsPit q
  Run-IsPit here v = v
  Run-IsPit (next r e) v = Step-IsPit e (Run-IsPit r v)

  -- From channels whose fields are within their widths, as zeros are, every state that the
  -- initialisation of the timer and any sequence of reads, writes of bytes and timer interrupts
  -- lead to keeps the invariant: every count lies between 1 and 65536, and the fields that the
  -- ports set keep to their widths.
  pub pit_pre_init-IsPit-Run : (p q : PitState) → IsLoaded p → Run (pit_pre_init lib p) q → IsPit q
  pit_pre_init-IsPit-Run p q h r = Run-IsPit r (pit_pre_init-IsPit lib p h)
