-- ===== src/Hpet/Tests.antt =====
-- Concrete states of the event timer at which the theorems apply.
use camkes_vm.Common.{ℕ, none, some, [], ◌∷◌, ◌≡◌, ◌^◌, arith, refl}
use mathlib.Core.Logic.{◌↔◌}
use camkes_vm.Host.{World}
use camkes_vm.Hpet.State.{HpetTimer, HpetState}
use camkes_vm.Hpet.Bits.{hpet_get_ticks, hpet_time_after}
use camkes_vm.Hpet.Timer.{hpet_timer, hpet_set_timer}
use camkes_vm.Hpet.Timer.Arm.{
  IsPeriodic32, IsMoving, Caught, OneShot, rounds, expired, hpet_timer-stuck, hpet_timer-ends,
  hpet_set_timer-OneShot,
}
use camkes_vm.Hpet.Access.{vm_hpet_mmio_write}
use camkes_vm.Hpet.Access.Bounds.{IsSized, IsPast, vm_hpet_mmio_write-IsPast}

abbrev start_world : World
start_world = record { clock = λ n. 1000; reads = 0; log = [] }

-- enabled, periodic, 32 bits, a period of 5 ticks, and a comparator 60 ticks behind
abbrev periodic_timer : HpetTimer
periodic_timer = record {
  tn = 0;
  config = 0x10c;
  cmp = 40;
  fsb = 0;
  period = 5;
  wrap_flag = 0;
  tid = 1;
}

-- after a write of 1 to the high word of its comparator, from a period of 0
abbrev stuck_timer : HpetTimer
stuck_timer = record periodic_timer { period = 2 ^ 32 }

abbrev one_shot_timer : HpetTimer
one_shot_timer = record periodic_timer { config = 0x106; cmp = 400 }

abbrev running : HpetState
running = record {
  hpet_offset = 0;
  hpet_offset_saved = 0;
  flags = 0;
  rtc_irq_level = 0;
  num_timers = 3;
  intcap = 0;
  timer = periodic_timer ∷ one_shot_timer ∷ stuck_timer ∷ [];
  capability = 0x8086a201;
  config = 1;
  isr = 0;
  hpet_counter = 0;
  hpet_id = 0;
  world = start_world;
}

running-IsSized : IsSized running
running-IsSized = record { three = refl; whole = refl }

periodic_timer-IsMoving : IsMoving periodic_timer
periodic_timer-IsMoving = record { narrow = λ h. omega arith; wide = λ h. omega arith }

hpet_timer-ends_example :
    (e : ℕ) × (hpet_timer rounds periodic_timer running ≡ some (expired e periodic_timer running))
    × Caught (hpet_get_ticks running) periodic_timer e
hpet_timer-ends_example = hpet_timer-ends periodic_timer running refl periodic_timer-IsMoving

stuck_timer-IsPeriodic32 : IsPeriodic32 stuck_timer
stuck_timer-IsPeriodic32 = record { narrow = refl; periodic = refl; period_set = omega arith }

hpet_timer-stuck_example : hpet_timer 1000 stuck_timer running ≡ none
unfolding hpet_time_after
hpet_timer-stuck_example =
    hpet_timer-stuck 1000 stuck_timer running stuck_timer-IsPeriodic32 refl refl

hpet_set_timer-OneShot_example :
    OneShot one_shot_timer running (hpet_set_timer one_shot_timer running)
hpet_set_timer-OneShot_example = hpet_set_timer-OneShot one_shot_timer running refl refl

vm_hpet_mmio_write-IsPast_example :
    (vm_hpet_mmio_write (2 ^ 32) 0x168 7 running ≡ none) ↔ IsPast 0x168
vm_hpet_mmio_write-IsPast_example =
    vm_hpet_mmio_write-IsPast (2 ^ 32) 0x168 7 running running-IsSized

-- The counter is read and then set to 7.
abbrev counter_set : HpetState
counter_set = record running { hpet_counter = 7; world = record start_world { reads = 1 } }
