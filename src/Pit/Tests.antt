-- ===== src/Pit/Tests.antt =====
-- Runs of the timer model of i8254.c, and its theorems at concrete states.
use camkes_vm.Common.{◌*◌, ◌/◌, ◌≡◌, refl, some, [], arith, true, false}
use camkes_vm.Pit.State.{Arith, IsArith, PitChannel, PitState}
use camkes_vm.Pit.Count.{next_tick, out_at}
use camkes_vm.Pit.Timer.{pit_pre_init, pit_timer_interrupt}
use camkes_vm.Pit.Ports.{pit_ioport_write}
use camkes_vm.Pit.Transition.{out_at-steady, next_tick_misses_fall}
use camkes_vm.Pit.Valid.{IsPit, IsLoaded}
use camkes_vm.Pit.Runs.{write, timer_went_off, here, next, pit_pre_init-IsPit-Run}

abbrev plain_arith : Arith
plain_arith = record { muldivu64 = λ a b c. a * b / c; round_down = λ n b. n / b * b }

plain_arith-IsArith : IsArith plain_arith
plain_arith-IsArith = record { muldivu64_lem = λ a b c p h. refl; round_down_lem = λ n b p. refl }

abbrev zeroed : PitChannel
zeroed = record {
  count = 0;
  latched_count = 0;
  count_latched = 0;
  status_latched = 0;
  status = 0;
  read_state = 0;
  write_state = 0;
  write_latch = 0;
  rw_mode = 0;
  mode = 0;
  bcd = 0;
  gate = 0;
  count_load_time = 0;
  next_transition_time = 0;
  irq_timer = 0;
  irq_disabled = 0;
}

abbrev loaded : PitState
loaded = record {
  channel0 = zeroed;
  channel1 = zeroed;
  channel2 = zeroed;
  world = record { clock = λ n. 1000 * n; reads = 0; log = [] };
}

loaded-IsLoaded : IsLoaded loaded
loaded-IsLoaded = omega arith

-- A channel in mode 2 that counts from 1000 and is read as two bytes.
abbrev counting : PitChannel
counting = record zeroed { count = 1000; rw_mode = 3; read_state = 3; write_state = 3; mode = 2 }

abbrev running : PitState
running = record loaded { channel0 = counting; channel1 = counting; channel2 = counting }

running-IsPit : IsPit running
running-IsPit = omega arith

abbrev set_up : PitState
set_up = pit_pre_init plain_arith loaded

abbrev commanded : PitState
commanded = pit_ioport_write plain_arith 3 0x36 set_up

pit_pre_init-IsPit-Run_example : IsPit (pit_timer_interrupt plain_arith commanded)
pit_pre_init-IsPit-Run_example =
    pit_pre_init-IsPit-Run plain_arith loaded (pit_timer_interrupt plain_arith commanded)
      loaded-IsLoaded
      (next (next here (write 3 0x36 set_up (omega arith))) (timer_went_off commanded))

out_at-steady_example : out_at 3 10 29 ≡ out_at 3 10 25
out_at-steady_example =
    out_at-steady plain_arith plain_arith-IsArith 3 10 25 29 (omega arith) (omega arith)
      (omega arith) (unfold next_tick in omega arith)

next_tick_misses_fall_example :
    (next_tick plain_arith 2 1000 3000 ≡ some 4000)
    × (out_at 2 1000 3000 ≡ true)
    × (out_at 2 1000 3001 ≡ false)
next_tick_misses_fall_example =
    next_tick_misses_fall plain_arith plain_arith-IsArith 3 1000 (omega arith) (omega arith)
