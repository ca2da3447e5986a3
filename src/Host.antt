-- ===== src/Host.antt =====
-- What the device models of components/Init/src call outside their files: the interrupt lines,
-- the timers of the timer server, the guest's console, and the clock.
use camkes_vm.Common.{ℕ, ◌+◌, List, [], ◌∷◌, Option, none, some, ◌==◌, if◌then◌else◌}

-- A call that a device model makes. `set_irq_level line level` is `vm_set_irq_level` on the boot
-- VCPU, the next three are `init_timer_*`, and `putchar c` is `guest_putchar_putchar`.
pub data Effect : Type 0 where
  set_irq_level : ℕ → ℕ → Effect
  oneshot_absolute : ℕ → ℕ → Effect
  oneshot_relative : ℕ → ℕ → Effect
  stop : ℕ → Effect
  putchar : ℕ → Effect

-- `clock n` is what the n-th reading of the clock gives, in nanoseconds; `reads` counts the
-- readings made; `log` holds the calls made, the latest first.
pub record World : Type 0 where
  pub clock : ℕ → ℕ
  pub reads : ℕ
  pub log : List Effect

-- The value of the next reading.
abbrev pub now : World → ℕ
now w = w.clock w.reads

-- The world after a reading.
abbrev pub tick : World → World
tick w = record w { reads = w.reads + 1 }

abbrev pub emit : Effect → World → World
emit e w = record w { log = e ∷ w.log }

-- The level of a line: the one last set, and low before any call.
abbrev pub level : ℕ → List Effect → ℕ
level n [] = 0
level n (set_irq_level i v ∷ l) = if i == n then v else level n l
level n (oneshot_absolute i t ∷ l) = level n l
level n (oneshot_relative i t ∷ l) = level n l
level n (stop i ∷ l) = level n l
level n (putchar c ∷ l) = level n l

-- The time that a timer is set for, absolute, if its last call set it so.
abbrev pub armed : ℕ → List Effect → Option ℕ
armed n [] = none
armed n (set_irq_level i v ∷ l) = armed n l
armed n (oneshot_absolute i t ∷ l) = if i == n then some t else armed n l
armed n (oneshot_relative i t ∷ l) = if i == n then none else armed n l
armed n (stop i ∷ l) = if i == n then none else armed n l
armed n (putchar c ∷ l) = armed n l

-- The timer ids of timers.h and the interrupt lines of virtio_irq.h that the models use.
abbrev pub timer_pit : ℕ
timer_pit = 0

abbrev pub timer_periodic_timer : ℕ
timer_periodic_timer = 1

abbrev pub timer_coalesced_timer : ℕ
timer_coalesced_timer = 2

abbrev pub timer_second_timer : ℕ
timer_second_timer = 3

abbrev pub timer_second_timer2 : ℕ
timer_second_timer2 = 4

abbrev pub timer_fifo_timeout : ℕ
timer_fifo_timeout = 5

abbrev pub timer_transmit_timer : ℕ
timer_transmit_timer = 6

abbrev pub timer_modem_status_timer : ℕ
timer_modem_status_timer = 7

abbrev pub timer_more_chars : ℕ
timer_more_chars = 8

abbrev pub irq_timer : ℕ
irq_timer = 0

abbrev pub irq_tty_s0 : ℕ
irq_tty_s0 = 4

abbrev pub irq_rtc : ℕ
irq_rtc = 8

-- `ioport_fault_result_t`
pub data IoFault (A : Type 0) : Type 0 where
  handled : A → IoFault A
  error : IoFault A
