-- ===== src/Rtc/Periodic/Rearm.antt =====
-- The periodic timer of mc146818rtc.c goes on at the rate that register A asks for.
use native.Mathlib.Nat.{lt-div-mul-add, div-mul-le_self}
use camkes_vm.Common.{
  ℕ, ◌+◌, ◌*◌, ◌/◌, ◌^◌, ◌<◌, ◌≤◌, ◌≡◌, ◌%◌, some, true, refl, arith, has, holds_below,
  holds_below_sound, ltb, leb, ◌&&◌,
}
use camkes_vm.Host.{level, armed, timer_periodic_timer, irq_rtc}
use camkes_vm.Rtc.State.{RtcState, rtc_reg_a, rtc_reg_c, reg_c_irqf, reg_c_pf, get_ticks_per_sec}
use camkes_vm.Rtc.Ticks.{muldiv64}
use camkes_vm.Rtc.Ticks.Exact.{muldiv64-exact}
use camkes_vm.Rtc.Periodic.{
  period_of, period_code, next_irq_clock, periodic_time, is_periodic, rtc_timer_update,
  rtc_periodic_timer, pulse, square_wave,
}

-- nanoseconds in `n` cycles of the 32 kHz clock
abbrev pub cycles_ns : ℕ → ℕ
cycles_ns n = n * get_ticks_per_sec / 32768

period_table : holds_below (λ c. ltb 0 (period_of c) && leb (period_of c) (2 ^ 14)) 16 ≡ true
unfolding holds_below period_of
period_table = refl

period_bounds : (c : ℕ) → c < 16 → (0 < period_of c) × (period_of c ≤ 2 ^ 14)
period_bounds c h = ground (
  arith,
  holds_below_sound (λ k. ltb 0 (period_of k) && leb (period_of k) (2 ^ 14)) 16 c h period_table,
)

to_cycles :
    (t : ℕ) → t < 2 ^ 63 → muldiv64 t 32768 get_ticks_per_sec ≡ t * 32768 / get_ticks_per_sec
to_cycles t h =
    muldiv64-exact t 32768 get_ticks_per_sec (omega arith) (omega arith) (omega arith) (omega arith)
      (omega arith)

to_ns : (n : ℕ) → n < 2 ^ 49 → muldiv64 n get_ticks_per_sec 32768 ≡ cycles_ns n
to_ns n h =
    muldiv64-exact n get_ticks_per_sec 32768 (omega arith) (omega arith) (omega arith) (omega arith)
      (omega arith)

-- The next multiple of the period lies ahead, by a period at most.
next_irq_clock_bounds :
    (p t : ℕ)
    → 0 < p
    → p ≤ 2 ^ 14
    → t < 2 ^ 63
    → (t * 32768 / get_ticks_per_sec < next_irq_clock p t)
      × (next_irq_clock p t ≤ t * 32768 / get_ticks_per_sec + p)
unfolding next_irq_clock
next_irq_clock_bounds p t h k l =
    let m = muldiv64 t 32768 get_ticks_per_sec in
    omega (arith, to_cycles t l, lt-div-mul-add {a = m} {b = p} h, div-mul-le_self m p)

-- In nanoseconds: later than `t`, and by a period and a nanosecond at most.
pub periodic_time_bounds :
    (p t : ℕ)
    → 0 < p
    → p ≤ 2 ^ 14
    → t < 2 ^ 63
    → (t < periodic_time p t) × (periodic_time p t ≤ t + cycles_ns p + 1)
unfolding periodic_time
periodic_time_bounds p t h k l =
    omega (arith, next_irq_clock_bounds p t h k l, to_ns (next_irq_clock p t))

-- What the periodic timer leaves: the interrupt is given, and the timer is set again.
pub record GoesOn (s t : RtcState) : Type 0 where
  pub irq_flag : has (t.cmos_data rtc_reg_c) reg_c_irqf ≡ true
  pub periodic_flag : has (t.cmos_data rtc_reg_c) reg_c_pf ≡ true
  pub raised : level irq_rtc t.world.log ≡ 1
  pub set_again : armed timer_periodic_timer t.world.log ≡ some t.next_periodic_time
  pub later : s.next_periodic_time < t.next_periodic_time
  pub in_time :
      t.next_periodic_time ≤ s.next_periodic_time + cycles_ns (period_of (period_code s)) + 1

rate : (s : RtcState) → (0 < period_of (period_code s)) × (period_of (period_code s) ≤ 2 ^ 14)
unfolding period_code
rate s = period_bounds (s.cmos_data rtc_reg_a % 16) (omega arith)

-- With a rate set and the periodic interrupt enabled, and with 63 bits for the time, the periodic
-- timer sets both flags, raises the line and is set again, for a later time, by a period and a
-- nanosecond at most.
pub rtc_periodic_timer-GoesOn :
    (s : RtcState)
    → is_periodic s ≡ true
    → s.next_periodic_time < 2 ^ 63
    → GoesOn s (rtc_periodic_timer s)
unfolding rtc_periodic_timer rtc_timer_update pulse square_wave
rtc_periodic_timer-GoesOn s p h =
    let bounds =
      periodic_time_bounds (period_of (period_code s)) s.next_periodic_time (rate s).0 (rate s).1
        h in
    record {
      irq_flag = ground (arith, p);
      periodic_flag = ground (arith, p);
      raised = ground (arith, p);
      set_again = ground (arith, p);
      later = ground (arith, p, bounds);
      in_time = ground (arith, p, bounds);
    }
