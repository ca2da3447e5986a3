-- ===== src/Hpet/Timer/Arm.antt =====
-- What `hpet_timer` and `hpet_set_timer` leave a timer at.
use camkes_vm.Common.{
  ℕ, ◌+◌, ◌*◌, ◌^◌, ◌<◌, ◌≤◌, ◌≡◌, ◌≢◌, true, false, none, some, arith, u32, u64, has, Bool-cases,
  inl, inr, ltb, if◌then◌else◌, ◌∷◌,
}
use camkes_vm.Host.{oneshot_relative}
use camkes_vm.Hpet.State.{HpetTimer, HpetState, hpet_tn_32bit}
use camkes_vm.Hpet.Bits.{
  hpet_time_after, hpet_get_ticks, hpet_calculate_diff, timer_is_periodic, read_clock,
}
use camkes_vm.Hpet.Timer.{
  catch_up, expire, hpet_timer, hpet_set_timer, update_irq, start, wrap_diff,
}
use camkes_vm.Hpet.Timer.Catch.{Caught32, catch_up32_lem, catch_up32-stuck}
use camkes_vm.Hpet.Timer.Catch64.{Caught64, catch_up64_lem}

-- A timer whose period moves its comparator.
pub record IsMoving (t : HpetTimer) : Type 0 where
  pub narrow : has t.config hpet_tn_32bit ≡ true → u32 t.period ≢ 0
  pub wide : has t.config hpet_tn_32bit ≡ false → u64 t.period ≢ 0

-- A periodic timer of 32 bits whose period is not 0.
pub record IsPeriodic32 (t : HpetTimer) : Type 0 where
  pub narrow : has t.config hpet_tn_32bit ≡ true
  pub periodic : timer_is_periodic t ≡ true
  pub period_set : t.period ≢ 0

-- The fuel for the loops: more than the values of the comparator.
abbrev pub rounds : ℕ
rounds = 2 ^ 64 + 1

ticks_fit : (s : HpetState) → hpet_get_ticks s < 2 ^ 64
ticks_fit s = omega arith

-- With a period that is a multiple of 2^32 other than 0 and a comparator behind the counter,
-- `hpet_timer` of a periodic timer of 32 bits ends with no fuel.
pub hpet_timer-stuck :
    (fuel : ℕ) (t : HpetTimer) (s : HpetState)
    → IsPeriodic32 t
    → u32 t.period ≡ 0
    → hpet_time_after (hpet_get_ticks s) t.cmp ≡ true
    → hpet_timer fuel t s ≡ none
unfolding hpet_timer expire catch_up
hpet_timer-stuck fuel t s v z h = ground (
  arith,
  v.narrow,
  v.periodic,
  v.period_set,
  catch_up32-stuck fuel (hpet_get_ticks s) t.period t.cmp z h,
)

-- The difference is positive and a signed number.
pub hpet_calculate_diff_bounds :
    (t : HpetTimer) (cur : ℕ) → 0 < hpet_calculate_diff t cur × hpet_calculate_diff t cur < (2 ^ 63)
unfolding hpet_calculate_diff
hpet_calculate_diff_bounds t cur = ground arith

-- The comparator that a timer is left with.
pub record Caught (cur : ℕ) (t : HpetTimer) (e : ℕ) : Type 0 where
  pub narrow : has t.config hpet_tn_32bit ≡ true → Caught32 cur t.period t.cmp e
  pub wide : has t.config hpet_tn_32bit ≡ false → Caught64 cur t.period t.cmp e

catch_up-ends :
    (cur : ℕ) (t : HpetTimer)
    → cur < 2 ^ 64
    → IsMoving t
    → (e : ℕ) × (catch_up rounds cur t ≡ some e) × Caught cur t e
unfolding catch_up
catch_up-ends cur t h v = elim (Bool-cases (has t.config hpet_tn_32bit)) [
  | inl n ↦
      (let (e, q, c) = catch_up32_lem rounds cur t.period t.cmp h (v.narrow n) (ground arith) in
        (
          e,
          ground (arith, n, q),
          record { narrow = λ m. c; wide = λ m. absurd (ground (arith, n, m)) },
        ))
  | inr n ↦
      (let (e, q, c) = catch_up64_lem rounds cur t.period t.cmp h (v.wide n) (ground arith) in
        (
          e,
          ground (arith, n, q),
          record { narrow = λ m. absurd (ground (arith, n, m)); wide = λ m. c },
        ))
]

-- What `hpet_timer` gives when its loop ends at `e`.
abbrev pub expired : ℕ → HpetTimer → HpetState → HpetTimer × HpetState
expired e t s =
    let t' = record t { cmp = e } in
    (t', update_irq t' true (start t' (hpet_calculate_diff t' (hpet_get_ticks s)) (read_clock s)))

hpet_timer-caught :
    (fuel e : ℕ) (t : HpetTimer) (s : HpetState)
    → timer_is_periodic t ≡ true
    → t.period ≢ 0
    → catch_up fuel (hpet_get_ticks s) t ≡ some e
    → hpet_timer fuel t s ≡ some (expired e t s)
unfolding hpet_timer expire
hpet_timer-caught fuel e t s p z q = ground (arith, p, z, q)

period_set : (t : HpetTimer) → IsMoving t → t.period ≢ 0
period_set t v = λ z. elim (Bool-cases (has t.config hpet_tn_32bit)) [
  | inl n ↦ v.narrow n (omega (arith, z))
  | inr n ↦ v.wide n (omega (arith, z))
]

-- For a periodic event timer whose period is not 0 within the width of its comparator, hpet_timer
-- ends within 2^64 + 1 rounds of its loop: it moves the comparator by whole periods, as few as it
-- takes for it not to be behind the counter, starts the timer for the difference and updates the
-- interrupt to one that is set.
pub hpet_timer-ends :
    (t : HpetTimer) (s : HpetState)
    → timer_is_periodic t ≡ true
    → IsMoving t
    → (e : ℕ) × (hpet_timer rounds t s ≡ some (expired e t s)) × Caught (hpet_get_ticks s) t e
hpet_timer-ends t s p v =
    let (e, q, c) = catch_up-ends (hpet_get_ticks s) t (ticks_fit s) v in
    (e, hpet_timer-caught rounds e t s p (period_set t v) q, c)

-- What `hpet_set_timer` does to a one-shot timer of 32 bits: it starts it for `wait` ticks, which
-- end before the counter wraps. Where the comparator lies decides when: at the comparator, after a
-- tick, or when the counter is about to wrap.
pub record OneShot (t : HpetTimer) (s : HpetState) (r : HpetTimer × HpetState) : Type 0 where
  pub wait : ℕ
  pub armed : r.1.world.log ≡ oneshot_relative t.tid (wait * 10) ∷ s.world.log
  pub before_wrap : u32 (hpet_get_ticks s) + wait < 2 ^ 32
  pub at_match :
      u32 (hpet_get_ticks s) < u32 t.cmp
      → u32 t.cmp < u32 (hpet_get_ticks s) + 2 ^ 31
      → (r.0.wrap_flag ≡ 0) × (u32 (hpet_get_ticks s) + wait ≡ u32 t.cmp)
  pub behind :
      u32 t.cmp ≤ u32 (hpet_get_ticks s)
      → u32 (hpet_get_ticks s) ≤ u32 t.cmp + 2 ^ 31
      → u32 (hpet_get_ticks s) < 0xffffffff
      → (r.0.wrap_flag ≡ 0) × (wait ≡ 1)
  pub too_far :
      u32 (hpet_get_ticks s) + 2 ^ 31 ≤ u32 t.cmp
      → u32 (hpet_get_ticks s) < 0xffffffff
      → (r.0.wrap_flag ≡ 0) × (wait ≡ 1)
  pub wraps : u32 t.cmp + 2 ^ 31 < u32 (hpet_get_ticks s) → r.0.wrap_flag ≡ 1
  pub at_wrap : r.0.wrap_flag ≡ 1 → u32 (hpet_get_ticks s) + wait ≡ 0xffffffff

-- The ticks that `hpet_set_timer` waits.
abbrev pub delay : HpetTimer → HpetState → ℕ
delay t s =
    if ltb (wrap_diff (hpet_get_ticks s)) (hpet_calculate_diff t (hpet_get_ticks s))
    then wrap_diff (hpet_get_ticks s)
    else hpet_calculate_diff t (hpet_get_ticks s)

-- hpet_set_timer starts a one-shot event timer of 32 bits for a wait that ends before the counter
-- wraps. At a comparator that lies less than 2^31 ahead with no wrap between, it ends there, with
-- the wrap flag clear. At one that lies less than 2^31 ahead past the wrap, the flag is set, and
-- with the flag set the wait ends at the last tick. At any other comparator, and before the last
-- tick, it is one tick, with the flag clear.
pub hpet_set_timer-OneShot :
    (t : HpetTimer) (s : HpetState)
    → has t.config hpet_tn_32bit ≡ true
    → timer_is_periodic t ≡ false
    → OneShot t s (hpet_set_timer t s)
unfolding hpet_set_timer hpet_calculate_diff
hpet_set_timer-OneShot t s n p = record {
  wait = delay t s;
  armed = ground (arith, n, p);
  before_wrap = ground (arith, n, p);
  at_match = ground (arith, n, p);
  behind = ground (arith, n, p);
  too_far = ground (arith, n, p);
  wraps = ground (arith, n, p);
  at_wrap = ground (arith, n, p);
}
