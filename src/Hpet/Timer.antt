-- ===== src/Hpet/Timer.antt =====
-- `update_irq`, `hpet_timer`, `hpet_set_timer` and `hpet_del_timer` of hpet.c. `t` is one of the
-- timers of `s`; its caller puts it back. The callbacks are one-shot timers.
pub mod Catch
pub mod Catch64
pub mod Arm
pub mod Status
use camkes_vm.Common.{
  ℕ, zero, suc, ◌+◌, ◌-◌, ◌^◌, Bool, true, false, not, ◌&&◌, ◌||◌, Option, none, some, u32, u64,
  has, set_flag, clear_flag, ltb, leb, if◌then◌else◌, ◌==◌,
}
use camkes_vm.Host.{World, emit, set_irq_level, oneshot_relative, stop}
use camkes_vm.Hpet.State.{HpetTimer, HpetState, hpet_tn_32bit, hpet_tn_type_level, rtc_isa_irq}
use camkes_vm.Hpet.Bits.{
  hpet_in_legacy_mode, timer_int_route, timer_fsb_route, hpet_enabled, timer_is_periodic,
  timer_enabled, hpet_time_after, hpet_time_after64, ticks_to_ns, hpet_get_ticks, read_clock,
  hpet_calculate_diff,
}

abbrev pub route : HpetTimer → HpetState → ℕ
route t s =
    if leb t.tn 1 && hpet_in_legacy_mode s
    then (if t.tn == 0 then 0 else rtc_isa_irq)
    else timer_int_route t

abbrev pub call : HpetState → World → HpetState
call s w = record s { world = w }

-- `mask` is the bit of the timer in the status register and `line` its interrupt line.
unfoldable pub update_status : ℕ → ℕ → HpetTimer → Bool → HpetState → HpetState
update_status mask line t set s =
    if not set || not (timer_enabled t) || not (hpet_enabled s)
    then (let s' = record s { isr = clear_flag s.isr mask } in
        if timer_fsb_route t then s' else call s' (emit (set_irq_level line 0) s.world))
    else if timer_fsb_route t
    then s
    else if has t.config hpet_tn_type_level
    then record s { isr = set_flag s.isr mask; world = emit (set_irq_level line 1) s.world }
    else record s {
      isr = clear_flag s.isr mask;
      world = emit (set_irq_level line 0) (emit (set_irq_level line 1) s.world);
    }

unfoldable pub update_irq : HpetTimer → Bool → HpetState → HpetState
update_irq t set s = update_status (2 ^ t.tn) (route t s) t set s

-- The first loop of `hpet_timer`: `while (hpet_time_after(cur_tick, t->cmp))`. `none` means that
-- the fuel ran out.
unfoldable pub catch_up32 : ℕ → ℕ → ℕ → ℕ → Option ℕ
catch_up32 zero cur period cmp = none
catch_up32 (suc fuel) cur period cmp = elim (hpet_time_after cur cmp) [
  | true ↦ catch_up32 fuel cur period (u32 (cmp + period))
  | false ↦ some cmp
]

-- The second: `while (hpet_time_after64(cur_tick, t->cmp))`.
unfoldable pub catch_up64 : ℕ → ℕ → ℕ → ℕ → Option ℕ
catch_up64 zero cur period cmp = none
catch_up64 (suc fuel) cur period cmp = elim (hpet_time_after64 cur cmp) [
  | true ↦ catch_up64 fuel cur period (u64 (cmp + period))
  | false ↦ some cmp
]

unfoldable pub catch_up : ℕ → ℕ → HpetTimer → Option ℕ
catch_up fuel cur t =
    if has t.config hpet_tn_32bit
    then catch_up32 fuel cur t.period t.cmp
    else catch_up64 fuel cur t.period t.cmp

-- The callback that starts the timer, for the difference to the comparator.
abbrev pub start : HpetTimer → ℕ → HpetState → HpetState
start t diff s = call s (emit (oneshot_relative t.tid (ticks_to_ns diff)) s.world)

-- The branches of `hpet_timer` that change the timer, at the tick `cur` read first.
unfoldable pub expire : ℕ → ℕ → HpetTimer → HpetState → Option (HpetTimer × HpetState)
expire fuel cur t s =
    if timer_is_periodic t && not (t.period == 0)
    then elim (catch_up fuel cur t) [
      | none ↦ none
      | some cmp ↦
          (let t' = record t { cmp = cmp } in some (t', start t' (hpet_calculate_diff t' cur) s))
    ]
    else if has t.config hpet_tn_32bit && not (timer_is_periodic t) && not (t.wrap_flag == 0)
    then some (record t { wrap_flag = 0 }, start t (hpet_calculate_diff t cur) s)
    else some (t, s)

unfoldable pub hpet_timer : ℕ → HpetTimer → HpetState → Option (HpetTimer × HpetState)
hpet_timer fuel t s = elim (expire fuel (hpet_get_ticks s) t (read_clock s)) [
  | none ↦ none
  | some (t', s') ↦ some (t', update_irq t' true s')
]

-- how many ticks until a one-shot timer of 32 bits wraps
abbrev pub wrap_diff : ℕ → ℕ
wrap_diff cur = 0xffffffff - u32 cur

unfoldable pub hpet_set_timer : HpetTimer → HpetState → HpetTimer × HpetState
hpet_set_timer t s =
    let cur = hpet_get_ticks s in
    let t' = record t { wrap_flag = 0 } in
    let diff = hpet_calculate_diff t' cur in
    if has t.config hpet_tn_32bit && not (timer_is_periodic t) && ltb (wrap_diff cur) (u32 diff)
    then (record t { wrap_flag = 1 }, start t (wrap_diff cur) (read_clock s))
    else (t', start t diff (read_clock s))

unfoldable pub hpet_del_timer : HpetTimer → HpetState → HpetTimer × HpetState
hpet_del_timer t s = (t, update_irq t false (call s (emit (stop t.tid) s.world)))
