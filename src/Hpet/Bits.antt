-- ===== src/Hpet/Bits.antt =====
-- The tests and the arithmetic of hpet.c on 64-bit registers. A signed comparison with 0 looks at
-- the top bit.
use camkes_vm.Common.{
  ℕ, ◌+◌, ◌-◌, ◌*◌, ◌/◌, ◌%◌, ◌^◌, Bool, not, ◌&&◌, bit_and, bit_or, u32, u64, has, ltb, leb,
  if◌then◌else◌,
}
use camkes_vm.Host.{now, tick}
use camkes_vm.Hpet.State.{
  HpetTimer, HpetState, all_ones, hpet_clk_period, hpet_cfg_enable, hpet_cfg_legacy, hpet_tn_32bit,
  hpet_tn_enable, hpet_tn_periodic, hpet_tn_fsb_enable,
}

abbrev pub hpet_in_legacy_mode : HpetState → Bool
hpet_in_legacy_mode s = has s.config hpet_cfg_legacy

-- `(config & 0x3e00) >> 9`
abbrev pub timer_int_route : HpetTimer → ℕ
timer_int_route t = t.config / 512 % 32

abbrev pub timer_fsb_route : HpetTimer → Bool
timer_fsb_route t = has t.config hpet_tn_fsb_enable

abbrev pub hpet_enabled : HpetState → Bool
hpet_enabled s = has s.config hpet_cfg_enable

abbrev pub timer_is_periodic : HpetTimer → Bool
timer_is_periodic t = has t.config hpet_tn_periodic

abbrev pub timer_enabled : HpetTimer → Bool
timer_enabled t = has t.config hpet_tn_enable

-- `(int32_t)(b - a) < 0`
unfoldable pub hpet_time_after : ℕ → ℕ → Bool
hpet_time_after a b = leb (2 ^ 31) (u32 (b + (2 ^ 64 - a)))

-- `(int64_t)(b - a) < 0`
unfoldable pub hpet_time_after64 : ℕ → ℕ → Bool
hpet_time_after64 a b = leb (2 ^ 63) (u64 (b + (2 ^ 64 - a)))

abbrev pub ticks_to_ns : ℕ → ℕ
ticks_to_ns value = u64 (value * hpet_clk_period)

abbrev pub ns_to_ticks : ℕ → ℕ
ns_to_ticks value = value / hpet_clk_period

-- `x & 0xffffffff00000000`
abbrev pub high_word : ℕ → ℕ
high_word x = x / 2 ^ 32 * 2 ^ 32

unfoldable pub hpet_fixup_reg : ℕ → ℕ → ℕ → ℕ
hpet_fixup_reg new old mask = bit_or (bit_and new mask) (bit_and old (all_ones - mask))

abbrev pub activating_bit : ℕ → ℕ → ℕ → Bool
activating_bit old new mask = not (has old mask) && has new mask

abbrev pub deactivating_bit : ℕ → ℕ → ℕ → Bool
deactivating_bit old new mask = has old mask && not (has new mask)

-- What `hpet_get_ticks` returns when the clock gives `ns`; its caller steps the clock.
abbrev pub ticks_at : ℕ → HpetState → ℕ
ticks_at ns s = ns_to_ticks (u64 (ns + s.hpet_offset))

abbrev pub hpet_get_ticks : HpetState → ℕ
hpet_get_ticks s = ticks_at (now s.world) s

-- The state after a reading of the clock.
abbrev pub read_clock : HpetState → HpetState
read_clock s = record s { world = tick s.world }

-- The difference as a signed number where that is positive, and else 1.
unfoldable pub hpet_calculate_diff : HpetTimer → ℕ → ℕ
hpet_calculate_diff t current =
    if has t.config hpet_tn_32bit
    then (let diff = u32 (u32 t.cmp + (2 ^ 32 - u32 current)) in
        if ltb 0 diff && ltb diff (2 ^ 31) then diff else 1)
    else (let diff = u64 (t.cmp + (2 ^ 64 - current)) in
        if ltb 0 diff && ltb diff (2 ^ 63) then diff else 1)
