-- ===== src/Hpet/Access.antt =====
-- `vm_hpet_mmio_read` and `vm_hpet_mmio_write` of hpet.c. `none` means that the code reads or
-- writes past the end of the array of timers, which C leaves undefined. `word` is the number of
-- values of an `seL4_Word`. HPET_BASE is a multiple of 0x2000, so it drops out of the number of
-- a timer, which has 8 bits, and out of the register.
pub mod Bounds
pub mod Sized
use camkes_vm.Common.{
  get_elem?, ℕ, ◌-◌, ◌*◌, ◌/◌, ◌%◌, ◌^◌, Bool, true, false, not, ◌&&◌, ◌||◌, Option, none, some,
  bit_and, bit_or, u8, u32, u64, has, clear_flag, leb, ltb, if◌then◌else◌, ◌==◌,
}
use camkes_vm.Host.{now, emit, set_irq_level}
use camkes_vm.Hpet.State.{
  HpetTimer, HpetState, put_timer, at_timer, for_each, all_ones, hpet_cfg_enable, hpet_cfg_legacy,
  hpet_tn_32bit, hpet_tn_enable, hpet_tn_setval, hpet_tn_fsb_enable, hpet_tn_cfg_write_mask,
  hpet_cfg_write_mask, rtc_isa_irq,
}
use camkes_vm.Hpet.Bits.{
  hpet_enabled, timer_is_periodic, activating_bit, deactivating_bit, hpet_fixup_reg, high_word,
  hpet_get_ticks, read_clock, ticks_to_ns,
}
use camkes_vm.Hpet.Timer.{call, update_irq, hpet_set_timer, hpet_del_timer}

-- offsets of the registers of timers
abbrev pub in_timers : ℕ → Bool
in_timers index = leb 0x100 index && leb index 0x3ff

abbrev pub timer_id : ℕ → ℕ
timer_id index = u8 ((index - 0x100) / 0x20)

abbrev pub timer_reg : ℕ → ℕ
timer_reg index = (index - 0x100) % 0x20

-- the offsets of a timer that are registers
abbrev pub is_timer_reg : ℕ → Bool
is_timer_reg reg =
    reg == 0x00 || reg == 0x04 || reg == 0x08 || reg == 0x0c || reg == 0x10 || reg == 0x14

module _ (word : ℕ) where
  unfoldable pub read_timer : ℕ → HpetTimer → ℕ
  read_timer reg t =
      if reg == 0x00
      then t.config % word
      else if reg == 0x04
      then t.config / 2 ^ 32 % word
      else if reg == 0x08
      then t.cmp % word
      else if reg == 0x0c
      then t.cmp / 2 ^ 32 % word
      else if reg == 0x10
      then t.fsb % word
      else if reg == 0x14
      then t.fsb / 2 ^ 32 % word
      else 0

  -- the registers of the block, where `ticks` is what the counter is at
  unfoldable pub read_block : ℕ → ℕ → HpetState → ℕ
  read_block index ticks s =
      if index == 0x000
      then s.capability % word
      else if index == 0x004
      then s.capability / 2 ^ 32 % word
      else if index == 0x010
      then s.config % word
      else if index == 0x0f0
      then ticks % word
      else if index == 0x0f4
      then ticks / 2 ^ 32 % word
      else if index == 0x020
      then s.isr % word
      else 0

  -- The counter is read from the clock while it runs.
  abbrev pub at_counter : ℕ → HpetState → Bool
  at_counter index s = hpet_enabled s && (index == 0x0f0 || index == 0x0f4)

  abbrev pub counter : HpetState → ℕ
  counter s = if hpet_enabled s then hpet_get_ticks s else s.hpet_counter

  unfoldable pub vm_hpet_mmio_read : ℕ → HpetState → Option (ℕ × HpetState)
  vm_hpet_mmio_read index s =
      if in_timers index
      then if ltb s.num_timers (timer_id index) || not (is_timer_reg (timer_reg index))
        then some (0, s)
        else elim (get_elem? s.timer (timer_id index)) [
          | none ↦ none
          | some t ↦ some (read_timer (timer_reg index) t, s)
        ]
      else some (read_block index (counter s) s, if at_counter index s then read_clock s else s)

-- The comparator and the period are cut when the timer changes to 32 bits.
unfoldable pub set_config : ℕ → ℕ → HpetTimer → HpetTimer
set_config old new t =
    let t' = record t {
      config = bit_or (high_word t.config) (hpet_fixup_reg new old hpet_tn_cfg_write_mask);
    } in
    if has new hpet_tn_32bit then record t' { cmp = u32 t'.cmp; period = u32 t'.period } else t'

unfoldable pub write_tn_cfg : ℕ → ℕ → HpetTimer → HpetState → HpetTimer × HpetState
write_tn_cfg old new t s =
    let s' = if activating_bit old new hpet_tn_fsb_enable then update_irq t false s else s in
    let t' = set_config old new t in
    if activating_bit old new hpet_tn_enable && hpet_enabled s'
    then hpet_set_timer t' s'
    else if deactivating_bit old new hpet_tn_enable
    then hpet_del_timer t' s'
    else (t', s')

-- `new_val &= (... ? ~0u : ~0ull) >> 1`
abbrev pub clamp : HpetTimer → ℕ → ℕ
clamp t new = if has t.config hpet_tn_32bit then new % 2 ^ 31 else new % 2 ^ 63

abbrev pub sets_cmp : HpetTimer → Bool
sets_cmp t = not (timer_is_periodic t) || has t.config hpet_tn_setval

unfoldable pub set_low : ℕ → HpetTimer → HpetTimer
set_low value t =
    let new = if has t.config hpet_tn_32bit then u32 value else value in
    record t {
      cmp = if sets_cmp t then bit_or (high_word t.cmp) new else t.cmp;
      period = if timer_is_periodic t then bit_or (high_word t.period) (clamp t new) else t.period;
      config = clear_flag t.config hpet_tn_setval;
    }

unfoldable pub set_high : ℕ → HpetTimer → HpetTimer
set_high new t = record t {
  cmp = if sets_cmp t then bit_or (u32 t.cmp) (u64 (new * 2 ^ 32)) else t.cmp;
  period = if sets_cmp t then t.period else bit_or (u32 t.period) (u64 (clamp t new * 2 ^ 32));
  config = clear_flag t.config hpet_tn_setval;
}

abbrev pub restart : HpetTimer → HpetState → HpetTimer × HpetState
restart t s = if hpet_enabled s then hpet_set_timer t s else (t, s)

unfoldable pub write_timer : ℕ → ℕ → ℕ → HpetTimer → HpetState → HpetTimer × HpetState
write_timer reg old new t s =
    if reg == 0x00
    then write_tn_cfg old new t s
    else if reg == 0x08
    then restart (set_low new t) s
    else if reg == 0x0c
    then restart (set_high new t) s
    else if reg == 0x10
    then (record t { fsb = bit_or (high_word t.fsb) new }, s)
    else if reg == 0x14
    then (record t { fsb = bit_or (u64 (new * 2 ^ 32)) (u32 t.fsb) }, s)
    else (t, s)

-- The counter starts: its value is the difference to the clock from now on.
unfoldable pub start_counter : HpetState → HpetState
start_counter s =
    let cur = u64 (now s.world) in
    let ticks = ticks_to_ns s.hpet_counter in
    record (read_clock s) { hpet_offset = if ltb ticks cur then 0 else ticks - cur }

abbrev pub set_unless_unused : HpetTimer → HpetState → HpetTimer × HpetState
set_unless_unused t s = if t.cmp == all_ones then (t, s) else hpet_set_timer t s

unfoldable pub switch_counter : ℕ → ℕ → HpetState → HpetState
switch_counter old new s =
    if activating_bit old new hpet_cfg_enable
    then for_each s.num_timers 0 (at_timer set_unless_unused) (start_counter s)
    else if deactivating_bit old new hpet_cfg_enable
    then for_each s.num_timers 0 (at_timer hpet_del_timer)
        (record (read_clock s) { hpet_counter = hpet_get_ticks s })
    else s

-- The lines of the interval timer and the real-time clock.
abbrev pub set_lines : ℕ → HpetState → HpetState
set_lines rtc s = call s (emit (set_irq_level rtc_isa_irq rtc) (emit (set_irq_level 0 0) s.world))

unfoldable pub switch_legacy : ℕ → ℕ → HpetState → HpetState
switch_legacy old new s =
    if activating_bit old new hpet_cfg_legacy
    then set_lines 0 s
    else if deactivating_bit old new hpet_cfg_legacy
    then set_lines s.rtc_irq_level s
    else s

unfoldable pub write_cfg : ℕ → ℕ → HpetState → HpetState
write_cfg old new s = switch_legacy old new (
    switch_counter old new (record s {
      config = bit_or (high_word s.config) (hpet_fixup_reg new old hpet_cfg_write_mask);
    }))

-- One round of the loop over the status: `val` has the bits that are set and written as 1.
unfoldable pub acknowledge : ℕ → ℕ → HpetTimer → HpetState → HpetTimer × HpetState
acknowledge val i t s = (t, if has val (2 ^ i) then update_irq t false s else s)

unfoldable pub write_status : ℕ → HpetState → HpetState
write_status new s = for_each s.num_timers 0 (λ i. at_timer (acknowledge (bit_and new s.isr) i) i) s

unfoldable pub write_block : ℕ → ℕ → ℕ → HpetState → HpetState
write_block index old new s =
    if index == 0x010
    then write_cfg old new s
    else if index == 0x020
    then write_status new s
    else if index == 0x0f0
    then record s { hpet_counter = bit_or (high_word s.hpet_counter) new }
    else if index == 0x0f4
    then record s { hpet_counter = bit_or (u32 s.hpet_counter) (u64 (new * 2 ^ 32)) }
    else s

-- What is left of a write after the register was read.
unfoldable pub write_register : ℕ → ℕ → ℕ → HpetState → Option HpetState
write_register index old new s =
    if in_timers index
    then if ltb s.num_timers (timer_id index) || not (is_timer_reg (timer_reg index))
      then some s
      else elim (get_elem? s.timer (timer_id index)) [
        | none ↦ none
        | some t ↦ some (put_timer (timer_id index) (write_timer (timer_reg index) old new t s))
      ]
    else some (write_block index old new s)

unfoldable pub vm_hpet_mmio_write : ℕ → ℕ → ℕ → HpetState → Option HpetState
vm_hpet_mmio_write word index new s = elim (vm_hpet_mmio_read word index s) [
  | none ↦ none
  | some (old, s') ↦ write_register index old new s'
]
