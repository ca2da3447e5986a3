-- ===== src/Hpet/Entry.antt =====
-- The functions of hpet.c that the rest of the VMM calls, the reset, and those kept for the
-- saving and loading of a guest.
use camkes_vm.Common.{
  get_elem?, bit_and, set_flag, ℕ, zero, suc, ◌+◌, ◌-◌, ◌*◌, ◌%◌, ◌^◌, Bool, true, false, not, ◌&&◌,
  Option, none, some, bit_or, u64, has, clear_flag, ltb, if◌then◌else◌, ◌==◌,
}
use camkes_vm.Host.{emit, set_irq_level}
use camkes_vm.Hpet.State.{
  HpetTimer, HpetState, put_timer, at_timer, for_each, all_ones, hpet_clk_period, fs_per_ns,
  hpet_min_timers, hpet_max_timers, hpet_tn_periodic_cap, hpet_tn_size_cap, hpet_tn_fsb_cap,
  msi_support, rtc_isa_irq,
}
use camkes_vm.Hpet.Bits.{hpet_in_legacy_mode, hpet_enabled, hpet_get_ticks, read_clock}
use camkes_vm.Hpet.Access.{start_counter, vm_hpet_mmio_read, vm_hpet_mmio_write}
use camkes_vm.Hpet.Timer.{call, hpet_timer, hpet_del_timer}

-- The configuration of a timer after a reset.
abbrev pub reset_config : HpetState → ℕ
reset_config s =
    bit_or
      (if has s.flags msi_support
        then bit_or (bit_or hpet_tn_periodic_cap hpet_tn_size_cap) hpet_tn_fsb_cap
        else bit_or hpet_tn_periodic_cap hpet_tn_size_cap)
      (u64 (s.intcap * 2 ^ 32))

-- One round of the loop of `hpet_reset`.
unfoldable pub reset_timer : HpetTimer → HpetState → HpetTimer × HpetState
reset_timer t s =
    let (t', s') = hpet_del_timer t s in
    (record t' { cmp = all_ones; config = reset_config s'; period = 0; wrap_flag = 0 }, s')

unfoldable pub hpet_reset : HpetState → HpetState
hpet_reset s = record (for_each s.num_timers 0 (at_timer reset_timer) s) {
  hpet_counter = 0;
  hpet_offset = 0;
  config = 0;
  rtc_irq_level = 0;
}

unfoldable pub hpet_handle_legacy_irq : ℕ → ℕ → HpetState → HpetState
hpet_handle_legacy_irq n level s =
    if n == 0
    then if hpet_in_legacy_mode s then s else call s (emit (set_irq_level 0 level) s.world)
    else if hpet_in_legacy_mode s
    then record s { rtc_irq_level = level }
    else record s { rtc_irq_level = level; world = emit (set_irq_level rtc_isa_irq level) s.world }

-- `hpet_id_base` is the timer id of timer 0.
unfoldable pub hpet_realize : ℕ → HpetState → HpetState
hpet_realize hpet_id_base s =
    record (for_each hpet_max_timers 0
      (λ i. at_timer (λ t u. (record t { tid = hpet_id_base + i; tn = i }, u)) i) s) {
        hpet_id = 0;
        num_timers = hpet_min_timers;
        capability =
            bit_or (bit_or 0x8086a001 ((hpet_min_timers - 1) * 2 ^ 8))
              (hpet_clk_period * fs_per_ns * 2 ^ 32);
      }

unfoldable pub hpet_pre_init : ℕ → HpetState → HpetState
hpet_pre_init hpet_id_base s = hpet_reset (hpet_realize hpet_id_base s)

-- The rest of the loop of `hpet_timer_interrupt`, with `n` rounds to go.
unfoldable pub interrupt_from : ℕ → ℕ → ℕ → ℕ → HpetState → Option HpetState
interrupt_from fuel completed zero i s = some s
interrupt_from fuel completed (suc n) i s = elim (get_elem? s.timer i) [
  | none ↦ none
  | some t ↦ elim (has completed (2 ^ t.tid)) [
    | false ↦ interrupt_from fuel completed n (i + 1) s
    | true ↦ elim (hpet_timer fuel t s) [
      | none ↦ none
      | some r ↦ interrupt_from fuel completed n (i + 1) (put_timer i r)
    ]
  ]
]

-- `fuel` bounds the loops of `hpet_timer`.
unfoldable pub hpet_timer_interrupt : ℕ → ℕ → HpetState → Option HpetState
hpet_timer_interrupt fuel completed s = interrupt_from fuel completed hpet_max_timers 0 s

unfoldable pub hpet_pre_save : HpetState → HpetState
hpet_pre_save s =
    if hpet_enabled s then record (read_clock s) { hpet_counter = hpet_get_ticks s } else s

unfoldable pub hpet_pre_load : HpetState → HpetState
hpet_pre_load s = record s { num_timers = hpet_min_timers }

unfoldable pub hpet_validate_num_timers : HpetState → Bool
hpet_validate_num_timers s =
    not (ltb s.num_timers hpet_min_timers) && not (ltb hpet_max_timers s.num_timers)

unfoldable pub hpet_offset_needed : HpetState → Bool
hpet_offset_needed s = hpet_enabled s && not (s.hpet_offset_saved == 0)

unfoldable pub hpet_rtc_irq_level_needed : HpetState → Bool
hpet_rtc_irq_level_needed s = not (s.rtc_irq_level == 0)

-- The offset between the counter and the clock, unless it was saved.
unfoldable pub load_offset : HpetState → HpetState
load_offset s = if s.hpet_offset_saved == 0 then start_counter s else s

unfoldable pub load_flags : HpetTimer → ℕ → ℕ
load_flags t flags =
    if has t.config hpet_tn_fsb_cap
    then set_flag (clear_flag flags msi_support) msi_support
    else clear_flag flags msi_support

-- `none` stands for a state without timers.
unfoldable pub hpet_post_load : HpetState → Option HpetState
hpet_post_load s = elim (get_elem? s.timer 0) [
  | none ↦ none
  | some t ↦ some (record (load_offset s) {
    capability =
        bit_or (bit_and s.capability (all_ones - 0x1f00)) (u64 ((s.num_timers + all_ones) * 2 ^ 8));
    flags = load_flags t s.flags;
  })
]

-- The place of an address after `base`, which is `HPET_BASE` of another library.
abbrev pub fault_index : ℕ → ℕ → ℕ → ℕ
fault_index word base fault_addr = (fault_addr + (word - base)) % word

-- The fault of a read, or of a write of `value`: the data of the fault afterwards, and the state.
unfoldable pub hpet_fault_callback : ℕ → ℕ → Bool → ℕ → ℕ → HpetState → Option (ℕ × HpetState)
hpet_fault_callback word base true fault_addr value s =
    vm_hpet_mmio_read word (fault_index word base fault_addr) s
hpet_fault_callback word base false fault_addr value s =
    elim (vm_hpet_mmio_write word (fault_index word base fault_addr) value s) [
      | none ↦ none
      | some t ↦ some (value, t)
    ]
