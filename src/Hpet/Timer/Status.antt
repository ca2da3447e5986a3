-- ===== src/Hpet/Timer/Status.antt =====
-- What `update_irq` leaves the status register and the interrupt line at.
use camkes_vm.Common.{
  ℕ, zero, suc, ◌<◌, ◌^◌, ◌≡◌, refl, Bool, false, ◌&&◌, arith, has, if◌then◌else◌, ◌⊎◌, inl, inr,
}
use camkes_vm.Host.{level}
use camkes_vm.Hpet.State.{HpetTimer, HpetState, hpet_tn_type_level}
use camkes_vm.Hpet.Bits.{timer_enabled, hpet_enabled, timer_fsb_route}
use camkes_vm.Hpet.Timer.{update_irq, update_status, route}

-- An interrupt that is set and stays until it is cleared.
abbrev pub holds : HpetTimer → Bool → HpetState → Bool
holds t set s = set && timer_enabled t && hpet_enabled s && has t.config hpet_tn_type_level

update_status_lem :
    (m line : ℕ) (t : HpetTimer) (set : Bool) (s : HpetState)
    → (m ≡ 1) ⊎ ((m ≡ 2) ⊎ (m ≡ 4))
    → timer_fsb_route t ≡ false
    → (has (update_status m line t set s).isr m ≡ holds t set s)
      × (level line (update_status m line t set s).world.log ≡ (if holds t set s then 1 else 0))
unfolding update_status
update_status_lem m line t set s (inl h) f = ground (arith, h, f)
update_status_lem m line t set s (inr (inl h)) f = ground (arith, h, f)
update_status_lem m line t set s (inr (inr h)) f = ground (arith, h, f)

mask_cases : (n : ℕ) → n < 3 → (2 ^ n ≡ 1) ⊎ ((2 ^ n ≡ 2) ⊎ (2 ^ n ≡ 4))
mask_cases zero h = inl refl
mask_cases (suc zero) h = inr (inl refl)
mask_cases (suc (suc zero)) h = inr (inr refl)
mask_cases (suc (suc (suc n))) h = absurd (omega arith)

-- For a timer of the array without FSB routing, `update_irq` leaves the status bit set and the line
-- high exactly when the interrupt is set, the timer and the block are enabled, and the timer is
-- level triggered; else the bit is clear and the line low.
update_irq-agrees :
    (t : HpetTimer) (set : Bool) (s : HpetState)
    → t.tn < 3
    → timer_fsb_route t ≡ false
    → (has (update_irq t set s).isr (2 ^ t.tn) ≡ holds t set s)
      × (level (route t s) (update_irq t set s).world.log ≡ (if holds t set s then 1 else 0))
unfolding update_irq
update_irq-agrees t set s h f =
    update_status_lem (2 ^ t.tn) (route t s) t set s (mask_cases t.tn h) f
