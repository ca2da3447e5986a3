-- ===== src/Hpet/Access/Sized.antt =====
-- The array of timers keeps its size through every write of the guest.
use camkes_vm.Common.{
  get_elem?, ℕ, zero, suc, ◌+◌, ◌≡◌, ◌∙◌, Option, none, some, Bool, arith, length-set,
  if◌then◌else◌, true, false, bit_and, bit_or, refl, sym,
}
use camkes_vm.Hpet.State.{
  HpetTimer, HpetState, put_timer, at_timer, for_each, hpet_cfg_write_mask, hpet_tn_fsb_enable,
}
use camkes_vm.Hpet.Timer.{update_irq, update_status, hpet_set_timer, hpet_del_timer}
use camkes_vm.Hpet.Access.{
  write_timer, write_tn_cfg, write_block, write_register, write_cfg, write_status, switch_counter,
  start_counter, switch_legacy, set_unless_unused, set_config, set_low, set_high, restart,
  acknowledge, timer_id, timer_reg, vm_hpet_mmio_read, vm_hpet_mmio_write,
}
use camkes_vm.Hpet.Bits.{read_clock, hpet_get_ticks, high_word, hpet_fixup_reg, activating_bit}
use camkes_vm.Hpet.Access.Bounds.{
  IsSized, vm_hpet_mmio_read-IsSized, vm_hpet_mmio_write-some, vm_hpet_mmio_write-none,
}

update_irq-IsSized :
    (t : HpetTimer) (set : Bool) (s : HpetState) → IsSized s → IsSized (update_irq t set s)
unfolding update_irq update_status
update_irq-IsSized t set s v = record {
  three = ground (arith, v.three);
  whole = ground (arith, v.whole);
}

hpet_set_timer-IsSized :
    (t : HpetTimer) (s : HpetState) → IsSized s → IsSized (hpet_set_timer t s).1
unfolding hpet_set_timer
hpet_set_timer-IsSized t s v = record {
  three = ground (arith, v.three);
  whole = ground (arith, v.whole);
}

hpet_del_timer-IsSized :
    (t : HpetTimer) (s : HpetState) → IsSized s → IsSized (hpet_del_timer t s).1
unfolding hpet_del_timer
hpet_del_timer-IsSized t s v =
    update_irq-IsSized t _ _ (record { three = v.three; whole = v.whole })

-- A function on a timer that keeps the size.
abbrev Keeps : (HpetTimer → HpetState → HpetTimer × HpetState) → Type 0
Keeps f = (t : HpetTimer) (s : HpetState) → IsSized s → IsSized (f t s).1

put_timer-IsSized :
    (i : ℕ) (t : HpetTimer) (s : HpetState) → IsSized s → IsSized (put_timer i (t, s))
put_timer-IsSized i t s v = record { three = v.three; whole = length-set s.timer i t ∙ v.whole }

found-IsSized :
    (f : HpetTimer → HpetState → HpetTimer × HpetState) (i : ℕ) (s : HpetState)
    (o : Option HpetTimer)
    → Keeps f
    → IsSized s
    → IsSized (elim o [ none ↦ s | some t ↦ put_timer i (f t s) ])
found-IsSized f i s none k v = v
found-IsSized f i s (some t) k v = put_timer-IsSized i (f t s).0 (f t s).1 (k t s v)

at_timer-IsSized :
    (f : HpetTimer → HpetState → HpetTimer × HpetState) (i : ℕ) (s : HpetState)
    → Keeps f
    → IsSized s
    → IsSized (at_timer f i s)
at_timer-IsSized f i s k v = found-IsSized f i s (get_elem? s.timer i) k v

for_each-IsSized :
    (n i : ℕ) (body : ℕ → HpetState → HpetState) (s : HpetState)
    → ((j : ℕ) (t : HpetState) → IsSized t → IsSized (body j t))
    → IsSized s
    → IsSized (for_each n i body s)
for_each-IsSized zero i body s k v = v
for_each-IsSized (suc n) i body s k v = for_each-IsSized n (i + 1) body (body i s) k (k i s v)

set_unless_unused-IsSized :
    (t : HpetTimer) (s : HpetState) → IsSized s → IsSized (set_unless_unused t s).1
set_unless_unused-IsSized t s v =
    let w = hpet_set_timer-IsSized t s v in
    record { three = ground (arith, v.three, w.three); whole = ground (arith, v.whole, w.whole) }

started-IsSized :
    (s : HpetState)
    → IsSized s
    → IsSized (for_each s.num_timers 0 (at_timer set_unless_unused) (start_counter s))
unfolding start_counter
started-IsSized s v =
    for_each-IsSized s.num_timers 0 (at_timer set_unless_unused) (start_counter s)
      (λ j t. at_timer-IsSized set_unless_unused j t set_unless_unused-IsSized)
      (record { three = v.three; whole = v.whole })

stopped-IsSized :
    (s t : HpetState) → IsSized t → IsSized (for_each s.num_timers 0 (at_timer hpet_del_timer) t)
stopped-IsSized s t v =
    for_each-IsSized s.num_timers 0 (at_timer hpet_del_timer) t
      (λ j u. at_timer-IsSized hpet_del_timer j u hpet_del_timer-IsSized) v

switch_counter-IsSized :
    (old new : ℕ) (s : HpetState) → IsSized s → IsSized (switch_counter old new s)
unfolding switch_counter
switch_counter-IsSized old new s v =
    let w = started-IsSized s v in
    let halted = record (read_clock s) { hpet_counter = hpet_get_ticks s } in
    let z = stopped-IsSized s halted (record { three = v.three; whole = v.whole }) in
    record {
      three = ground (arith, v.three, w.three, z.three);
      whole = ground (arith, v.whole, w.whole, z.whole);
    }

switch_legacy-IsSized :
    (old new : ℕ) (s : HpetState) → IsSized s → IsSized (switch_legacy old new s)
unfolding switch_legacy
switch_legacy-IsSized old new s v = record {
  three = ground (arith, v.three);
  whole = ground (arith, v.whole);
}

acknowledge-IsSized :
    (val j : ℕ) (t : HpetTimer) (s : HpetState) → IsSized s → IsSized (acknowledge val j t s).1
unfolding acknowledge
acknowledge-IsSized val j t s v =
    let w = update_irq-IsSized t false s v in
    record { three = ground (arith, v.three, w.three); whole = ground (arith, v.whole, w.whole) }

write_status-IsSized : (new : ℕ) (s : HpetState) → IsSized s → IsSized (write_status new s)
unfolding write_status
write_status-IsSized new s v =
    for_each-IsSized s.num_timers 0 (λ i. at_timer (acknowledge (bit_and new s.isr) i) i) s
      (λ j u.
        at_timer-IsSized (acknowledge (bit_and new s.isr) j) j u
          (acknowledge-IsSized (bit_and new s.isr) j))
      v

write_cfg-IsSized : (old new : ℕ) (s : HpetState) → IsSized s → IsSized (write_cfg old new s)
unfolding write_cfg
write_cfg-IsSized old new s v =
    let t = record s {
      config = bit_or (high_word s.config) (hpet_fixup_reg new old hpet_cfg_write_mask);
    } in
    switch_legacy-IsSized old new (switch_counter old new t)
      (switch_counter-IsSized old new t (record { three = v.three; whole = v.whole }))

write_block-IsSized :
    (index old new : ℕ) (s : HpetState) → IsSized s → IsSized (write_block index old new s)
unfolding write_block
write_block-IsSized index old new s v =
    let a = write_cfg-IsSized old new s v in
    let b = write_status-IsSized new s v in
    record {
      three = ground (arith, v.three, a.three, b.three);
      whole = ground (arith, v.whole, a.whole, b.whole);
    }

-- The interrupt of the timer may be withdrawn before its configuration changes.
withdrawn-IsSized :
    (b : Bool) (t : HpetTimer) (s : HpetState)
    → IsSized s
    → IsSized (if b then update_irq t false s else s)
withdrawn-IsSized true t s v = update_irq-IsSized t false s v
withdrawn-IsSized false t s v = v

write_tn_cfg-IsSized :
    (old new : ℕ) (t : HpetTimer) (s : HpetState) → IsSized s → IsSized (write_tn_cfg old new t s).1
unfolding write_tn_cfg
write_tn_cfg-IsSized old new t s v =
    let fsb = activating_bit old new hpet_tn_fsb_enable in
    let w = withdrawn-IsSized fsb t s v in
    let a =
      hpet_set_timer-IsSized (set_config old new t) (if fsb then update_irq t false s else s) w in
    let d =
      hpet_del_timer-IsSized (set_config old new t) (if fsb then update_irq t false s else s) w in
    record {
      three = ground (arith, w.three, a.three, d.three);
      whole = ground (arith, w.whole, a.whole, d.whole);
    }

restart-IsSized : (t : HpetTimer) (s : HpetState) → IsSized s → IsSized (restart t s).1
restart-IsSized t s v =
    let w = hpet_set_timer-IsSized t s v in
    record { three = ground (arith, v.three, w.three); whole = ground (arith, v.whole, w.whole) }

write_timer-IsSized :
    (reg old new : ℕ) (t : HpetTimer) (s : HpetState)
    → IsSized s
    → IsSized (write_timer reg old new t s).1
unfolding write_timer
write_timer-IsSized reg old new t s v =
    let a = write_tn_cfg-IsSized old new t s v in
    let b = restart-IsSized (set_low new t) s v in
    let c = restart-IsSized (set_high new t) s v in
    record {
      three = ground (arith, v.three, a.three, b.three, c.three);
      whole = ground (arith, v.whole, a.whole, b.whole, c.whole);
    }

found_register-IsSized :
    (index old new : ℕ) (s t : HpetState) (o : Option HpetTimer)
    → IsSized s
    → get_elem? s.timer (timer_id index) ≡ o
    → write_register index old new s ≡ some t
    → IsSized t
unfolding write_register
found_register-IsSized index old new s t none v e h =
    let b = write_block-IsSized index old new s v in
    record {
      three = ground (arith, v.three, b.three, e, h);
      whole = ground (arith, v.whole, b.whole, e, h);
    }
found_register-IsSized index old new s t (some c) v e h =
    let b = write_block-IsSized index old new s v in
    let (c', s') = write_timer (timer_reg index) old new c s in
    let w =
      put_timer-IsSized (timer_id index) c' s'
        (write_timer-IsSized (timer_reg index) old new c s v) in
    record {
      three = ground (arith, v.three, b.three, w.three, e, h);
      whole = ground (arith, v.whole, b.whole, w.whole, e, h);
    }

after_read-IsSized :
    (word index new : ℕ) (s t : HpetState) (o : Option (ℕ × HpetState))
    → IsSized s
    → vm_hpet_mmio_read word index s ≡ o
    → vm_hpet_mmio_write word index new s ≡ some t
    → IsSized t
after_read-IsSized word index new s t none v e h =
    absurd (ground (arith, vm_hpet_mmio_write-none word index new s e, h))
after_read-IsSized word index new s t (some (old, u)) v e h =
    found_register-IsSized index old new u t (get_elem? u.timer (timer_id index))
      (vm_hpet_mmio_read-IsSized word index old s u v e) refl
      (sym (vm_hpet_mmio_write-some word index old new s u e) ∙ h)

-- A write of the guest that does not go past the array keeps the number of timers at three.
vm_hpet_mmio_write-IsSized :
    (word index new : ℕ) (s t : HpetState)
    → IsSized s
    → vm_hpet_mmio_write word index new s ≡ some t
    → IsSized t
vm_hpet_mmio_write-IsSized word index new s t v =
    after_read-IsSized word index new s t (vm_hpet_mmio_read word index s) v refl
