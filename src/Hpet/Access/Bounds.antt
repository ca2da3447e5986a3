-- ===== src/Hpet/Access/Bounds.antt =====
-- Which accesses of the guest reach past the array of timers.
use camkes_vm.Common.{
  get_elem?, ℕ, zero, suc, ◌%◌, ◌<◌, ◌≤◌, ◌≡◌, refl, Option, none, some, List, [], ◌∷◌, length,
  arith, Bool, true, false, not, ◌||◌, ltb, ◌&&◌, ap, sym, ◌∙◌,
}
use mathlib.Core.Logic.{◌↔◌}
use camkes_vm.Hpet.State.{HpetTimer, HpetState}
use camkes_vm.Hpet.Access.{
  in_timers, timer_id, timer_reg, is_timer_reg, vm_hpet_mmio_read, vm_hpet_mmio_write,
  write_register,
}

abbrev is_some {ℓ} : {A : Type ℓ} → Option A → Bool
is_some none = false
is_some (some a) = true

-- The sizes that `hpet_realize` sets and nothing changes.
pub record IsSized (s : HpetState) : Type 0 where
  pub three : s.num_timers ≡ 3
  pub whole : length s.timer ≡ 3

-- The registers of a fourth timer.
pub record IsPast (index : ℕ) : Type 0 where
  pub from : 0x160 ≤ index
  pub below : index < 0x178
  pub aligned : index % 4 ≡ 0

get_elem?_lem : (ts : List HpetTimer) (i : ℕ) → is_some (get_elem? ts i) ≡ ltb i (length ts)
get_elem?_lem [] i = ground arith
get_elem?_lem (t ∷ ts) zero = ground arith
get_elem?_lem (t ∷ ts) (suc i) = ground (arith, get_elem?_lem ts i)

-- The test of both functions that lets an access through to the array.
abbrev reaches : ℕ → HpetState → Bool
reaches index s =
    in_timers index
    && not (ltb s.num_timers (timer_id index) || not (is_timer_reg (timer_reg index)))

-- Whether an access goes past the array.
abbrev misses : ℕ → HpetState → Bool
misses index s = reaches index s && not (is_some (get_elem? s.timer (timer_id index)))

misses-IsPast : (index : ℕ) (s : HpetState) → IsSized s → misses index s ≡ true → IsPast index
misses-IsPast index s v h = record {
  from = ground (arith, v.three, v.whole, get_elem?_lem s.timer (timer_id index), h);
  below = ground (arith, v.three, h);
  aligned = ground (arith, h);
}

IsPast-misses : (index : ℕ) (s : HpetState) → IsSized s → IsPast index → misses index s ≡ true
IsPast-misses index s v p =
    ground
      (arith, v.three, v.whole, p.from, p.below, p.aligned, get_elem?_lem s.timer (timer_id index))

read-misses :
    (word index : ℕ) (s : HpetState)
    → is_some (vm_hpet_mmio_read word index s) ≡ not (misses index s)
unfolding vm_hpet_mmio_read
read-misses word index s = ground arith

write-misses :
    (index old new : ℕ) (s : HpetState)
    → is_some (write_register index old new s) ≡ not (misses index s)
unfolding write_register
write-misses index old new s = ground arith

none_iff : {A : Type 0} (o : Option A) → (is_some o ≡ false) ↔ (o ≡ none)
none_iff none = ((λ h. refl), λ h. refl)
none_iff (some a) = ((λ h. absurd (ground (arith, h))), λ h. absurd (ground (arith, h)))

pub vm_hpet_mmio_read-IsSized :
    (word index old : ℕ) (s t : HpetState)
    → IsSized s
    → vm_hpet_mmio_read word index s ≡ some (old, t)
    → IsSized t
unfolding vm_hpet_mmio_read
vm_hpet_mmio_read-IsSized word index old s t v h = record {
  three = ground (arith, v.three, h);
  whole = ground (arith, v.whole, h);
}

misses_alike :
    (index : ℕ) (s t : HpetState) → IsSized s → IsSized t → misses index s ≡ misses index t
misses_alike index s t v w = ground (
  arith,
  get_elem?_lem s.timer (timer_id index),
  get_elem?_lem t.timer (timer_id index),
  v.three,
  v.whole,
  w.three,
  w.whole,
)

pub vm_hpet_mmio_write-some :
    (word index old new : ℕ) (s t : HpetState)
    → vm_hpet_mmio_read word index s ≡ some (old, t)
    → vm_hpet_mmio_write word index new s ≡ write_register index old new t
unfolding vm_hpet_mmio_write
vm_hpet_mmio_write-some word index old new s t h = rw (h, vm_hpet_mmio_write) refl

pub vm_hpet_mmio_write-none :
    (word index new : ℕ) (s : HpetState)
    → vm_hpet_mmio_read word index s ≡ none
    → vm_hpet_mmio_write word index new s ≡ none
unfolding vm_hpet_mmio_write
vm_hpet_mmio_write-none word index new s h = rw (h, vm_hpet_mmio_write) refl

vm_hpet_mmio_write-misses :
    (word index new : ℕ) (s : HpetState) (o : Option (ℕ × HpetState))
    → IsSized s
    → vm_hpet_mmio_read word index s ≡ o
    → is_some (vm_hpet_mmio_write word index new s) ≡ not (misses index s)
vm_hpet_mmio_write-misses word index new s none v h =
    ground (arith, vm_hpet_mmio_write-none word index new s h, h, read-misses word index s)
vm_hpet_mmio_write-misses word index new s (some (old, t)) v h =
    ap is_some (vm_hpet_mmio_write-some word index old new s t h)
    ∙ write-misses index old new t
    ∙ ap not (sym (misses_alike index s t v (vm_hpet_mmio_read-IsSized word index old s t v h)))

-- With three timers, a read goes past the array of timers exactly at the registers of a fourth one.
vm_hpet_mmio_read-IsPast :
    (word index : ℕ) (s : HpetState)
    → IsSized s
    → (vm_hpet_mmio_read word index s ≡ none) ↔ IsPast index
vm_hpet_mmio_read-IsPast word index s v = (
  (λ h. misses-IsPast index s v (ground (arith, read-misses word index s, h))),
  λ p.
      (none_iff (vm_hpet_mmio_read word index s)).0
        (ground (arith, read-misses word index s, IsPast-misses index s v p)),
)

-- With three timers, a write to the event timer goes past the array of timers exactly at the
-- registers of a fourth one.
pub vm_hpet_mmio_write-IsPast :
    (word index new : ℕ) (s : HpetState)
    → IsSized s
    → (vm_hpet_mmio_write word index new s ≡ none) ↔ IsPast index
vm_hpet_mmio_write-IsPast word index new s v = (
  (λ h. misses-IsPast index s v (
      ground (
        arith,
        vm_hpet_mmio_write-misses word index new s (vm_hpet_mmio_read word index s) v refl,
        h,
      ))),
  λ p. (none_iff (vm_hpet_mmio_write word index new s)).0 (
      ground (
        arith,
        vm_hpet_mmio_write-misses word index new s (vm_hpet_mmio_read word index s) v refl,
        IsPast-misses index s v p,
      )),
)
