-- ===== src/Pit/Transition.antt =====
-- The next transition that i8254.c works out is the next one.
use native.Mathlib.Nat.{mul-add-mod_self_right, mul-mod_left, mod-eq_of_lt, div-add-mod', mod-lt}
use camkes_vm.Common.{
  ℕ, ◌+◌, ◌-◌, ◌*◌, ◌/◌, ◌%◌, ◌≤◌, ◌<◌, ◌≡◌, ◌≢◌, ◌∙◌, ap, Option, none, some, arith, true, false,
}
use camkes_vm.Pit.State.{Arith, IsArith}
use camkes_vm.Pit.Count.{out_at, next_tick}

-- the last multiple of `c` up to `d`
abbrev base : ℕ → ℕ → ℕ
base d c = d / c * c

base_bounds : (d c : ℕ) → 0 < c → (base d c ≤ d) × (d < base d c + c)
base_bounds d c h = omega (arith, div-add-mod' d c, mod-lt d h)

-- Within a period the phase is the distance from its start.
phase : (d c t : ℕ) → base d c ≤ t → t < base d c + c → t % c ≡ t - base d c
phase d c t lo hi =
    ap (λ n. n % c) split ∙ mul-add-mod_self_right (d / c) c (t - base d c) ∙ mod-eq_of_lt within
  where
    split : t ≡ d / c * c + (t - base d c)
    split = omega arith

    within : t - base d c < c
    within = omega arith

-- `t` comes before the transition, if there is one.
abbrev pub Before : ℕ → Option ℕ → Type 0
Before t none = Unit {0}
Before t (some n) = t < n

module _ (lib : Arith) (laws : IsArith lib) where
  -- The transition that is worked out lies ahead, in every mode.
  next_tick_ahead : (mode count d n : ℕ) → 0 < count → next_tick lib mode count d ≡ some n → d < n
  unfolding next_tick
  next_tick_ahead mode count d n h e =
      ground (arith, laws.round_down_lem d count, base_bounds d count h)

  -- In every mode but 2 and for a positive count, the output of a PIT channel does not change
  -- before the tick that is worked out as the next transition, and never again if there is none.
  pub out_at-steady :
      (mode count d t : ℕ)
      → mode ≢ 2
      → 0 < count
      → d ≤ t
      → Before t (next_tick lib mode count d)
      → out_at mode count t ≡ out_at mode count d
  unfolding next_tick out_at
  out_at-steady mode count d t m h le b =
      ground (
        arith,
        laws.round_down_lem d count,
        base_bounds d count h,
        phase d count d,
        phase d count t,
      )

  -- In mode 2, at a positive multiple of a count above 1, the output is high and falls one tick
  -- later, but the transition worked out is a whole period ahead.
  pub next_tick_misses_fall :
      (k count : ℕ)
      → 0 < k
      → 1 < count
      → (next_tick lib 2 count (k * count) ≡ some (k * count + count))
        × (out_at 2 count (k * count) ≡ true)
        × (out_at 2 count (k * count + 1) ≡ false)
  unfolding next_tick out_at
  next_tick_misses_fall k count hk hc = ground (arith, aligned, start, after, positive)
    where
      positive : 0 < k * count
      positive = grind arith

      start : k * count % count ≡ 0
      start = mul-mod_left k count

      after : (k * count + 1) % count ≡ 1
      after = mul-add-mod_self_right k count 1 ∙ mod-eq_of_lt hc

      aligned : lib.round_down (k * count) count ≡ k * count
      aligned =
          laws.round_down_lem (k * count) count (omega arith)
          ∙ omega (arith, div-add-mod' (k * count) count, start)
