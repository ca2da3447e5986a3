-- ===== src/Hpet/Timer/Catch.antt =====
-- The loops of `hpet_timer` that move the comparator past the counter, by a period each round.
use camkes_vm.Common.{
  ℕ, none, ap, sym, zero, suc, ◌+◌, ◌-◌, ◌*◌, ◌^◌, ◌<◌, ◌≤◌, ◌≡◌, ◌≢◌, refl, ◌∙◌, true, false,
  Bool-cases, Option, some, arith, u32, leb, if◌then◌else◌, ◌⊎◌, inl, inr,
}
use camkes_vm.Hpet.Bits.{hpet_time_after}
use camkes_vm.Hpet.Timer.{catch_up32}

-- how far the comparator is ahead of the counter, around the clock
abbrev pub ahead32 : ℕ → ℕ → ℕ
ahead32 cur cmp = u32 (cmp + (2 ^ 64 - cur))

-- An upper bound of the rounds left. A period above half of the range moves the comparator back.
abbrev left32 : ℕ → ℕ → ℕ
left32 p d = if leb p (2 ^ 31) then 2 ^ 32 - d else d - 2 ^ 31 + 1

ahead32-step :
    (cur period cmp : ℕ)
    → cur < 2 ^ 64
    → ahead32 cur (u32 (cmp + period)) ≡ u32 (ahead32 cur cmp + u32 period)
ahead32-step cur period cmp h = omega arith

left32_falls :
    (p d : ℕ)
    → p < 2 ^ 32
    → p ≢ 0
    → d < 2 ^ 32
    → 2 ^ 31 ≤ d
    → (u32 (d + p) < 2 ^ 31) ⊎ (left32 p (u32 (d + p)) < left32 p d)
left32_falls p d h n l m = ground arith

-- A comparator where the loop of 32 bits ends: not behind the counter, and as few whole
-- periods away from the start as that takes.
pub record Caught32 (cur period cmp e : ℕ) : Type 0 where
  pub not_behind : hpet_time_after cur e ≡ false
  pub periods : ℕ
  pub least : (k : ℕ) → k < periods → hpet_time_after cur (cmp + k * period) ≡ true
  pub moved : u32 e ≡ u32 (cmp + periods * period)

-- The counter sees the comparator within its width only.
next_behind32 :
    (cur period cmp k : ℕ)
    → hpet_time_after cur (u32 (cmp + period) + k * period)
      ≡ hpet_time_after cur (cmp + suc k * period)
unfolding hpet_time_after
next_behind32 cur period cmp k = ap (leb (2 ^ 31)) (omega arith)

least32 :
    (cur period cmp n : ℕ)
    → hpet_time_after cur cmp ≡ true
    → ((k : ℕ) → k < n → hpet_time_after cur (u32 (cmp + period) + k * period) ≡ true)
    → (k : ℕ) → k < suc n
    → hpet_time_after cur (cmp + k * period) ≡ true
least32 cur period cmp n h l zero b = ap (hpet_time_after cur) (omega arith) ∙ h
least32 cur period cmp n h l (suc k) b =
    sym (next_behind32 cur period cmp k) ∙ l k (omega (arith, b))

later32 :
    (cur period cmp e : ℕ)
    → hpet_time_after cur cmp ≡ true
    → Caught32 cur period (u32 (cmp + period)) e
    → Caught32 cur period cmp e
later32 cur period cmp e h c = record {
  not_behind = c.not_behind;
  periods = suc c.periods;
  least = least32 cur period cmp c.periods h c.least;
  moved = omega (arith, c.moved);
}

abbrev Ends32 : Option ℕ → ℕ → ℕ → ℕ → Type 0
Ends32 o cur period cmp = (e : ℕ) × (o ≡ some e) × Caught32 cur period cmp e

catch_up32-stop :
    (fuel cur period cmp : ℕ)
    → hpet_time_after cur cmp ≡ false
    → catch_up32 (suc fuel) cur period cmp ≡ some cmp
unfolding catch_up32
catch_up32-stop fuel cur period cmp h = rw (h, catch_up32) refl

catch_up32-go :
    (fuel cur period cmp : ℕ)
    → hpet_time_after cur cmp ≡ true
    → catch_up32 (suc fuel) cur period cmp ≡ catch_up32 fuel cur period (u32 (cmp + period))
unfolding catch_up32
catch_up32-go fuel cur period cmp h = rw (h, catch_up32) refl

Ends32-now :
    (fuel cur period cmp : ℕ)
    → hpet_time_after cur cmp ≡ false
    → Ends32 (catch_up32 (suc fuel) cur period cmp) cur period cmp
Ends32-now fuel cur period cmp h = (
  cmp,
  catch_up32-stop fuel cur period cmp h,
  record {
    not_behind = h;
    periods = 0;
    least = λ k l. absurd (omega (arith, l));
    moved = omega arith;
  },
)

Ends32-later :
    (fuel cur period cmp : ℕ)
    → hpet_time_after cur cmp ≡ true
    → Ends32 (catch_up32 fuel cur period (u32 (cmp + period))) cur period (u32 (cmp + period))
    → Ends32 (catch_up32 (suc fuel) cur period cmp) cur period cmp
Ends32-later fuel cur period cmp h (e, q, c) =
    (e, catch_up32-go fuel cur period cmp h ∙ q, later32 cur period cmp e h c)

behind32 : (cur cmp : ℕ) → hpet_time_after cur cmp ≡ true → 2 ^ 31 ≤ ahead32 cur cmp
unfolding hpet_time_after
behind32 cur cmp h = ground arith

not_behind32 : (cur cmp : ℕ) → ahead32 cur cmp < 2 ^ 31 → hpet_time_after cur cmp ≡ false
unfolding hpet_time_after
not_behind32 cur cmp h = ground arith

-- Enough fuel is more than the bound of the rounds left.
pub catch_up32_lem :
    (fuel cur period cmp : ℕ)
    → cur < 2 ^ 64
    → u32 period ≢ 0
    → left32 (u32 period) (ahead32 cur cmp) < fuel
    → Ends32 (catch_up32 fuel cur period cmp) cur period cmp
catch_up32_lem zero cur period cmp h n l = absurd (omega arith)
catch_up32_lem (suc zero) cur period cmp h n l = absurd (ground arith)
catch_up32_lem (suc (suc fuel)) cur period cmp h n l = elim (Bool-cases (hpet_time_after cur cmp)) [
  | inr e ↦ Ends32-now (suc fuel) cur period cmp e
  | inl e ↦
      Ends32-later (suc fuel) cur period cmp e
        (elim (left32_falls (u32 period) (ahead32 cur cmp) (omega arith) n (omega arith)
          (behind32 cur cmp e)) [
            | inl stop ↦ Ends32-now fuel cur period (u32 (cmp + period)) (
                not_behind32 cur (u32 (cmp + period))
                  (omega (arith, ahead32-step cur period cmp h)))
            | inr less ↦
                catch_up32_lem (suc fuel) cur period (u32 (cmp + period)) h n
                  (rw (ahead32-step cur period cmp h) (omega arith))
          ])
]

-- A period of whole turns of the counter leaves the comparator where it is, behind the counter.
same32 :
    (cur period cmp : ℕ)
    → u32 period ≡ 0
    → hpet_time_after cur (u32 (cmp + period)) ≡ hpet_time_after cur cmp
unfolding hpet_time_after
same32 cur period cmp h = ap (leb (2 ^ 31)) (omega (arith, h))

pub catch_up32-stuck :
    (fuel cur period cmp : ℕ)
    → u32 period ≡ 0
    → hpet_time_after cur cmp ≡ true
    → catch_up32 fuel cur period cmp ≡ none
unfolding catch_up32
catch_up32-stuck zero cur period cmp z h = refl
catch_up32-stuck (suc fuel) cur period cmp z h =
    catch_up32-go fuel cur period cmp h
    ∙ catch_up32-stuck fuel cur period (u32 (cmp + period)) z (same32 cur period cmp z ∙ h)
