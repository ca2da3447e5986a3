-- ===== src/Hpet/Timer/Catch64.antt =====
-- The loop of `hpet_timer` for 64 bits.
use camkes_vm.Common.{
  ℕ, ap, sym, zero, suc, ◌+◌, ◌-◌, ◌*◌, ◌^◌, ◌<◌, ◌≤◌, ◌≡◌, ◌≢◌, refl, ◌∙◌, true, false, Bool-cases,
  Option, some, arith, u64, leb, if◌then◌else◌, ◌⊎◌, inl, inr,
}
use camkes_vm.Hpet.Bits.{hpet_time_after64}
use camkes_vm.Hpet.Timer.{catch_up64}

-- how far the comparator is ahead of the counter, around the clock
abbrev pub ahead64 : ℕ → ℕ → ℕ
ahead64 cur cmp = u64 (cmp + (2 ^ 64 - cur))

-- An upper bound of the rounds left. A period above half of the range moves the comparator back.
abbrev left64 : ℕ → ℕ → ℕ
left64 p d = if leb p (2 ^ 63) then 2 ^ 64 - d else d - 2 ^ 63 + 1

ahead64-step :
    (cur period cmp : ℕ)
    → cur < 2 ^ 64
    → ahead64 cur (u64 (cmp + period)) ≡ u64 (ahead64 cur cmp + u64 period)
ahead64-step cur period cmp h = omega arith

left64_falls :
    (p d : ℕ)
    → p < 2 ^ 64
    → p ≢ 0
    → d < 2 ^ 64
    → 2 ^ 63 ≤ d
    → (u64 (d + p) < 2 ^ 63) ⊎ (left64 p (u64 (d + p)) < left64 p d)
left64_falls p d h n l m = ground arith

-- A comparator where the loop ends: not behind the counter, and as few whole
-- periods away from the start as that takes.
pub record Caught64 (cur period cmp e : ℕ) : Type 0 where
  pub not_behind : hpet_time_after64 cur e ≡ false
  pub periods : ℕ
  pub least : (k : ℕ) → k < periods → hpet_time_after64 cur (cmp + k * period) ≡ true
  pub moved : u64 e ≡ u64 (cmp + periods * period)

-- The counter sees the comparator within its width only.
next_behind64 :
    (cur period cmp k : ℕ)
    → hpet_time_after64 cur (u64 (cmp + period) + k * period)
      ≡ hpet_time_after64 cur (cmp + suc k * period)
unfolding hpet_time_after64
next_behind64 cur period cmp k = ap (leb (2 ^ 63)) (omega arith)

least64 :
    (cur period cmp n : ℕ)
    → hpet_time_after64 cur cmp ≡ true
    → ((k : ℕ) → k < n → hpet_time_after64 cur (u64 (cmp + period) + k * period) ≡ true)
    → (k : ℕ) → k < suc n
    → hpet_time_after64 cur (cmp + k * period) ≡ true
least64 cur period cmp n h l zero b = ap (hpet_time_after64 cur) (omega arith) ∙ h
least64 cur period cmp n h l (suc k) b =
    sym (next_behind64 cur period cmp k) ∙ l k (omega (arith, b))

later64 :
    (cur period cmp e : ℕ)
    → hpet_time_after64 cur cmp ≡ true
    → Caught64 cur period (u64 (cmp + period)) e
    → Caught64 cur period cmp e
later64 cur period cmp e h c = record {
  not_behind = c.not_behind;
  periods = suc c.periods;
  least = least64 cur period cmp c.periods h c.least;
  moved = omega (arith, c.moved);
}

abbrev Ends64 : Option ℕ → ℕ → ℕ → ℕ → Type 0
Ends64 o cur period cmp = (e : ℕ) × (o ≡ some e) × Caught64 cur period cmp e

catch_up64-stop :
    (fuel cur period cmp : ℕ)
    → hpet_time_after64 cur cmp ≡ false
    → catch_up64 (suc fuel) cur period cmp ≡ some cmp
unfolding catch_up64
catch_up64-stop fuel cur period cmp h = rw (h, catch_up64) refl

catch_up64-go :
    (fuel cur period cmp : ℕ)
    → hpet_time_after64 cur cmp ≡ true
    → catch_up64 (suc fuel) cur period cmp ≡ catch_up64 fuel cur period (u64 (cmp + period))
unfolding catch_up64
catch_up64-go fuel cur period cmp h = rw (h, catch_up64) refl

Ends64-now :
    (fuel cur period cmp : ℕ)
    → hpet_time_after64 cur cmp ≡ false
    → Ends64 (catch_up64 (suc fuel) cur period cmp) cur period cmp
Ends64-now fuel cur period cmp h = (
  cmp,
  catch_up64-stop fuel cur period cmp h,
  record {
    not_behind = h;
    periods = 0;
    least = λ k l. absurd (omega (arith, l));
    moved = omega arith;
  },
)

Ends64-later :
    (fuel cur period cmp : ℕ)
    → hpet_time_after64 cur cmp ≡ true
    → Ends64 (catch_up64 fuel cur period (u64 (cmp + period))) cur period (u64 (cmp + period))
    → Ends64 (catch_up64 (suc fuel) cur period cmp) cur period cmp
Ends64-later fuel cur period cmp h (e, q, c) =
    (e, catch_up64-go fuel cur period cmp h ∙ q, later64 cur period cmp e h c)

behind64 : (cur cmp : ℕ) → hpet_time_after64 cur cmp ≡ true → 2 ^ 63 ≤ ahead64 cur cmp
unfolding hpet_time_after64
behind64 cur cmp h = ground arith

not_behind64 : (cur cmp : ℕ) → ahead64 cur cmp < 2 ^ 63 → hpet_time_after64 cur cmp ≡ false
unfolding hpet_time_after64
not_behind64 cur cmp h = ground arith

-- Enough fuel is more than the bound of the rounds left.
pub catch_up64_lem :
    (fuel cur period cmp : ℕ)
    → cur < 2 ^ 64
    → u64 period ≢ 0
    → left64 (u64 period) (ahead64 cur cmp) < fuel
    → Ends64 (catch_up64 fuel cur period cmp) cur period cmp
catch_up64_lem zero cur period cmp h n l = absurd (omega arith)
catch_up64_lem (suc zero) cur period cmp h n l = absurd (ground arith)
catch_up64_lem (suc (suc fuel)) cur period cmp h n l =
    elim (Bool-cases (hpet_time_after64 cur cmp)) [
      | inr e ↦ Ends64-now (suc fuel) cur period cmp e
      | inl e ↦
          Ends64-later (suc fuel) cur period cmp e
            (elim (left64_falls (u64 period) (ahead64 cur cmp) (omega arith) n (omega arith)
              (behind64 cur cmp e)) [
                | inl stop ↦ Ends64-now fuel cur period (u64 (cmp + period)) (
                    not_behind64 cur (u64 (cmp + period))
                      (omega (arith, ahead64-step cur period cmp h)))
                | inr less ↦
                    catch_up64_lem (suc fuel) cur period (u64 (cmp + period)) h n
                      (rw (ahead64-step cur period cmp h) (omega arith))
              ])
    ]
