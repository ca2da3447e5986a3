-- ===== src/Common/Flags.antt =====
-- Flags of a device register. `m` is a mask of one bit, such as 0x20. The forms by `/` and `%`
-- are what the arithmetic tactics read; the tables show that on bytes they are C's `&` and `|`.
use camkes_vm.Common.Tests.{◌==◌, if◌then◌else◌}
use native.Mathlib.Omega.{arith}
use mathlib.Core.List.{List, [], ◌∷◌}
use mathlib.Core.Path.{◌≡◌, refl}
use Prim.Native.Nat.{ℕ, zero, suc, ◌+◌, ◌-◌, ◌/◌, ◌%◌, ◌^◌, ◌<◌, bit_and, bit_or}
use mathlib.Core.Bool.{Bool, true, ◌&&◌}

-- `x & m`, as a condition
abbrev pub has : ℕ → ℕ → Bool
has x m = (x / m) % 2 == 1

-- `x | m`
abbrev pub set_flag : ℕ → ℕ → ℕ
set_flag x m = if has x m then x else x + m

-- `x & ~m`
abbrev pub clear_flag : ℕ → ℕ → ℕ
clear_flag x m = if has x m then x - m else x

-- unsigned integers of C, which wrap
abbrev pub u64 : ℕ → ℕ
u64 n = n % 2 ^ 64

abbrev pub u16 : ℕ → ℕ
u16 n = n % 65536

abbrev pub u32 : ℕ → ℕ
u32 n = n % 2 ^ 32

abbrev pub u8 : ℕ → ℕ
u8 n = n % 256

-- whether `p` holds of all numbers below a bound
unfoldable pub holds_below : (ℕ → Bool) → ℕ → Bool
holds_below p zero = true
holds_below p (suc k) = holds_below p k && p k

all_masks : List ℕ → (ℕ → Bool) → Bool
all_masks [] p = true
all_masks (m ∷ ms) p = p m && all_masks ms p

abbrev masks : List ℕ
masks = 0x01 ∷ 0x02 ∷ 0x04 ∷ 0x08 ∷ 0x10 ∷ 0x20 ∷ 0x40 ∷ 0x80 ∷ []

pub holds_below_sound : (p : ℕ → Bool) (k x : ℕ) → x < k → holds_below p k ≡ true → p x ≡ true
unfolding holds_below
holds_below_sound p zero x below all = absurd (omega arith)
holds_below_sound p (suc k) x below all = ground (arith, holds_below_sound p k x)

-- Each byte and mask: the three forms are the C operations.
flags_table :
    holds_below
      (λ x. all_masks masks (λ m.
        (set_flag x m == bit_or x m)
        && (clear_flag x m == bit_and x (255 - m))
        && ((if has x m then m else 0) == bit_and x m)))
      256
    ≡ true
unfolding holds_below all_masks
flags_table = refl
