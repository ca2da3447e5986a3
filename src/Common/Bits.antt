-- ===== src/Common/Bits.antt =====
-- `|` of a number shifted up and one that fits below it is their sum, for every width.
use Prim.Native.Nat.{
  bit_or, bit_or-bitwise, digits, max, ℕ, zero, suc, ◌^◌, ◌+◌, ◌*◌, ◌%◌, ◌/◌, ◌<◌, ◌≤◌,
}
use mathlib.Core.Path.{◌≡◌, refl, ap, ap₂, sym, ◌∙◌}
use native.Mathlib.Nat.{pow-suc}
use native.Mathlib.Omega.{arith}

-- The digits of `a | b` with fuel `n`, as the native operation is specified.
abbrev or_digits : ℕ → ℕ → ℕ → ℕ
or_digits n a b = digits (λ y. y) max n a b

or_digits_enough : (n m a b : ℕ) → a ≤ n → a ≤ m → or_digits n a b ≡ or_digits m a b
or_digits_enough zero zero a b p q = refl
or_digits_enough zero (suc m) zero b p q = refl
or_digits_enough zero (suc m) (suc a) b p q = absurd (omega arith)
or_digits_enough (suc n) zero zero b p q = refl
or_digits_enough (suc n) zero (suc a) b p q = absurd (omega arith)
or_digits_enough (suc n) (suc m) zero b p q = refl
or_digits_enough (suc n) (suc m) (suc a) b p q =
    ap (λ d. d * 2 + max (suc a % 2) (b % 2))
      (or_digits_enough n m (suc a / 2) (b / 2) (omega arith) (omega arith))

zero-bit_or : (b : ℕ) → bit_or 0 b ≡ b
zero-bit_or b = bit_or-bitwise 0 b

-- the lowest digit of `x | y`
abbrev low_digits_max : ℕ → ℕ → ℕ
low_digits_max x y = max (x % 2) (y % 2)

bit_or_lowest : (a b : ℕ) → bit_or a b ≡ low_digits_max a b + 2 * bit_or (a / 2) (b / 2)
bit_or_lowest zero b = omega (arith, zero-bit_or (b / 2), zero-bit_or b)
bit_or_lowest (suc a) b = omega (arith, whole, halved, same_fuel)
  where
    whole : bit_or (suc a) b ≡ or_digits (suc a) (suc a) b
    whole = bit_or-bitwise (suc a) b

    halved : bit_or (suc a / 2) (b / 2) ≡ or_digits (suc a / 2) (suc a / 2) (b / 2)
    halved = bit_or-bitwise (suc a / 2) (b / 2)

    same_fuel : or_digits a (suc a / 2) (b / 2) ≡ or_digits (suc a / 2) (suc a / 2) (b / 2)
    same_fuel = or_digits_enough a (suc a / 2) (suc a / 2) (b / 2) (omega arith) (omega arith)

bit_or-zero_fuel : (n a : ℕ) → a ≤ n → bit_or a 0 ≡ a
bit_or-zero_fuel n zero h = zero-bit_or 0
bit_or-zero_fuel zero (suc a) h = absurd (omega arith)
bit_or-zero_fuel (suc n) (suc a) h =
    omega (arith, bit_or_lowest (suc a) 0, bit_or-zero_fuel n (suc a / 2) (omega arith))

pub bit_or-join : (k h l : ℕ) → l < 2 ^ k → bit_or (h * 2 ^ k) l ≡ h * 2 ^ k + l
bit_or-join zero h l lt = ap₂ bit_or one none ∙ bit_or-zero_fuel h h (omega arith) ∙ omega arith
  where
    one : h * 2 ^ 0 ≡ h
    one = omega arith

    none : l ≡ 0
    none = omega arith
bit_or-join (suc k) h l lt =
    bit_or_lowest (h * 2 ^ suc k) l
    ∙ ap (λ d. low_digits_max (h * 2 ^ suc k) l + 2 * d)
        (ap (λ a. bit_or a (l / 2)) halved ∙ bit_or-join k h (l / 2) (omega (arith, pow-suc 2 k)))
    ∙ omega (arith, doubled)
  where
    doubled : h * 2 ^ suc k ≡ h * 2 ^ k * 2
    doubled = omega (arith, ap (λ p. h * p) (pow-suc 2 k))

    halved : h * 2 ^ suc k / 2 ≡ h * 2 ^ k
    halved = omega (arith, doubled)

bit_or_comm_fuel : (n a b : ℕ) → a ≤ n → bit_or a b ≡ bit_or b a
bit_or_comm_fuel n zero b h = zero-bit_or b ∙ sym (bit_or-zero_fuel b b (omega arith))
bit_or_comm_fuel zero (suc a) b h = absurd (omega arith)
bit_or_comm_fuel (suc n) (suc a) b h = omega (
  arith,
  bit_or_lowest (suc a) b,
  bit_or_lowest b (suc a),
  bit_or_comm_fuel n (suc a / 2) (b / 2) (omega arith),
)

pub bit_or_comm : (a b : ℕ) → bit_or a b ≡ bit_or b a
bit_or_comm a b = bit_or_comm_fuel a a b (omega arith)
