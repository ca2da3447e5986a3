-- ===== src/Rtc/Ticks/Exact.antt =====
-- `muldiv64` is the product divided, where that fits in 64 bits.
use native.Mathlib.Nat.{
  mul-add-div_right, div-lt_iff_lt-mul, mul-le-mul, div-add-mod', mod-lt, add-mul, mul_assoc,
  mul_comm,
}
use camkes_vm.Common.{ℕ, ◌+◌, ◌-◌, ◌*◌, ◌/◌, ◌%◌, ◌^◌, ◌<◌, ◌≤◌, ◌≡◌, ap, ◌∙◌, sym, arith, u64}
use camkes_vm.Rtc.Ticks.{product_low, product_high, muldiv64}

-- the product, in digits of 32 bits
product_split : (a b : ℕ) → a * b ≡ a / 2 ^ 32 * b * 2 ^ 32 + a % 2 ^ 32 * b
product_split a b =
    ap (λ n. n * b) (sym (div-add-mod' a (2 ^ 32)))
    ∙ add-mul (a / 2 ^ 32 * 2 ^ 32) (a % 2 ^ 32) b
    ∙ ap (λ n. n + a % 2 ^ 32 * b)
        (mul_assoc (a / 2 ^ 32) (2 ^ 32) b
          ∙ ap (λ n. a / 2 ^ 32 * n) (mul_comm (2 ^ 32) b)
          ∙ sym (mul_assoc (a / 2 ^ 32) b (2 ^ 32)))

product_bound : (x b : ℕ) → x < 2 ^ 32 → b < 2 ^ 32 → x * b ≤ (2 ^ 32 - 1) * (2 ^ 32 - 1)
product_bound x b h k = mul-le-mul {n₂ = 2 ^ 32 - 1} {m₂ = 2 ^ 32 - 1} (omega arith) (omega arith)

-- The two parts hold the product: nothing is lost in 64 bits.
parts :
    (a b : ℕ)
    → a < 2 ^ 64
    → b < 2 ^ 32
    → product_high a b * 2 ^ 32 + product_low a b % 2 ^ 32 ≡ a * b
parts a b h k = omega (
  arith,
  product_split a b,
  product_bound (a / 2 ^ 32) b (omega arith) k,
  product_bound (a % 2 ^ 32) b (omega arith) k,
)

-- A number of two digits divided: the digits of the quotient.
quotient_split :
    (r l c : ℕ) → 0 < c → (r * 2 ^ 32 + l) / c ≡ r / c * 2 ^ 32 + (r % c * 2 ^ 32 + l) / c
quotient_split r l c h =
    ap (λ n. n / c) regroup ∙ mul-add-div_right h (r / c * 2 ^ 32) (r % c * 2 ^ 32 + l)
  where
    regroup : r * 2 ^ 32 + l ≡ r / c * 2 ^ 32 * c + (r % c * 2 ^ 32 + l)
    regroup = grind (arith, div-add-mod' r c)

low_digit : (r l c : ℕ) → r < c → l < 2 ^ 32 → (r * 2 ^ 32 + l) / c < 2 ^ 32
low_digit r l c h k = (div-lt_iff_lt-mul (omega arith)).1 (omega arith)

-- For 64 bits times 32 bits by 32 bits other than 0, with a result of at most 64 bits, `muldiv64`
-- is the product divided, without overflow between.
pub muldiv64-exact :
    (a b c : ℕ)
    → a < 2 ^ 64
    → b < 2 ^ 32
    → 0 < c
    → c < 2 ^ 32
    → a * b / c < 2 ^ 64
    → muldiv64 a b c ≡ a * b / c
unfolding muldiv64
muldiv64-exact a b c h k p q fits =
    omega (arith, digits, low, narrow, ap (λ n. n / c) (parts a b h k))
  where
    rh : ℕ
    rh = product_high a b

    rl : ℕ
    rl = product_low a b

    digits : (rh * 2 ^ 32 + rl % 2 ^ 32) / c ≡ rh / c * 2 ^ 32 + (rh % c * 2 ^ 32 + rl % 2 ^ 32) / c
    digits = quotient_split rh (rl % 2 ^ 32) c p

    low : (rh % c * 2 ^ 32 + rl % 2 ^ 32) / c < 2 ^ 32
    low = low_digit (rh % c) (rl % 2 ^ 32) c (mod-lt rh p) (omega arith)

    small : rh % c < c
    small = mod-lt rh p

    narrow : u64 (u64 (rh % c * 2 ^ 32) + rl % 2 ^ 32) / c ≡ (rh % c * 2 ^ 32 + rl % 2 ^ 32) / c
    narrow = ap (λ n. n / c) (omega (arith, small))
