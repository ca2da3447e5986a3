-- ===== src/Rtc/Ticks.antt =====
-- `muldiv64` of mc146818rtc.c: a product of 96 bits divided, by halves of 32 bits.
pub mod Exact
use camkes_vm.Common.{ℕ, ◌+◌, ◌*◌, ◌/◌, ◌%◌, ◌^◌, u32, u64}

-- `rl` and `rh` of the code, for the halves `low` and `high` of `a`
abbrev pub product_low : ℕ → ℕ → ℕ
product_low a b = u64 (a % 2 ^ 32 * b)

abbrev pub product_high : ℕ → ℕ → ℕ
product_high a b = u64 (u64 (a / 2 ^ 32 * b) + product_low a b / 2 ^ 32)

unfoldable pub muldiv64 : ℕ → ℕ → ℕ → ℕ
muldiv64 a b c =
    let rl = product_low a b in
    let rh = product_high a b in
    u32 (rh / c) * 2 ^ 32 + u32 (u64 (u64 (rh % c * 2 ^ 32) + rl % 2 ^ 32) / c)
