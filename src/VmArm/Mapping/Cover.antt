-- ===== src/VmArm/Mapping/Cover.antt =====
-- The pages of a mapping cover the bytes asked for.
use camkes_vm.Common.{
  ℕ, zero, suc, ◌+◌, ◌-◌, ◌*◌, ◌/◌, ◌^◌, ◌<◌, ◌≤◌, ◌≡◌, sym, ap, ap₂, ◌∙◌, false, u32, ltb, arith,
}
use native.Mathlib.Nat.{mod-eq_of_lt, div-le_self}
use camkes_vm.VmArm.Mapping.{Host, page_start, page_size_sum, num_pages}

-- What ROUND_DOWN and ROUND_UP give.
pub record IsRounding (host : Host) : Type 0 where
  pub down_below : (n b : ℕ) → 0 < b → host.round_down n b ≤ n
  pub down_near : (n b : ℕ) → 0 < b → n < host.round_down n b + b
  pub up_above : (n b : ℕ) → 0 < b → n ≤ host.round_up n b
  pub up_near : (n b : ℕ) → 0 < b → host.round_up n b < n + b
  pub up_whole : (n b : ℕ) → 0 < b → host.round_up n b ≡ host.round_up n b / b * b

-- The pages of a mapping: where they start and end, and that the assertion on their number holds.
pub record Covers (host : Host) (paddr size bits : ℕ) : Type 0 where
  pub from_start : page_start host paddr bits ≤ paddr
  pub to_end : paddr + size ≤ page_start host paddr bits + num_pages host paddr size bits * 2 ^ bits
  pub no_spare :
      page_start host paddr bits + num_pages host paddr size bits * 2 ^ bits
      < paddr + size + 2 ^ bits
  pub asserted :
      ltb (u32 (num_pages host paddr size bits * 2 ^ bits)) (page_size_sum host paddr size bits)
      ≡ false

power_positive : (b : ℕ) → 0 < 2 ^ b
power_positive zero = omega arith
power_positive (suc b) = omega (arith, power_positive b)

module _ (host : Host) (IsRounding-host : IsRounding host) where
  -- Where neither the size from the start of the first page nor the bytes of the pages wrap around,
  -- the pages that are asked for begin at or before the address, reach the last byte, end less than
  -- one page after it, and their number passes the assertion.
  pub num_pages-Covers :
      (paddr size bits : ℕ)
      → size + (paddr - page_start host paddr bits) < host.word
      → host.round_up (size + (paddr - page_start host paddr bits)) (2 ^ bits) < 2 ^ 32
      → Covers host paddr size bits
  num_pages-Covers paddr size bits h k =
      let b = 2 ^ bits in
      let pos : 0 < b = power_positive bits in
      let start = page_start host paddr bits in
      let below : start ≤ paddr = IsRounding-host.down_below paddr b pos in
      let total = size + (paddr - start) in
      let sum : page_size_sum host paddr size bits ≡ total = mod-eq_of_lt (h) in
      let up = host.round_up total b in
      let above : total ≤ up = IsRounding-host.up_above total b pos in
      let up_near : up < total + b = IsRounding-host.up_near total b pos in
      let whole : up ≡ up / b * b = IsRounding-host.up_whole total b pos in
      let small : up / b < 2 ^ 32 = omega (arith, k, div-le_self up b) in
      let pages : num_pages host paddr size bits ≡ up / b =
        ap (λ t. u32 (host.round_up t b / b)) sum ∙ mod-eq_of_lt small in
      let bytes : num_pages host paddr size bits * b ≡ up = ap (λ t. t * b) pages ∙ sym whole in
      let fit : u32 (num_pages host paddr size bits * b) ≡ up = ap u32 bytes ∙ mod-eq_of_lt k in
      record {
        from_start = below;
        to_end = omega (arith, bytes, above, below);
        no_spare = omega (arith, bytes, up_near, below);
        asserted = ap₂ ltb fit sum ∙ ground (arith, above);
      }
