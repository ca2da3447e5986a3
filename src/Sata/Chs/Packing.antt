-- ===== src/Sata/Chs/Packing.antt =====
-- The packed cylinder, head and sector give the address back.
use camkes_vm.Common.{
  ℕ, ◌+◌, ◌-◌, ◌*◌, ◌/◌, ◌%◌, ◌<◌, ◌≡◌, ap, ◌∙◌, arith, bit_or, bit_or-join, bit_or_comm,
}
use camkes_vm.Sata.Chs.{to_chs, sec_cyl, max_num_head, max_num_sect}

-- The bits do not overlap.
sec_cyl_lem :
    (sec cyl : ℕ)
    → sec < 64
    → cyl < 1024
    → sec_cyl sec cyl ≡ cyl % 256 * 256 + (cyl / 256 * 64 + sec)
unfolding sec_cyl
sec_cyl_lem sec cyl h k =
    ap (λ n. bit_or (bit_or sec (n * 64)) (cyl % 256 * 256)) (omega arith)
    ∙ ap (λ n. bit_or n (cyl % 256 * 256))
        (bit_or_comm sec (cyl / 256 * 64) ∙ bit_or-join 6 (cyl / 256) sec (omega arith))
    ∙ bit_or_comm (cyl / 256 * 64 + sec) (cyl % 256 * 256)
    ∙ bit_or-join 8 (cyl % 256) (cyl / 256 * 64 + sec) (omega arith)

-- The address that a boot record gives by a head and a packed sector and cylinder.
abbrev pub from_chs : ℕ → ℕ → ℕ
from_chs head packed =
    ((packed % 256 / 64 * 256 + packed / 256) * max_num_head + head) * max_num_sect
    + (packed % 64 - 1)

packed_back :
    (sec cyl : ℕ)
    → sec < 64
    → cyl < 1024
    → (sec_cyl sec cyl % 256 / 64 * 256 + sec_cyl sec cyl / 256 ≡ cyl)
      × (sec_cyl sec cyl % 64 ≡ sec)
packed_back sec cyl h k = omega (arith, sec_cyl_lem sec cyl h k)

-- An address below the last cylinder's end comes back from its cylinder, head and sector as they
-- are packed in the boot record.
from_chs-to_chs :
    (lba : ℕ)
    → lba < 1024 * 255 * 63
    → from_chs (to_chs lba).1 (sec_cyl (to_chs lba).2 (to_chs lba).0) ≡ lba
unfolding to_chs
from_chs-to_chs lba h = ground (arith, packed_back (lba % 63 + 1) (lba / (255 * 63)))
