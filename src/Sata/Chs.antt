-- ===== src/Sata/Chs.antt =====
-- Addresses of sectors as cylinder, head and sector, as `post_init` of sataserver.c packs them.
pub mod Packing
use camkes_vm.Common.{ℕ, ◌+◌, ◌*◌, ◌/◌, ◌%◌, bit_or, ltb, if◌then◌else◌}

abbrev pub max_num_cyl : ℕ
max_num_cyl = 1023

abbrev pub max_num_head : ℕ
max_num_head = 255

abbrev pub max_num_sect : ℕ
max_num_sect = 63

abbrev pub fits : ℕ → ℕ × ℕ × ℕ → ℕ × ℕ × ℕ
fits lba chs =
    if ltb max_num_cyl (lba / (max_num_head * max_num_sect))
    then (max_num_cyl, max_num_head, max_num_sect)
    else chs

-- The cylinder, head and sector of an address.
unfoldable pub to_chs : ℕ → ℕ × ℕ × ℕ
to_chs lba =
    fits lba (
      lba / (max_num_head * max_num_sect),
      lba / max_num_sect % max_num_head,
      lba % max_num_sect + 1,
    )

-- Ten bits for the cylinder and six for the sector: `(cyl & 0x0300) >> 2` and
-- `(cyl & 0x00FF) << 8`.
unfoldable pub sec_cyl : ℕ → ℕ → ℕ
sec_cyl sec cyl = bit_or (bit_or sec (cyl / 256 % 4 * 64)) (cyl % 256 * 256)
