-- ===== src/Hpet/State.antt =====
-- `HPETTimer` and `HPETState` of hpet.c and the constants of hpet.h. A pointer to a timer is its
-- place in the array; the field `state` of a timer, which leads back, has no counterpart.
use camkes_vm.Common.{get_elem?, ℕ, zero, suc, ◌+◌, ◌-◌, ◌^◌, none, some, List, set}
use camkes_vm.Host.{World}

pub record HpetTimer : Type 0 where
  pub tn : ℕ
  pub config : ℕ
  pub cmp : ℕ
  pub fsb : ℕ
  pub period : ℕ
  pub wrap_flag : ℕ
  pub tid : ℕ

pub record HpetState : Type 0 where
  pub hpet_offset : ℕ
  pub hpet_offset_saved : ℕ
  pub flags : ℕ
  pub rtc_irq_level : ℕ
  pub num_timers : ℕ
  pub intcap : ℕ
  pub timer : List HpetTimer
  pub capability : ℕ
  pub config : ℕ
  pub isr : ℕ
  pub hpet_counter : ℕ
  pub hpet_id : ℕ
  pub world : World

-- nanoseconds in a tick of the counter
abbrev pub hpet_clk_period : ℕ
hpet_clk_period = 10

abbrev pub fs_per_ns : ℕ
fs_per_ns = 1000000

abbrev pub hpet_min_timers : ℕ
hpet_min_timers = 3

-- the length of the array of timers
abbrev pub hpet_max_timers : ℕ
hpet_max_timers = 3

abbrev pub hpet_cfg_enable : ℕ
hpet_cfg_enable = 0x001

abbrev pub hpet_cfg_legacy : ℕ
hpet_cfg_legacy = 0x002

abbrev pub hpet_tn_type_level : ℕ
hpet_tn_type_level = 0x002

abbrev pub hpet_tn_enable : ℕ
hpet_tn_enable = 0x004

abbrev pub hpet_tn_periodic : ℕ
hpet_tn_periodic = 0x008

abbrev pub hpet_tn_periodic_cap : ℕ
hpet_tn_periodic_cap = 0x010

abbrev pub hpet_tn_size_cap : ℕ
hpet_tn_size_cap = 0x020

abbrev pub hpet_tn_setval : ℕ
hpet_tn_setval = 0x040

abbrev pub hpet_tn_32bit : ℕ
hpet_tn_32bit = 0x100

abbrev pub hpet_tn_fsb_enable : ℕ
hpet_tn_fsb_enable = 0x4000

abbrev pub hpet_tn_fsb_cap : ℕ
hpet_tn_fsb_cap = 0x8000

abbrev pub hpet_tn_cfg_write_mask : ℕ
hpet_tn_cfg_write_mask = 0x7f4e

abbrev pub hpet_cfg_write_mask : ℕ
hpet_cfg_write_mask = 0x3

abbrev pub rtc_isa_irq : ℕ
rtc_isa_irq = 8

-- `1 << HPET_MSI_SUPPORT`
abbrev pub msi_support : ℕ
msi_support = 1

-- ~0ULL
abbrev pub all_ones : ℕ
all_ones = 2 ^ 64 - 1

-- A timer put back in its place.
abbrev pub put_timer : ℕ → HpetTimer × HpetState → HpetState
put_timer i (t, s) = record s { timer = set s.timer i t }

-- A function called with `&s->timer[i]`, where `i` is in the array.
abbrev pub at_timer : (HpetTimer → HpetState → HpetTimer × HpetState) → ℕ → HpetState → HpetState
at_timer f i s = elim (get_elem? s.timer i) [ none ↦ s | some t ↦ put_timer i (f t s) ]

-- `for (i = 0; i < n; i++)` from `i` with `n` rounds to go
abbrev pub for_each : ℕ → ℕ → (ℕ → HpetState → HpetState) → HpetState → HpetState
for_each zero i body s = s
for_each (suc n) i body s = for_each n (i + 1) body (body i s)
