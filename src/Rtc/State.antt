-- ===== src/Rtc/State.antt =====
-- `RTCState` of mc146818rtc.c and its constants. An `int` is its bit pattern, below 2^32.
use camkes_vm.Common.{ℕ, ◌+◌, ◌-◌, ◌/◌, ◌%◌, ◌^◌, ◌<◌, ◌≡◌, Bool, u8, u32, ltb, ◌==◌, if◌then◌else◌}
use camkes_vm.Host.{World}

-- The type `rtc_time_date_t` is another library's. `small` and `wide` are what a field of it,
-- assigned an `int`, reads as; `wide` is for the year, whose arithmetic may be unsigned.
pub record TmTypes : Type 0 where
  pub small : ℕ → ℕ
  pub wide : ℕ → ℕ
  pub year_unsigned : Bool

-- The fields hold the times and dates of a calendar.
pub record IsTmTypes (fit : TmTypes) : Type 0 where
  pub small_lem : (n : ℕ) → n < 128 → fit.small n ≡ n
  pub wide_lem : (n : ℕ) → n < 2 ^ 15 → fit.wide n ≡ n

pub record Tm : Type 0 where
  pub second : ℕ
  pub minute : ℕ
  pub hour : ℕ
  pub day : ℕ
  pub month : ℕ
  pub year : ℕ

-- `cmos_data` maps an index below 128 to a byte.
pub record RtcState : Type 0 where
  pub cmos_data : ℕ → ℕ
  pub cmos_index : ℕ
  pub current_tm : Tm
  pub base_year : ℕ
  pub next_periodic_time : ℕ
  pub next_second_time : ℕ
  pub irq_reinject_on_ack_count : ℕ
  pub irq_coalesced : ℕ
  pub period : ℕ
  pub world : World

-- `s->cmos_data[i] = v`
abbrev pub poke : ℕ → ℕ → RtcState → RtcState
poke i v s = record s { cmos_data = λ j. if j == i then u8 v else s.cmos_data j }

-- the signed operations of C on patterns
abbrev pub int_lt : ℕ → ℕ → Bool
int_lt a b = ltb ((a + 2 ^ 31) % 2 ^ 32) ((b + 2 ^ 31) % 2 ^ 32)

abbrev pub int_quot : ℕ → ℕ → ℕ
int_quot a k = if ltb a (2 ^ 31) then a / k else u32 (2 ^ 32 - (2 ^ 32 - a) / k)

abbrev pub int_rem : ℕ → ℕ → ℕ
int_rem a k = if ltb a (2 ^ 31) then a % k else u32 (2 ^ 32 - (2 ^ 32 - a) % k)

abbrev pub rtc_reinject_on_ack_count : ℕ
rtc_reinject_on_ack_count = 20

abbrev pub rtc_seconds : ℕ
rtc_seconds = 0

abbrev pub rtc_seconds_alarm : ℕ
rtc_seconds_alarm = 1

abbrev pub rtc_minutes : ℕ
rtc_minutes = 2

abbrev pub rtc_minutes_alarm : ℕ
rtc_minutes_alarm = 3

abbrev pub rtc_hours : ℕ
rtc_hours = 4

abbrev pub rtc_hours_alarm : ℕ
rtc_hours_alarm = 5

abbrev pub rtc_day_of_month : ℕ
rtc_day_of_month = 7

abbrev pub rtc_month : ℕ
rtc_month = 8

abbrev pub rtc_year : ℕ
rtc_year = 9

abbrev pub rtc_reg_a : ℕ
rtc_reg_a = 10

abbrev pub rtc_reg_b : ℕ
rtc_reg_b = 11

abbrev pub rtc_reg_c : ℕ
rtc_reg_c = 12

abbrev pub rtc_reg_d : ℕ
rtc_reg_d = 13

abbrev pub reg_a_uip : ℕ
reg_a_uip = 0x80

abbrev pub reg_b_set : ℕ
reg_b_set = 0x80

abbrev pub reg_b_pie : ℕ
reg_b_pie = 0x40

abbrev pub reg_b_aie : ℕ
reg_b_aie = 0x20

abbrev pub reg_b_uie : ℕ
reg_b_uie = 0x10

abbrev pub reg_b_sqwe : ℕ
reg_b_sqwe = 0x08

abbrev pub reg_b_dm : ℕ
reg_b_dm = 0x04

abbrev pub reg_b_24h : ℕ
reg_b_24h = 0x02

abbrev pub reg_c_uf : ℕ
reg_c_uf = 0x10

abbrev pub reg_c_irqf : ℕ
reg_c_irqf = 0x80

abbrev pub reg_c_pf : ℕ
reg_c_pf = 0x40

abbrev pub reg_c_af : ℕ
reg_c_af = 0x20

-- the static variable that nothing sets
abbrev pub rtc_td_hack : ℕ
rtc_td_hack = 0

-- nanoseconds in a second
abbrev pub get_ticks_per_sec : ℕ
get_ticks_per_sec = 1000000000
