-- ===== src/Pit/State.antt =====
-- `PITChannelState` and `PITCommonState` of i8254.c, and the arithmetic of other libraries that it
-- calls. A 64-bit number is its bit pattern, below 2^64: so -1 is 2^64 - 1.
use camkes_vm.Common.{ℕ, ◌-◌, ◌*◌, ◌/◌, ◌^◌, ◌<◌, ◌≡◌, ◌==◌, if◌then◌else◌}
use camkes_vm.Host.{World}

-- `muldivu64` of platsupport and the macro `ROUND_DOWN` of utils.
pub record Arith : Type 0 where
  pub muldivu64 : ℕ → ℕ → ℕ → ℕ
  pub round_down : ℕ → ℕ → ℕ

-- What they are documented to give: `a * b / c` where that fits, and the largest multiple of `b`
-- that is at most `n`.
pub record IsArith (lib : Arith) : Type 0 where
  pub muldivu64_lem : (a b c : ℕ) → 0 < c → a * b / c < 2 ^ 64 → lib.muldivu64 a b c ≡ a * b / c
  pub round_down_lem : (n b : ℕ) → 0 < b → lib.round_down n b ≡ n / b * b

-- `PIT_FREQ`: ticks in a second
abbrev pub pit_freq : ℕ
pit_freq = 1193182

-- `NS_IN_S`
abbrev pub ns_in_s : ℕ
ns_in_s = 1000000000

-- the int64_t -1
abbrev pub never : ℕ
never = 2 ^ 64 - 1

abbrev pub rw_state_lsb : ℕ
rw_state_lsb = 1

abbrev pub rw_state_msb : ℕ
rw_state_msb = 2

abbrev pub rw_state_word0 : ℕ
rw_state_word0 = 3

abbrev pub rw_state_word1 : ℕ
rw_state_word1 = 4

pub record PitChannel : Type 0 where
  pub count : ℕ
  pub latched_count : ℕ
  pub count_latched : ℕ
  pub status_latched : ℕ
  pub status : ℕ
  pub read_state : ℕ
  pub write_state : ℕ
  pub write_latch : ℕ
  pub rw_mode : ℕ
  pub mode : ℕ
  pub bcd : ℕ
  pub gate : ℕ
  pub count_load_time : ℕ
  pub next_transition_time : ℕ
  pub irq_timer : ℕ
  pub irq_disabled : ℕ

-- `channel0` to `channel2` are `channels[0]` to `channels[2]`.
pub record PitState : Type 0 where
  pub channel0 : PitChannel
  pub channel1 : PitChannel
  pub channel2 : PitChannel
  pub world : World

-- `&pit->channels[i]`, for `i < 3`
abbrev pub channel : ℕ → PitState → PitChannel
channel i p = if i == 0 then p.channel0 else if i == 1 then p.channel1 else p.channel2

-- A channel and the world put back.
abbrev pub put_channel : ℕ → PitChannel × World → PitState → PitState
put_channel i (c, w) p =
    if i == 0
    then record p { channel0 = c; world = w }
    else if i == 1
    then record p { channel1 = c; world = w }
    else record p { channel2 = c; world = w }
