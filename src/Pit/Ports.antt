-- ===== src/Pit/Ports.antt =====
-- `pit_ioport_write` and `pit_ioport_read` of i8254.c. `val` is the byte of an access of size 1.
use camkes_vm.Common.{ℕ, ◌+◌, ◌*◌, ◌/◌, ◌%◌, not, ◌&&◌, bit_or, has, ◌==◌, if◌then◌else◌}
use camkes_vm.Host.{IoFault, handled, error, World, now, tick}
use camkes_vm.Pit.State.{
  Arith, PitChannel, PitState, channel, put_channel, rw_state_msb, rw_state_word0, rw_state_word1,
}
use camkes_vm.Pit.Count.{pit_get_count, pit_get_out}
use camkes_vm.Pit.Timer.{pit_load_count, pit_latch_count}

-- The parts of the status byte share no bit, so `|` is `+`.
abbrev pub status_byte : PitChannel → ℕ → ℕ
status_byte s out = out * 128 + s.rw_mode * 16 + s.mode * 2 + s.bcd

-- A control word for one channel, other than a latch: how the count is accessed, and the mode.
unfoldable pub set_mode : ℕ → PitChannel → PitChannel
set_mode val s =
    let access = val / 16 % 4 in
    record s {
      rw_mode = access;
      read_state = access;
      write_state = access;
      mode = val / 2 % 8;
      bcd = val % 2;
    }

-- A byte of a latched count.
unfoldable pub read_latched : PitChannel → ℕ × PitChannel
read_latched s =
    if s.count_latched == rw_state_msb
    then (s.latched_count / 256, record s { count_latched = 0 })
    else if s.count_latched == rw_state_word0
    then (s.latched_count % 256, record s { count_latched = rw_state_msb })
    else (s.latched_count % 256, record s { count_latched = 0 })

-- A byte of the running count, `c`.
unfoldable pub read_running : PitChannel → ℕ → ℕ × PitChannel
read_running s c =
    if s.read_state == rw_state_msb
    then (c / 256 % 256, s)
    else if s.read_state == rw_state_word0
    then (c % 256, record s { read_state = rw_state_word1 })
    else if s.read_state == rw_state_word1
    then (c / 256 % 256, record s { read_state = rw_state_word0 })
    else (c % 256, s)

module _ (lib : Arith) where
  unfoldable pub latch_status : PitChannel → World → PitChannel × World
  latch_status s w =
      (record s { status = status_byte s (pit_get_out lib s (now w)); status_latched = 1 }, tick w)

  -- The read back command at one channel.
  unfoldable pub read_back : ℕ → PitChannel → World → PitChannel × World
  read_back val s w =
      let (t, v) = if has val 0x20 then (s, w) else pit_latch_count lib s w in
      if not (has val 0x10) && t.status_latched == 0 then latch_status t v else (t, v)

  -- The loop over the channels that the command names.
  unfoldable pub read_back_all : ℕ → PitState → PitState
  read_back_all val p =
      let p₀ = if has val 2 then put_channel 0 (read_back val p.channel0 p.world) p else p in
      let p₁ = if has val 4 then put_channel 1 (read_back val p₀.channel1 p₀.world) p₀ else p₀ in
      if has val 8 then put_channel 2 (read_back val p₁.channel2 p₁.world) p₁ else p₁

  unfoldable pub control_channel : ℕ → PitChannel → World → PitChannel × World
  control_channel val s w =
      if val / 16 % 4 == 0 then pit_latch_count lib s w else (set_mode val s, w)

  -- A byte of the count.
  unfoldable pub write_count : ℕ → PitChannel → World → PitChannel × World
  write_count val s w =
      if s.write_state == rw_state_msb
      then pit_load_count lib (val * 256) s w
      else if s.write_state == rw_state_word0
      then (record s { write_latch = val % 256; write_state = rw_state_word1 }, w)
      else if s.write_state == rw_state_word1
      then (let (t, v) = pit_load_count lib (bit_or s.write_latch (val * 256)) s w in
          (record t { write_state = rw_state_word0 }, v))
      else pit_load_count lib val s w

  unfoldable pub pit_ioport_write : ℕ → ℕ → PitState → PitState
  pit_ioport_write addr val p =
      if addr % 4 == 3
      then (if val / 64 == 3
          then read_back_all val p
          else put_channel (val / 64) (control_channel val (channel (val / 64) p) p.world) p)
      else put_channel (addr % 4) (write_count val (channel (addr % 4) p) p.world) p

  unfoldable pub read_channel : PitChannel → World → ℕ × PitChannel × World
  read_channel s w =
      if s.status_latched == 0
      then if s.count_latched == 0
        then (let (ret, t) = read_running s (pit_get_count lib s (now w)) in (ret, t, tick w))
        else (let (ret, t) = read_latched s in (ret, t, w))
      else (s.status, record s { status_latched = 0 }, w)

  unfoldable pub pit_ioport_read : ℕ → PitState → ℕ × PitState
  pit_ioport_read addr p =
      if addr % 4 == 3
      then (0, p)
      else (let (ret, t, w) = read_channel (channel (addr % 4) p) p.world in
          (ret, put_channel (addr % 4) (t, w) p))

  unfoldable pub i8254_port_in : ℕ → ℕ → PitState → IoFault (ℕ × PitState)
  i8254_port_in port_no size p = if size == 1 then handled (pit_ioport_read port_no p) else error

  unfoldable pub i8254_port_out : ℕ → ℕ → ℕ → PitState → IoFault PitState
  i8254_port_out port_no size value p =
      if size == 1 then handled (pit_ioport_write port_no value p) else error
