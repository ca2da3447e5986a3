-- ===== src/Pit/Access.antt =====
-- How the guest loads a count of i8254.c through the ports, and how it reads one.
use camkes_vm.Common.{
  ℕ, ◌+◌, ◌*◌, ◌/◌, ◌%◌, ◌<◌, ◌≡◌, ◌∙◌, ap, ap₂, bit_or, arith, ◌==◌, if◌then◌else◌,
}
use camkes_vm.Host.{World, now, tick}
use camkes_vm.Pit.State.{Arith, PitChannel, PitState, channel, put_channel, rw_state_word0}
use camkes_vm.Pit.Count.{pit_get_count}
use camkes_vm.Pit.Timer.{pit_irq_timer_update, pit_load_count, pit_latch_count}
use camkes_vm.Pit.Ports.{
  set_mode, control_channel, write_count, pit_ioport_write, read_latched, read_channel,
  pit_ioport_read,
}
use camkes_vm.Pit.Valid.{bit_or-latch}

channel-put_channel :
    (i : ℕ) (q : PitChannel × World) (p : PitState)
    → i < 3
    → (channel i (put_channel i q p) ≡ q.0) × ((put_channel i q p).world ≡ q.1)
channel-put_channel i q p h = ground arith

module _ (lib : Arith) where
  -- An update for the interrupt keeps what the ports set.
  kept :
      (s : PitChannel) (t : ℕ) (w : World)
      → let c = (pit_irq_timer_update lib s t w).0 in
        (c.count ≡ s.count)
        × (c.mode ≡ s.mode)
        × (c.write_state ≡ s.write_state)
        × (c.count_load_time ≡ s.count_load_time)
  unfolding pit_irq_timer_update
  kept s t w = ground arith

  -- The low byte waits for the high byte, which loads the count.
  word_loaded :
      (lo hi : ℕ) (s : PitChannel) (w w' : World)
      → lo < 256
      → s.write_state ≡ rw_state_word0
      → let low = write_count lib lo s w in
        let c = (write_count lib hi low.0 w').0 in
        (c.count ≡ (if hi * 256 + lo == 0 then 65536 else hi * 256 + lo))
        × (c.mode ≡ s.mode)
        × (c.write_state ≡ rw_state_word0)
        × (c.count_load_time ≡ now w')
  unfolding write_count pit_load_count
  word_loaded lo hi s w w' h e = ground (
    arith,
    bit_or-latch lo hi h,
    kept
        (record s {
          write_latch = lo % 256;
          write_state = 4;
          count_load_time = now w';
          count =
              if bit_or (lo % 256) (hi * 256) == 0 then 0x10000 else bit_or (lo % 256) (hi * 256);
        })
        (now w') (tick w'),
  )

  -- A latch command stores the count of that moment, and the two reads that follow return its
  -- bytes, whatever the clock shows by then.
  latched_bytes :
      (s : PitChannel) (w w₁ w₂ : World)
      → s.rw_mode ≡ 3
      → s.count_latched ≡ 0
      → s.status_latched ≡ 0
      → let c = (pit_latch_count lib s w).0 in
        let r = read_channel lib c w₁ in
        let q = read_channel lib r.1 w₂ in
        (q.0 * 256 + r.0 ≡ pit_get_count lib s (now w) % 65536) × (q.1.count_latched ≡ 0)
  unfolding pit_latch_count read_channel read_latched
  latched_bytes s w w₁ w₂ m c t = ground arith

  write_port :
      (i val : ℕ) (p : PitState)
      → i < 3
      → pit_ioport_write lib i val p ≡ put_channel i (write_count lib val (channel i p) p.world) p
  unfolding pit_ioport_write
  write_port i val p h = ground arith

  read_port :
      (i : ℕ) (p : PitState)
      → i < 3
      → let r = read_channel lib (channel i p) p.world in
        pit_ioport_read lib i p ≡ (r.0, put_channel i (r.1, r.2) p)
  unfolding pit_ioport_read
  read_port i p h = ground arith

  -- A control word for channel `i`: the byte that names it, with `rest` below.
  control_port :
      (i rest : ℕ) (p : PitState)
      → i < 3
      → rest < 64
      → pit_ioport_write lib 3 (i * 64 + rest) p
        ≡ put_channel i (control_channel lib (i * 64 + rest) (channel i p) p.world) p
  unfolding pit_ioport_write
  control_port i rest p h r = rw named (ground arith)
    where
      named : (i * 64 + rest) / 64 ≡ i
      named = omega arith

  -- The channel and the world after a write of a count byte.
  wrote :
      (i val : ℕ) (p : PitState)
      → i < 3
      → let q = write_count lib val (channel i p) p.world in
        (channel i (pit_ioport_write lib i val p) ≡ q.0)
        × ((pit_ioport_write lib i val p).world ≡ q.1)
  wrote i val p h =
      let q = write_count lib val (channel i p) p.world in
      let (c, w) = channel-put_channel i q p h in
      (
        ap (channel i) (write_port i val p h) ∙ c,
        ap (λ (r : PitState). r.world) (write_port i val p h) ∙ w,
      )

  controlled :
      (i rest : ℕ) (p : PitState)
      → i < 3
      → rest < 64
      → let q = control_channel lib (i * 64 + rest) (channel i p) p.world in
        (channel i (pit_ioport_write lib 3 (i * 64 + rest) p) ≡ q.0)
        × ((pit_ioport_write lib 3 (i * 64 + rest) p).world ≡ q.1)
  controlled i rest p h r =
      let q = control_channel lib (i * 64 + rest) (channel i p) p.world in
      let (c, w) = channel-put_channel i q p h in
      (
        ap (channel i) (control_port i rest p h r) ∙ c,
        ap (λ (t : PitState). t.world) (control_port i rest p h r) ∙ w,
      )

  did_read :
      (i : ℕ) (p : PitState)
      → i < 3
      → let r = read_channel lib (channel i p) p.world in
        let q = pit_ioport_read lib i p in (q.0 ≡ r.0) × (channel i q.1 ≡ r.1)
  did_read i p h =
      let r = read_channel lib (channel i p) p.world in
      let (c, w) = channel-put_channel i (r.1, r.2) p h in
      (
        ap (λ (t : ℕ × PitState). t.0) (read_port i p h),
        ap (λ (t : ℕ × PitState). channel i t.1) (read_port i p h) ∙ c,
      )

  word_mode :
      (i mode : ℕ) (s : PitChannel) (w : World)
      → mode < 8
      → let c = (control_channel lib (i * 64 + (48 + mode * 2)) s w).0 in
        (c.write_state ≡ rw_state_word0) × (c.mode ≡ mode)
  unfolding control_channel set_mode
  word_mode i mode s w h = ground arith

  -- The three writes by which a guest programs channel `i`: the control word for both bytes of the
  -- count, then the low byte, then the high byte.
  abbrev pub program : ℕ → ℕ → ℕ → ℕ → PitState → PitState
  program i mode lo hi p =
      pit_ioport_write lib i hi
        (pit_ioport_write lib i lo (pit_ioport_write lib 3 (i * 64 + (48 + mode * 2)) p))

  -- Programming a channel gives it the mode, and the 16-bit count of the two bytes, where 0 stands
  -- for 65536; the channel is ready for the next low byte.
  program_lem :
      (i mode lo hi : ℕ) (p : PitState)
      → i < 3
      → mode < 8
      → lo < 256
      → let c = channel i (program i mode lo hi p) in
        (c.count ≡ (if hi * 256 + lo == 0 then 65536 else hi * 256 + lo))
        × (c.mode ≡ mode)
        × (c.write_state ≡ rw_state_word0)
  program_lem i mode lo hi p h m l =
      let p₁ = pit_ioport_write lib 3 (i * 64 + (48 + mode * 2)) p in
      let p₂ = pit_ioport_write lib i lo p₁ in
      let named = (controlled i (48 + mode * 2) p h (omega arith)).0 in
      let (ready, moded) = word_mode i mode (channel i p) p.world m in
      let ended =
        (wrote i hi p₂ h).0 ∙ ap (λ c. (write_count lib hi c p₂.world).0) (wrote i lo p₁ h).0 in
      let (count, mode_kept, state, _) =
        word_loaded lo hi (channel i p₁) p₁.world p₂.world l
          (ap (λ (c : PitChannel). c.write_state) named ∙ ready) in
      (
        ap (λ (c : PitChannel). c.count) ended ∙ count,
        ap (λ (c : PitChannel). c.mode) ended
            ∙ mode_kept
            ∙ ap (λ (c : PitChannel). c.mode) named
            ∙ moded,
        ap (λ (c : PitChannel). c.write_state) ended ∙ state,
      )

  latches :
      (i : ℕ) (s : PitChannel) (w : World)
      → (control_channel lib (i * 64 + 0) s w).0 ≡ (pit_latch_count lib s w).0
  unfolding control_channel
  latches i s w = ground arith

  -- A latch command to a channel that is read as two bytes, followed by two reads of its port,
  -- returns the low and the high byte of the count at the moment of the command, however far the
  -- clock has moved by the time of the reads, and leaves the channel unlatched.
  latch_lem :
      (i : ℕ) (p : PitState)
      → i < 3
      → (channel i p).rw_mode ≡ 3
      → (channel i p).count_latched ≡ 0
      → (channel i p).status_latched ≡ 0
      → let r = pit_ioport_read lib i (pit_ioport_write lib 3 (i * 64 + 0) p) in
        let q = pit_ioport_read lib i r.1 in
        (q.0 * 256 + r.0 ≡ pit_get_count lib (channel i p) (now p.world) % 65536)
        × ((channel i q.1).count_latched ≡ 0)
  latch_lem i p h m c t =
      let p₁ = pit_ioport_write lib 3 (i * 64 + 0) p in
      let r = pit_ioport_read lib i p₁ in
      let named = (controlled i 0 p h (omega arith)).0 ∙ latches i (channel i p) p.world in
      let (low, after) = did_read i p₁ h in
      let (high, last) = did_read i r.1 h in
      let after' = after ∙ ap (λ s. (read_channel lib s p₁.world).1) named in
      let (bytes, clear) = latched_bytes (channel i p) p.world p₁.world r.1.world m c t in
      (
        ap₂ (λ b a. b * 256 + a) (high ∙ ap (λ s. (read_channel lib s r.1.world).0) after')
              (low ∙ ap (λ s. (read_channel lib s p₁.world).0) named)
            ∙ bytes,
        ap (λ (s : PitChannel). s.count_latched)
              (last ∙ ap (λ s. (read_channel lib s r.1.world).1) after')
            ∙ clear,
      )
