-- ===== src/Pit/Valid.antt =====
-- What holds of the timer of i8254.c after its initialisation.
use camkes_vm.Common.{
  ℕ, ◌+◌, ◌*◌, ◌/◌, ◌%◌, ◌≤◌, ◌<◌, ◌≡◌, ◌∙◌, bit_or, bit_or-join, bit_or_comm, arith, Bool, true,
  false, if◌then◌else◌, has, ◌==◌, not, ◌&&◌, Bool-cases, inl, inr,
}
use camkes_vm.Host.{World, now, tick}
use camkes_vm.Pit.State.{Arith, PitChannel, PitState, channel, put_channel}
use camkes_vm.Pit.Count.{pit_get_out}
use camkes_vm.Pit.Timer.{
  pit_irq_timer_update, pit_load_count, pit_latch_count, reset_channel, pit_reset_common, pit_reset,
  pit_irq_control, pit_timer_interrupt, pit_pre_init,
}
use camkes_vm.Pit.Ports.{
  set_mode, latch_status, read_back, read_back_all, control_channel, write_count, pit_ioport_write,
  read_latched, read_running, read_channel, pit_ioport_read,
}

-- The fields that the ports set keep to their widths.
pub record HasWidths (s : PitChannel) : Type 0 where
  pub rw_mode_in : s.rw_mode < 4
  pub read_state_in : s.read_state ≤ 4
  pub write_state_in : s.write_state ≤ 4
  pub write_latch_in : s.write_latch < 256
  pub mode_in : s.mode < 8
  pub bcd_in : s.bcd < 2
  pub status_in : s.status < 256
  pub latched_in : s.latched_count < 65536
  pub count_latched_in : s.count_latched < 4

-- The count is never 0, so no division in the file is by 0.
pub record IsChannel (s : PitChannel) : Type 0 where
  pub count_pos : 0 < s.count
  pub count_in : s.count ≤ 65536
  pub widths : HasWidths s

-- The channels as the loader leaves them: zeros are within the widths.
pub record IsLoaded (p : PitState) : Type 0 where
  pub loaded0 : HasWidths p.channel0
  pub loaded1 : HasWidths p.channel1
  pub loaded2 : HasWidths p.channel2

pub record IsPit (p : PitState) : Type 0 where
  pub valid0 : IsChannel p.channel0
  pub valid1 : IsChannel p.channel1
  pub valid2 : IsChannel p.channel2

-- The two bytes of a count share no bit.
pub bit_or-latch : (lo hi : ℕ) → lo < 256 → bit_or lo (hi * 256) ≡ hi * 256 + lo
bit_or-latch lo hi h = bit_or_comm lo (hi * 256) ∙ bit_or-join 8 hi lo h

IsChannel-if :
    (b : Bool) (p q : PitChannel × World)
    → IsChannel p.0
    → IsChannel q.0
    → IsChannel (if b then p else q).0
IsChannel-if true p q v w = v
IsChannel-if false p q v w = w

module _ (lib : Arith) where
  update-IsChannel :
      (s : PitChannel) (t : ℕ) (w : World)
      → IsChannel s
      → IsChannel (pit_irq_timer_update lib s t w).0
  unfolding pit_irq_timer_update
  update-IsChannel s t w v = ground arith

  load-IsChannel :
      (val : ℕ) (s : PitChannel) (w : World)
      → val < 65536
      → IsChannel s
      → IsChannel (pit_load_count lib val s w).0
  unfolding pit_load_count
  load-IsChannel val s w h v = update-IsChannel _ (now w) (tick w) (ground arith)

  latch-IsChannel :
      (s : PitChannel) (w : World) → IsChannel s → IsChannel (pit_latch_count lib s w).0
  unfolding pit_latch_count
  latch-IsChannel s w v = ground arith

  latch_status-IsChannel :
      (s : PitChannel) (w : World) → IsChannel s → IsChannel (latch_status lib s w).0
  unfolding latch_status pit_get_out
  latch_status-IsChannel s w v = ground arith

  read_back-IsChannel :
      (val : ℕ) (s : PitChannel) (w : World) → IsChannel s → IsChannel (read_back lib val s w).0
  unfolding read_back
  read_back-IsChannel val s w v = elim (Bool-cases (has val 0x20)) [
    | inl e ↦ rw e (
        IsChannel-if (not (has val 0x10) && s.status_latched == 0) _ _
          (latch_status-IsChannel s w v) v)
    | inr e ↦
        let q = pit_latch_count lib s w in
        let k = latch-IsChannel s w v in
        rw e (
          IsChannel-if (not (has val 0x10) && q.0.status_latched == 0) _ _
            (latch_status-IsChannel q.0 q.1 k) k)
  ]

  write_count-IsChannel :
      (val : ℕ) (s : PitChannel) (w : World)
      → val < 256
      → IsChannel s
      → IsChannel (write_count lib val s w).0
  unfolding write_count
  write_count-IsChannel val s w h v = ground (
    arith,
    load-IsChannel (val * 256) s w,
    load-IsChannel val s w,
    load-IsChannel (bit_or s.write_latch (val * 256)) s w,
    bit_or-latch s.write_latch val v.widths.write_latch_in,
  )

  read_channel-IsChannel :
      (s : PitChannel) (w : World)
      → IsChannel s
      → IsChannel (read_channel lib s w).1 × ((read_channel lib s w).0 < 256)
  unfolding read_channel read_latched read_running
  read_channel-IsChannel s w v = ground arith

  control_channel-IsChannel :
      (val : ℕ) (s : PitChannel) (w : World)
      → IsChannel s
      → IsChannel (control_channel lib val s w).0
  unfolding control_channel set_mode
  control_channel-IsChannel val s w v = ground (arith, latch-IsChannel s w)

  put_channel-IsPit :
      (i : ℕ) (q : PitChannel × World) (p : PitState)
      → IsChannel q.0
      → IsPit p
      → IsPit (put_channel i q p)
  put_channel-IsPit i q p v w = ground arith

  channel-IsChannel : (i : ℕ) (p : PitState) → IsPit p → IsChannel (channel i p)
  channel-IsChannel i p v = ground arith

  IsPit-if : (b : Bool) (p q : PitState) → IsPit p → IsPit q → IsPit (if b then p else q)
  IsPit-if true p q v w = v
  IsPit-if false p q v w = w

  read_back_all-IsPit : (val : ℕ) (p : PitState) → IsPit p → IsPit (read_back_all lib val p)
  unfolding read_back_all
  read_back_all-IsPit val p v =
      let v₀ =
        IsPit-if (has val 2) _ _
          (put_channel-IsPit 0 (read_back lib val p.channel0 p.world) p
            (read_back-IsChannel val _ _ v.valid0) v)
          v in
      let v₁ =
        IsPit-if (has val 4) _ _
          (put_channel-IsPit 1 _ _ (read_back-IsChannel val _ _ v₀.valid1) v₀) v₀ in
      IsPit-if (has val 8) _ _ (put_channel-IsPit 2 _ _ (read_back-IsChannel val _ _ v₁.valid2) v₁)
        v₁

  -- A write of any byte to any port of the timer keeps the invariant.
  pub pit_ioport_write-IsPit :
      (addr val : ℕ) (p : PitState) → val < 256 → IsPit p → IsPit (pit_ioport_write lib addr val p)
  unfolding pit_ioport_write
  pit_ioport_write-IsPit addr val p h v =
      IsPit-if (addr % 4 == 3) _ _
        (IsPit-if (val / 64 == 3) _ _ (read_back_all-IsPit val p v) (
          put_channel-IsPit (val / 64) _ p
            (control_channel-IsChannel val _ _ (channel-IsChannel (val / 64) p v)) v))
        (put_channel-IsPit (addr % 4) _ p
          (write_count-IsChannel val _ _ h (channel-IsChannel (addr % 4) p v)) v)

  -- A read of any port of the timer keeps the invariant, and returns a byte.
  pub pit_ioport_read-IsPit :
      (addr : ℕ) (p : PitState)
      → IsPit p
      → IsPit (pit_ioport_read lib addr p).1 × ((pit_ioport_read lib addr p).0 < 256)
  unfolding pit_ioport_read
  pit_ioport_read-IsPit addr p v =
      let (k, byte) =
        read_channel-IsChannel (channel (addr % 4) p) p.world (channel-IsChannel (addr % 4) p v) in
      chosen (addr % 4 == 3) (0, p) _ (v, omega arith) (put_channel-IsPit (addr % 4) _ p k v, byte)
    where
      chosen :
          (b : Bool) (q r : ℕ × PitState)
          → IsPit q.1 × (q.0 < 256)
          → IsPit r.1 × (r.0 < 256)
          → IsPit (if b then q else r).1 × ((if b then q else r).0 < 256)
      chosen true q r v w = v
      chosen false q r v w = w

  reset-IsChannel :
      (i : ℕ) (s : PitChannel) (w : World) → HasWidths s → IsChannel (reset_channel lib i s w).0
  unfolding reset_channel
  reset-IsChannel i s w v = ground arith

  pit_reset-IsPit : (p : PitState) → IsLoaded p → IsPit (pit_reset lib p)
  unfolding pit_reset pit_reset_common
  pit_reset-IsPit p v =
      let (c0, w0) = reset_channel lib 0 p.channel0 p.world in
      let (c1, w1) = reset_channel lib 1 p.channel1 w0 in
      ground (
        arith,
        reset-IsChannel 0 p.channel0 p.world v.loaded0,
        reset-IsChannel 1 p.channel1 w0 v.loaded1,
        reset-IsChannel 2 p.channel2 w1 v.loaded2,
      )

  update-HasWidths :
      (s : PitChannel) (t : ℕ) (w : World)
      → HasWidths s
      → HasWidths (pit_irq_timer_update lib s t w).0
  unfolding pit_irq_timer_update
  update-HasWidths s t w v = ground arith

  -- The initialisation sets the invariant up.
  pub pit_pre_init-IsPit : (p : PitState) → IsLoaded p → IsPit (pit_pre_init lib p)
  unfolding pit_pre_init pit_irq_control
  pit_pre_init-IsPit p v = pit_reset-IsPit _ (record {
    loaded0 = update-HasWidths _ _ _ (ground arith);
    loaded1 = v.loaded1;
    loaded2 = v.loaded2;
  })

  -- The timer interrupt keeps the invariant.
  pub pit_timer_interrupt-IsPit : (p : PitState) → IsPit p → IsPit (pit_timer_interrupt lib p)
  unfolding pit_timer_interrupt
  pit_timer_interrupt-IsPit p v = record {
    valid0 = update-IsChannel p.channel0 p.channel0.next_transition_time p.world v.valid0;
    valid1 = v.valid1;
    valid2 = v.valid2;
  }
