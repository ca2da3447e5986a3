-- ===== src/Pit/Timer.antt =====
-- The functions of i8254.c that load, latch, reset and time a channel.
use camkes_vm.Common.{ℕ, ◌%◌, ◌||◌, not, ◌==◌, if◌then◌else◌}
use camkes_vm.Host.{
  World, now, tick, emit, set_irq_level, oneshot_absolute, stop, timer_pit, irq_timer,
}
use camkes_vm.Pit.State.{Arith, PitChannel, PitState, never}
use camkes_vm.Pit.Count.{pit_get_count, pit_get_out, pit_get_next_transition_time}

-- The timer for a transition, or none.
abbrev pub arm : ℕ → World → World
arm t w = if t == never then emit (stop timer_pit) w else emit (oneshot_absolute timer_pit t) w

module _ (lib : Arith) where
  unfoldable pub pit_irq_timer_update : PitChannel → ℕ → World → PitChannel × World
  pit_irq_timer_update s t w =
      if s.irq_timer == 0 || not (s.irq_disabled == 0)
      then (s, w)
      else (let expire_time = pit_get_next_transition_time lib s t in
          (
            record s { next_transition_time = expire_time },
            arm expire_time (emit (set_irq_level irq_timer (pit_get_out lib s t)) w),
          ))

  unfoldable pub pit_load_count : ℕ → PitChannel → World → PitChannel × World
  pit_load_count val s w =
      pit_irq_timer_update
        (record s { count_load_time = now w; count = if val == 0 then 0x10000 else val }) (now w)
        (tick w)

  -- If already latched, do not latch again.
  unfoldable pub pit_latch_count : PitChannel → World → PitChannel × World
  pit_latch_count s w =
      if s.count_latched == 0
      then (
        record s { latched_count = pit_get_count lib s (now w) % 65536; count_latched = s.rw_mode },
        tick w,
      )
      else (s, w)

  -- One round of the loop of `pit_reset_common`, for channel `i`.
  unfoldable pub reset_channel : ℕ → PitChannel → World → PitChannel × World
  reset_channel i s w =
      let t = record s {
        mode = 3;
        gate = if i == 2 then 0 else 1;
        count_load_time = now w;
        count = 0x10000;
      } in
      (
        if i == 0
            then (if s.irq_disabled == 0
                then record t { next_transition_time = pit_get_next_transition_time lib t (now w) }
                else t)
            else t,
        tick w,
      )

  unfoldable pub pit_reset_common : PitState → PitState
  pit_reset_common p =
      let (c0, w0) = reset_channel 0 p.channel0 p.world in
      let (c1, w1) = reset_channel 1 p.channel1 w0 in
      let (c2, w2) = reset_channel 2 p.channel2 w1 in
      record { channel0 = c0; channel1 = c1; channel2 = c2; world = w2 }

  unfoldable pub pit_reset : PitState → PitState
  pit_reset p =
      let q = pit_reset_common p in
      if q.channel0.irq_disabled == 0
      then record q {
        world = emit (oneshot_absolute timer_pit q.channel0.next_transition_time) q.world;
      }
      else q

  unfoldable pub pit_irq_control : ℕ → PitState → PitState
  pit_irq_control enable p =
      if enable == 0
      then record p {
        channel0 = record p.channel0 { irq_disabled = 1 };
        world = emit (stop timer_pit) p.world;
      }
      else (let (c, w) =
            pit_irq_timer_update (record p.channel0 { irq_disabled = 0 }) (now p.world)
              (tick p.world) in
          record p { channel0 = c; world = w })

  unfoldable pub pit_timer_interrupt : PitState → PitState
  pit_timer_interrupt p =
      let (c, w) = pit_irq_timer_update p.channel0 p.channel0.next_transition_time p.world in
      record p { channel0 = c; world = w }

  unfoldable pub pit_pre_init : PitState → PitState
  pit_pre_init p =
      pit_reset (pit_irq_control 1 (record p { channel0 = record p.channel0 { irq_timer = 1 } }))
