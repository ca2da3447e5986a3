-- ===== src/Serial/Behaviour/Retry.antt =====
-- A byte that `serial_xmit` of serial.c may not send in this period waits in the shift register.
use camkes_vm.Common.{
  u64, ℕ, ◌+◌, ◌≤◌, ◌≡◌, refl, ap, ap₂, ◌∙◌, ◌∷◌, arith, true, false, has, le_nat, pos,
  if◌then◌else◌,
}
use camkes_vm.Host.{oneshot_absolute, timer_transmit_timer, now, tick, emit}
use camkes_vm.Serial.State.{SerialState, fcr_fe, mcr_loop}
use camkes_vm.Serial.Fifo.{fifo_get, get_byte}
use camkes_vm.Serial.Xmit.{load_tsr, send_tsr, finish_xmit, serial_xmit}
use camkes_vm.Serial.Behaviour.Transmit.{console, send_ok, finish_xmit_lem}

-- the byte that is next
abbrev pub next_byte : SerialState → ℕ
next_byte s = if has s.fcr fcr_fe then (get_byte s.xmit_fifo).0 else s.thr

-- The shift register is loaded; nothing that decides what becomes of its byte changes.
record Loaded (s t : SerialState) : Type 0 where
  tsr : t.tsr ≡ next_byte s
  mcr_same : t.mcr ≡ s.mcr
  retry_same : t.tsr_retry ≡ s.tsr_retry
  credit_same : t.chars_sent ≡ s.chars_sent
  time_same : t.char_transmit_time ≡ s.char_transmit_time
  world_same : t.world ≡ s.world

load-Loaded : (s : SerialState) → le_nat s.tsr_retry 0 ≡ true → Loaded s (load_tsr s)
unfolding load_tsr fifo_get
load-Loaded s h = ground arith

blocked :
    (ts : ℕ) (s : SerialState)
    → has s.mcr mcr_loop ≡ false
    → 16 ≤ s.chars_sent
    → s.tsr_retry ≡ pos 0
    → send_tsr ts s ≡ (
      true,
      record s {
        tsr_retry = pos 1;
        world =
            emit (oneshot_absolute timer_transmit_timer (u64 (ts + s.char_transmit_time))) s.world;
      },
    )
unfolding send_tsr
blocked ts s l c r = ground arith

waits : (s : SerialState) → s.tsr_retry ≡ pos 1 → load_tsr s ≡ s
unfolding load_tsr
waits s r = ground arith

retried :
    (s : SerialState)
    → has s.mcr mcr_loop ≡ false
    → s.tsr_retry ≡ pos 1
    → console (serial_xmit (record s { chars_sent = 0 })).world.log ≡ s.tsr ∷ console s.world.log
unfolding serial_xmit
retried s l r =
    ground (arith, waits t, send_ok (now s.world) t, finish_xmit_lem (send_tsr (now s.world) t).1)
  where
    t : SerialState
    t = record s { chars_sent = 0; world = tick s.world }

-- The state that a blocked call leaves: the next byte, loaded, and the timer.
held :
    (s : SerialState)
    → has s.mcr mcr_loop ≡ false
    → 16 ≤ s.chars_sent
    → s.tsr_retry ≡ pos 0
    → (t : SerialState) × (serial_xmit s ≡ t)
      × (t.tsr ≡ next_byte s)
      × (t.mcr ≡ s.mcr)
      × (t.tsr_retry ≡ pos 1)
      × (t.world.log
          ≡ oneshot_absolute timer_transmit_timer (u64 (now s.world + s.char_transmit_time))
            ∷ s.world.log)
unfolding serial_xmit
held s l c r =
    let k = load-Loaded u (rw r refl) in
    let b =
      blocked (now s.world) (load_tsr u) (rw k.mcr_same l) (rw k.credit_same c)
        (k.retry_same ∙ r) in
    (
      _,
      ap (λ p. if p.0 then p.1 else finish_xmit p.1) b,
      k.tsr,
      k.mcr_same,
      refl,
      ground (arith, k.time_same, k.world_same),
    )
  where
    u : SerialState
    u = record s { world = tick s.world }

-- Once 16 bytes went out since the last transmit timer, and outside loopback, a call sends nothing:
-- it keeps the next byte and sets the transmit timer for one character time later. When that timer
-- goes off, that byte goes to the console.
blocked_then_sent :
    (s : SerialState)
    → has s.mcr mcr_loop ≡ false
    → 16 ≤ s.chars_sent
    → s.tsr_retry ≡ pos 0
    → let t = serial_xmit s in
      (t.world.log
        ≡ oneshot_absolute timer_transmit_timer (u64 (now s.world + s.char_transmit_time))
          ∷ s.world.log)
      × (console (serial_xmit (record t { chars_sent = 0 })).world.log
          ≡ next_byte s ∷ console s.world.log)
blocked_then_sent s l c r =
    let (t, e, byte, mcr, retry, log) = held s l c r in
    (
      ap (λ x. x.world.log) e ∙ log,
      ap (λ x. console (serial_xmit (record x { chars_sent = 0 })).world.log) e
          ∙ retried t (rw mcr l) retry
          ∙ ap₂ (λ b k. b ∷ k) byte (ap console log),
    )
