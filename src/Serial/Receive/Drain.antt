-- ===== src/Serial/Receive/Drain.antt =====
-- The receive loop of serial.c ends, and moves the waiting characters in their order.
use camkes_vm.Common.{
  ℕ, zero, suc, ◌-◌, ◌<◌, ◌≤◌, ◌≡◌, ◌≢◌, refl, ap, sym, ◌∙◌, Option, none, some, [], ◌∷◌, ◌++◌,
  arith, true, Bool-cases, ◌⊎◌, inl, inr, ==_iff, has, ◌==◌, if◌then◌else◌,
}
use mathlib.Core.List.{append_assoc}
use camkes_vm.Host.{World}
use camkes_vm.Serial.State.{SerialState, fcr_fe, lsr_dr}
use camkes_vm.Serial.Fifo.{recv, put_byte, fifo_put}
use camkes_vm.Serial.Fifo.Queue.{contents, contents-put_byte}
use camkes_vm.Serial.Irq.{serial_update_irq}
use camkes_vm.Serial.Receive.{
  GetcharBuf, serial_can_receive, serial_receive1, serial_buffer_dequeue, drain, drain_fuel,
  receive_pending, retry_if_full, after_drain,
}
use camkes_vm.Serial.Receive.Buffer.{
  IsPage, waiting, serial_buffer_dequeue-some, serial_buffer_dequeue-none,
}
use camkes_vm.Serial.Valid.{IsValid}
use camkes_vm.Serial.Valid.Receive.{serial_receive1-IsValid}

-- how many characters the device can still take
abbrev room : SerialState → ℕ
room s = if has s.fcr fcr_fe then 16 - s.recv_fifo.count else (if has s.lsr lsr_dr then 0 else 1)

-- One character received while there is room takes up a place.
room_falls :
    (c : ℕ) (s : SerialState)
    → s.recv_fifo.count ≤ 16
    → serial_can_receive s ≢ 0
    → room (serial_receive1 (c ∷ []) s) < room s
unfolding serial_can_receive serial_receive1 serial_update_irq fifo_put put_byte
room_falls c s n h = ground arith

-- With the queues enabled it goes to the end of the receive queue.
queued :
    (c : ℕ) (s : SerialState)
    → IsValid s
    → has s.fcr fcr_fe ≡ true
    → serial_can_receive s ≢ 0
    → (contents (serial_receive1 (c ∷ []) s).recv_fifo ≡ contents s.recv_fifo ++ (c ∷ []))
      × (has (serial_receive1 (c ∷ []) s).fcr fcr_fe ≡ true)
unfolding serial_can_receive serial_receive1 serial_update_irq fifo_put
queued c s v e h = ground (arith, contents-put_byte recv c s.recv_fifo)

-- What holds when the loop stops, started with `s` and `b`. With the queues enabled, the bytes
-- queued and those that still wait are together what they were, in their order.
pub record Drained (s : SerialState) (b : GetcharBuf) (t : SerialState) (q : GetcharBuf)
    : Type 0 where
  pub valid : IsValid t
  pub page : IsPage q
  pub order :
      has s.fcr fcr_fe ≡ true
      → contents t.recv_fifo ++ waiting q ≡ contents s.recv_fifo ++ waiting b
  pub stopped : (serial_can_receive t ≡ 0) ⊎ (waiting q ≡ [])

abbrev Ends : Option (SerialState × GetcharBuf) → SerialState → GetcharBuf → Type 0
Ends o s b = (t : SerialState) × (q : GetcharBuf) × (o ≡ some (t, q)) × Drained s b t q

-- The result of a later round is the result of this one.
one_more :
    (s : SerialState) (b b' : GetcharBuf) (c : ℕ) (t : SerialState) (q : GetcharBuf)
    → IsValid s
    → serial_can_receive s ≢ 0
    → waiting b ≡ c ∷ waiting b'
    → Drained (serial_receive1 (c ∷ []) s) b' t q
    → Drained s b t q
one_more s b b' c t q v h e d = record {
  valid = d.valid;
  page = d.page;
  order = λ fe.
      let (moved, on) = queued c s v fe h in
      d.order on
      ∙ ap (λ l. l ++ waiting b') moved
      ∙ append_assoc (contents s.recv_fifo) (c ∷ []) (waiting b')
      ∙ ap (λ l. contents s.recv_fifo ++ l) (sym e);
  stopped = d.stopped;
}

drain_lem :
    (fuel : ℕ) (s : SerialState) (b : GetcharBuf)
    → room s < fuel
    → IsValid s
    → IsPage b
    → Ends (drain fuel s b) s b
unfolding drain
drain_lem zero s b h v w = absurd (omega arith)
drain_lem (suc fuel) s b h v w = elim (Bool-cases (serial_can_receive s == 0)) [
  | inl e ↦ (
    s,
    b,
    rw (e, drain),
    record { valid = v; page = w; order = λ _. refl; stopped = inl (ground arith) },
  )
  | inr e ↦ rw (e, drain) (next (serial_buffer_dequeue b) refl (ground arith) (drain_lem fuel))
]
  where
    next :
        (o : Option (ℕ × GetcharBuf))
        → serial_buffer_dequeue b ≡ o
        → serial_can_receive s ≢ 0
        → ((s : SerialState) (b : GetcharBuf)
            → room s < fuel
            → IsValid s
            → IsPage b
            → Ends (drain fuel s b) s b)
        → Ends
            (elim o [
              | none ↦ some (s, b)
              | some (c, b') ↦ drain fuel (serial_receive1 (c ∷ []) s) b'
            ])
            s
            b
    next none e k ih = (
      s,
      b,
      refl,
      record {
        valid = v;
        page = w;
        order = λ _. refl;
        stopped = inr (serial_buffer_dequeue-none b w e);
      },
    )
    next (some (c, b')) e k ih =
        let (w', taken) = serial_buffer_dequeue-some b b' c w e in
        let (t, q, done, d) =
          ih (serial_receive1 (c ∷ []) s) b'
            (omega (arith, room_falls c s v.sound.widths.recv.bounds.count_in k))
            (serial_receive1-IsValid (c ∷ []) s v.sound) w' in
        (t, q, done, one_more s b b' c t q v k taken d)

serial_can_receive-world :
    (s : SerialState) (w : World)
    → serial_can_receive (record s { world = w }) ≡ serial_can_receive s
unfolding serial_can_receive
serial_can_receive-world s w = refl

-- The timer for more characters changes none of this.
retried :
    (s : SerialState) (b : GetcharBuf) (t : SerialState) (q : GetcharBuf)
    → Drained s b t q
    → Drained s b (retry_if_full t q).0 (retry_if_full t q).1
unfolding retry_if_full
retried s b t q d = elim (Bool-cases (serial_can_receive t == 0)) [
  | inl e ↦ rw e (record {
    valid = ground arith;
    page = d.page;
    order = d.order;
    stopped = inl (serial_can_receive-world t _ ∙ (==_iff _ 0).0 e);
  })
  | inr e ↦ rw e d
]

receive_pending_lem :
    (s : SerialState) (b : GetcharBuf) → IsValid s → IsPage b → Ends (receive_pending s b) s b
unfolding receive_pending
receive_pending_lem s b v w =
    let (t, q, e, d) = drain_lem drain_fuel s b (ground arith) v w in
    ((retry_if_full t q).0, (retry_if_full t q).1, ap after_drain e, retried s b t q d)

-- From a valid state, the receive loop ends within its fuel of 17, with both invariants, and stops
-- because the device takes no more or because no character waits.
pub receive_pending_ends :
    (s : SerialState) (b : GetcharBuf)
    → IsValid s
    → IsPage b
    → (t : SerialState) × (q : GetcharBuf) × (receive_pending s b ≡ some (t, q))
      × IsValid t
      × IsPage q
      × ((serial_can_receive t ≡ 0) ⊎ (waiting q ≡ []))
receive_pending_ends s b v w =
    let (t, q, e, d) = receive_pending_lem s b v w in (t, q, e, d.valid, d.page, d.stopped)

-- From a valid state with the queues enabled, the receive loop ends, and the bytes queued followed
-- by the characters that still wait are what was queued followed by what waited.
pub receive_pending_order :
    (s : SerialState) (b : GetcharBuf)
    → IsValid s
    → IsPage b
    → has s.fcr fcr_fe ≡ true
    → (t : SerialState) × (q : GetcharBuf) × (receive_pending s b ≡ some (t, q))
      × (contents t.recv_fifo ++ waiting q ≡ contents s.recv_fifo ++ waiting b)
receive_pending_order s b v w on =
    let (t, q, e, d) = receive_pending_lem s b v w in (t, q, e, d.order on)
