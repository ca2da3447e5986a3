-- ===== src/Serial/Behaviour/Transmit.antt =====
-- What the UART of serial.c does with a byte that the guest writes.
use camkes_vm.Common.{
  u8, ℕ, ◌+◌, ◌<◌, ◌≡◌, sym, ap, ◌∙◌, List, [], ◌∷◌, ◌++◌, arith, true, false, has, le_nat,
}
use camkes_vm.Host.{
  Effect, set_irq_level, oneshot_absolute, oneshot_relative, stop, putchar, now, tick,
}
use camkes_vm.Serial.State.{SerialFifo, SerialState, fcr_fe, mcr_loop, lsr_thre, lsr_temt}
use camkes_vm.Serial.Fifo.{xmit, fifo_put, fifo_get, put_byte, get_byte}
use camkes_vm.Serial.Fifo.Queue.{IsRing, contents, contents-put_byte, contents-get_byte}
use camkes_vm.Serial.Irq.{serial_update_irq}
use camkes_vm.Serial.Xmit.{load_tsr, send_tsr, finish_xmit, serial_xmit}
use camkes_vm.Serial.Write.{accept_byte, queue_byte, hold_byte, write_thr}

-- The bytes that the guest's console was given, the latest first.
abbrev pub console : List Effect → List ℕ
console [] = []
console (putchar c ∷ l) = c ∷ console l
console (set_irq_level i v ∷ l) = console l
console (oneshot_absolute i t ∷ l) = console l
console (oneshot_relative i t ∷ l) = console l
console (stop i ∷ l) = console l

-- The device is not in loopback, tries no byte again, and may still send in this period.
pub record CanSend (s : SerialState) : Type 0 where
  pub straight : has s.mcr mcr_loop ≡ false
  pub idle : le_nat s.tsr_retry 0 ≡ true
  pub credit : s.chars_sent < 16

-- The console, and all that `CanSend` reads, are as they were.
record Keeps (s t : SerialState) : Type 0 where
  console_same : console t.world.log ≡ console s.world.log
  mcr_same : t.mcr ≡ s.mcr
  fcr_same : t.fcr ≡ s.fcr
  retry_same : t.tsr_retry ≡ s.tsr_retry
  credit_same : t.chars_sent ≡ s.chars_sent

queue_byte-Keeps :
    (s : SerialState)
    → Keeps s (queue_byte s) × ((queue_byte s).xmit_fifo ≡ put_byte xmit s.thr s.xmit_fifo)
unfolding queue_byte serial_update_irq fifo_put
queue_byte-Keeps s = ground arith

hold_byte-Keeps : (s : SerialState) → Keeps s (hold_byte s) × ((hold_byte s).thr ≡ s.thr)
unfolding hold_byte serial_update_irq
hold_byte-Keeps s = ground arith

-- What goes to the shift register.
load_queued :
    (s : SerialState)
    → le_nat s.tsr_retry 0 ≡ true
    → has s.fcr fcr_fe ≡ true
    → Keeps s (load_tsr s)
      × ((load_tsr s).tsr ≡ (get_byte s.xmit_fifo).0)
      × ((load_tsr s).xmit_fifo ≡ (get_byte s.xmit_fifo).1)
unfolding load_tsr fifo_get
load_queued s i e = ground arith

load_held :
    (s : SerialState)
    → le_nat s.tsr_retry 0 ≡ true
    → has s.fcr fcr_fe ≡ false
    → Keeps s (load_tsr s) × ((load_tsr s).tsr ≡ s.thr) × (has (load_tsr s).lsr lsr_thre ≡ true)
unfolding load_tsr
load_held s i e = ground arith

-- The console takes the byte in the shift register.
pub send_ok :
    (ts : ℕ) (s : SerialState)
    → has s.mcr mcr_loop ≡ false
    → s.chars_sent < 16
    → ((send_tsr ts s).0 ≡ false)
      × (console (send_tsr ts s).1.world.log ≡ s.tsr ∷ console s.world.log)
      × ((send_tsr ts s).1.xmit_fifo ≡ s.xmit_fifo)
      × ((send_tsr ts s).1.lsr ≡ s.lsr)
unfolding send_tsr
send_ok ts s l c = ground arith

pub finish_xmit_lem :
    (s : SerialState)
    → (console (finish_xmit s).world.log ≡ console s.world.log)
      × ((finish_xmit s).xmit_fifo ≡ s.xmit_fifo)
      × (has s.lsr lsr_thre ≡ true
          → (has (finish_xmit s).lsr lsr_thre ≡ true)
            × (has (finish_xmit s).lsr lsr_temt ≡ true)
            × ((finish_xmit s).thr_ipending ≡ 1))
unfolding finish_xmit serial_update_irq
finish_xmit_lem s = ground arith

-- A whole call that sends: the byte loaded goes to the console.
serial_xmit_sends :
    (s : SerialState)
    → CanSend s
    → let l = load_tsr (record s { world = tick s.world }) in
      Keeps (record s { world = tick s.world }) l
      → (console (serial_xmit s).world.log ≡ l.tsr ∷ console s.world.log)
        × ((serial_xmit s).xmit_fifo ≡ l.xmit_fifo)
        × (has l.lsr lsr_thre ≡ true
            → (has (serial_xmit s).lsr lsr_thre ≡ true)
              × (has (serial_xmit s).lsr lsr_temt ≡ true)
              × ((serial_xmit s).thr_ipending ≡ 1))
unfolding serial_xmit
serial_xmit_sends s v k = ground (
  arith,
  k.credit_same,
  k.mcr_same,
  k.console_same,
  send_ok (now s.world) l,
  finish_xmit_lem (send_tsr (now s.world) l).1,
)
  where
    l : SerialState
    l = load_tsr (record s { world = tick s.world })

-- Without the queues, a byte that is written goes to the console, and the guest is told that the
-- transmitter is empty again.
write_thr_sends :
    (val : ℕ) (s : SerialState)
    → CanSend s
    → has s.fcr fcr_fe ≡ false
    → let t = write_thr val s in
      (console t.world.log ≡ u8 val ∷ console s.world.log)
      × (has t.lsr lsr_thre ≡ true)
      × (has t.lsr lsr_temt ≡ true)
      × (t.thr_ipending ≡ 1)
unfolding write_thr accept_byte
write_thr_sends val s v e = ground (
  arith,
  hold_byte-Keeps h,
  load_held (record (hold_byte h) { world = tick (hold_byte h).world }),
  serial_xmit_sends (hold_byte h) (ground (arith, hold_byte-Keeps h)),
)
  where
    h : SerialState
    h = record s { thr = u8 val }

-- A call with bytes queued sends the oldest of them.
oldest_sent :
    (s : SerialState)
    → CanSend s
    → has s.fcr fcr_fe ≡ true
    → 0 < s.xmit_fifo.count
    → (console (serial_xmit s).world.log ≡ (get_byte s.xmit_fifo).0 ∷ console s.world.log)
      × (contents s.xmit_fifo ≡ (get_byte s.xmit_fifo).0 ∷ contents (serial_xmit s).xmit_fifo)
oldest_sent s v e h =
    let (k, c, f) = load_queued (record s { world = tick s.world }) v.idle e in
    let (sent, left, _) = serial_xmit_sends s v k in
    (
      sent ∙ ap (λ b. b ∷ console s.world.log) c,
      contents-get_byte s.xmit_fifo h
          ∙ ap (λ g. (get_byte s.xmit_fifo).0 ∷ contents g) (sym (left ∙ f)),
    )

accept_queued :
    (val : ℕ) (s : SerialState)
    → has s.fcr fcr_fe ≡ true
    → accept_byte val s ≡ queue_byte (record s { thr = u8 val })
unfolding accept_byte
accept_queued val s e = rw e

count-put_byte : (c : ℕ) (f : SerialFifo) → f.count < 16 → (put_byte xmit c f).count ≡ f.count + 1
unfolding put_byte
count-put_byte c f h = ground arith

-- With the queues, the byte joins the end of the transmit queue, and the oldest byte goes to the
-- console.
write_thr_queues :
    (val : ℕ) (s : SerialState)
    → CanSend s
    → has s.fcr fcr_fe ≡ true
    → IsRing s.xmit_fifo
    → s.xmit_fifo.count < 16
    → let t = write_thr val s in
      (c : ℕ) × (console t.world.log ≡ c ∷ console s.world.log)
      × (c ∷ contents t.xmit_fifo ≡ contents s.xmit_fifo ++ (u8 val ∷ []))
unfolding write_thr
write_thr_queues val s v e r h =
    let q = queue_byte (record s { thr = u8 val }) in
    let (k, f) = queue_byte-Keeps (record s { thr = u8 val }) in
    let w : CanSend q = ground arith in
    let full = count-put_byte (u8 val) s.xmit_fifo h in
    let some_queued : 0 < q.xmit_fifo.count =
      omega (arith, ap (λ (g : SerialFifo). g.count) f, full) in
    let (sent, left) = oldest_sent q w (rw k.fcr_same e) some_queued in
    let same = accept_queued val s e in
    (
      (get_byte q.xmit_fifo).0,
      ap (λ t. console (serial_xmit t).world.log) same
          ∙ sent
          ∙ ap (λ l. (get_byte q.xmit_fifo).0 ∷ l) k.console_same,
      ap (λ t. (get_byte q.xmit_fifo).0 ∷ contents (serial_xmit t).xmit_fifo) same
          ∙ sym left
          ∙ ap contents f
          ∙ contents-put_byte xmit (u8 val) s.xmit_fifo r h,
    )
