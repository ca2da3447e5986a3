-- ===== src/Serial/Valid/Write.antt =====
-- The invariant through `serial_ioport_write` of serial.c, and that its assertion holds.
use mathlib.Core.Option
use camkes_vm.Common.{
  u8, ℕ, ◌≡◌, refl, ap, ◌<◌, ◌/◌, ◌*◌, arith, Option, none, some, clear_flag, pos, ◌≢◌, has, true,
  false, ◌%◌, ◌==◌, Bool, if◌then◌else◌,
}
use native.Mathlib.Nat.{div-add-mod, mod-lt}
use camkes_vm.Serial.State.{SerialState, lcr_dlab, fcr_rfr, lsr_dr, lsr_temt, lsr_thre}
use camkes_vm.Serial.Fifo.{xmit, fifo_put, fifo_clear, put_byte, clear_fifo}
use camkes_vm.Serial.Fifo.Queue.{put_byte-InBounds}
use camkes_vm.Serial.Line.{serial_update_parameters}
use camkes_vm.Serial.Write.{
  write_divider_low, write_divider_high, accept_byte, write_thr, queue_byte, hold_byte, flush,
  reset_recv, set_enable, write_ier, write_fcr, write_lcr, serial_ioport_write, poll_modem,
  apply_fcr, fcr_request, set_break,
}
use camkes_vm.Serial.Valid.{HasWidths, IsValid}
use camkes_vm.Serial.Valid.Update.{
  lsr-IsSound, serial_update_irq-IsValid, serial_update_msl-IsValid,
  serial_update_parameters-IsValid,
}
use camkes_vm.Serial.Valid.Xmit.{serial_xmit-IsValid}

pub write_divider_low-IsValid :
    (val : ℕ) (s : SerialState) → IsValid s → IsValid (write_divider_low val s)
unfolding write_divider_low
write_divider_low-IsValid val s v = ground arith

pub write_divider_high-IsValid :
    (val : ℕ) (s : SerialState) → IsValid s → IsValid (write_divider_high val s)
unfolding write_divider_high
write_divider_high-IsValid val s v = ground arith

accepted_lsr :
    (l : ℕ)
    → l < 256
    → (clear_flag (clear_flag l lsr_temt) lsr_thre < 256)
      × (has (clear_flag (clear_flag l lsr_temt) lsr_thre) lsr_dr ≡ has l lsr_dr)
accepted_lsr l h = ground arith

queue_byte-IsValid : (s : SerialState) → IsValid s → IsValid (queue_byte s)
unfolding queue_byte fifo_put
queue_byte-IsValid s v = serial_update_irq-IsValid _ (
    lsr-IsSound _ (record s { xmit_fifo = put_byte xmit s.thr s.xmit_fifo; thr_ipending = 0 })
      (accepted_lsr s.lsr v.sound.widths.lsr_in).0 (accepted_lsr s.lsr v.sound.widths.lsr_in).1
      (ground (arith, put_byte-InBounds xmit s.thr s.xmit_fifo)))

hold_byte-IsValid : (s : SerialState) → IsValid s → IsValid (hold_byte s)
unfolding hold_byte
hold_byte-IsValid s v = serial_update_irq-IsValid _ (ground arith)

accept_byte-IsValid : (val : ℕ) (s : SerialState) → IsValid s → IsValid (accept_byte val s)
unfolding accept_byte
accept_byte-IsValid val s v = ground (
  arith,
  queue_byte-IsValid (record s { thr = u8 val }),
  hold_byte-IsValid (record s { thr = u8 val }),
)

write_thr-IsValid : (val : ℕ) (s : SerialState) → IsValid s → IsValid (write_thr val s)
unfolding write_thr
write_thr-IsValid val s v = serial_xmit-IsValid (accept_byte val s) (accept_byte-IsValid val s v)

poll_modem-IsValid : (s : SerialState) → IsValid s → IsValid (poll_modem s)
unfolding poll_modem
poll_modem-IsValid s v = ground (arith, serial_update_msl-IsValid (record s { poll_msl = pos 1 }))

write_ier-IsValid : (val : ℕ) (s : SerialState) → IsValid s → IsValid (write_ier val s)
unfolding write_ier
write_ier-IsValid val s v = ground (
  arith,
  poll_modem-IsValid t (ground arith),
  serial_update_irq-IsValid (record (poll_modem t) { thr_ipending = 1 }),
)
  where
    t : SerialState
    t = record s { ier = val % 16 }

-- What `flush` leaves: the widths, the line status, and an empty receive queue if that was asked.
record Flushed (val : ℕ) (s t : SerialState) : Type 0 where
  widths : HasWidths t
  lsr_same : t.lsr ≡ s.lsr
  emptied : has val fcr_rfr ≡ true → t.recv_fifo.count ≡ 0
  kept : has val fcr_rfr ≡ false → t.recv_fifo.count ≡ s.recv_fifo.count

flush-Flushed : (val : ℕ) (s : SerialState) → HasWidths s → Flushed val s (flush val s)
unfolding flush reset_recv fifo_clear clear_fifo
flush-Flushed val s v = ground arith

set_enable-Flushed :
    (val : ℕ) (s t : SerialState) → Flushed val s t → Flushed val s (set_enable val t)
unfolding set_enable
set_enable-Flushed val s t v = ground arith

-- A request that changes the enable bit clears both queues.
fcr_request_lem :
    (fcr val : ℕ)
    → val < 256
    → has (fcr_request fcr val) fcr_rfr ≡ false
    → (fcr_request fcr val) % 2 ≡ fcr % 2
fcr_request_lem fcr val h e = ground arith

apply_fcr-IsValid :
    (val : ℕ) (s : SerialState)
    → (has val fcr_rfr ≡ false → val % 2 ≡ s.fcr % 2)
    → IsValid s
    → IsValid (apply_fcr val s)
unfolding apply_fcr
apply_fcr-IsValid val s r v =
    serial_update_irq-IsValid _ (ground (arith, f.widths, f.lsr_same, f.emptied, f.kept))
  where
    f : Flushed val s (set_enable val (flush val s))
    f = set_enable-Flushed val s (flush val s) (flush-Flushed val s v.sound.widths)

write_fcr-IsValid : (val : ℕ) (s : SerialState) → IsValid s → IsValid (write_fcr val s)
unfolding write_fcr
write_fcr-IsValid val s v = ground (
  arith,
  apply_fcr-IsValid (fcr_request s.fcr (u8 val)) s (fcr_request_lem s.fcr (u8 val) (omega arith)),
)

-- The call returns, with no assertion failed, in a valid state.
abbrev pub Returns : Option SerialState → Type 0
Returns o = (t : SerialState) × (o ≡ some t) × IsValid t

speed_pos : (d : ℕ) → 0 < d → d < 65536 → 115200 / d ≢ 0
speed_pos d h k e = omega (arith, div-add-mod 115200 d, mod-lt 115200 h, ap (λ q. d * q) e)

update_total : (s : SerialState) → IsValid s → serial_update_parameters s ≢ none
unfolding serial_update_parameters
update_total s v = ground (arith, speed_pos s.divider)

pub serial_update_parameters-Returns :
    (s : SerialState) → IsValid s → Returns (serial_update_parameters s)
serial_update_parameters-Returns s v = go (serial_update_parameters s) refl
  where
    go : (o : Option SerialState) → serial_update_parameters s ≡ o → Returns o
    go none e = absurd (update_total s v e)
    go (some t) e = (t, refl, serial_update_parameters-IsValid s v e)

Returns-if :
    (b : Bool) {o p : Option SerialState} → Returns o → Returns p → Returns (if b then o else p)
Returns-if true r q = r
Returns-if false r q = q

Returns-some : {t : SerialState} → IsValid t → Returns (some t)
Returns-some {t} v = (t, refl, v)

write_lcr-Returns : (val : ℕ) (s : SerialState) → IsValid s → Returns (write_lcr val s)
unfolding write_lcr
write_lcr-Returns val s v =
    let (t, e, w) = serial_update_parameters-Returns (record s { lcr = u8 val }) (ground arith) in
    (set_break val t, ap (Option.map (set_break val)) e, ground arith)

-- A write of any value to any port of the UART returns: no assertion fails, and the invariant holds
-- afterwards.
pub serial_ioport_write-Returns :
    (addr val : ℕ) (s : SerialState) → IsValid s → Returns (serial_ioport_write addr val s)
unfolding serial_ioport_write
serial_ioport_write-Returns addr val s v =
    Returns-if (addr % 8 == 0)
      (Returns-if (has s.lcr lcr_dlab)
        (serial_update_parameters-Returns _ (write_divider_low-IsValid val s v))
        (Returns-some (write_thr-IsValid val s v)))
      (Returns-if (addr % 8 == 1)
        (Returns-if (has s.lcr lcr_dlab)
          (serial_update_parameters-Returns _ (write_divider_high-IsValid val s v))
          (Returns-some (write_ier-IsValid val s v)))
        (Returns-if (addr % 8 == 2) (Returns-some (write_fcr-IsValid val s v)) (
          Returns-if (addr % 8 == 3) (write_lcr-Returns val s v) (
            Returns-if (addr % 8 == 4) (Returns-some (ground arith))
              (Returns-if (addr % 8 == 7) (Returns-some (ground arith)) (Returns-some v))))))
