-- ===== src/Serial/Receive.antt =====
-- `serial_can_receive`, `serial_receive1`, `fifo_timeout_int`, `serial_buffer_dequeue` and the
-- receive loop of serial.c.
pub mod Buffer
pub mod Drain
use camkes_vm.Common.{
  u8, u64, ℕ, zero, suc, ◌+◌, ◌-◌, ◌*◌, ◌%◌, ◌^◌, true, false, Option, none, some, List, [], ◌∷◌,
  get_or, ltb, leb, ◌==◌, if◌then◌else◌, has, set_flag,
}
use camkes_vm.Host.{
  emit, tick, now, oneshot_absolute, oneshot_relative, timer_fifo_timeout, timer_more_chars,
}
use camkes_vm.Serial.State.{SerialState, fifo_length, fcr_fe, lsr_dr, lsr_oe}
use camkes_vm.Serial.Fifo.{recv, fifo_put}
use camkes_vm.Serial.Irq.{serial_update_irq}

-- how many characters the device takes; the loops only test it against 0
unfoldable pub serial_can_receive : SerialState → ℕ
serial_can_receive s =
    if has s.fcr fcr_fe
    then if ltb count fifo_length then (if leb count itl then itl - count else 1) else 0
    else if has s.lsr lsr_dr
    then 0
    else 1
  where
    open s use {recv_fifo.{count, itl}}

-- Reads the clock and sets the timer for 4 character times later.
abbrev pub arm_fifo_timeout : SerialState → SerialState
arm_fifo_timeout s = record s {
  world =
      emit (oneshot_absolute timer_fifo_timeout (u64 (now s.world + s.char_transmit_time * 4)))
        (tick s.world);
}

-- The loop over the characters received.
unfoldable pub put_all : List ℕ → SerialState → SerialState
put_all [] s = s
put_all (c ∷ cs) s = put_all cs (fifo_put recv c s)

unfoldable pub serial_receive1 : List ℕ → SerialState → SerialState
unfolding put_all
serial_receive1 buf s = serial_update_irq (
    if has s.fcr fcr_fe
    then (let t = put_all buf s in arm_fifo_timeout (record t { lsr = set_flag t.lsr lsr_dr }))
    else record s {
      lsr = set_flag (if has s.lsr lsr_dr then set_flag s.lsr lsr_oe else s.lsr) lsr_dr;
      rbr = get_or buf 0 0;
    })

unfoldable pub fifo_timeout_int : SerialState → SerialState
fifo_timeout_int s =
    if s.recv_fifo.count == 0 then s else serial_update_irq (record s { timeout_ipending = 1 })

-- The page that the console component shares: `chars` is its `buf`.
pub record GetcharBuf : Type 0 where
  pub head : ℕ
  pub tail : ℕ
  pub chars : List ℕ

-- `sizeof(buffer->buf)`
abbrev pub getchar_size : ℕ
getchar_size = 4088

unfoldable pub serial_buffer_dequeue : GetcharBuf → Option (ℕ × GetcharBuf)
serial_buffer_dequeue b =
    if b.head == b.tail
    then none
    else some
        (u8 (get_or b.chars b.head 0), record b { head = (b.head + 1) % 2 ^ 32 % getchar_size })

-- `while (serial_can_receive(s) && serial_buffer_dequeue(&c)) serial_receive1(s, &c, 1);`
-- `none` means that the fuel ran out.
unfoldable pub drain : ℕ → SerialState → GetcharBuf → Option (SerialState × GetcharBuf)
drain zero s b = none
drain (suc fuel) s b = elim (serial_can_receive s == 0) [
  | true ↦ some (s, b)
  | false ↦ elim (serial_buffer_dequeue b) [
    | none ↦ some (s, b)
    | some (c, b') ↦ drain fuel (serial_receive1 (c ∷ []) s) b'
  ]
]

-- One more than the characters that a queue can take.
abbrev pub drain_fuel : ℕ
drain_fuel = 17

-- Set up a timeout so we go get more chars later.
unfoldable pub retry_if_full : SerialState → GetcharBuf → SerialState × GetcharBuf
retry_if_full s b =
    if serial_can_receive s == 0
    then (record s { world = emit (oneshot_relative timer_more_chars 3000000) s.world }, b)
    else (s, b)

abbrev pub after_drain : Option (SerialState × GetcharBuf) → Option (SerialState × GetcharBuf)
after_drain none = none
after_drain (some (s, b)) = some (retry_if_full s b)

-- The loop, and the timeout for more.
unfoldable pub receive_pending : SerialState → GetcharBuf → Option (SerialState × GetcharBuf)
receive_pending s b = after_drain (drain drain_fuel s b)
