-- ===== src/Serial/Fifo.antt =====
-- `fifo_clear`, `fifo_put` and `fifo_get` of serial.c.
pub mod Queue
pub mod Run
use camkes_vm.Common.{
  u8, ℕ, ◌+◌, ◌-◌, Bool, true, false, ◌||◌, get_or, set, replicate, ltb, ◌==◌, if◌then◌else◌,
  set_flag,
}
use camkes_vm.Serial.State.{SerialFifo, SerialState, fifo_length, lsr_oe}

-- `XMIT_FIFO` and `RECV_FIFO`
pub data FifoId : Type 0 where
  xmit recv : FifoId

-- the index after `i`: `i++`, and back to 0 at the end
abbrev pub next_index : ℕ → ℕ
next_index i = if u8 (i + 1) == fifo_length then 0 else u8 (i + 1)

unfoldable pub clear_fifo : SerialFifo → SerialFifo
clear_fifo f = record f { buf = replicate fifo_length 0; count = 0; head = 0; tail = 0 }

abbrev is_xmit : FifoId → Bool
is_xmit xmit = true
is_xmit recv = false

-- The part of `fifo_put` that changes the queue itself.
unfoldable pub put_byte : FifoId → ℕ → SerialFifo → SerialFifo
put_byte which chr f =
    let g =
      if is_xmit which || ltb f.count fifo_length
      then record f { buf = set f.buf f.head chr; head = next_index f.head }
      else f in
    record g { count = if ltb f.count fifo_length then u8 (f.count + 1) else f.count }

-- The part of `fifo_get` for a queue that is not empty.
unfoldable pub get_byte : SerialFifo → ℕ × SerialFifo
get_byte f =
    if f.count == 0
    then (0, f)
    else (get_or f.buf f.tail 0, record f { tail = next_index f.tail; count = f.count - 1 })

unfoldable pub fifo_clear : FifoId → SerialState → SerialState
unfolding clear_fifo
fifo_clear xmit s = record s { xmit_fifo = clear_fifo s.xmit_fifo }
fifo_clear recv s = record s { recv_fifo = clear_fifo s.recv_fifo }

-- A receive overrun is recorded in the line status register.
unfoldable pub fifo_put : FifoId → ℕ → SerialState → SerialState
fifo_put xmit chr s = record s { xmit_fifo = put_byte xmit chr s.xmit_fifo }
fifo_put recv chr s = record s {
  recv_fifo = put_byte recv chr s.recv_fifo;
  lsr = if ltb s.recv_fifo.count fifo_length then s.lsr else set_flag s.lsr lsr_oe;
}

unfoldable pub fifo_get : FifoId → SerialState → ℕ × SerialState
fifo_get xmit s = let (c, f) = get_byte s.xmit_fifo in (c, record s { xmit_fifo = f })
fifo_get recv s = let (c, f) = get_byte s.recv_fifo in (c, record s { recv_fifo = f })
