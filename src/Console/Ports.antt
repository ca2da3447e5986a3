-- ===== src/Console/Ports.antt =====
-- The ports of a console: `handle_serial_console`, which hands the characters that came in to the
-- emulated device, and `tx_virtcon_forward`, which sends one.
pub mod Handed
use camkes_vm.Common.{
  ℕ, ◌+◌, Bool, Option, none, some, List, [], ◌∷◌, ◌++◌, get_elem?, set, if◌then◌else◌, ◌==◌,
}
use camkes_vm.Console.Ring.{SerialShmem, store, advance, is_time_to_send, release}

-- `serial_conn_t`, with the number of calls of `notify`
pub record SerialConn : Type 0 where
  pub notified : ℕ
  pub recv_buf : SerialShmem
  pub send_buf : SerialShmem

-- The call of the emulated device: the port, the buffer, and where the characters begin and end.
pub record EmulPutchar : Type 0 where
  pub port : ℕ
  pub buf : ℕ → ℕ
  pub head : ℕ
  pub tail : ℕ

unfoldable pub virtio_con_notify_recv : ℕ → SerialConn → SerialConn × EmulPutchar
virtio_con_notify_recv port c =
    let last_read_tail = c.recv_buf.tail in
    (
      record c { recv_buf = release last_read_tail c.recv_buf },
      record { port = port; buf = c.recv_buf.buf; head = c.recv_buf.head; tail = last_read_tail },
    )

-- The loop of `handle_serial_console` from port `i`: the connections, and the calls in order.
unfoldable pub poll_from : ℕ → List SerialConn → List SerialConn × List EmulPutchar
poll_from i [] = ([], [])
poll_from i (c ∷ cs) =
    let (cs', calls) = poll_from (i + 1) cs in
    if c.recv_buf.head == c.recv_buf.tail
    then (c ∷ cs', calls)
    else (let (c', call) = virtio_con_notify_recv i c in (c' ∷ cs', call ∷ calls))

unfoldable pub handle_serial_console : List SerialConn → List SerialConn × List EmulPutchar
handle_serial_console connections = poll_from 0 connections

unfoldable pub forward : ℕ → SerialConn → SerialConn
forward ch c =
    let r = advance (store ch c.send_buf) in
    record c {
      send_buf = r;
      notified = if is_time_to_send ch r then c.notified + 1 else c.notified;
    }

-- A port that there is not is left out. The port is an `int`, of which the device gives none below 0.
unfoldable pub tx_virtcon_forward : ℕ → ℕ → List SerialConn → List SerialConn
tx_virtcon_forward port ch connections = elim (get_elem? connections port) [
  | none ↦ connections
  | some c ↦ set connections port (forward ch c)
]
