-- ===== src/Vsock.antt =====
-- The sockets between virtual machines, components/Init/src/virtio_vsock.c: the connections and the
-- way out.
pub mod Sent
mod Tests
use camkes_vm.Common.{
  ℕ, zero, suc, ◌+◌, ◌≡◌, Bool, true, false, ◌&&◌, Option, none, some, List, [], ◌∷◌, length, set,
  replicate, if◌then◌else◌, ◌==◌,
}

-- An entry of `socket_layout`.
pub record Socket : Type 0 where
  pub cid : ℕ
  pub send_id : ℕ
  pub recv_id : ℕ

-- An entry of `connections`, with a queue by its id and `none` for NULL.
pub record Conn : Type 0 where
  pub cid : ℕ
  pub send_queue : Option ℕ
  pub recv_queue : Option ℕ

abbrev pub no_conn : Conn
no_conn = record { cid = 0; send_queue = none; recv_queue = none }

abbrev pub conn_of : Socket → Conn
conn_of l = record { cid = l.cid; send_queue = some l.send_id; recv_queue = some l.recv_id }

-- For each port, whether there is memory for the two queues and whether they are initialised.
pub record Queues : Type 0 where
  pub has_recv : ℕ → Bool
  pub has_send : ℕ → Bool
  pub send_ready : ℕ → Bool
  pub recv_ready : ℕ → Bool

-- Bytes sent on a queue, which is then notified, a use of a queue that is NULL, or an unknown id
-- that is logged.
pub data Forwarded : Type 0 where
  sent : ℕ → List ℕ → Forwarded
  null_queue : Forwarded
  invalid_cid : Forwarded

module _ (queues : Queues) where
  abbrev pub is_ready : ℕ → Bool
  is_ready i = queues.has_recv i && queues.has_send i && queues.send_ready i && queues.recv_ready i

  -- The loop from port `i` on, which returns at the first failure.
  unfoldable pub make_ports : ℕ → List Socket → List Conn → List Conn
  make_ports i [] arr = arr
  make_ports i (l ∷ ls) arr =
      let done = make_ports (i + 1) ls (set arr i (conn_of l)) in if is_ready i then done else arr

  unfoldable pub make_virtio_vsock_virtqueues : List Socket → List Conn
  make_virtio_vsock_virtqueues layout = make_ports 0 layout (replicate (length layout) no_conn)

-- The error of the send is not looked at.
abbrev pub send_on : Option ℕ → List ℕ → Forwarded
send_on none buffer = null_queue
send_on (some q) buffer = sent q buffer

unfoldable pub tx_forward : ℕ → List ℕ → List Conn → Forwarded
tx_forward cid buffer [] = invalid_cid
tx_forward cid buffer (c ∷ cs) =
    if c.cid == cid then send_on c.send_queue buffer else tx_forward cid buffer cs
