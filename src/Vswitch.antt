-- ===== src/Vswitch.antt =====
-- The switch that carries the frames of a guest to other guests,
-- components/Init/src/virtio_net_vswitch.c: `emul_raw_tx`, which sends frames, and in the modules
-- below the frames that come in and the way out on ARM.
pub mod Delivery
pub mod Receive
pub mod Forward
mod Tests
use camkes_vm.Common.{ℕ, zero, suc, ◌+◌, Bool, true, false, Option, none, some, List, [], ◌∷◌}

-- A call on the queue to a node: a frame, by its address, with its length, or a notification.
pub data QueueCall : Type 0 where
  scatter_send : ℕ → ℕ → ℕ → QueueCall
  notify : ℕ → QueueCall

-- What other libraries say: whether the destination of the frame at an address is a broadcast or
-- IPv6 multicast address, the index of its node if it is not negative, whether there is a node at
-- an index, the number of nodes, and whether the call at the head of a log fails.
pub record Switch : Type 0 where
  pub to_all : ℕ → Bool
  pub index_of : ℕ → Option ℕ
  pub has_node : ℕ → Bool
  pub n_connected : ℕ
  pub fails : List QueueCall → Bool

module _ (sw : Switch) where
  -- The inner loop, from node `j`, with `n` rounds to go: whether to go on with the next frame, and
  -- the calls made, the latest first.
  unfoldable pub send_to : ℕ → ℕ → ℕ → ℕ → List QueueCall → Bool × List QueueCall
  send_to frame len j zero log = (true, log)
  send_to frame len j (suc n) log = elim (sw.has_node j) [
    | false ↦ send_to frame len (j + 1) n log
    | true ↦ elim (sw.fails (scatter_send j frame len ∷ log)) [
      | true ↦ (false, scatter_send j frame len ∷ log)
      | false ↦ send_to frame len (j + 1) n (notify j ∷ scatter_send j frame len ∷ log)
    ]
  ]

  unfoldable pub send_frame : ℕ → ℕ → List QueueCall → Bool × List QueueCall
  send_frame frame len log = elim (sw.to_all frame) [
    | true ↦ send_to frame len 0 sw.n_connected log
    | false ↦ elim (sw.index_of frame) [ none ↦ (false, log) | some i ↦ send_to frame len i 1 log ]
  ]

  -- The outer loop, over the frames and their lengths. What it returns is the same on every path.
  unfoldable pub emul_raw_tx : List (ℕ × ℕ) → List QueueCall → List QueueCall
  emul_raw_tx [] log = log
  emul_raw_tx (f ∷ fs) log =
      let (go_on, log') = send_frame f.0 f.1 log in
      elim go_on [ true ↦ emul_raw_tx fs log' | false ↦ log' ]
