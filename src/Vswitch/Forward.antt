-- ===== src/Vswitch/Forward.antt =====
-- The way out of the switch on ARM: `tx_virtqueue_forward` of
-- components/VM_Arm/src/modules/virtio_net_virtqueue.c, which sends a frame to every node.
use camkes_vm.Common.{
  ℕ, zero, suc, ◌+◌, ◌≡◌, refl, ap, true, false, Bool-cases, inl, inr, List, [], ◌∷◌,
}
use camkes_vm.Vswitch.{QueueCall, scatter_send, notify, Switch, send_to, send_frame, emul_raw_tx}

module _ (sw : Switch) where
  -- The loop from node `j`, with `n` rounds to go: a send that fails is logged, and the next node
  -- comes.
  unfoldable pub forward_to : ℕ → ℕ → ℕ → ℕ → List QueueCall → List QueueCall
  forward_to frame len j zero log = log
  forward_to frame len j (suc n) log = elim (sw.has_node j) [
    | false ↦ forward_to frame len (j + 1) n log
    | true ↦ elim (sw.fails (scatter_send j frame len ∷ log)) [
      | true ↦ forward_to frame len (j + 1) n (scatter_send j frame len ∷ log)
      | false ↦ forward_to frame len (j + 1) n (notify j ∷ scatter_send j frame len ∷ log)
    ]
  ]

  unfoldable pub tx_virtqueue_forward : ℕ → ℕ → List QueueCall → List QueueCall
  tx_virtqueue_forward frame len log = forward_to frame len 0 sw.n_connected log

  forward_to-send_to :
      (frame len j n : ℕ) (log : List QueueCall)
      → ((l : List QueueCall) → sw.fails l ≡ false)
      → send_to sw frame len j n log ≡ (true, forward_to frame len j n log)
  unfolding forward_to send_to
  forward_to-send_to frame len j zero log h = refl
  forward_to-send_to frame len j (suc n) log h = elim (Bool-cases (sw.has_node j)) [
    | inr b ↦ rw (send_to, forward_to, b) (forward_to-send_to frame len (j + 1) n log h)
    | inl b ↦
        rw (send_to, forward_to, b, h (scatter_send j frame len ∷ log))
          (forward_to-send_to frame len (j + 1) n (notify j ∷ scatter_send j frame len ∷ log) h)
  ]

  send_frame-forward :
      (frame len : ℕ) (log : List QueueCall)
      → ((l : List QueueCall) → sw.fails l ≡ false)
      → sw.to_all frame ≡ true
      → send_frame sw frame len log ≡ (true, tx_virtqueue_forward frame len log)
  unfolding tx_virtqueue_forward send_frame
  send_frame-forward frame len log h b =
      rw (send_frame, b) (forward_to-send_to frame len 0 sw.n_connected log h)

  -- When no send fails, a frame for all is sent on ARM with the same calls as on x86.
  tx_virtqueue_forward-emul_raw_tx :
      (frame len : ℕ) (log : List QueueCall)
      → ((l : List QueueCall) → sw.fails l ≡ false)
      → sw.to_all frame ≡ true
      → emul_raw_tx sw ((frame, len) ∷ []) log ≡ tx_virtqueue_forward frame len log
  unfolding emul_raw_tx
  tx_virtqueue_forward-emul_raw_tx frame len log h b =
      rw (emul_raw_tx, send_frame-forward frame len log h b)
        (ap (λ r. r.1) (send_frame-forward frame len log h b))
