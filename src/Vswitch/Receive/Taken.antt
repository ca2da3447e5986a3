-- ===== src/Vswitch/Receive/Taken.antt =====
-- What becomes of the frames that come in.
use camkes_vm.Common.{
  ◌≤◌, ◌≡◌, refl, ap, subst, Bool, Bool-cases, inl, inr, List, [], ◌∷◌, ◌++◌, length, arith,
}
use mathlib.Core.List.{append_assoc}
use camkes_vm.Vswitch.Receive.{Frame, Received, receive, virtio_net_notify_vswitch_recv}

-- The frames of a queue: those handed on, in order, then at most one that is lost, then those that
-- stay, and none stays unless one is lost.
pub record Taken (queue : List Frame) (r : Received) : Type 0 where
  pub in_order : r.handed ++ (r.dropped ++ r.left) ≡ queue
  pub one_lost : length r.dropped ≤ 1
  pub drained : r.dropped ≡ [] → r.left ≡ []
  pub told : r.notified ≡ 1

module _ (has_ring : List Frame → Frame → Bool) (gathers : Frame → Bool) where
  stopped-Taken :
      (f : Frame) (fs handed : List Frame)
      → Taken
          (handed ++ (f ∷ fs))
          (record { handed = handed; dropped = f ∷ []; left = fs; notified = 1 })
  stopped-Taken f fs handed = record {
    in_order = refl;
    one_lost = omega arith;
    drained = λ e. absurd (cons_nil e);
    told = refl;
  }
    where
      cons_nil : f ∷ [] ≡ [] → ⊥
      cons_nil e = let k : 1 ≡ 0 = ap length e in omega (arith, k)

  receive-Taken :
      (fs handed : List Frame) → Taken (handed ++ fs) (receive has_ring gathers fs handed)
  unfolding receive
  receive-Taken [] handed = record {
    in_order = refl;
    one_lost = omega arith;
    drained = λ e. refl;
    told = refl;
  }
  receive-Taken (f ∷ fs) handed = elim (Bool-cases (has_ring handed f)) [
    | inr b ↦ rw (receive, b) (stopped-Taken f fs handed)
    | inl b ↦ elim (Bool-cases (gathers f)) [
      | inr c ↦ rw (receive, b, c) (stopped-Taken f fs handed)
      | inl c ↦
          rw (receive, b, c)
            (subst (λ q. Taken q (receive has_ring gathers fs (handed ++ (f ∷ []))))
              (append_assoc handed (f ∷ []) fs) (receive-Taken fs (handed ++ (f ∷ []))))
    ]
  ]

  -- However often the ring of the guest is full and frames cannot be gathered: the frames handed
  -- on, at most one that is lost, and those that stay are the queue, in order; none stays unless
  -- one is lost. The sender is notified once.
  pub virtio_net_notify_vswitch_recv-Taken :
      (queue : List Frame) → Taken queue (virtio_net_notify_vswitch_recv has_ring gathers queue)
  unfolding virtio_net_notify_vswitch_recv
  virtio_net_notify_vswitch_recv-Taken queue = receive-Taken queue []
