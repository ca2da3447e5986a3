-- ===== src/Vswitch/Receive.antt =====
-- The frames that come in from other guests: `virtio_net_notify_vswitch_recv` of
-- components/Init/src/virtio_net_vswitch.c.
pub mod Taken
use camkes_vm.Common.{
  ℕ, zero, suc, ◌+◌, Bool, true, false, Option, none, some, List, [], ◌∷◌, ◌++◌, length, ltb,
  if◌then◌else◌,
}

-- A frame in the queue.
pub record Frame : Type 0 where
  pub len : ℕ
  pub bytes : List ℕ

-- The frames handed to the guest, the one that is dropped if the loop stops, those that stay in the
-- queue, and the number of notifications of the sender.
pub record Received : Type 0 where
  pub handed : List Frame
  pub dropped : List Frame
  pub left : List Frame
  pub notified : ℕ

-- What other libraries say: whether the ring of the guest has room for a frame after those handed
-- on, and whether the parts of a frame can be gathered.
module _ (has_ring : List Frame → Frame → Bool) (gathers : Frame → Bool) where
  -- The loop, after the frames `handed`. The notification comes after it, however it ends.
  unfoldable pub receive : List Frame → List Frame → Received
  receive [] handed = record { handed = handed; dropped = []; left = []; notified = 1 }
  receive (f ∷ fs) handed =
      let rest = receive fs (handed ++ (f ∷ [])) in
      let stopped : Received = record {
        handed = handed;
        dropped = f ∷ [];
        left = fs;
        notified = 1;
      } in
      if has_ring handed f then (if gathers f then rest else stopped) else stopped

  unfoldable pub virtio_net_notify_vswitch_recv : List Frame → Received
  virtio_net_notify_vswitch_recv queue = receive queue []
