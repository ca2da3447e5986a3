-- ===== src/Vswitch/Tests.antt =====
-- Frames sent through a small switch.
use camkes_vm.Common.{
  ◌≡◌, true, false, length, none, some, List, [], ◌∷◌, ◌++◌, ltb, ◌==◌, if◌then◌else◌,
}
use camkes_vm.Vswitch.{QueueCall, Switch, emul_raw_tx}
use camkes_vm.Vswitch.Delivery.{made, all_calls, emul_raw_tx-prefix}
use camkes_vm.Vswitch.Receive.{Frame, virtio_net_notify_vswitch_recv}
use camkes_vm.Vswitch.Receive.Taken.{Taken, virtio_net_notify_vswitch_recv-Taken}

-- Three indices, with a hole at 1; frame 100 goes to all, any other to node 2.
abbrev holed : Switch
holed = record {
  to_all = λ f. f == 100;
  index_of = λ f. some 2;
  has_node = λ j. if j == 1 then false else ltb j 3;
  n_connected = 3;
  fails = λ l. false;
}

-- The same, but the frames other than 100 have no destination.
abbrev unknown : Switch
unknown = record holed { index_of = λ f. none }

emul_raw_tx-prefix_example :
    (done : List QueueCall) × (rest : List QueueCall) × (all_calls unknown
        ((100, 60) ∷ (7, 64) ∷ (100, 64) ∷ [])
      ≡ done ++ rest)
    × (emul_raw_tx unknown ((100, 60) ∷ (7, 64) ∷ (100, 64) ∷ []) [] ≡ made done [])
emul_raw_tx-prefix_example = emul_raw_tx-prefix unknown ((100, 60) ∷ (7, 64) ∷ (100, 64) ∷ []) []

abbrev frame : Frame
frame = record { len = 1514; bytes = 1 ∷ 2 ∷ [] }

abbrev long_frame : Frame
long_frame = record { len = 1515; bytes = 3 ∷ [] }

-- The ring has room for one frame.
virtio_net_notify_vswitch_recv-Taken_example : Taken (frame ∷ frame ∷ long_frame ∷ []) (
    virtio_net_notify_vswitch_recv
      (λ l f. ltb (length l) 1)
      (λ f. true)
      (frame ∷ frame ∷ long_frame ∷ []))
virtio_net_notify_vswitch_recv-Taken_example =
    virtio_net_notify_vswitch_recv-Taken (λ l f. ltb (length l) 1) (λ f. true)
      (frame ∷ frame ∷ long_frame ∷ [])
