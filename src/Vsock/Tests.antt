-- ===== src/Vsock/Tests.antt =====
-- The sockets at a concrete input.
use camkes_vm.Common.{◌≡◌, true, List, [], ◌∷◌, ltb}
use camkes_vm.Vsock.{Socket, Queues, make_virtio_vsock_virtqueues, tx_forward}
use camkes_vm.Vsock.Sent.{ready_ports, failed_ports, sent_to, unknown, tx_forward-sent_to}

abbrev layout : List Socket
layout =
    record { cid = 3; send_id = 10; recv_id = 11 }
    ∷ record { cid = 4; send_id = 12; recv_id = 13 }
    ∷ []

-- no memory for the second port
abbrev one_port : Queues
one_port = record {
  has_recv = λ i. true;
  has_send = λ i. ltb i 1;
  send_ready = λ i. true;
  recv_ready = λ i. true;
}

tx_forward-sent_to_example :
    tx_forward 4 (65 ∷ []) (make_virtio_vsock_virtqueues one_port layout)
    ≡ sent_to one_port 4
        (65 ∷ [])
        (ready_ports one_port 0 layout)
        (unknown one_port 4 (failed_ports one_port 0 layout))
tx_forward-sent_to_example = tx_forward-sent_to one_port layout 4 (65 ∷ [])
