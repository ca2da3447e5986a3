-- ===== src/Console/Tests.antt =====
-- The consoles at concrete inputs.
use camkes_vm.Common.{
  ℕ, zero, suc, ◌≡◌, ◌≢◌, ◌⊎◌, refl, some, List, [], ◌∷◌, ◌++◌, get_elem?, length, arith, ◌-◌,
}
use camkes_vm.Console.Ring.{buf_size, next, store, advance}
use camkes_vm.Console.Ring.Window.{window, waiting, InBounds}
use camkes_vm.Console.Ring.Link.{
  Link, idle, stored, looked, taken, Run, here, later, put, publish, look, take, pending,
}
use camkes_vm.Console.Ring.Delivered.{start, sent-delivered}
use camkes_vm.Console.Ports.{SerialConn, handle_serial_console, tx_virtcon_forward}
use camkes_vm.Console.Ports.Handed.{
  Polled, handle_serial_console-Polled, tx_virtcon_forward-waiting,
}

-- a character is sent, and a second one while the first is read
abbrev blank : ℕ → ℕ
blank i = 0

abbrev first_stored : Link
first_stored = record (start blank) { ring = store 65 (start blank).ring; sender = stored 65 }

abbrev first_sent : Link
first_sent = record first_stored { ring = advance first_stored.ring; sender = idle; sent = 65 ∷ [] }

abbrev tail_read : Link
tail_read = record first_sent { receiver = looked 1 }

abbrev second_stored : Link
second_stored = record tail_read { ring = store 66 tail_read.ring; sender = stored 66 }

abbrev first_taken : Link
first_taken = record second_stored { receiver = taken 1; delivered = 65 ∷ [] }

first_taken-Run : Run (start blank) first_taken
unfolding store advance window
first_taken-Run =
    later
      (later
        (later
          (later (later here (put (start blank) 65 refl (λ e. absurd (ground (arith, e)))))
            (publish first_stored 65 refl))
          (look first_sent refl))
        (put tail_read 66 refl (λ e. absurd (ground (arith, e)))))
      (take second_stored 1 refl)

sent-delivered_example : first_taken.delivered ++ pending first_taken ≡ first_taken.sent
sent-delivered_example = sent-delivered blank first_taken first_taken-Run

abbrev held : SerialConn
held = record {
  notified = 0;
  recv_buf = record { head = 4086; tail = 1; buf = λ i. i };
  send_buf = record { head = 5; tail = 4; buf = λ i. i };
}

abbrev ports : List SerialConn
ports = held ∷ held ∷ []

ports-InBounds : (j : ℕ) (d : SerialConn) → get_elem? ports j ≡ some d → InBounds d.recv_buf
ports-InBounds zero d e = record { head_in = ground (arith, e); tail_in = ground (arith, e) }
ports-InBounds (suc zero) d e = record { head_in = ground (arith, e); tail_in = ground (arith, e) }
ports-InBounds (suc (suc j)) d e = absurd (ground (arith, e))

handle_serial_console-Polled_example : Polled 1 held (handle_serial_console ports) 1
handle_serial_console-Polled_example = handle_serial_console-Polled ports 1 held ports-InBounds refl

tx_virtcon_forward-waiting_example :
    (d : SerialConn) × (get_elem? (tx_virtcon_forward 1 65 ports) 1 ≡ some d)
    × (((next held.send_buf.tail ≢ held.send_buf.head)
          × (waiting d.send_buf ≡ waiting held.send_buf ++ (65 ∷ [])))
        ⊎ ((length (waiting held.send_buf) ≡ buf_size - 1) × (waiting d.send_buf ≡ [])))
tx_virtcon_forward-waiting_example =
    tx_virtcon_forward-waiting 1 65 ports held refl
      (record { head_in = omega arith; tail_in = omega arith })
