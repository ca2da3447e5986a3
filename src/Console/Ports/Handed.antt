-- ===== src/Console/Ports/Handed.antt =====
-- What a poll hands on, and what becomes of a character that is sent.
use camkes_vm.Common.{
  ◌⊎◌, get_elem?-set, ℕ, zero, suc, ◌+◌, ◌-◌, ◌%◌, ◌<◌, ◌≡◌, ◌≢◌, refl, sym, ap, ◌∙◌, true, false,
  Bool-cases, inl, inr, some, List, [], ◌∷◌, ◌++◌, length, get_elem?, arith, if◌then◌else◌, ◌==◌,
}
use mathlib.Core.List.{append-nil}
use camkes_vm.Console.Ring.{buf_size, next, store, advance, release}
use camkes_vm.Console.Ring.Window.{
  window, ahead, waiting, InBounds, window-store, window-add, length-window,
}
use camkes_vm.Console.Ports.{
  SerialConn, EmulPutchar, virtio_con_notify_recv, poll_from, handle_serial_console, forward,
  tx_virtcon_forward,
}

-- the characters that some calls hand to a port
unfoldable pub handed : ℕ → List EmulPutchar → List ℕ
handed k [] = []
handed k (e ∷ es) =
    if e.port == k then window e.buf e.head (ahead e.head e.tail) ++ handed k es else handed k es

-- Nothing is handed to the ports before the first that is polled.
handed-poll_from : (i k : ℕ) (cs : List SerialConn) → k < i → handed k (poll_from i cs).1 ≡ []
unfolding handed poll_from virtio_con_notify_recv
handed-poll_from i k [] h = refl
handed-poll_from i k (c ∷ cs) h = ground (arith, handed-poll_from (i + 1) k cs)

-- What a poll does for a port.
pub record Polled (k : ℕ) (c : SerialConn) (result : List SerialConn × List EmulPutchar) (port : ℕ)
    : Type 0 where
  pub conn : SerialConn
  pub kept : get_elem? result.0 k ≡ some conn
  pub emptied : waiting conn.recv_buf ≡ []
  pub all_handed : handed port result.1 ≡ waiting c.recv_buf
  pub send_same : conn.send_buf ≡ c.send_buf

-- Nothing waits between an index and itself.
window_none : (buf : ℕ → ℕ) (i : ℕ) → i < buf_size → window buf i (ahead i i) ≡ []
unfolding window
window_none buf i h = let none_left : ahead i i ≡ 0 = omega arith in rw none_left refl

first_same :
    (i : ℕ) (c : SerialConn) (cs : List SerialConn)
    → (c.recv_buf.head == c.recv_buf.tail) ≡ true
    → poll_from i (c ∷ cs) ≡ (c ∷ (poll_from (i + 1) cs).0, (poll_from (i + 1) cs).1)
unfolding poll_from
first_same i c cs b = rw (poll_from, b) refl

first_other :
    (i : ℕ) (c : SerialConn) (cs : List SerialConn)
    → (c.recv_buf.head == c.recv_buf.tail) ≡ false
    → poll_from i (c ∷ cs) ≡ (
      (virtio_con_notify_recv i c).0 ∷ (poll_from (i + 1) cs).0,
      (virtio_con_notify_recv i c).1 ∷ (poll_from (i + 1) cs).1,
    )
unfolding poll_from
first_other i c cs b = rw (poll_from, b) refl

poll_from-Polled :
    (i k port : ℕ) (c : SerialConn) (cs : List SerialConn)
    → ((j : ℕ) (d : SerialConn) → get_elem? cs j ≡ some d → InBounds d.recv_buf)
    → port ≡ i + k
    → get_elem? cs k ≡ some c
    → Polled k c (poll_from i cs) port
unfolding handed virtio_con_notify_recv release
poll_from-Polled i k port c [] v at e = absurd (ground (arith, e))
poll_from-Polled i zero port c (d ∷ cs) v at e =
    let same : d ≡ c = ground (arith, e) in
    let b = v 0 d refl in
    let after : handed i (poll_from (i + 1) cs).1 ≡ [] =
      handed-poll_from (i + 1) i cs (omega arith) in
    let here : port ≡ i = omega (arith, at) in
    let self : (i == i) ≡ true = ground arith in
    elim (Bool-cases (d.recv_buf.head == d.recv_buf.tail)) [
      | inl h ↦
          let equal : d.recv_buf.head ≡ d.recv_buf.tail = ground (arith, h) in
          let nothing : waiting d.recv_buf ≡ [] =
            ap (λ t. window d.recv_buf.buf d.recv_buf.head (ahead d.recv_buf.head t)) (sym equal)
            ∙ window_none d.recv_buf.buf d.recv_buf.head b.head_in in
          rw (← same, first_same i d cs h, here)
            (record {
              conn = d;
              kept = refl;
              emptied = nothing;
              all_handed = after ∙ sym nothing;
              send_same = refl;
            })
      | inr h ↦
          rw (← same, first_other i d cs h, here)
            (record {
              conn = (virtio_con_notify_recv i d).0;
              kept = refl;
              emptied = window_none d.recv_buf.buf d.recv_buf.tail b.tail_in;
              all_handed = rw (self, after) (append-nil (waiting d.recv_buf));
              send_same = refl;
            })
    ]
poll_from-Polled i (suc k) port c (d ∷ cs) v at e =
    let p = poll_from-Polled (i + 1) k port c cs (λ j. v (suc j)) (omega (arith, at)) e in
    elim (Bool-cases (d.recv_buf.head == d.recv_buf.tail)) [
      | inl h ↦ rw (first_same i d cs h) (record {
        conn = p.conn;
        kept = p.kept;
        emptied = p.emptied;
        all_handed = p.all_handed;
        send_same = p.send_same;
      })
      | inr h ↦ rw (first_other i d cs h) (record {
        conn = p.conn;
        kept = p.kept;
        emptied = p.emptied;
        all_handed = ground (arith, at, p.all_handed);
        send_same = p.send_same;
      })
    ]

-- With the indices of every buffer within it, a poll hands the characters that wait at a port to
-- that port of the emulated device, in order, and leaves none; the other buffer of the port stays.
pub handle_serial_console-Polled :
    (cs : List SerialConn) (k : ℕ) (c : SerialConn)
    → ((j : ℕ) (d : SerialConn) → get_elem? cs j ≡ some d → InBounds d.recv_buf)
    → get_elem? cs k ≡ some c
    → Polled k c (handle_serial_console cs) k
unfolding handle_serial_console
handle_serial_console-Polled cs k c v e = poll_from-Polled 0 k k c cs v (omega arith) e

-- What `forward` does to a connection with room.
waiting-forward :
    (ch : ℕ) (c : SerialConn)
    → InBounds c.send_buf
    → next c.send_buf.tail ≢ c.send_buf.head
    → waiting (forward ch c).send_buf ≡ waiting c.send_buf ++ (ch ∷ [])
unfolding forward advance store window
waiting-forward ch c b room =
    let r = c.send_buf in
    let n = ahead r.head r.tail in
    let below : n < buf_size - 1 = ground (arith, room, b.head_in, b.tail_in) in
    let more : ahead r.head (next r.tail) ≡ n + 1 = omega (arith, below, b.head_in, b.tail_in) in
    let last : (r.head + n) % buf_size ≡ r.tail = omega (arith, b.head_in, b.tail_in) in
    let at : (r.tail == r.tail) ≡ true = ground arith in
    ap (window (store ch r).buf r.head) more
    ∙ window-add n 1 (store ch r).buf r.head b.head_in
    ∙ ap (λ w. w ++ window (store ch r).buf ((r.head + n) % buf_size) 1)
        (window-store n r ch r.head b.head_in b.tail_in (omega arith))
    ∙ ap (λ i. window r.buf r.head n ++ ((store ch r).buf i ∷ [])) last
    ∙ rw at refl

-- The characters of a full ring, and those after another.
overrun_lem :
    (ch : ℕ) (c : SerialConn)
    → InBounds c.send_buf
    → next c.send_buf.tail ≡ c.send_buf.head
    → (length (waiting c.send_buf) ≡ buf_size - 1) × (waiting (forward ch c).send_buf ≡ [])
unfolding forward advance store
overrun_lem ch c b full =
    let many : ahead c.send_buf.head c.send_buf.tail ≡ buf_size - 1 =
      omega (arith, b.head_in, b.tail_in, full) in
    (
      length-window (ahead c.send_buf.head c.send_buf.tail) c.send_buf.buf c.send_buf.head ∙ many,
      ap (λ t. window (store ch c.send_buf).buf c.send_buf.head (ahead c.send_buf.head t)) full
          ∙ window_none (store ch c.send_buf).buf c.send_buf.head b.head_in,
    )

tx_lem :
    (port ch : ℕ) (cs : List SerialConn) (c : SerialConn)
    → get_elem? cs port ≡ some c
    → get_elem? (tx_virtcon_forward port ch cs) port ≡ some (forward ch c)
unfolding tx_virtcon_forward
tx_lem port ch cs c e = rw (tx_virtcon_forward, e) (get_elem?-set cs port (forward ch c) c e)

-- A character that is sent to a port joins the end of those that wait in its ring, if there is
-- room. Sent into a full ring, it makes the ring look empty: it and the 4087 characters before it
-- are lost.
pub tx_virtcon_forward-waiting :
    (port ch : ℕ) (cs : List SerialConn) (c : SerialConn)
    → get_elem? cs port ≡ some c
    → InBounds c.send_buf
    → (d : SerialConn) × (get_elem? (tx_virtcon_forward port ch cs) port ≡ some d)
      × (((next c.send_buf.tail ≢ c.send_buf.head)
            × (waiting d.send_buf ≡ waiting c.send_buf ++ (ch ∷ [])))
          ⊎ ((length (waiting c.send_buf) ≡ buf_size - 1) × (waiting d.send_buf ≡ [])))
tx_virtcon_forward-waiting port ch cs c e b = (
  forward ch c,
  tx_lem port ch cs c e,
  elim (Bool-cases (next c.send_buf.tail == c.send_buf.head)) [
    | inl f ↦ inr (overrun_lem ch c b (ground (arith, f)))
    | inr f ↦
        let room : next c.send_buf.tail ≢ c.send_buf.head = λ g. absurd (ground (arith, f, g)) in
        inl (room, waiting-forward ch c b room)
  ],
)
