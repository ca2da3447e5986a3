-- ===== src/Vsock/Sent.antt =====
-- Where the bytes of a guest go.
use camkes_vm.Common.{
  length-snoc, set-append, ℕ, zero, suc, ◌+◌, ◌≡◌, refl, ap, ◌∙◌, true, false, Bool-cases, inl, inr,
  List, [], ◌∷◌, ◌++◌, length, set, replicate, arith, if◌then◌else◌, ◌==◌,
}
use mathlib.Core.List.{append_assoc}
use camkes_vm.Vsock.{
  Socket, Conn, no_conn, conn_of, Queues, Forwarded, sent, null_queue, invalid_cid, is_ready,
  make_ports, make_virtio_vsock_virtqueues, tx_forward,
}

module _ (queues : Queues) where
  -- the ports up to the first that fails
  abbrev pub ready_ports : ℕ → List Socket → List Socket
  ready_ports i [] = []
  ready_ports i (l ∷ ls) = if is_ready queues i then l ∷ ready_ports (i + 1) ls else []

  -- how many ports there are from the first that fails
  abbrev pub failed_ports : ℕ → List Socket → ℕ
  failed_ports i [] = 0
  failed_ports i (l ∷ ls) = if is_ready queues i then failed_ports (i + 1) ls else suc (length ls)

  abbrev pub conns : List Socket → List Conn
  conns [] = []
  conns (l ∷ ls) = conn_of l ∷ conns ls

  -- the queue of the first port with an id, or what is done when there is none
  abbrev pub sent_to : ℕ → List ℕ → List Socket → Forwarded → Forwarded
  sent_to cid buffer [] other = other
  sent_to cid buffer (l ∷ ls) other =
      if l.cid == cid then sent l.send_id buffer else sent_to cid buffer ls other

  -- an id that no port has
  abbrev pub unknown : ℕ → ℕ → Forwarded
  unknown cid zero = invalid_cid
  unknown cid (suc n) = if cid == 0 then null_queue else invalid_cid

  make_ports-ready :
      (ls : List Socket) (i : ℕ) (done : List Conn)
      → i ≡ length done
      → make_ports queues i ls (done ++ replicate (length ls) no_conn)
        ≡ done ++ (conns (ready_ports i ls) ++ replicate (failed_ports i ls) no_conn)
  unfolding make_ports
  make_ports-ready [] i done e = refl
  make_ports-ready (l ∷ ls) i done e = elim (Bool-cases (is_ready queues i)) [
    | inr b ↦ rw b refl
    | inl b ↦
        let rest : List Conn = replicate (length ls) no_conn in
        let placed : set (done ++ (no_conn ∷ rest)) i (conn_of l)
            ≡ (done ++ (conn_of l ∷ [])) ++ rest =
          ap (λ k. set (done ++ (no_conn ∷ rest)) k (conn_of l)) e
          ∙ set-append done rest no_conn (conn_of l) in
        rw b (
          ap (make_ports queues (i + 1) ls) placed
          ∙ make_ports-ready ls (i + 1) (done ++ (conn_of l ∷ []))
              (omega (arith, e, length-snoc done (conn_of l)))
          ∙ append_assoc done (conn_of l ∷ [])
              (conns (ready_ports (i + 1) ls) ++ replicate (failed_ports (i + 1) ls) no_conn))
  ]

  unknown-other : (cid n : ℕ) → (cid == 0) ≡ false → unknown cid n ≡ invalid_cid
  unknown-other cid zero b = refl
  unknown-other cid (suc n) b = rw b refl

  tx_forward-none :
      (cid : ℕ) (buffer : List ℕ) (n : ℕ)
      → tx_forward cid buffer (replicate n no_conn) ≡ unknown cid n
  unfolding tx_forward
  tx_forward-none cid buffer zero = refl
  tx_forward-none cid buffer (suc n) = elim (Bool-cases (cid == 0)) [
    | inl b ↦ let c : (0 == cid) ≡ true = ground (arith, b) in rw (b, c) refl
    | inr b ↦
        let c : (0 == cid) ≡ false = ground (arith, b) in
        rw (b, c) (tx_forward-none cid buffer n ∙ unknown-other cid n b)
  ]

  tx_forward-conns :
      (ls : List Socket) (cid : ℕ) (buffer : List ℕ) (rest : List Conn)
      → tx_forward cid buffer (conns ls ++ rest)
        ≡ sent_to cid buffer ls (tx_forward cid buffer rest)
  unfolding tx_forward
  tx_forward-conns [] cid buffer rest = refl
  tx_forward-conns (l ∷ ls) cid buffer rest =
      ap (λ r. if l.cid == cid then sent l.send_id buffer else r)
        (tx_forward-conns ls cid buffer rest)

  -- After the ports are made, bytes for an id go to the queue of the first port with that id among
  -- those before the first that could not be made. Another id is logged as invalid, but when a port
  -- could not be made, the id 0 leads to a queue that is NULL.
  pub tx_forward-sent_to :
      (layout : List Socket) (cid : ℕ) (buffer : List ℕ)
      → tx_forward cid buffer (make_virtio_vsock_virtqueues queues layout)
        ≡ sent_to cid buffer (ready_ports 0 layout) (unknown cid (failed_ports 0 layout))
  unfolding make_virtio_vsock_virtqueues
  tx_forward-sent_to layout cid buffer =
      ap (tx_forward cid buffer) (make_ports-ready layout 0 [] refl)
      ∙ tx_forward-conns (ready_ports 0 layout) cid buffer
          (replicate (failed_ports 0 layout) no_conn)
      ∙ ap (sent_to cid buffer (ready_ports 0 layout))
          (tx_forward-none cid buffer (failed_ports 0 layout))
