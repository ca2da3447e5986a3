-- ===== src/Vswitch/Delivery.antt =====
-- The calls that `emul_raw_tx` makes, in order.
use camkes_vm.Common.{
  ℕ, zero, suc, ◌+◌, ◌≡◌, ◌≢◌, refl, sym, ap, ◌∙◌, Bool, true, false, Bool-cases, none, some,
  Option-cases, inl, inr, List, [], ◌∷◌, ◌++◌, arith,
}
use mathlib.Core.List.{append_assoc, append-nil}
use camkes_vm.Vswitch.{QueueCall, scatter_send, notify, Switch, send_to, send_frame, emul_raw_tx}

-- The log after some calls, given in order.
abbrev pub made : List QueueCall → List QueueCall → List QueueCall
made [] log = log
made (c ∷ cs) log = made cs (c ∷ log)

made-++ : (cs ds log : List QueueCall) → made (cs ++ ds) log ≡ made ds (made cs log)
made-++ [] ds log = refl
made-++ (c ∷ cs) ds log = made-++ cs ds (c ∷ log)

-- Of the calls `cs`, a first part was made; all of them, if the code goes on.
record Begun (cs log : List QueueCall) (result : Bool × List QueueCall) : Type 0 where
  done : List QueueCall
  rest : List QueueCall
  split : cs ≡ done ++ rest
  logged : result.1 ≡ made done log
  complete : result.0 ≡ true → rest ≡ []

none_Begun : (log : List QueueCall) (go_on : Bool) → Begun [] log (go_on, log)
none_Begun log go_on = record {
  done = [];
  rest = [];
  split = refl;
  logged = refl;
  complete = λ e. refl;
}

-- Some calls, and then the start of others.
Begun-after :
    (cs ds log : List QueueCall) (result : Bool × List QueueCall)
    → Begun ds (made cs log) result
    → Begun (cs ++ ds) log result
Begun-after cs ds log result b = record {
  done = cs ++ b.done;
  rest = b.rest;
  split = ap (λ x. cs ++ x) b.split ∙ sym (append_assoc cs b.done b.rest);
  logged = b.logged ∙ sym (made-++ cs b.done log);
  complete = b.complete;
}

-- When the code goes on, all of the calls were made.
whole :
    (cs log : List QueueCall) (result : Bool × List QueueCall) (b : Begun cs log result)
    → result.0 ≡ true
    → cs ≡ b.done
whole cs log result b e = b.split ∙ ap (λ x. b.done ++ x) (b.complete e) ∙ append-nil b.done

module _ (sw : Switch) where
  -- A frame goes to the node and the node is notified, for each of `n` indices from `j` that has
  -- one.
  unfoldable pub range_calls : ℕ → ℕ → ℕ → ℕ → List QueueCall
  range_calls frame len j zero = []
  range_calls frame len j (suc n) = elim (sw.has_node j) [
    | false ↦ range_calls frame len (j + 1) n
    | true ↦ scatter_send j frame len ∷ notify j ∷ range_calls frame len (j + 1) n
  ]

  -- The calls for a frame: those for all nodes, or for the one that it is sent to.
  unfoldable pub frame_calls : ℕ → ℕ → List QueueCall
  frame_calls frame len = elim (sw.to_all frame) [
    | true ↦ range_calls frame len 0 sw.n_connected
    | false ↦ elim (sw.index_of frame) [ none ↦ [] | some i ↦ range_calls frame len i 1 ]
  ]

  unfoldable pub all_calls : List (ℕ × ℕ) → List QueueCall
  all_calls [] = []
  all_calls (f ∷ fs) = frame_calls f.0 f.1 ++ all_calls fs

  send_to-Begun :
      (frame len j n : ℕ) (log : List QueueCall)
      → Begun (range_calls frame len j n) log (send_to sw frame len j n log)
  unfolding send_to range_calls
  send_to-Begun frame len j zero log = none_Begun log true
  send_to-Begun frame len j (suc n) log = elim (Bool-cases (sw.has_node j)) [
    | inl h ↦ elim (Bool-cases (sw.fails (scatter_send j frame len ∷ log))) [
      | inl f ↦
          rw (range_calls, send_to, h, f)
            (record {
              done = scatter_send j frame len ∷ [];
              rest = notify j ∷ range_calls frame len (j + 1) n;
              split = refl;
              logged = refl;
              complete = λ e. absurd (ground (arith, e));
            })
      | inr f ↦
          rw (range_calls, send_to, h, f)
            (Begun-after (scatter_send j frame len ∷ notify j ∷ [])
              (range_calls frame len (j + 1) n) log
              (send_to sw frame len (j + 1) n (notify j ∷ scatter_send j frame len ∷ log))
              (send_to-Begun frame len (j + 1) n (notify j ∷ scatter_send j frame len ∷ log)))
    ]
    | inr h ↦ rw (range_calls, send_to, h) (send_to-Begun frame len (j + 1) n log)
  ]

  send_frame-Begun :
      (frame len : ℕ) (log : List QueueCall)
      → Begun (frame_calls frame len) log (send_frame sw frame len log)
  unfolding send_frame frame_calls
  send_frame-Begun frame len log = elim (Bool-cases (sw.to_all frame)) [
    | inl h ↦ rw (frame_calls, send_frame, h) (send_to-Begun frame len 0 sw.n_connected log)
    | inr h ↦ elim (Option-cases (sw.index_of frame)) [
      | inl e ↦ rw (frame_calls, send_frame, h, e) (none_Begun log false)
      | inr (i, e) ↦ rw (frame_calls, send_frame, h, e) (send_to-Begun frame len i 1 log)
    ]
  ]

  -- Whatever fails, the calls that are made are a first part of those that the frames ask for, in
  -- the same order: each frame is sent to every node, or to the one of its destination if there is
  -- one, and each send is followed by a notification of the same node.
  pub emul_raw_tx-prefix :
      (fs : List (ℕ × ℕ)) (log : List QueueCall)
      → (done : List QueueCall) × (rest : List QueueCall) × (all_calls fs ≡ done ++ rest)
        × (emul_raw_tx sw fs log ≡ made done log)
  unfolding emul_raw_tx all_calls
  emul_raw_tx-prefix [] log = ([], [], refl, refl)
  emul_raw_tx-prefix (f ∷ fs) log =
      let r = send_frame sw f.0 f.1 log in
      let b = send_frame-Begun f.0 f.1 log in
      elim (Bool-cases r.0) [
        | inl e ↦
            let (done, rest, split, logged) = emul_raw_tx-prefix fs r.1 in
            (
              b.done ++ done,
              rest,
              ap (λ cs. cs ++ all_calls fs) (whole (frame_calls f.0 f.1) log r b e)
                  ∙ ap (λ cs. b.done ++ cs) split
                  ∙ sym (append_assoc b.done done rest),
              rw (emul_raw_tx, e)
                  (logged ∙ ap (λ l. made done l) b.logged ∙ sym (made-++ b.done done log)),
            )
        | inr e ↦ (
          b.done,
          b.rest ++ all_calls fs,
          ap (λ cs. cs ++ all_calls fs) b.split ∙ append_assoc b.done b.rest (all_calls fs),
          rw (emul_raw_tx, e) b.logged,
        )
      ]

  send_to_ends :
      ((log : List QueueCall) → sw.fails log ≡ false)
      → (frame len j n : ℕ) (log : List QueueCall) → (send_to sw frame len j n log).0 ≡ true
  unfolding send_to
  send_to_ends ok frame len j zero log = refl
  send_to_ends ok frame len j (suc n) log = elim (Bool-cases (sw.has_node j)) [
    | inl h ↦
        rw (send_to, h, ok (scatter_send j frame len ∷ log))
          (send_to_ends ok frame len (j + 1) n (notify j ∷ scatter_send j frame len ∷ log))
    | inr h ↦ rw (send_to, h) (send_to_ends ok frame len (j + 1) n log)
  ]

  send_frame_ends :
      ((log : List QueueCall) → sw.fails log ≡ false)
      → (frame len : ℕ) (log : List QueueCall) → sw.index_of frame ≢ none
      → (send_frame sw frame len log).0 ≡ true
  unfolding send_frame
  send_frame_ends ok frame len log h = elim (Bool-cases (sw.to_all frame)) [
    | inl e ↦ rw (send_frame, e) (send_to_ends ok frame len 0 sw.n_connected log)
    | inr e ↦ elim (Option-cases (sw.index_of frame)) [
      | inl f ↦ absurd (h f)
      | inr (i, f) ↦ rw (send_frame, e, f) (send_to_ends ok frame len i 1 log)
    ]
  ]

  -- When no send fails and every address has a node, all of the calls are made that the frames ask
  -- for: each frame reaches every node, or the one of its destination.
  emul_raw_tx-all_calls :
      (fs : List (ℕ × ℕ)) (log : List QueueCall)
      → ((l : List QueueCall) → sw.fails l ≡ false)
      → ((frame : ℕ) → sw.index_of frame ≢ none)
      → emul_raw_tx sw fs log ≡ made (all_calls fs) log
  unfolding emul_raw_tx all_calls
  emul_raw_tx-all_calls [] log ok h = refl
  emul_raw_tx-all_calls (f ∷ fs) log ok h =
      let r = send_frame sw f.0 f.1 log in
      let b = send_frame-Begun f.0 f.1 log in
      let e = send_frame_ends ok f.0 f.1 log (h f.0) in
      rw (emul_raw_tx, e)
        (emul_raw_tx-all_calls fs r.1 ok h
          ∙ ap (λ l. made (all_calls fs) l)
              (b.logged ∙ ap (λ cs. made cs log) (sym (whole (frame_calls f.0 f.1) log r b e)))
          ∙ sym (made-++ (frame_calls f.0 f.1) (all_calls fs) log))
