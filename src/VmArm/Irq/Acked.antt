-- ===== src/VmArm/Irq/Acked.antt =====
-- Each interrupt is acknowledged once.
use camkes_vm.Common.{
  ℕ, ◌≡◌, refl, Bool, true, false, Bool-cases, inl, inr, Option, none, some, List, [], ◌∷◌, ◌++◌,
  if◌then◌else◌,
}
use camkes_vm.VmArm.Irq.{
  IrqToken, Ack, Made, at_arrival, at_end, irq_handler, vcombiner_irq_handler, do_irq_server_ack,
}

-- An interrupt arrives with its acknowledgement, or the guest writes the end of an interrupt.
pub data Signal : Type 0 where
  arrived : Ack → Signal
  ended : Signal

-- the interrupts whose end is the very next signal
abbrev pub answered : List Signal → List Made
answered [] = []
answered (ended ∷ ss) = answered ss
answered (arrived a ∷ []) = []
answered (arrived a ∷ ended ∷ ss) = at_end a ∷ answered ss
answered (arrived a ∷ arrived b ∷ ss) = answered (arrived b ∷ ss)

-- each interrupt, and once more where its end is the very next signal
abbrev pub doubled : List Signal → List Made
doubled [] = []
doubled (ended ∷ ss) = doubled ss
doubled (arrived a ∷ []) = at_arrival a ∷ []
doubled (arrived a ∷ ended ∷ ss) = at_arrival a ∷ at_end a ∷ doubled ss
doubled (arrived a ∷ arrived b ∷ ss) = at_arrival a ∷ doubled (arrived b ∷ ss)

-- the signal that a token stands for
abbrev pub before : Option ℕ → Option ℕ → List Signal
before (some f) (some d) = arrived (record { fn = f; data_ptr = d }) ∷ []
before (some f) none = []
before none d = []

module _ (ok : List Made → Bool) where
  -- the acknowledgements made after those of a log, up to the first at an end that fails, and
  -- whether there is none that fails
  abbrev pub until_failure : List Made → List Made → Bool × List Made
  until_failure [] log = (true, log)
  until_failure (at_arrival a ∷ ms) log = until_failure ms (at_arrival a ∷ log)
  until_failure (at_end a ∷ ms) log =
      let rest = until_failure ms (at_end a ∷ log) in
      if ok (at_end a ∷ log) then rest else (false, at_end a ∷ log)

  -- The code stops at an assertion or goes on.
  abbrev go_on :
      Option IrqToken × List Made → (IrqToken → List Made → Bool × List Made) → Bool × List Made
  go_on (none, log) next = (false, log)
  go_on (some t, log) next = next t log

  -- the acknowledgements made while signals come in
  abbrev pub acks : List Signal → IrqToken → List Made → Bool × List Made
  acks [] t log = (true, log)
  acks (arrived a ∷ ss) t log =
      let (t', i) = irq_handler (some a.fn) (some a.data_ptr) t in acks ss t' log
  acks (ended ∷ ss) t log = go_on (do_irq_server_ack ok t log) (acks ss)

  -- Whatever interrupts arrive and whatever ends the guest writes, in any order, the
  -- acknowledgements made, in order, are those of the interrupts, the one that the token holds
  -- included, whose end comes before the next interrupt, once each, up to the first that fails,
  -- where the code stops at its assertion; there is no other.
  pub acks_lem :
      (ss : List Signal) (irq virq : ℕ) (f d : Option ℕ) (log : List Made)
      → acks ss (record { irq = irq; virq = virq; acknowledge_fn = f; ack_data = d }) log
        ≡ until_failure (answered (before f d ++ ss)) log
  acks_lem [] irq virq (some f) (some d) log = refl
  acks_lem [] irq virq (some f) none log = refl
  acks_lem [] irq virq none d log = refl
  acks_lem (arrived a ∷ ss) irq virq (some f) (some d) log =
      acks_lem ss irq virq (some a.fn) (some a.data_ptr) log
  acks_lem (arrived a ∷ ss) irq virq (some f) none log =
      acks_lem ss irq virq (some a.fn) (some a.data_ptr) log
  acks_lem (arrived a ∷ ss) irq virq none d log =
      acks_lem ss irq virq (some a.fn) (some a.data_ptr) log
  acks_lem (ended ∷ ss) irq virq (some f) (some d) log =
      let log' : List Made = at_end (record { fn = f; data_ptr = d }) ∷ log in
      elim (Bool-cases (ok log')) [
        | inl e ↦ rw e (acks_lem ss irq virq (some f) none log')
        | inr e ↦ rw e refl
      ]
  acks_lem (ended ∷ ss) irq virq (some f) none log = acks_lem ss irq virq (some f) none log
  acks_lem (ended ∷ ss) irq virq none d log = acks_lem ss irq virq none d log

  -- the acknowledgements when each interrupt is one of the combiner
  abbrev pub combiner_acks : List Signal → IrqToken → List Made → Bool × List Made
  combiner_acks [] t log = (true, log)
  combiner_acks (arrived a ∷ ss) t log =
      let (t', i, log') = vcombiner_irq_handler a t log in combiner_acks ss t' log'
  combiner_acks (ended ∷ ss) t log = go_on (do_irq_server_ack ok t log) (combiner_acks ss)

  -- From a token that holds no interrupt, each interrupt of the combiner is acknowledged when it
  -- arrives, and once more, with the same function and data, if its end comes before the next one.
  -- There is no other acknowledgement, and at the first end whose acknowledgement fails the code
  -- stops.
  pub combiner_acks-twice :
      (ss : List Signal) (irq virq : ℕ) (f : Option ℕ) (log : List Made)
      → combiner_acks ss
          (record { irq = irq; virq = virq; acknowledge_fn = f; ack_data = none })
          log
        ≡ until_failure (doubled ss) log
  combiner_acks-twice [] irq virq f log = refl
  combiner_acks-twice (ended ∷ ss) irq virq (some f) log =
      combiner_acks-twice ss irq virq (some f) log
  combiner_acks-twice (ended ∷ ss) irq virq none log = combiner_acks-twice ss irq virq none log
  combiner_acks-twice (arrived a ∷ []) irq virq f log = refl
  combiner_acks-twice (arrived a ∷ ended ∷ ss) irq virq f log =
      let log' : List Made = at_end a ∷ at_arrival a ∷ log in
      elim (Bool-cases (ok log')) [
        | inl e ↦ rw e (combiner_acks-twice ss irq virq (some a.fn) log')
        | inr e ↦ rw e refl
      ]
  combiner_acks-twice (arrived a ∷ arrived b ∷ ss) irq virq f log =
      combiner_acks-twice (arrived b ∷ ss) irq virq f (at_arrival a ∷ log)
