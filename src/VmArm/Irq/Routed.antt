-- ===== src/VmArm/Irq/Routed.antt =====
-- The interrupts that are routed.
use camkes_vm.Common.{
  ℕ, ◌≡◌, refl, sym, ap, ◌∙◌, Bool, true, false, Bool-cases, inl, inr, Option, none, some, List, [],
  ◌∷◌, ◌++◌, subst,
}
use mathlib.Core.List.{append_assoc}
use camkes_vm.VmArm.Irq.{
  RouteCall, register_irq, server_register_irq, Routes, handler_of, token_of, route_irq, and_then,
  route_list, route_dtb, route_irqs,
}

module _ (routes : Routes) where
  -- the calls that route some interrupts after those of a log
  abbrev pub routed : List ℕ → List RouteCall → List RouteCall
  routed [] log = log
  routed (n ∷ ns) log =
      routed ns
        (server_register_irq n (handler_of routes n) (token_of routes n) ∷ register_irq n ∷ log)

  -- what it takes to route one interrupt
  pub record Succeeds (n : ℕ) (log : List RouteCall) : Type 0 where
    pub with_token : routes.has_token log ≡ true
    pub registered : routes.succeeds (register_irq n ∷ log) ≡ true
    pub served : routes.succeeds (routed (n ∷ []) log) ≡ true

  pub data AllSucceed : List RouteCall → List ℕ → Type 0 where
    none_left : {log : List RouteCall} → AllSucceed log []
    first_then :
        {n : ℕ} {ns : List ℕ} {log : List RouteCall}
        → Succeeds n log
        → AllSucceed (routed (n ∷ []) log) ns
        → AllSucceed log (n ∷ ns)

  -- the calls of an interrupt that could not be routed, and what failed
  pub data Begun (n : ℕ) (log : List RouteCall) : List RouteCall → Type 0 where
    no_token : routes.has_token log ≡ false → Begun n log log
    not_registered :
        routes.has_token log ≡ true
        → routes.succeeds (register_irq n ∷ log) ≡ false
        → Begun n log (register_irq n ∷ log)
    not_served :
        routes.has_token log ≡ true
        → routes.succeeds (register_irq n ∷ log) ≡ true
        → routes.succeeds (routed (n ∷ []) log) ≡ false
        → Begun n log (routed (n ∷ []) log)

  pub record Stopped (ns : List ℕ) (log log' : List RouteCall) : Type 0 where
    pub done : List ℕ
    pub failed : ℕ
    pub left : List ℕ
    pub splits : ns ≡ done ++ (failed ∷ left)
    pub succeeded : AllSucceed log done
    pub begun : Begun failed (routed done log) log'

  -- All are routed, or all up to one.
  abbrev pub Outcome : List ℕ → List RouteCall → Bool × List RouteCall → Type 0
  Outcome ns log (true, log') = (log' ≡ routed ns log) × AllSucceed log ns
  Outcome ns log (false, log') = Stopped ns log log'

  Begun-Stopped : (n : ℕ) (log log' : List RouteCall) → Begun n log log' → Stopped (n ∷ []) log log'
  Begun-Stopped n log log' b = record {
    done = [];
    failed = n;
    left = [];
    splits = refl;
    succeeded = none_left;
    begun = b;
  }

  route_irq-Outcome : (n : ℕ) (log : List RouteCall) → Outcome (n ∷ []) log (route_irq routes n log)
  unfolding route_irq
  route_irq-Outcome n log =
      let l1 : List RouteCall = register_irq n ∷ log in
      let l2 : List RouteCall =
        server_register_irq n (handler_of routes n) (token_of routes n) ∷ l1 in
      elim (Bool-cases (routes.has_token log)) [
        | inr e ↦ rw (route_irq, e) (Begun-Stopped n log log (no_token e))
        | inl e ↦ elim (Bool-cases (routes.succeeds l1)) [
          | inr f ↦ rw (route_irq, e, f) (Begun-Stopped n log l1 (not_registered e f))
          | inl f ↦ elim (Bool-cases (routes.succeeds l2)) [
            | inr g ↦ rw (route_irq, e, f, g) (Begun-Stopped n log l2 (not_served e f g))
            | inl g ↦
                rw (route_irq, e, f, g)
                  (
                    refl,
                    first_then (record { with_token = e; registered = f; served = g }) none_left,
                  )
          ]
        ]
      ]

  routed-append :
      (ms ns : List ℕ) (log : List RouteCall) → routed (ms ++ ns) log ≡ routed ns (routed ms log)
  routed-append [] ns log = refl
  routed-append (m ∷ ms) ns log =
      routed-append ms ns
        (server_register_irq m (handler_of routes m) (token_of routes m) ∷ register_irq m ∷ log)

  AllSucceed-append :
      {log : List RouteCall} {ms ns : List ℕ}
      → AllSucceed log ms
      → AllSucceed (routed ms log) ns
      → AllSucceed log (ms ++ ns)
  AllSucceed-append none_left k = k
  AllSucceed-append (first_then s h) k = first_then s (AllSucceed-append h k)

  Stopped-later :
      (ms ns : List ℕ) (log log' log'' : List RouteCall)
      → log' ≡ routed ms log
      → AllSucceed log ms
      → Stopped ns log' log''
      → Stopped (ms ++ ns) log log''
  Stopped-later ms ns log log' log'' h a k = record {
    done = ms ++ k.done;
    failed = k.failed;
    left = k.left;
    splits = ap (λ l. ms ++ l) k.splits ∙ sym (append_assoc ms k.done (k.failed ∷ k.left));
    succeeded = AllSucceed-append a (subst (λ l. AllSucceed l k.done) h k.succeeded);
    begun =
        subst (λ l. Begun k.failed l log'')
          (ap (routed k.done) h ∙ sym (routed-append ms k.done log)) k.begun;
  }

  Outcome-later :
      (ms ns : List ℕ) (log log' : List RouteCall) (r : Bool × List RouteCall)
      → log' ≡ routed ms log
      → AllSucceed log ms
      → Outcome ns log' r
      → Outcome (ms ++ ns) log r
  Outcome-later ms ns log log' (true, log'') h a k = (
    k.0 ∙ ap (routed ns) h ∙ sym (routed-append ms ns log),
    AllSucceed-append a (subst (λ l. AllSucceed l ns) h k.1),
  )
  Outcome-later ms ns log log' (false, log'') h a k = Stopped-later ms ns log log' log'' h a k

  Outcome-append :
      (ms ns : List ℕ) (log : List RouteCall) (r : Bool × List RouteCall)
      (next : List RouteCall → Bool × List RouteCall)
      → Outcome ms log r
      → ((log' : List RouteCall) → Outcome ns log' (next log'))
      → Outcome (ms ++ ns) log (and_then routes r next)
  Outcome-append ms ns log (false, log') next h k = record {
    done = h.done;
    failed = h.failed;
    left = h.left ++ ns;
    splits = ap (λ l. l ++ ns) h.splits ∙ append_assoc h.done (h.failed ∷ h.left) ns;
    succeeded = h.succeeded;
    begun = h.begun;
  }
  Outcome-append ms ns log (true, log') next h k =
      Outcome-later ms ns log log' (next log') h.0 h.1 (k log')

  route_list-Outcome :
      (ns : List ℕ) (log : List RouteCall) → Outcome ns log (route_list routes ns log)
  unfolding route_list
  route_list-Outcome [] log = (refl, none_left)
  route_list-Outcome (n ∷ ns) log =
      Outcome-append (n ∷ []) ns log (route_irq routes n log) (route_list routes ns)
        (route_irq-Outcome n log) (route_list-Outcome ns)

  -- the interrupts of the device tree
  abbrev in_dtb : Option (List ℕ) → List ℕ
  in_dtb none = []
  in_dtb (some ns) = ns

  route_dtb-Outcome :
      (o : Option (List ℕ)) (log : List RouteCall) → Outcome (in_dtb o) log (route_dtb routes o log)
  route_dtb-Outcome none log = (refl, none_left)
  route_dtb-Outcome (some ns) log = route_list-Outcome ns log

  -- Either all interrupts, those of the platform's table and then those of the device tree, are
  -- registered one after the other with the guest and with the interrupt server, with the custom
  -- handler where there is one, and every call succeeds, or the first ones are and the calls stop
  -- within those of the next, at the first that fails.
  pub route_irqs-Outcome :
      (log : List RouteCall)
      → Outcome (routes.linux_pt_irqs ++ in_dtb routes.dtb_irqs) log (route_irqs routes log)
  route_irqs-Outcome log =
      Outcome-append routes.linux_pt_irqs (in_dtb routes.dtb_irqs) log
        (route_list routes routes.linux_pt_irqs log) (route_dtb routes routes.dtb_irqs)
        (route_list-Outcome routes.linux_pt_irqs log) (route_dtb-Outcome routes.dtb_irqs)
