-- ===== src/VmArm/Irq.antt =====
-- The interrupts of devices that the guest owns: `irq_handler`, `do_irq_server_ack`, `route_irq`
-- and `route_irqs` of components/VM_Arm/src/main.c, and the handler of the interrupt combiner of
-- components/VM_Arm/src/modules/plat/exynos5410/init.c.
pub mod Acked
pub mod Routed
use camkes_vm.Common.{
  ℕ, zero, suc, ◌+◌, ◌≡◌, Bool, true, false, ◌&&◌, Option, none, some, List, [], ◌∷◌, leb,
  if◌then◌else◌,
}

-- The fields of `irq_token` without the virtual machine, of which there is one; `none` is NULL.
pub record IrqToken : Type 0 where
  pub irq : ℕ
  pub virq : ℕ
  pub acknowledge_fn : Option ℕ
  pub ack_data : Option ℕ

-- An acknowledgement: a function and its argument.
pub record Ack : Type 0 where
  pub fn : ℕ
  pub data_ptr : ℕ

-- The interrupt handed to the guest, by the interrupt controller or by the combiner.
pub data Injected : Type 0 where
  inject_irq : ℕ → Injected
  combiner_irq : ℕ → Injected

-- The interrupt is not acknowledged yet; that the guest drops it is only logged.
abbrev pub irq_handler : Option ℕ → Option ℕ → IrqToken → IrqToken × Injected
irq_handler f d t =
    (record { irq = t.irq; virq = t.virq; acknowledge_fn = f; ack_data = d }, inject_irq t.virq)

-- An acknowledgement that is made: when the interrupt arrives, or when the guest writes its end.
pub data Made : Type 0 where
  at_arrival : Ack → Made
  at_end : Ack → Made

-- The token, the interrupt and the acknowledgements so far, the latest first. The result of this
-- one is not looked at.
abbrev pub vcombiner_irq_handler : Ack → IrqToken → List Made → IrqToken × Injected × List Made
vcombiner_irq_handler a t log = (
  record { irq = t.irq; virq = t.virq; acknowledge_fn = some a.fn; ack_data = some a.data_ptr },
  combiner_irq t.irq,
  at_arrival a ∷ log,
)

-- The acknowledgement that `do_irq_server_ack` makes.
abbrev pub server_ack : Option ℕ → Option ℕ → Option Ack
server_ack (some f) (some d) = some (record { fn = f; data_ptr = d })
server_ack (some f) none = none
server_ack none d = none

-- The token after it, and the acknowledgements so far. `ok` says whether the one at the head of a
-- log succeeds; without a token the code has stopped at its assertion.
module _ (ok : List Made → Bool) where
  abbrev pub after_ack : Option Ack → IrqToken → List Made → Option IrqToken × List Made
  after_ack none t log = (some t, log)
  after_ack (some a) t log = (
    if ok (at_end a ∷ log)
        then some (record {
          irq = t.irq;
          virq = t.virq;
          acknowledge_fn = t.acknowledge_fn;
          ack_data = none;
        })
        else none,
    at_end a ∷ log,
  )

  abbrev pub do_irq_server_ack : IrqToken → List Made → Option IrqToken × List Made
  do_irq_server_ack t log = after_ack (server_ack t.acknowledge_fn t.ack_data) t log

-- `get_custom_irq_handler` of the Exynos 5410.
abbrev pub is_combined : ℕ → Bool
is_combined n = leb 32 n && leb n 63

-- A handler of interrupts.
pub data IrqCallback : Type 0 where
  default_handler : IrqCallback
  custom : ℕ → IrqCallback

pub data RouteCall : Type 0 where
  register_irq : ℕ → RouteCall
  server_register_irq : ℕ → IrqCallback → IrqToken → RouteCall

-- What other code says: the weak function `get_custom_irq_handler`, if it is linked, the tables of
-- interrupts, whether there is memory for a token, and whether the call at the head of a log
-- succeeds.
pub record Routes : Type 0 where
  pub get_custom_irq_handler : Option (ℕ → Option ℕ)
  pub linux_pt_irqs : List ℕ
  pub dtb_irqs : Option (List ℕ)
  pub has_token : List RouteCall → Bool
  pub succeeds : List RouteCall → Bool

module _ (routes : Routes) where
  abbrev pub or_default : Option ℕ → IrqCallback
  or_default none = default_handler
  or_default (some f) = custom f

  abbrev pub handler_from : Option (ℕ → Option ℕ) → ℕ → IrqCallback
  handler_from none n = default_handler
  handler_from (some get) n = or_default (get n)

  abbrev pub handler_of : ℕ → IrqCallback
  handler_of n = handler_from routes.get_custom_irq_handler n

  abbrev pub token_of : ℕ → IrqToken
  token_of n = record { irq = n; virq = n; acknowledge_fn = none; ack_data = none }

  -- Whether the interrupt is routed, and the calls, the latest first.
  unfoldable pub route_irq : ℕ → List RouteCall → Bool × List RouteCall
  route_irq n log =
      let l1 : List RouteCall = register_irq n ∷ log in
      let l2 : List RouteCall = server_register_irq n (handler_of n) (token_of n) ∷ l1 in
      if routes.has_token log
      then (if routes.succeeds l1 then (routes.succeeds l2, l2) else (false, l1))
      else (false, log)

  -- One after the other, until one fails.
  abbrev pub and_then :
      Bool × List RouteCall → (List RouteCall → Bool × List RouteCall) → Bool × List RouteCall
  and_then (true, log) next = next log
  and_then (false, log) next = (false, log)

  unfoldable pub route_list : List ℕ → List RouteCall → Bool × List RouteCall
  route_list [] log = (true, log)
  route_list (n ∷ ns) log = and_then (route_irq n log) (route_list ns)

  abbrev pub route_dtb : Option (List ℕ) → List RouteCall → Bool × List RouteCall
  route_dtb none log = (true, log)
  route_dtb (some ns) log = route_list ns log

  abbrev pub route_irqs : List RouteCall → Bool × List RouteCall
  route_irqs log = and_then (route_list routes.linux_pt_irqs log) (route_dtb routes.dtb_irqs)
