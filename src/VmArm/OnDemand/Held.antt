-- ===== src/VmArm/OnDemand/Held.antt =====
-- The slots that memory installed on demand takes.
use camkes_vm.Common.{
  ℕ, ◌≡◌, ◌≢◌, sym, subst, Bool, false, if◌then◌else◌, Bool-cases, Option, none, some, Option-cases,
  inl, inr, List, [], ◌∷◌, arith, ◌==◌,
}
use camkes_vm.VmArm.Mapping.{
  Call, cspace_alloc, utspace_alloc_at, get_frame_cap, alloc_frame, cookie_of, Host, Frame,
}
use camkes_vm.VmArm.Mapping.Balance.{or_none, gives-cookie_of, Holds, Holds-trans}
use camkes_vm.VmArm.OnDemand.{
  VmFrame, page_bits, page_align, device_frame, alloc_vm_device_cap, alloc_vm_ram_cap, or_ram,
  on_demand_iterator, unhandled_mem_fault_callback,
}

-- the calls after which a result is there
abbrev pub calls : {A : Type 0} → A × List Call → List Call
calls (a, log) = log

module _ (host : Host) (reserves : ℕ → Bool) (maps : VmFrame → Bool) where
  -- the slot that an attempt with device memory takes, with its cookie
  abbrev taken_slot : ℕ → List Call → Option ℕ → List Frame
  taken_slot addr log none = []
  taken_slot addr log (some s) =
      record {
        slot = s;
        cookie = or_none (cookie_of (host.untyped (utspace_alloc_at s page_bits addr ∷ log)));
      }
      ∷ []

  abbrev pub taken : ℕ → List Call → List Frame
  taken addr log = taken_slot addr (cspace_alloc ∷ log) (host.slot (cspace_alloc ∷ log))

  alloc_vm_device_cap-Holds :
      (addr : ℕ) (log : List Call)
      → Holds host [] (taken addr log) log (calls (alloc_vm_device_cap host reserves maps addr log))
  unfolding alloc_vm_device_cap device_frame
  alloc_vm_device_cap-Holds addr log =
      let l1 : List Call = cspace_alloc ∷ log in
      elim (Option-cases (host.slot l1)) [
        | inl e ↦
            rw (alloc_vm_device_cap, e)
              (record { slots_held = λ x. ground (arith, e); cookies_held = λ x. omega arith })
        | inr (s, e) ↦
            let l2 : List Call = utspace_alloc_at s page_bits addr ∷ l1 in
            let l3 : List Call = get_frame_cap s page_bits addr ∷ l2 in
            elim (Option-cases (cookie_of (host.untyped l2))) [
              | inr (c, f) ↦
                  rw (alloc_vm_device_cap, e, device_frame, f)
                    (record {
                      slots_held = λ x. ground (arith, e);
                      cookies_held =
                          λ x. ground (arith, e, f, gives-cookie_of x (host.untyped l2) (some c) f);
                    })
              | inl f ↦ elim (Bool-cases (host.has_frame l3)) [
                | inl b ↦
                    rw (alloc_vm_device_cap, e, device_frame, f, b)
                      (record {
                        slots_held = λ x. ground (arith, e);
                        cookies_held =
                            λ x. ground (arith, e, f, gives-cookie_of x (host.untyped l2) none f);
                      })
                | inr b ↦
                    rw (alloc_vm_device_cap, e, device_frame, f, b)
                      (record {
                        slots_held = λ x. ground (arith, e);
                        cookies_held =
                            λ x. ground (arith, e, f, gives-cookie_of x (host.untyped l2) none f);
                      })
              ]
            ]
      ]

  or_ram-Holds :
      (fs : List Frame) (addr : ℕ) (log : List Call) (r : Option VmFrame × List Call)
      → Holds host [] fs log (calls r)
      → Holds host [] fs log (calls (or_ram host reserves maps addr r))
  unfolding alloc_vm_ram_cap
  or_ram-Holds fs addr log (some f, log') h = h
  or_ram-Holds fs addr log (none, log') h =
      let l1 : List Call = alloc_frame page_bits ∷ log' in
      let k : Holds host fs fs log' l1 = record {
        slots_held = λ x. omega arith;
        cookies_held = λ x. omega arith;
      } in
      let after : Holds host [] fs log l1 = Holds-trans host [] fs fs log log' l1 h k in
      elim (Option-cases (host.ram_frame l1)) [
        | inl e ↦ rw (alloc_vm_ram_cap, e) after
        | inr (s, e) ↦ rw (alloc_vm_ram_cap, e) after
      ]

  page_align-page_align : (n : ℕ) → page_align (page_align n) ≡ page_align n
  page_align-page_align n = omega arith

  on_demand_iterator-Holds :
      (addr : ℕ) (log : List Call)
      → page_align addr ≡ addr
      → Holds host [] (taken addr log) log (calls (on_demand_iterator host reserves maps addr log))
  unfolding on_demand_iterator
  on_demand_iterator-Holds addr log h =
      subst
        (λ a.
          Holds host [] (taken addr log) log
            (calls (or_ram host reserves maps a (alloc_vm_device_cap host reserves maps a log))))
        (sym h)
        (or_ram-Holds (taken addr log) addr log (alloc_vm_device_cap host reserves maps addr log)
          (alloc_vm_device_cap-Holds addr log))

  -- what a fault on a page holds
  abbrev pub held : ℕ → List Call → List Frame
  held addr log = if reserves addr then taken addr log else []

  -- A fault outside the first page, whatever memory is installed for it, or none, holds afterwards
  -- the slot that the attempt with device memory took, if it got one, and the cookie that it left:
  -- also when that attempt failed and the page is one of other memory. It holds nothing if the page
  -- cannot be reserved.
  pub unhandled_mem_fault_callback-Holds :
      (paddr : ℕ) (log : List Call)
      → page_align paddr ≢ 0
      → Holds host []
          (held (page_align paddr) log)
          log
          (calls (unhandled_mem_fault_callback host reserves maps paddr log))
  unfolding unhandled_mem_fault_callback
  unhandled_mem_fault_callback-Holds paddr log h =
      let other : (page_align paddr == 0) ≡ false = ground (arith, h) in
      elim (Bool-cases (reserves (page_align paddr))) [
        | inl e ↦
            rw (unhandled_mem_fault_callback, other, e)
              (on_demand_iterator-Holds (page_align paddr) log (page_align-page_align paddr))
        | inr e ↦
            rw (unhandled_mem_fault_callback, other, e)
              (record { slots_held = λ x. omega arith; cookies_held = λ x. omega arith })
      ]
