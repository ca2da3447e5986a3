-- ===== src/VmArm/OnDemand.antt =====
-- Memory installed when the guest first touches it: `alloc_vm_device_cap`, `alloc_vm_ram_cap`,
-- `on_demand_iterator` and `unhandled_mem_fault_callback` of components/VM_Arm/src/main.c, with
-- `CONFIG_VM_ONDEMAND_DEVICE_INSTALL`.
pub mod Held
use camkes_vm.Common.{
  ℕ, ◌-◌, ◌%◌, ◌^◌, ◌≡◌, Bool, true, false, Option, none, some, List, [], ◌∷◌, if◌then◌else◌, ◌==◌,
}
use camkes_vm.VmArm.Mapping.{
  Call, cspace_alloc, utspace_alloc_at, get_frame_cap, alloc_frame, cookie_of, Host,
}

-- `vm_frame_t`; `all_rights` tells `seL4_AllRights` from `seL4_NoRights`.
pub record VmFrame : Type 0 where
  pub cptr : ℕ
  pub all_rights : Bool
  pub vaddr : ℕ
  pub size_bits : ℕ

pub data MemoryFaultResult : Type 0 where
  fault_restart : MemoryFaultResult
  fault_error : MemoryFaultResult

abbrev pub page_bits : ℕ
page_bits = 12

abbrev pub no_frame : VmFrame
no_frame = record { cptr = 0; all_rights = false; vaddr = 0; size_bits = 0 }

abbrev pub frame_at : ℕ → ℕ → VmFrame
frame_at addr s = record { cptr = s; all_rights = true; vaddr = addr; size_bits = page_bits }

-- `PAGE_ALIGN` with the size of a page.
abbrev pub page_align : ℕ → ℕ
page_align addr = addr - addr % 2 ^ page_bits

-- `reserves addr` says whether vm_reserve_memory_at gives a reservation of the page; without one
-- vm_map_reservation fails and asks for no frame. `maps frame` says whether it maps the page that it
-- asks the iterator for, when it gets `frame`.
module _ (host : Host) (reserves : ℕ → Bool) (maps : VmFrame → Bool) where
  -- The part that follows the allocation of the slot `s`. The frame is `none` when -1 is returned.
  unfoldable pub device_frame : ℕ → ℕ → List Call → Option VmFrame × List Call
  device_frame addr s log =
      elim (cookie_of (host.untyped (utspace_alloc_at s page_bits addr ∷ log))) [
        | some c ↦ (some (frame_at addr s), utspace_alloc_at s page_bits addr ∷ log)
        | none ↦
            if host.has_frame
              (get_frame_cap s page_bits addr ∷ utspace_alloc_at s page_bits addr ∷ log)
            then (
              some (frame_at addr s),
              get_frame_cap s page_bits addr ∷ utspace_alloc_at s page_bits addr ∷ log,
            )
            else (none, get_frame_cap s page_bits addr ∷ utspace_alloc_at s page_bits addr ∷ log)
      ]

  unfoldable pub alloc_vm_device_cap : ℕ → List Call → Option VmFrame × List Call
  alloc_vm_device_cap addr log = elim (host.slot (cspace_alloc ∷ log)) [
    | none ↦ (none, cspace_alloc ∷ log)
    | some s ↦ device_frame addr s (cspace_alloc ∷ log)
  ]

  unfoldable pub alloc_vm_ram_cap : ℕ → List Call → Option VmFrame × List Call
  alloc_vm_ram_cap addr log = elim (host.ram_frame (alloc_frame page_bits ∷ log)) [
    | none ↦ (none, alloc_frame page_bits ∷ log)
    | some s ↦ (some (frame_at addr s), alloc_frame page_bits ∷ log)
  ]

  abbrev pub or_no_frame : Option VmFrame × List Call → VmFrame × List Call
  or_no_frame (none, log) = (no_frame, log)
  or_no_frame (some f, log) = (f, log)

  abbrev pub or_ram : ℕ → Option VmFrame × List Call → VmFrame × List Call
  or_ram addr (some f, log) = (f, log)
  or_ram addr (none, log) = or_no_frame (alloc_vm_ram_cap addr log)

  unfoldable pub on_demand_iterator : ℕ → List Call → VmFrame × List Call
  on_demand_iterator addr log = or_ram (page_align addr) (alloc_vm_device_cap (page_align addr) log)

  abbrev pub restarted : VmFrame × List Call → MemoryFaultResult × List Call
  restarted (f, log) = (if maps f then fault_restart else fault_error, log)

  -- The library asks the iterator for the one page that is reserved.
  unfoldable pub unhandled_mem_fault_callback : ℕ → List Call → MemoryFaultResult × List Call
  unhandled_mem_fault_callback paddr log =
      if page_align paddr == 0
      then (fault_error, log)
      else if reserves (page_align paddr)
      then restarted (on_demand_iterator (page_align paddr) log)
      else (fault_error, log)
