-- ===== src/VmArm/Resources.antt =====
-- Where the monitor's allocators take resources from, and the number of processors of the guest:
-- `add_uts`, `vm_simple_get_irq`, `camkes_vm_utspace_alloc_at`,
-- `camkes_vm_utspace_alloc_maybe_device_fn` and `run` of components/VM_Arm/src/main.c.
use camkes_vm.Common.{
  ℕ, ◌-◌, ◌^◌, ◌≤◌, ◌<◌, ◌≡◌, refl, Bool, true, ◌&&◌, Option, none, some, List, [], ◌∷◌, ltb, leb,
  if◌then◌else◌, ◌==◌, arith, ℤ, pos, negsuc,
}
use camkes_vm.VmArm.Mapping.{DataportFrame}

-- The pools of untyped memory.
pub data UtType : Type 0 where
  ut_kernel : UtType
  ut_dev_mem : UtType
  ut_dev : UtType

-- The memory of the guest.
pub record Ram : Type 0 where
  pub phys_base : ℕ
  pub size : ℕ

abbrev pub is_guest_ram : Ram → ℕ → Bool
is_guest_ram ram paddr = leb ram.phys_base paddr && ltb (paddr - ram.phys_base) ram.size

-- The pool that `add_uts` gives an untyped object to.
unfoldable pub ut_type : Ram → ℕ → Bool → UtType
ut_type ram paddr is_device =
    if is_device then (if is_guest_ram ram paddr then ut_dev_mem else ut_dev) else ut_kernel

-- Device memory goes to the pool of usable memory exactly when its address lies in the memory of
-- the guest.
ut_type-guest_ram :
    (ram : Ram) (paddr : ℕ)
    → ram.phys_base ≤ paddr
    → paddr - ram.phys_base < ram.size
    → ut_type ram paddr true ≡ ut_dev_mem
unfolding ut_type
ut_type-guest_ram ram paddr h k =
    let b : is_guest_ram ram paddr ≡ true = ground (arith, h, k) in rw b refl

-- The error of a lookup: that of the simple interface, `original`, if there is none, else that of
-- the device tree's function if it is linked, else that of a failed lookup, `failed`. 0 is no
-- error.
unfoldable pub vm_simple_get_irq : ℕ → Option ℕ → ℕ → ℕ
vm_simple_get_irq original dtb failed =
    if original == 0 then 0 else elim dtb [ none ↦ failed | some e ↦ e ]

-- Where an object at an address comes from: a copy of the capability of a dataport, or the
-- allocator.
pub data Source : Type 0 where
  dataport : DataportFrame → Source
  allocator : Source

unfoldable pub frame_source : ℕ → ℕ → List DataportFrame → Source
frame_source size_bits paddr [] = allocator
frame_source size_bits paddr (f ∷ fs) =
    let rest = frame_source size_bits paddr fs in
    if f.paddr == paddr && f.size == 2 ^ size_bits then dataport f else rest

-- Only a small page is looked for among the dataports.
unfoldable pub camkes_vm_utspace_alloc_at : Bool → ℕ → ℕ → List DataportFrame → Source
camkes_vm_utspace_alloc_at is_small_page size_bits paddr frames =
    if is_small_page then frame_source size_bits paddr frames else allocator

-- Where a thread control block comes from: the static pool, which gives the capability `cap`, 0 for
-- none.
pub data Pool : Type 0 where
  static_pool : ℕ → Pool
  untypeds : Pool

unfoldable pub camkes_vm_utspace_alloc_maybe_device_fn : Bool → ℕ → Pool
camkes_vm_utspace_alloc_maybe_device_fn is_tcb cap =
    if is_tcb then (if cap == 0 then untypeds else static_pool cap) else untypeds

-- The number of processors after `run`: `attribute` is the optional `num_vcpus`, `max` is
-- CONFIG_MAX_NUM_NODES, and `default` what NUM_VCPUS holds before.
unfoldable pub num_vcpus_from : ℕ → ℕ → Option ℤ → ℕ
num_vcpus_from max default none = default
num_vcpus_from max default (some (negsuc n)) = default
num_vcpus_from max default (some (pos n)) = if ltb max n then max else if n == 0 then default else n

-- Whatever the attribute is, the guest has at least one processor and at most as many as there are
-- nodes.
num_vcpus_from-Bounded :
    (max default : ℕ) (attribute : Option ℤ)
    → 1 ≤ default
    → default ≤ max
    → (1 ≤ num_vcpus_from max default attribute) × (num_vcpus_from max default attribute ≤ max)
unfolding num_vcpus_from
num_vcpus_from-Bounded max default none h k = (h, k)
num_vcpus_from-Bounded max default (some (negsuc n)) h k = (h, k)
num_vcpus_from-Bounded max default (some (pos n)) h k = ground (arith, h, k)
