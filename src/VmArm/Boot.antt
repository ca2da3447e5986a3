-- ===== src/VmArm/Boot.antt =====
-- What the guest is started with: `load_vm_images` and `vm_dtb_finalize` of
-- components/VM_Arm/src/main.c, and the nodes of the device tree of
-- components/VM_Arm/src/fdt_manipulation.c.
pub mod Tree
pub mod Images
use camkes_vm.Common.{
  ℕ, zero, suc, ◌+◌, ◌^◌, ◌%◌, ◌≡◌, Bool, true, false, ◌||◌, not, Option, none, some, List, [], ◌∷◌,
  if◌then◌else◌, ◌==◌,
}

pub data Property : Type 0 where
  device_type : Property
  reg : ℕ → Property
  stdout_path : Property
  linux_stdout_path : Property
  bootargs : ℕ → Property
  initrd_start : ℕ → Property
  initrd_end : ℕ → Property

-- The calls of other libraries; an image is loaded at an address.
pub data BootCall : Type 0 where
  load_kernel : ℕ → BootCall
  load_initrd : ℕ → BootCall
  load_dtb : ℕ → BootCall
  add_memory : BootCall
  add_chosen : BootCall
  append_property : Property → BootCall
  generate_vpci_node : BootCall
  pack : BootCall
  mark_allocated : ℕ → BootCall
  touch : ℕ → BootCall
  set_bootargs : ℕ → ℕ → BootCall

-- What they say: the error of the call at the head of a log, which is 0 if there is none, the
-- address and size of the image that it loads, whether there is memory for a string and whether it
-- is printed, and the interrupt controller in the tree, with its handle.
pub record Boot : Type 0 where
  pub err : List BootCall → ℕ
  pub load_paddr : List BootCall → ℕ
  pub image_size : List BootCall → ℕ
  pub has_memory : List BootCall → Bool
  pub is_printed : Bool
  pub gic : Option ℕ
  pub word : ℕ

-- The fields of `vm_config_t` that are read, with CONFIG_VM_PCI_SUPPORT and NUM_VCPUS. `has_stdout`
-- says that `kernel_stdout` is neither NULL nor empty.
pub record VmConfig : Type 0 where
  pub ram_base : ℕ
  pub ram_size : ℕ
  pub dtb_addr : ℕ
  pub initrd_addr : ℕ
  pub generate_dtb : Bool
  pub provide_dtb : Bool
  pub provide_initrd : Bool
  pub has_stdout : Bool
  pub pci_support : Bool
  pub num_vcpus : ℕ

-- An error is a number that is 0 for success; -1 is 1.
abbrev pub and_then : ℕ × List BootCall → (List BootCall → ℕ × List BootCall) → ℕ × List BootCall
and_then (zero, log) next = next log
and_then (suc e, log) next = (suc e, log)

module _ (boot : Boot) where
  abbrev pub call : BootCall → List BootCall → ℕ × List BootCall
  call c log = (boot.err (c ∷ log), c ∷ log)

  unfoldable pub fdt_generate_memory_node : ℕ → ℕ → List BootCall → ℕ × List BootCall
  fdt_generate_memory_node base size log = and_then (call add_memory log) (λ l.
      and_then (call (append_property device_type) l)
        (λ l. and_then (call (append_property (reg base)) l) (call (append_property (reg size)))))

  -- `err` is what the variable holds.
  unfoldable pub append_bootargs : ℕ → ℕ → List BootCall → ℕ × List BootCall
  append_bootargs maxcpus err log =
      if boot.has_memory log
      then (if boot.is_printed then call (append_property (bootargs maxcpus)) log else (1, log))
      else (err, log)

  -- `garbage` is what `err` holds before it is set. The result of `fdt_add_subnode` is used and not
  -- looked at.
  unfoldable pub fdt_generate_chosen_node : Bool → ℕ → ℕ → List BootCall → ℕ × List BootCall
  fdt_generate_chosen_node false maxcpus garbage log =
      append_bootargs maxcpus garbage (add_chosen ∷ log)
  fdt_generate_chosen_node true maxcpus garbage log =
      and_then (call (append_property stdout_path) (add_chosen ∷ log))
        (λ l. and_then (call (append_property linux_stdout_path) l) (append_bootargs maxcpus 0))

  unfoldable pub fdt_append_chosen_node_with_initrd_info : ℕ → ℕ → List BootCall → ℕ × List BootCall
  fdt_append_chosen_node_with_initrd_info base size log =
      and_then (call (append_property (initrd_start base)) log)
        (call (append_property (initrd_end ((base + size) % boot.word))))

  -- The node of the PCI bus wants the handle of the interrupt controller.
  abbrev pub vpci_node : Option ℕ → List BootCall → ℕ × List BootCall
  vpci_node none log = (1, log)
  vpci_node (some zero) log = (1, log)
  vpci_node (some (suc n)) log = call generate_vpci_node log

  unfoldable pub vm_dtb_finalize : Bool → List BootCall → ℕ × List BootCall
  vm_dtb_finalize false log = (0, pack ∷ log)
  vm_dtb_finalize true log = and_then (vpci_node boot.gic log) (λ l. (0, pack ∷ l))

  -- An image is refused when it has no address, or with an error.
  unfoldable pub load_image : BootCall → List BootCall → ℕ × List BootCall
  load_image c log =
      (if boot.load_paddr (c ∷ log) == 0 || not (boot.err (c ∷ log) == 0) then 1 else 0, c ∷ log)

  unfoldable pub chosen_step : VmConfig → ℕ → List BootCall → ℕ × List BootCall
  chosen_step config garbage log =
      if config.generate_dtb
      then fdt_generate_chosen_node config.has_stdout config.num_vcpus garbage log
      else (0, log)

  -- `log` is that after the image is loaded.
  unfoldable pub initrd_info : VmConfig → List BootCall → ℕ × List BootCall
  initrd_info config log =
      if config.generate_dtb
      then fdt_append_chosen_node_with_initrd_info config.initrd_addr (boot.image_size log) log
      else (0, log)

  unfoldable pub initrd_step : VmConfig → List BootCall → ℕ × List BootCall
  initrd_step config log =
      if config.provide_initrd
      then and_then (load_image (load_initrd config.initrd_addr) log) (initrd_info config)
      else (0, log)

  -- The device tree, and the registers of the guest. `garbage` is what `dtb` holds before it is
  -- set.
  unfoldable pub dtb_step : Bool → Bool → VmConfig → ℕ → ℕ → List BootCall → ℕ × List BootCall
  dtb_step true provide config garbage entry log =
      and_then (vm_dtb_finalize config.pci_support log) (λ l.
        call (set_bootargs entry config.dtb_addr)
          (touch config.dtb_addr ∷ mark_allocated config.dtb_addr ∷ l))
  dtb_step false true config garbage entry log =
      and_then (load_image (load_dtb config.dtb_addr) log)
        (λ l. call (set_bootargs entry (boot.load_paddr l)) l)
  dtb_step false false config garbage entry log = call (set_bootargs entry garbage) log

  unfoldable pub load_vm_images : VmConfig → ℕ → ℕ → List BootCall → ℕ × List BootCall
  load_vm_images config garbage_err garbage_dtb log =
      let entry = boot.load_paddr (load_kernel config.ram_base ∷ log) in
      and_then (load_image (load_kernel config.ram_base) log) (λ l.
        and_then (chosen_step config garbage_err l) (λ l.
          and_then (initrd_step config l)
            (dtb_step config.generate_dtb config.provide_dtb config garbage_dtb entry)))
