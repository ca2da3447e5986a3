-- ===== src/VmArm/Boot/Images.antt =====
-- What the guest is started with.
use camkes_vm.Common.{
  ℕ, zero, suc, ◌≡◌, ◌≢◌, refl, sym, ap, subst, ◌∙◌, Bool, true, false, List, ◌∷◌, arith,
  if◌then◌else◌, ◌==◌, ◌||◌, not,
}
use camkes_vm.VmArm.Boot.{
  BootCall, load_kernel, load_dtb, pack, touch, mark_allocated, set_bootargs, Boot, VmConfig,
  and_then, call, vpci_node, vm_dtb_finalize, load_image, chosen_step, initrd_step, dtb_step,
  load_vm_images,
}

-- Both parts of a run without error.
record Parts (r : ℕ × List BootCall) (next : List BootCall → ℕ × List BootCall)
    (log' : List BootCall) : Type 0 where
  pub middle : List BootCall
  pub first : r ≡ (0, middle)
  pub second : next middle ≡ (0, log')

first-suc :
    (e : ℕ) (log log' : List BootCall) → ◌≡◌ {A = ℕ × List BootCall} (suc e, log) (0, log') → ⊥
first-suc e log log' h = let k : suc e ≡ 0 = ap (λ r. r.0) h in omega (arith, k)

and_then-Parts :
    (r : ℕ × List BootCall) (next : List BootCall → ℕ × List BootCall) (log' : List BootCall)
    → and_then r next ≡ (0, log')
    → Parts r next log'
and_then-Parts (zero, log) next log' h = record { middle = log; first = refl; second = h }
and_then-Parts (suc e, log) next log' h = absurd (first-suc e log log' h)

module _ (boot : Boot) where
  -- The device tree that a guest gets, by the configuration, with the calls that come last: the one
  -- that is generated, packed and put into the guest's memory, the one that is loaded, which has an
  -- address, or what a variable happened to hold.
  pub data Given (config : VmConfig) (garbage : ℕ) (before : List BootCall)
      : Bool → Bool → ℕ → Type 0 where
    generated :
        {provide : Bool} {earlier : List BootCall}
        → before ≡ touch config.dtb_addr ∷ mark_allocated config.dtb_addr ∷ pack ∷ earlier
        → Given config garbage before true provide config.dtb_addr
    loaded :
        {earlier : List BootCall}
        → before ≡ load_dtb config.dtb_addr ∷ earlier
        → boot.load_paddr before ≢ 0
        → Given config garbage before false true (boot.load_paddr before)
    not_set : Given config garbage before false false garbage

  pub record Booted (config : VmConfig) (garbage entry : ℕ) (log' : List BootCall) : Type 0 where
    pub dtb : ℕ
    pub before : List BootCall
    pub last : log' ≡ set_bootargs entry dtb ∷ before
    pub no_err : boot.err log' ≡ 0
    pub given : Given config garbage before config.generate_dtb config.provide_dtb dtb

  load_image-lem :
      (c : BootCall) (log middle : List BootCall)
      → load_image boot c log ≡ (0, middle)
      → (boot.load_paddr (c ∷ log) ≢ 0) × (middle ≡ c ∷ log)
  unfolding load_image
  load_image-lem c log middle h =
      let k : (if boot.load_paddr (c ∷ log) == 0 || not (boot.err (c ∷ log) == 0) then 1 else 0)
          ≡ 0 =
        ap (λ r. r.0) h in
      (λ e. ground (arith, e, k), sym (ap (λ r. r.1) h))

  call-Booted :
      (config : VmConfig) (garbage entry dtb : ℕ) (before log' : List BootCall)
      → Given config garbage before config.generate_dtb config.provide_dtb dtb
      → call boot (set_bootargs entry dtb) before ≡ (0, log')
      → Booted config garbage entry log'
  call-Booted config garbage entry dtb before log' g h =
      let k : log' ≡ set_bootargs entry dtb ∷ before = sym (ap (λ r. r.1) h) in
      record {
        dtb = dtb;
        before = before;
        last = k;
        no_err = ap boot.err k ∙ ap (λ r. r.0) h;
        given = g;
      }

  vm_dtb_finalize-packed :
      (pci_support : Bool) (log middle : List BootCall)
      → vm_dtb_finalize boot pci_support log ≡ (0, middle)
      → (earlier : List BootCall) × (middle ≡ pack ∷ earlier)
  unfolding vm_dtb_finalize
  vm_dtb_finalize-packed false log middle h = (log, sym (ap (λ r. r.1) h))
  vm_dtb_finalize-packed true log middle h =
      let p = and_then-Parts (vpci_node boot boot.gic log) (λ l. (0, pack ∷ l)) middle h in
      (p.middle, sym (ap (λ r. r.1) p.second))

  dtb_step-Booted :
      (config : VmConfig) (generate provide : Bool)
      → generate ≡ config.generate_dtb
      → provide ≡ config.provide_dtb
      → (garbage entry : ℕ) (log log' : List BootCall)
      → dtb_step boot generate provide config garbage entry log ≡ (0, log')
      → Booted config garbage entry log'
  unfolding dtb_step
  dtb_step-Booted config true provide e f garbage entry log log' h =
      let p =
        and_then-Parts (vm_dtb_finalize boot config.pci_support log)
          (λ l.
            call boot (set_bootargs entry config.dtb_addr)
              (touch config.dtb_addr ∷ mark_allocated config.dtb_addr ∷ l))
          log' h in
      let before : List BootCall =
        touch config.dtb_addr ∷ mark_allocated config.dtb_addr ∷ p.middle in
      let (earlier, k) = vm_dtb_finalize-packed config.pci_support log p.middle p.first in
      let packed : before
          ≡ touch config.dtb_addr ∷ mark_allocated config.dtb_addr ∷ pack ∷ earlier =
        ap (λ l. touch config.dtb_addr ∷ mark_allocated config.dtb_addr ∷ l) k in
      call-Booted config garbage entry config.dtb_addr before log'
        (subst (λ b. Given config garbage before b config.provide_dtb config.dtb_addr) e
          (generated packed))
        p.second
  dtb_step-Booted config false true e f garbage entry log log' h =
      let p =
        and_then-Parts (load_image boot (load_dtb config.dtb_addr) log)
          (λ l. call boot (set_bootargs entry (boot.load_paddr l)) l) log' h in
      let (n, k) = load_image-lem (load_dtb config.dtb_addr) log p.middle p.first in
      let at : Given config garbage p.middle false true (boot.load_paddr p.middle) =
        loaded k (λ z. n (ap boot.load_paddr (sym k) ∙ z)) in
      call-Booted config garbage entry (boot.load_paddr p.middle) p.middle log'
        (subst (λ b. Given config garbage p.middle b config.provide_dtb (boot.load_paddr p.middle))
          e (subst (λ b. Given config garbage p.middle false b (boot.load_paddr p.middle)) f at))
        p.second
  dtb_step-Booted config false false e f garbage entry log log' h =
      call-Booted config garbage entry garbage log log'
        (subst (λ b. Given config garbage log b config.provide_dtb garbage) e
          (subst (λ b. Given config garbage log false b garbage) f not_set))
        h

  -- When the images are loaded without error, the last call sets the guest's registers, without
  -- error, to the address of the kernel, which is not 0, and of the device tree. To generate one,
  -- it is packed and put at the address of the configuration just before. Else, where one is
  -- provided, the call just before loads it and gives its address, which is not 0. With neither
  -- the address is a value that was never set.
  pub load_vm_images-Booted :
      (config : VmConfig) (garbage_err garbage_dtb : ℕ) (log log' : List BootCall)
      → load_vm_images boot config garbage_err garbage_dtb log ≡ (0, log')
      → (boot.load_paddr (load_kernel config.ram_base ∷ log) ≢ 0)
        × Booted config garbage_dtb (boot.load_paddr (load_kernel config.ram_base ∷ log)) log'
  unfolding load_vm_images
  load_vm_images-Booted config garbage_err garbage_dtb log log' h =
      let entry = boot.load_paddr (load_kernel config.ram_base ∷ log) in
      let last = dtb_step boot config.generate_dtb config.provide_dtb config garbage_dtb entry in
      let p =
        and_then-Parts (load_image boot (load_kernel config.ram_base) log)
          (λ l.
            and_then (chosen_step boot config garbage_err l)
              (λ l. and_then (initrd_step boot config l) last))
          log' h in
      let q =
        and_then-Parts (chosen_step boot config garbage_err p.middle)
          (λ l. and_then (initrd_step boot config l) last) log' p.second in
      let r = and_then-Parts (initrd_step boot config q.middle) last log' q.second in
      (
        (load_image-lem (load_kernel config.ram_base) log p.middle p.first).0,
        dtb_step-Booted config config.generate_dtb config.provide_dtb refl refl garbage_dtb entry
            r.middle log' r.second,
      )
