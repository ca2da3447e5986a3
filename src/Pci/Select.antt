-- ===== src/Pci/Select.antt =====
-- An address that is written selects the register that the data ports access.
use camkes_vm.Common.{
  ℕ, ◌+◌, ◌-◌, ◌*◌, ◌/◌, ◌%◌, ◌^◌, ◌<◌, ◌≤◌, ◌≡◌, true, ◌∷◌, arith, u8, refl, false,
}
use camkes_vm.Pci.{
  PciBus, Register, PciState, returned, selected, is_size, put_bytes, bytes_at, is_addr_port,
  misses_data, pci_config_io_in, pci_config_io_out,
}

-- Four ports for the address, and four for the data, side by side.
pub record IsPciBus (pci : PciBus) : Type 0 where
  pub addr_ports : pci.addr_end ≡ pci.addr + 4
  pub data_ports : pci.data_start ≡ pci.addr + 4
  pub data_ports_end : pci.data_end ≡ pci.addr + 8
  pub small : pci.addr + 8 < 2 ^ 32

-- The first register of a word of the configuration space.
pub record IsWord (r : Register) : Type 0 where
  pub bus_in : r.bus < 2 ^ 8
  pub dev_in : r.dev < 2 ^ 5
  pub fun_in : r.fun < 2 ^ 3
  pub reg_in : r.reg < 2 ^ 8
  pub aligned : r.reg % 4 ≡ 0

-- The address of a register, with the bit that enables the access.
abbrev pub address : Register → ℕ
address r = 2 ^ 31 + r.bus * 2 ^ 16 + r.dev * 2 ^ 11 + r.fun * 2 ^ 8 + r.reg

-- The register `n` places on.
abbrev pub advanced : Register → ℕ → Register
advanced r n = record r { reg = r.reg + n }

selected_lem : (r : Register) (n : ℕ) → IsWord r → n < 4 → selected (address r) n ≡ advanced r n
unfolding selected
selected_lem r n w h =
    let bus : address r / 2 ^ 16 % 2 ^ 8 ≡ r.bus =
      omega (arith, w.bus_in, w.dev_in, w.fun_in, w.reg_in) in
    let dev : address r / 2 ^ 11 % 2 ^ 5 ≡ r.dev = omega (arith, w.dev_in, w.fun_in, w.reg_in) in
    let fun : address r / 2 ^ 8 % 2 ^ 3 ≡ r.fun = omega (arith, w.fun_in, w.reg_in) in
    let reg : u8 (address r % 2 ^ 8 + n) ≡ r.reg + n = omega (arith, w.reg_in, w.aligned, h) in
    rw (selected, bus, dev, fun, reg) refl

-- The whole word is written.
address_lem :
    (r : Register) (word : ℕ)
    → IsWord r
    → word < 2 ^ 32
    → put_bytes word 0 4 (address r - address r % 4) ≡ address r
address_lem r word w h = omega (arith, w.bus_in, w.dev_in, w.fun_in, w.reg_in, w.aligned)

module _ (pci : PciBus) (p : IsPciBus pci) where
  at_address : is_addr_port pci pci.addr ≡ true
  at_address = ground (arith, p.addr_ports)

  first_offset : u8 (pci.addr - pci.addr) ≡ 0
  first_offset = ground arith

  at_data : (n : ℕ) → is_addr_port pci (pci.data_start + n) ≡ false
  at_data n = ground (arith, p.addr_ports, p.data_ports)

  hits_data : (n size : ℕ) → n + size ≤ 4 → misses_data pci (pci.data_start + n) size ≡ false
  hits_data n size h = ground (arith, p.data_ports, p.data_ports_end, p.small)

  data_offset : (n : ℕ) → n < 256 → u8 (pci.data_start + n - pci.data_start) ≡ n
  data_offset n h = ground arith

  -- With ports as in PCI, a write of the address of a register to the address ports is read back
  -- from them, and selects that register: a read or a write of one, two or four bytes of the data
  -- ports then reads or writes the configuration space at its bus, device and function and as many
  -- places after it.
  pub pci_config_io_out-selects :
      (r : Register) (s : PciState) (n size val : ℕ)
      → IsWord r
      → s.conf_port_addr < 2 ^ 32
      → is_size size ≡ true
      → n + size ≤ 4
      → (t : PciState) × (pci_config_io_out pci pci.addr 4 (address r) s ≡ returned t)
        × (pci_config_io_in pci pci.addr 4 t ≡ returned (address r))
        × (pci_config_io_in pci (pci.data_start + n) size t
            ≡ returned (pci.config_read r.bus r.dev r.fun (r.reg + n) size))
        × (pci_config_io_out pci (pci.data_start + n) size val t
            ≡ returned (record t {
              writes =
                  record { to = advanced r n; size = size; value = val % 2 ^ (8 * size) }
                  ∷ t.writes;
            }))
  unfolding pci_config_io_out pci_config_io_in
  pci_config_io_out-selects r s n size val w h k l =
      let small : n < 4 = ground (arith, k, l) in
      let offset = data_offset n (omega (arith, small)) in
      let back : bytes_at (address r) 0 4 ≡ address r =
        omega (arith, w.bus_in, w.dev_in, w.fun_in, w.reg_in) in
      (
        record s { conf_port_addr = address r },
        rw (pci_config_io_out, at_address, first_offset, address_lem r s.conf_port_addr w h) refl,
        rw (pci_config_io_in, at_address, first_offset, back) refl,
        rw (pci_config_io_in, at_data n, hits_data n size l, offset, selected_lem r n w small, k)
            refl,
        rw (pci_config_io_out, at_data n, hits_data n size l, k, offset, selected_lem r n w small)
            refl,
      )
