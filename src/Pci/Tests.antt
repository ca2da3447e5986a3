-- ===== src/Pci/Tests.antt =====
-- An access at the ports of a PC.
use camkes_vm.Common.{◌+◌, ◌*◌, ◌%◌, ◌^◌, ◌≡◌, refl, [], ◌∷◌, arith}
use camkes_vm.Pci.{PciBus, Register, PciState, returned, pci_config_io_in, pci_config_io_out}
use camkes_vm.Pci.Select.{IsPciBus, IsWord, address, advanced, pci_config_io_out-selects}

-- A configuration space that answers the function and the register.
abbrev pc : PciBus
pc = record {
  addr = 0xcf8;
  addr_end = 0xcfc;
  data_start = 0xcfc;
  data_end = 0xd00;
  config_read = λ bus dev fun reg size. fun * 256 + reg;
}

pc-IsPciBus : IsPciBus pc
pc-IsPciBus = record {
  addr_ports = refl;
  data_ports = refl;
  data_ports_end = refl;
  small = omega arith;
}

abbrev bar : Register
bar = record { bus = 2; dev = 31; fun = 5; reg = 0x10 }

bar-IsWord : IsWord bar
bar-IsWord = record {
  bus_in = omega arith;
  dev_in = omega arith;
  fun_in = omega arith;
  reg_in = omega arith;
  aligned = refl;
}

abbrev idle : PciState
idle = record { conf_port_addr = 0x80001234; writes = [] }

pci_config_io_out-selects_example :
    (t : PciState) × (pci_config_io_out pc pc.addr 4 (address bar) idle ≡ returned t)
    × (pci_config_io_in pc pc.addr 4 t ≡ returned (address bar))
    × (pci_config_io_in pc (pc.data_start + 2) 2 t
        ≡ returned (pc.config_read bar.bus bar.dev bar.fun (bar.reg + 2) 2))
    × (pci_config_io_out pc (pc.data_start + 2) 2 0x12345 t
        ≡ returned (record t {
          writes =
              record { to = advanced bar 2; size = 2; value = 0x12345 % 2 ^ (8 * 2) } ∷ t.writes;
        }))
pci_config_io_out-selects_example =
    pci_config_io_out-selects pc pc-IsPciBus bar idle 2 2 0x12345 bar-IsWord (omega arith) refl
      (omega arith)
