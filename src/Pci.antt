-- ===== src/Pci.antt =====
-- The ports by which the guest reads and writes the configuration space of PCI devices:
-- `pci_config_io_in` and `pci_config_io_out` of components/Init/src/main.c.
pub mod Select
mod Tests
use camkes_vm.Common.{
  ℕ, ◌+◌, ◌-◌, ◌*◌, ◌/◌, ◌%◌, ◌^◌, Bool, ◌&&◌, ◌||◌, List, ◌∷◌, u8, u32, ltb, leb, if◌then◌else◌,
  ◌==◌,
}

-- The port numbers, constants of another library, and what the configuration space answers to a
-- read: by bus, device, function, register and size.
pub record PciBus : Type 0 where
  pub addr : ℕ
  pub addr_end : ℕ
  pub data_start : ℕ
  pub data_end : ℕ
  pub config_read : ℕ → ℕ → ℕ → ℕ → ℕ → ℕ

pub record Register : Type 0 where
  pub bus : ℕ
  pub dev : ℕ
  pub fun : ℕ
  pub reg : ℕ

-- A write to the configuration space: the register, the size in bytes and the value.
pub record ConfigWrite : Type 0 where
  pub to : Register
  pub size : ℕ
  pub value : ℕ

-- The address word that was written last, and the writes, the latest first.
pub record PciState : Type 0 where
  pub conf_port_addr : ℕ
  pub writes : List ConfigWrite

-- A result, -1, or a copy past the end of the address word.
pub data Outcome (A : Type 0) : Type 0 where
  returned : A → Outcome A
  failed : Outcome A
  past_end : Outcome A

-- The register that the address word selects, at an offset of the data ports.
unfoldable pub selected : ℕ → ℕ → Register
selected conf offset = record {
  bus = conf / 2 ^ 16 % 2 ^ 8;
  dev = conf / 2 ^ 11 % 2 ^ 5;
  fun = conf / 2 ^ 8 % 2 ^ 3;
  reg = u8 (conf % 2 ^ 8 + offset);
}

abbrev pub is_size : ℕ → Bool
is_size n = n == 1 || n == 2 || n == 4

-- `memcpy` of `n` bytes of a word from an offset, and of the low bytes of a value to an offset
abbrev pub bytes_at : ℕ → ℕ → ℕ → ℕ
bytes_at word offset n = word / 2 ^ (8 * offset) % 2 ^ (8 * n)

abbrev pub put_bytes : ℕ → ℕ → ℕ → ℕ → ℕ
put_bytes word offset n val =
    word % 2 ^ (8 * offset)
    + val % 2 ^ (8 * n) * 2 ^ (8 * offset)
    + word / 2 ^ (8 * (offset + n)) * 2 ^ (8 * (offset + n))

module _ (pci : PciBus) where
  abbrev pub is_addr_port : ℕ → Bool
  is_addr_port port = leb pci.addr port && ltb port pci.addr_end

  abbrev pub misses_data : ℕ → ℕ → Bool
  misses_data port io_size = ltb port pci.data_start || ltb pci.data_end (u32 (port + io_size))

  unfoldable pub pci_config_io_in : ℕ → ℕ → PciState → Outcome ℕ
  pci_config_io_in port io_size s =
      if is_addr_port port
      then (let offset = u8 (port - pci.addr) in
          if ltb 4 (offset + io_size)
          then past_end
          else returned (bytes_at s.conf_port_addr offset io_size))
      else if misses_data port io_size
      then failed
      else (let r = selected s.conf_port_addr (u8 (port - pci.data_start)) in
          if is_size io_size
          then returned (pci.config_read r.bus r.dev r.fun r.reg io_size)
          else failed)

  unfoldable pub pci_config_io_out : ℕ → ℕ → ℕ → PciState → Outcome PciState
  pci_config_io_out port io_size val s =
      if is_addr_port port
      then (let offset = u8 (port - pci.addr) in
          if ltb 4 (offset + io_size)
          then past_end
          else returned (record s {
            conf_port_addr = put_bytes s.conf_port_addr offset io_size (val - val % 4);
          }))
      else if misses_data port io_size
      then failed
      else if is_size io_size
      then returned (record s {
        writes =
            record {
              to = selected s.conf_port_addr (u8 (port - pci.data_start));
              size = io_size;
              value = val % 2 ^ (8 * io_size);
            }
            ∷ s.writes;
      })
      else failed
