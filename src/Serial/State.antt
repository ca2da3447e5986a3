-- ===== src/Serial/State.antt =====
-- `SerialFIFO` and `SerialState` of serial.c, with the register flags. `fcr_vmstate` and
-- `it_shift` are read by no compiled code and have no field.
use camkes_vm.Common.{ℕ, List, ℤ}
use camkes_vm.Host.{World}

-- `UART_FIFO_LENGTH`
abbrev pub fifo_length : ℕ
fifo_length = 16

-- `MAX_XMIT_RETRY`
abbrev pub max_xmit_retry : ℕ
max_xmit_retry = 4

-- `get_ticks_per_sec`: nanoseconds in a second
abbrev pub ticks_per_sec : ℕ
ticks_per_sec = 1000000000

-- `buf` is the field `data`.
pub record SerialFifo : Type 0 where
  pub buf : List ℕ
  pub count : ℕ
  pub itl : ℕ
  pub tail : ℕ
  pub head : ℕ

-- `tsr_retry` and `poll_msl` are C ints that the code compares with 0 or sets to -1; the other
-- ints are never negative. `world` is the rest of the machine.
pub record SerialState : Type 0 where
  pub divider : ℕ
  pub rbr : ℕ
  pub thr : ℕ
  pub tsr : ℕ
  pub ier : ℕ
  pub iir : ℕ
  pub lcr : ℕ
  pub mcr : ℕ
  pub lsr : ℕ
  pub msr : ℕ
  pub scr : ℕ
  pub fcr : ℕ
  pub thr_ipending : ℕ
  pub last_break_enable : ℕ
  pub baudbase : ℕ
  pub tsr_retry : ℤ
  pub last_xmit_ts : ℕ
  pub recv_fifo : SerialFifo
  pub xmit_fifo : SerialFifo
  pub timeout_ipending : ℕ
  pub char_transmit_time : ℕ
  pub poll_msl : ℤ
  pub serial_level : ℕ
  pub chars_sent : ℕ
  pub world : World

-- `UART_LCR_DLAB`
abbrev pub lcr_dlab : ℕ
lcr_dlab = 0x80

abbrev pub ier_msi : ℕ
ier_msi = 0x08

abbrev pub ier_rlsi : ℕ
ier_rlsi = 0x04

abbrev pub ier_thri : ℕ
ier_thri = 0x02

abbrev pub ier_rdi : ℕ
ier_rdi = 0x01

abbrev pub iir_no_int : ℕ
iir_no_int = 0x01

abbrev pub iir_msi : ℕ
iir_msi = 0x00

abbrev pub iir_thri : ℕ
iir_thri = 0x02

abbrev pub iir_rdi : ℕ
iir_rdi = 0x04

abbrev pub iir_rlsi : ℕ
iir_rlsi = 0x06

abbrev pub iir_cti : ℕ
iir_cti = 0x0C

-- `UART_MCR_LOOP`
abbrev pub mcr_loop : ℕ
mcr_loop = 0x10

abbrev pub msr_dcd : ℕ
msr_dcd = 0x80

abbrev pub msr_ri : ℕ
msr_ri = 0x40

abbrev pub msr_cts : ℕ
msr_cts = 0x10

abbrev pub msr_teri : ℕ
msr_teri = 0x04

abbrev pub lsr_temt : ℕ
lsr_temt = 0x40

abbrev pub lsr_thre : ℕ
lsr_thre = 0x20

abbrev pub lsr_bi : ℕ
lsr_bi = 0x10

abbrev pub lsr_oe : ℕ
lsr_oe = 0x02

abbrev pub lsr_dr : ℕ
lsr_dr = 0x01

abbrev pub fcr_xfr : ℕ
fcr_xfr = 0x04

abbrev pub fcr_rfr : ℕ
fcr_rfr = 0x02

abbrev pub fcr_fe : ℕ
fcr_fe = 0x01
