-- ===== src/Serial/Valid.antt =====
-- What holds of the UART of serial.c between two events.
pub mod Update
pub mod Receive
pub mod Xmit
pub mod Write
pub mod Read
pub mod Entry
use camkes_vm.Common.{◌+◌, ◌%◌, ◌<◌, ◌≡◌, true, has, ◌==◌, ◌||◌, ◌&&◌}
use camkes_vm.Host.{World, level, irq_tty_s0}
use camkes_vm.Serial.State.{SerialState, fcr_fe, lsr_dr}
use camkes_vm.Serial.Fifo.Queue.{InBounds, IsRing}

-- The registers keep to their widths, and the queues to their storage.
pub record HasWidths (s : SerialState) : Type 0 where
  pub divider_in : s.divider < 65536
  pub ier_in : s.ier < 16
  pub iir_in : s.iir < 256
  pub lcr_in : s.lcr < 256
  pub mcr_in : s.mcr < 32
  pub lsr_in : s.lsr < 256
  pub msr_in : s.msr < 256
  pub fcr_in : s.fcr < 256
  pub baud : s.baudbase ≡ 115200
  pub recv : IsRing s.recv_fifo
  pub xmit : InBounds s.xmit_fifo

-- A byte waits in the receive queue only while the queues are enabled and the line status says
-- that data is ready.
pub record IsReady (s : SerialState) : Type 0 where
  pub announced : (s.recv_fifo.count == 0 || has s.fcr fcr_fe && has s.lsr lsr_dr) ≡ true

pub record IsSound (s : SerialState) : Type 0 where
  pub widths : HasWidths s
  pub ready : IsReady s

-- The interrupt line is high when `iir` names an interrupt, and low when its lowest bit says that
-- there is none.
abbrev pub LineMatches : SerialState → Type 0
LineMatches s = level irq_tty_s0 s.world.log + s.iir % 2 ≡ 1

pub record IsValid (s : SerialState) : Type 0 where
  pub sound : IsSound s
  pub line : LineMatches s
