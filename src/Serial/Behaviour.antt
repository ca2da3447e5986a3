-- ===== src/Serial/Behaviour.antt =====
-- What the UART of serial.c does for the guest.
pub mod Interrupt
pub mod Registers
pub mod Transmit
pub mod Retry
