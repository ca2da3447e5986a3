-- ===== src/Serial.antt =====
-- components/Init/src/serial.c: the emulated 16550A UART.
mod Tests
pub mod State
pub mod Fifo
pub mod Irq
pub mod Line
pub mod Receive
pub mod Xmit
pub mod Write
pub mod Read
pub mod Entry
pub mod Valid
pub mod Behaviour
pub mod Runs
