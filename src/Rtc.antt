-- ===== src/Rtc.antt =====
-- The real-time clock, components/Init/src/mc146818rtc.c.
pub mod State
pub mod Ticks
pub mod Date
pub mod Periodic
pub mod Second
pub mod Ports
pub mod Entry
mod Tests
pub mod Valid
