-- ===== src/Hpet.antt =====
-- The high precision event timer, components/Init/src/hpet.c and hpet.h.
pub mod State
pub mod Bits
pub mod Timer
pub mod Access
pub mod Entry
mod Tests
