-- ===== src/Pit.antt =====
-- components/Init/src/i8254.c: the emulated 8254 interval timer.
pub mod State
pub mod Count
pub mod Timer
pub mod Ports
pub mod Transition
pub mod Valid
pub mod Access
pub mod Runs
mod Tests
