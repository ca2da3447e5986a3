-- ===== src/VmArm.antt =====
-- The virtual machine monitor for ARM, components/VM_Arm/src.
pub mod Mapping
pub mod Events
pub mod Irq
pub mod OnDemand
pub mod Resources
pub mod Boot
pub mod CrossVm
mod Tests
