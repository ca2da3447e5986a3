-- ===== src/Console.antt =====
-- The virtual consoles between guests: components/VM_Arm/src/modules/virtio_con.c, and
-- components/Init/src/virtio_con.c, which has the same functions for x86.
pub mod Ring
pub mod Ports
mod Tests
