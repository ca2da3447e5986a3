-- ===== src/Sata.antt =====
-- The server that shares a disk between guests by its partitions,
-- components/Sataserver/src/sataserver.c.
pub mod State
pub mod Chs
pub mod Config
pub mod Requests
mod Tests
