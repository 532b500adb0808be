-- ===== src/Fpga.antt =====
-- The parts of fpga/ that keep state of their own.
pub mod Partition
pub mod Updater
mod Tests
