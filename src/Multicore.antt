-- ===== src/Multicore.antt =====
-- Communication between the cores of a multicore MCU (multicore/IPCDescriptorTable.h and .cpp,
-- multicore/MulticoreLogDevice.h and .cpp).
pub mod Fifo
pub mod Table
pub mod Log
mod Tests
