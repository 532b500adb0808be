-- ===== src/Supervisor.antt =====
-- The power and reset supervisor (supervisor/RailDescriptor.h, supervisor/ResetDescriptor.h,
-- supervisor/PowerResetSupervisor.cpp and .h).
pub mod Since
pub mod Board
pub mod Rail
pub mod Reset
pub mod Sequencer
mod Tests
