-- ===== src/Drivers.antt =====
-- Device drivers, drivers/.
pub mod Expander
mod Tests
