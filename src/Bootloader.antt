-- ===== src/Bootloader.antt =====
-- The boot decision (bootloader/bootloader.cpp): whether the application in flash is booted or the
-- firmware update flow is entered.
pub mod Boot
mod Tests
