-- ===== src/Services.antt =====
-- Network services, services/.
pub mod Iperf
pub mod Ntp
mod Tests
mod NtpTests
