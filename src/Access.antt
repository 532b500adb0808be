-- ===== src/Access.antt =====
-- The network set-up (tcpip/): which SSH keys may log in, and the link state.
pub mod Keys
pub mod Link
mod Tests
