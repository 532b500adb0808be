-- ===== src/Cli.antt =====
-- Commands of the command line, cli/.
pub mod Address
mod Tests
