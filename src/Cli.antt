-- ===== src/Cli.antt =====
-- aegis-mesh/crates/aegis-cli/src: the command line.
pub mod Serve
pub mod Commands
pub mod Tests
