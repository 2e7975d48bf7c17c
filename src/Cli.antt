-- ===== src/Cli.antt =====
-- cli: the command line of an agent.
pub mod Console
pub mod Commands
pub mod Loop
pub mod Groups
