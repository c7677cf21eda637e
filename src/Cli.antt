-- ===== src/Cli.antt =====
-- The crate jiji-cli: the commands of the operator's machine.
pub mod Members
