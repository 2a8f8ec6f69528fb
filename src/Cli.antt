-- ===== src/Cli.antt =====
-- internal/interfaces/cli: what the commands decide before and around the use cases, without flags,
-- prompts and printing.
pub mod Order
pub mod Commands
