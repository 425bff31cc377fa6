-- ===== src/Cli.antt =====
-- internal/cli: the tree of commands, how arguments are resolved to one, and how it is run.
pub mod Command
pub mod Resolve
pub mod Errors
pub mod Execute
