-- ===== src/Shell.antt =====
-- LAB1: the shell, from its command structures to the execution of a pipeline.
pub mod Command
pub mod Text
pub mod Builtin
pub mod Parsing
pub mod Execute
mod Tests
