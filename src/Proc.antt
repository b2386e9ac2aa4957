-- ===== src/Proc.antt =====
-- kernel/proc.c (so24lab3g02): the life of processes, from allocproc to wait.
mod Defs
mod Loops
pub mod Steps
mod Calm
mod Wait
mod Exit
pub mod Family
mod Scheduler
mod Fair
mod Tests
unfoldable pub use Defs.*
