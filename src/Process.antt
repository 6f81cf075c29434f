-- ===== src/Process.antt =====
-- kern/process/proc.c: the bookkeeping of processes.
pub mod Pid
pub mod Table
pub mod Family
pub mod Life
pub mod Fork
pub mod Exit
mod Scene
mod Tests
