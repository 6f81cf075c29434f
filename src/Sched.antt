-- ===== src/Sched.antt =====
-- kern/schedule: the run queue, the scheduling classes, and the framework above them.
pub mod Proc
pub mod State
pub mod Mlfq
pub mod Smart
pub mod Basic
pub mod Framework
pub mod RoundRobin
pub mod Stride
pub mod Timer
mod Tests
