-- ===== src/Sched.antt =====
-- The stride and MLFQ scheduler of xv6-public/proc.c.
pub mod State
pub mod Vals
pub mod Run
pub mod Scan
pub mod Share
mod Tests
pub mod Turns
pub mod Walk
