-- ===== src/Sched/Choice.antt =====
-- Which process each scheduler of pa2.c chooses, and which waiter a release wakes.
pub mod Best
pub mod Orders
pub mod Turns
pub mod Waiters
pub mod Faults
