-- ===== src/Locks.antt =====
-- sce213-pa3-2020s: the locks of pa3.c, under any interleaving of the threads.
pub mod Spin
pub mod Exclusion
pub mod Mutex
pub mod Permits
pub mod Signals
mod Tests
