-- ===== src/Ring.antt =====
-- sce213-pa3-2020s: the ring buffer of pa3.c on its three mutexes, with the threads of generator.c
-- and counter.c that use it, in any interleaving.
pub mod State
pub mod Signals
pub mod Slots
pub mod Lines
pub mod Invariant
pub mod Preservation
pub mod Order
pub mod Totals
mod Tests
