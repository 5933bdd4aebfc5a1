-- ===== src/Vm.antt =====
-- sce213-pa4-2020s: the two-level page tables, the frame allocator with copy-on-write (pa4.c) and
-- the simulated MMU and its commands (vm.h, vm.c).
pub mod State
pub mod Pages
pub mod Mmu
pub mod Console
pub mod Valid
mod Tests
