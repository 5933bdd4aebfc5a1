-- ===== src/Sched.antt =====
-- sce213-pa2-2020s: the process scheduler simulator. The schedulers of pa2.c and the framework of
-- sched.c that runs them.
pub mod State
pub mod Locking
pub mod Policies
pub mod Simulation
pub mod Script
pub mod Loaded
pub mod Loading
pub mod Sound
pub mod Contract
pub mod Safety
pub mod Progress
pub mod Choice
mod Tests
mod ScriptTests
mod ProgressTests
