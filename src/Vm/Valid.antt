-- ===== src/Vm/Valid.antt =====
-- The invariant of the paging system, and what a write of one entry does to it.
pub mod Entry
pub mod Alloc
pub mod Release
pub mod Access
pub mod Writing
pub mod Fork
pub mod Switch
pub mod Full
pub mod Commands
use operating_system_pa.Base.{
  ℕ, ◌+◌, ◌≤◌, ◌<◌, ◌≡◌, ◌≢◌, ◌⊎◌, inl, inr, true, false, none, some, Option, List, [], ◌∷◌, word,
  All, update, refl, arith,
}
use operating_system_pa.Vm.State.{
  nr_pageframes, nr_ptes_per_page, Pte, Directory, PageTable, Process, Counts, System, init_system,
  refs, table_refs, list_refs, maps,
}

-- An entry that can be written through is the only one that maps its frame, and was allocated for
-- writing.
abbrev pub IsExclusive : Counts → Pte → Type 0
IsExclusive m p = p.valid ≡ true → p.writable ≡ true → (m p.pfn ≡ 1) × (p.private ≡ 1)

abbrev pub TableIsExclusive : Counts → PageTable → Type 0
TableIsExclusive m t =
    (i j : ℕ) (d : Directory)
    → i < nr_ptes_per_page
    → j < nr_ptes_per_page
    → t i ≡ some d
    → IsExclusive m (d j)

pub record IsValid (s : System) : Type 0 where
  -- The count of a frame is the number of valid entries that map it.
  pub counted : (f : ℕ) → f < nr_pageframes → s.mapcounts f ≡ refs f s
  pub in_range : (f : ℕ) → nr_pageframes ≤ f → refs f s ≡ 0
  pub bounded : (f : ℕ) → s.mapcounts f < word
  pub exclusive : TableIsExclusive s.mapcounts s.current.pagetable
  pub others : All (λ p. TableIsExclusive s.mapcounts p.pagetable) s.processes
