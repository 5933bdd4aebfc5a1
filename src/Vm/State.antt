-- ===== src/Vm/State.antt =====
-- sce213-pa4-2020s/vm.h and the globals of vm.c: page tables, processes and the frame counts.
--
-- A directory is reachable from one page table only (alloc_page and switch_process allocate a fresh
-- one each time), so a table holds its directories by value. `ptbr` is NULL only before
-- __init_system, the first call of __do_simulation, and points at the page table of `current` from
-- then on, so the model has one table for both. An array is a function, with the bound tested at
-- each access that the source does not bound itself.
use operating_system_pa.Base.{
  ℕ, ◌+◌, Bool, ◌&&◌, Option, none, some, List, [], ◌∷◌, ◌==◌, ltb, if◌then◌else◌, Result, ok,
  fault, out_of_bounds, indicator, sum_below, update,
}

abbrev pub nr_pageframes : ℕ
nr_pageframes = 128

abbrev pub nr_ptes_per_page : ℕ
nr_ptes_per_page = 16

abbrev pub rw_read : ℕ
rw_read = 1

abbrev pub rw_write : ℕ
rw_write = 2

pub record Pte : Type 0 where
  pub valid : Bool
  pub writable : Bool
  pub pfn : ℕ
  pub private : ℕ

abbrev pub Directory : Type 0
Directory = ℕ → Pte

abbrev pub PageTable : Type 0
PageTable = ℕ → Option Directory

pub record Process : Type 0 where
  pub pid : ℕ
  pub pagetable : PageTable

abbrev pub Counts : Type 0
Counts = ℕ → ℕ

pub record System : Type 0 where
  pub current : Process
  pub processes : List Process
  pub mapcounts : Counts

-- The state in which the simulation starts: the initial process has no directory.
abbrev pub init_system : System
init_system = record {
  current = record { pid = 0; pagetable = λ i. none };
  processes = [];
  mapcounts = λ f. 0;
}

-- `outer_ptes[i]`
abbrev pub outer : PageTable → ℕ → Result (Option Directory)
outer t i = if ltb i nr_ptes_per_page then ok (t i) else fault out_of_bounds

-- The store of a directory back into the current page table.
abbrev pub set_directory : System → ℕ → Directory → System
set_directory s i d = record s {
  current = record s.current { pagetable = update s.current.pagetable i (some d) };
}

abbrev pub maps : ℕ → Pte → ℕ
maps f p = indicator (p.valid && (p.pfn == f))

abbrev pub directory_refs : ℕ → Directory → ℕ
directory_refs f d = sum_below nr_ptes_per_page (λ j. maps f (d j))

abbrev pub slot_refs : ℕ → Option Directory → ℕ
slot_refs f none = 0
slot_refs f (some d) = directory_refs f d

-- How many valid entries of a page table name a frame.
abbrev pub table_refs : ℕ → PageTable → ℕ
table_refs f t = sum_below nr_ptes_per_page (λ i. slot_refs f (t i))

abbrev pub list_refs : ℕ → List Process → ℕ
list_refs f [] = 0
list_refs f (p ∷ ps) = table_refs f p.pagetable + list_refs f ps

-- How many valid entries of all the processes name a frame.
abbrev pub refs : ℕ → System → ℕ
refs f s = table_refs f s.current.pagetable + list_refs f s.processes
