-- ===== src/Vm/Pages.antt =====
-- sce213-pa4-2020s/pa4.c: alloc_page, free_page, handle_page_fault and switch_process.
--
-- `malloc` does not clear what it returns, so the directory that alloc_page may allocate and the page
-- table that a fork allocates are arguments, `fresh`. It is taken not to fail.
pub mod Counting
pub mod Free
use operating_system_pa.Base.{
  ℕ, zero, suc, ◌+◌, ◌-◌, ◌*◌, ◌/◌, ◌%◌, ◌≡◌, Bool, true, false, not, Option, none, some, List, [],
  ◌∷◌, ◌++◌, ◌==◌, ltb, if◌then◌else◌, word, inc, dec, Result, ok, fault, out_of_bounds, ◌>>=◌,
  ◌>>◌, guard, deref, update,
}
use operating_system_pa.Vm.State.{
  nr_pageframes, nr_ptes_per_page, rw_read, rw_write, Pte, Directory, PageTable, Process, Counts,
  System, outer, set_directory,
}

-- `out_idx` and `vpn_idx`, as each function computes them.
abbrev pub out_idx : ℕ → ℕ
out_idx vpn = if vpn == 0 then 0 else vpn / nr_ptes_per_page

abbrev pub vpn_idx : ℕ → ℕ
vpn_idx vpn = vpn % nr_ptes_per_page

-- `for (i = …; i < NR_PAGEFRAMES; i++) { if (mapcounts[i]) continue; …; break; }`, with the rounds
-- that are left: the frame at which the loop's body runs.
unfoldable pub first_free : ℕ → ℕ → Counts → Option ℕ
first_free zero i m = none
first_free (suc k) i m = let rest = first_free k (i + 1) m in if m i == 0 then some i else rest

abbrev pub free_frame : Counts → Option ℕ
free_frame m = first_free nr_pageframes 0 m

-- The directory that alloc_page works in.
abbrev pub or_fresh : Directory → Option Directory → Directory
or_fresh fresh none = fresh
or_fresh fresh (some d) = d

-- The bits of the entry, before a frame is chosen.
abbrev pub alloc_bits : ℕ → Pte → Pte
alloc_bits mode p = record p {
  valid = true;
  writable = not (mode == rw_read);
  private = if mode == rw_read then 0 else 1;
}

-- With no free frame the entry keeps the `pfn` that it had.
abbrev pub alloc_entry : ℕ → ℕ → Directory → Option ℕ → System → ℕ × System
alloc_entry vpn mode d none s =
    let p = alloc_bits mode (d (vpn_idx vpn)) in
    (p.pfn, set_directory s (out_idx vpn) (update d (vpn_idx vpn) p))
alloc_entry vpn mode d (some i) s =
    let p = record (alloc_bits mode (d (vpn_idx vpn))) { pfn = i } in
    (
      i,
      record (set_directory s (out_idx vpn) (update d (vpn_idx vpn) p)) {
        mapcounts = update s.mapcounts i 1;
      },
    )

-- `-1` as an `unsigned int` is `word - 1`.
unfoldable pub alloc_page : Directory → ℕ → ℕ → System → Result (ℕ × System)
alloc_page fresh vpn mode s = do
  slot ← outer s.current.pagetable (out_idx vpn)
  let d = or_fresh fresh slot
  if ltb vpn (nr_ptes_per_page * nr_ptes_per_page)
      then ok (alloc_entry vpn mode d (free_frame s.mapcounts) s)
      else ok (word - 1, set_directory s (out_idx vpn) d)

unfoldable pub free_page : ℕ → System → Result System
free_page vpn s = do
  slot ← outer s.current.pagetable (out_idx vpn)
  d ← deref slot
  let f = (d (vpn_idx vpn)).pfn
  guard (ltb f nr_pageframes) out_of_bounds
  ok
      (record (set_directory s (out_idx vpn) (
        update d (vpn_idx vpn)
          (record { valid = false; writable = false; pfn = 0; private = 0 }))) {
            mapcounts = update s.mapcounts f (dec (s.mapcounts f));
          })

-- The copy: the entry moves to the frame `i`, if there is one.
abbrev pub move_frame : ℕ → Directory → Pte → Option ℕ → System → System
move_frame vpn d p none s = set_directory s (out_idx vpn) (update d (vpn_idx vpn) p)
move_frame vpn d p (some i) s =
    let m = update s.mapcounts p.pfn (dec (s.mapcounts p.pfn)) in
    record (set_directory s (out_idx vpn) (update d (vpn_idx vpn) (record p { pfn = i }))) {
      mapcounts = update m i (inc (m i));
    }

-- The case of an entry that alloc_page made writable.
unfoldable pub copy_on_write : ℕ → Directory → System → Result (Bool × System)
copy_on_write vpn d s = do
  let p = record (d (vpn_idx vpn)) { writable = true }
  guard (ltb p.pfn nr_pageframes) out_of_bounds
  if s.mapcounts p.pfn == 1
      then ok (true, set_directory s (out_idx vpn) (update d (vpn_idx vpn) p))
      else ok (true, move_frame vpn d p (free_frame s.mapcounts) s)

unfoldable pub fault_on_entry : ℕ → ℕ → Option Directory → System → Result (Bool × System)
fault_on_entry vpn mode none s = ok (false, s)
fault_on_entry vpn mode (some d) s =
    if not (d (vpn_idx vpn)).valid
    then ok (false, s)
    else if (d (vpn_idx vpn)).private == 1
    then copy_on_write vpn d s
    else if mode == rw_write
    then ok (false, s)
    else ok (true, s)

unfoldable pub handle_page_fault : ℕ → ℕ → System → Result (Bool × System)
unfolding fault_on_entry
handle_page_fault vpn mode s = do
  slot ← outer s.current.pagetable (out_idx vpn)
  fault_on_entry vpn mode slot s

-- `list_for_each_entry(check, &processes, list)`: the first process with the pid, and the others.
unfoldable pub take_pid : ℕ → List Process → Option (Process × List Process)
take_pid pid [] = none
take_pid pid (p ∷ ps) =
    let rest = take_pid pid ps in
    if pid == p.pid
    then some (p, ps)
    else elim rest [ none ↦ none | some (q, qs) ↦ some (q, p ∷ qs) ]

-- `mapcounts[pfn]++` for a valid entry.
abbrev pub count_entry : Pte → Counts → Result Counts
count_entry p m =
    if p.valid
    then (guard (ltb p.pfn nr_pageframes) out_of_bounds >> ok (update m p.pfn (inc (m p.pfn))))
    else ok m

-- The inner loop of the fork, over the first `n` entries of a directory.
unfoldable pub count_directory : ℕ → Directory → Counts → Result Counts
count_directory zero d m = ok m
count_directory (suc n) d m = do m' ← count_directory n d m; count_entry (d n) m'

abbrev pub count_slot : Option Directory → Counts → Result Counts
count_slot none m = ok m
count_slot (some d) m = count_directory nr_ptes_per_page d m

-- The outer loop, over the first `n` directories.
unfoldable pub count_table : ℕ → PageTable → Counts → Result Counts
unfolding count_directory
count_table zero t m = ok m
count_table (suc n) t m = do m' ← count_table n t m; count_slot (t n) m'

-- What the loops leave in the table of the parent: the same entries, none of them writable.
abbrev pub protect : Pte → Pte
protect p = record p { writable = false }

abbrev pub protect_slot : Option Directory → Option Directory
protect_slot none = none
protect_slot (some d) = some (λ j. protect (d j))

abbrev pub protect_table : PageTable → PageTable
protect_table t i = protect_slot (t i)

-- The table of the child is what `malloc` handed out, with the copied directories stored into it: a
-- slot that is empty in the parent is not written.
abbrev pub child_slot : Option Directory → Option Directory → Option Directory
child_slot fresh none = fresh
child_slot fresh (some d) = some (λ j. protect (d j))

abbrev pub child_table : PageTable → PageTable → PageTable
child_table fresh t i = child_slot (fresh i) (t i)

unfoldable pub fork_process : PageTable → ℕ → System → Result System
unfolding count_table
fork_process fresh pid s = do
  let t = s.current.pagetable
  m ← count_table nr_ptes_per_page t s.mapcounts
  ok (record {
    current = record { pid = pid; pagetable = child_table fresh t };
    processes = s.processes ++ (record s.current { pagetable = protect_table t }) ∷ [];
    mapcounts = m;
  })

abbrev pub switch_to : PageTable → ℕ → System → Option (Process × List Process) → Result System
switch_to fresh pid s none = fork_process fresh pid s
switch_to fresh pid s (some (p, ps)) = ok (record s { current = p; processes = ps })

unfoldable pub switch_process : PageTable → ℕ → System → Result System
unfolding take_pid fork_process
switch_process fresh pid s = switch_to fresh pid s (take_pid pid (s.processes ++ s.current ∷ []))
