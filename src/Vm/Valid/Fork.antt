-- ===== src/Vm/Valid/Fork.antt =====
-- `switch` (pa4.c: switch_process): a switch to a process of the list, and a fork.
use native.Mathlib.Decide.{dec_lt}
use operating_system_pa.Base.{
  ok, Result, ◌>>=◌, ◌∙◌, fun_ext, ℕ, ◌+◌, ◌*◌, ◌<◌, ◌≡◌, false, none, some, Option, List, [], ◌∷◌,
  ◌++◌, word, All, refl, arith, Returns, length, ap, Bool,
}
use operating_system_pa.Vm.State.{
  nr_pageframes, nr_ptes_per_page, Pte, Directory, PageTable, Process, Counts, System, refs,
  table_refs, list_refs,
}
use operating_system_pa.Vm.Pages.{
  out_idx, vpn_idx, protect_slot, protect_table, child_slot, child_table, fork_process,
}
use operating_system_pa.Vm.Pages.Counting.{
  count_table-Adds, table_refs-protect, list_refs-append, table_refs-le, list_refs-le,
}
use operating_system_pa.Vm.Valid.{IsValid, IsExclusive, TableIsExclusive}
use operating_system_pa.Vm.Valid.Alloc.{out_idx-lt, vpn_idx-lt}
use operating_system_pa.Vm.Valid.Entry.{Keeps, list-Keeps}
use operating_system_pa.Vm.Valid.Writing.{entry_permits, permits, entry_frame, frame_of}

-- So few processes that no count of a frame can wrap around.
abbrev pub FitsWord : System → Type 0
FitsWord s = 256 * (length s.processes + 2) < word

abbrev writable_at : Option Directory → ℕ → Bool
writable_at none j = false
writable_at (some d) j = (d j).writable

protected : (m : Counts) (t : PageTable) → TableIsExclusive m (protect_table t)
protected m t i j d li lj = go (t i)
  where
    go : (o : Option Directory) → protect_slot o ≡ some d → IsExclusive m (d j)
    go none e = cc
    go (some d') e =
        λ v w. absurd (ground (arith, ap (λ (o : Option Directory). writable_at o j) e))

All-snoc :
    (P : Process → Type 0) (ps : List Process) (p : Process) → All P ps → P p → All P (ps ++ p ∷ [])
All-snoc P [] p h x = (x, tt)
All-snoc P (q ∷ ps) p h x = (h.0, All-snoc P ps p h.1 x)

-- A page table of zeros, as `malloc` may happen to hand it out.
abbrev pub IsBlankTable : PageTable → Type 0
IsBlankTable t = (i : ℕ) → t i ≡ none

child_table_blank :
    (fresh t : PageTable) → IsBlankTable fresh → child_table fresh t ≡ protect_table t
child_table_blank fresh t blank = fun_ext (λ i. slot (t i) (blank i))
  where
    slot :
        {g : Option Directory} → (o : Option Directory) → g ≡ none → child_slot g o ≡ protect_slot o
    slot none e = e
    slot (some d) e = refl

-- The same frame, as valid and as private, and no write permission.
abbrev pub IsReadOnlyOf : Pte → Pte → Type 0
IsReadOnlyOf p q =
    (q.valid ≡ p.valid) × (q.pfn ≡ p.pfn) × (q.private ≡ p.private) × (q.writable ≡ false)

abbrev pub SlotIsReadOnlyOf : Option Directory → Option Directory → Type 0
SlotIsReadOnlyOf none none = Unit
SlotIsReadOnlyOf (some d) (some e) = (j : ℕ) → IsReadOnlyOf (d j) (e j)
SlotIsReadOnlyOf _ _ = ⊥

abbrev pub TableIsReadOnlyOf : PageTable → PageTable → Type 0
TableIsReadOnlyOf t u = (i : ℕ) → SlotIsReadOnlyOf (t i) (u i)

protect_table-IsReadOnlyOf : (t : PageTable) → TableIsReadOnlyOf t (protect_table t)
protect_table-IsReadOnlyOf t i = go (t i)
  where
    go : (o : Option Directory) → SlotIsReadOnlyOf o (protect_slot o)
    go none = tt
    go (some d) = λ j. (refl, refl, refl, refl)

-- What a fork from `s` leaves: the child runs, the parent is the last of the list, both with the
-- parent's entries and no write permission.
pub record Forked (s : System) (pid : ℕ) (s' : System) : Type 0 where
  pub valid : IsValid s'
  pub named : s'.current.pid ≡ pid
  pub child : TableIsReadOnlyOf s.current.pagetable s'.current.pagetable
  pub parent_table : PageTable
  pub parent : TableIsReadOnlyOf s.current.pagetable parent_table
  pub listed :
      s'.processes ≡ s.processes ++ (record { pid = s.current.pid; pagetable = parent_table }) ∷ []
  -- Every frame is mapped once more for each entry of the parent that maps it.
  pub counts : (f : ℕ) → s'.mapcounts f ≡ s.mapcounts f + table_refs f s.current.pagetable

module _ (s : System) (pid : ℕ) (valid : IsValid s) (few : FitsWord s) where
  abbrev T : ℕ → ℕ
  T f = table_refs f s.current.pagetable

  small : (f : ℕ) → s.mapcounts f + T f < word
  small f = elim (dec_lt f nr_pageframes) [
    | yes l ↦
        omega (
          arith,
          valid.counted f l,
          table_refs-le f s.current.pagetable,
          list_refs-le f s.processes,
        )
    | no l ↦ omega (arith, valid.bounded f, valid.in_range f (omega arith))
  ]

  abbrev child_with : PageTable → Counts → System
  child_with t m = record {
    current = record { pid = pid; pagetable = t };
    processes =
        s.processes ++ (record s.current { pagetable = protect_table s.current.pagetable }) ∷ [];
    mapcounts = m;
  }

  abbrev child_of : Counts → System
  child_of m = child_with (protect_table s.current.pagetable) m

  refs-child_of : (m : Counts) (f : ℕ) → refs f (child_of m) ≡ refs f s + T f
  refs-child_of m f = omega (
    arith,
    table_refs-protect f s.current.pagetable,
    list_refs-append f s.processes
        (record s.current { pagetable = protect_table s.current.pagetable } ∷ []),
  )

  child_of-IsValid : (m : Counts) → ((f : ℕ) → m f ≡ s.mapcounts f + T f) → IsValid (child_of m)
  child_of-IsValid m a = record {
    counted = λ f l. omega (arith, a f, valid.counted f l, refs-child_of m f);
    in_range = λ f l. omega (arith, valid.in_range f l, refs-child_of m f);
    bounded = λ f. omega (arith, a f, small f);
    exclusive = protected m s.current.pagetable;
    others =
        All-snoc (λ p. TableIsExclusive m p.pagetable) s.processes _
          (list-Keeps (λ f. list_refs f s.processes) s.mapcounts m s.processes (λ f. omega arith)
            kept valid.others)
          (protected m s.current.pagetable);
  }
    where
      kept : Keeps (λ f. list_refs f s.processes) s.mapcounts m
      kept e x occurs v w = elim (dec_lt e.pfn nr_pageframes) [
        | yes l ↦ (omega (arith, (x v w).0, occurs v, valid.counted e.pfn l, a e.pfn), (x v w).1)
        | no l ↦ absurd (omega (arith, occurs v, valid.in_range e.pfn (omega arith)))
      ]

  -- A fork from a valid system, in zeroed memory and with few processes, ends: the child has the
  -- new pid and runs, the parent is the last of the list, each entry of both names the frame that
  -- the parent's entry named, is valid and allocated for writing when that was, and is not
  -- writable; the count of every frame grows by the entries of the parent that map it, and the
  -- invariant of counts and exclusive frames holds.
  pub fork_process-Forked :
      (fresh : PageTable) → IsBlankTable fresh → Returns (Forked s pid) (fork_process fresh pid s)
  unfolding fork_process
  fork_process-Forked fresh blank =
      let (m, e, a) =
        count_table-Adds nr_ptes_per_page s.current.pagetable s.mapcounts
          (λ f l. omega (arith, valid.in_range f l)) small in
      let made : fork_process fresh pid s
          ≡ ok (child_with (child_table fresh s.current.pagetable) m) =
        ap
          (λ (r : Result Counts).
            r >>= λ m'. ok (child_with (child_table fresh s.current.pagetable) m'))
          e in
      let same : fork_process fresh pid s ≡ ok (child_of m) =
        made
        ∙ ap (λ (t : PageTable). ok (child_with t m))
            (child_table_blank fresh s.current.pagetable blank) in
      rw same (record {
        valid = child_of-IsValid m a;
        named = refl;
        child = protect_table-IsReadOnlyOf s.current.pagetable;
        parent_table = protect_table s.current.pagetable;
        parent = protect_table-IsReadOnlyOf s.current.pagetable;
        listed = refl;
        counts = a;
      })

module _ (s : System) (mode vpn : ℕ) where
  -- The same accesses are permitted, and the page has the same frame.
  abbrev SameAccess : System → Type 0
  SameAccess s' = (permits mode vpn s' ≡ permits mode vpn s) × (frame_of vpn s' ≡ frame_of vpn s)

  Forked-SameAccess :
      (pid : ℕ) (s' : System) → vpn < 256 → IsValid s → Forked s pid s' → SameAccess s'
  Forked-SameAccess pid s' l valid forked =
      go (s.current.pagetable (out_idx vpn)) (s'.current.pagetable (out_idx vpn)) refl
        (forked.child (out_idx vpn))
    where
      go :
          (o o' : Option Directory)
          → s.current.pagetable (out_idx vpn) ≡ o
          → SlotIsReadOnlyOf o o'
          → (entry_permits mode o' (vpn_idx vpn) ≡ entry_permits mode o (vpn_idx vpn))
            × (entry_frame o' (vpn_idx vpn) ≡ entry_frame o (vpn_idx vpn))
      go none none at same = (refl, refl)
      go none (some e) at same = absurd same
      go (some d) none at same = absurd same
      go (some d) (some e) at same =
          let x =
            valid.exclusive (out_idx vpn) (vpn_idx vpn) d (out_idx-lt vpn l) (vpn_idx-lt vpn) at in
          let (v, f, p, w) = same (vpn_idx vpn) in (ground (arith, x, v, p, w), f)

  -- After a fork from a valid system, in zeroed memory and with few processes, the child is
  -- permitted, at each page of the address space and in each mode, the accesses that the parent
  -- was before, and has the same frame there.
  pub permits-fork :
      (fresh : PageTable) (pid : ℕ)
      → vpn < 256
      → IsBlankTable fresh
      → IsValid s
      → FitsWord s
      → Returns
          (λ s'. (permits mode vpn s' ≡ permits mode vpn s) × (frame_of vpn s' ≡ frame_of vpn s))
          (fork_process fresh pid s)
  permits-fork fresh pid l blank valid few =
      go (fork_process fresh pid s) (fork_process-Forked s pid valid few fresh blank)
    where
      go : (r : Result System) → Returns (Forked s pid) r → Returns SameAccess r
      go (ok s') h = Forked-SameAccess pid s' l valid h
      go (Result.fault e) h = h

-- In a fork from a valid system with few processes, a page-table slot that is empty in the parent
-- holds, in the child of a fork, whatever the memory from malloc held before.
pub fork_process_uninitialised :
    (fresh : PageTable) (s : System) (pid i : ℕ)
    → IsValid s
    → FitsWord s
    → s.current.pagetable i ≡ none
    → Returns (λ s'. s'.current.pagetable i ≡ fresh i) (fork_process fresh pid s)
unfolding fork_process
fork_process_uninitialised fresh s pid i valid few empty =
    let (m, e, a) =
      count_table-Adds nr_ptes_per_page s.current.pagetable s.mapcounts
        (λ f l. omega (arith, valid.in_range f l)) (small s pid valid few) in
    rw e (ap (child_slot (fresh i)) empty)
