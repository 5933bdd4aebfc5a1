-- ===== src/Vm/Valid/Alloc.antt =====
-- The `alloc` command (vm.c: __alloc_page, pa4.c: alloc_page).
use operating_system_pa.Base.{
  ℕ, ◌/◌, ◌%◌, ◌<◌, ◌≡◌, ◌≢◌, inl, inr, true, false, none, some, Option, word, update, refl, arith,
  Bool, ◌==◌, lt→ltb, ok, if◌then◌else◌, Returns, ==_ne, ◌-◌, ◌∙◌,
}
use operating_system_pa.Vm.State.{
  nr_pageframes, nr_ptes_per_page, rw_read, rw_write, Pte, Directory, System,
}
use operating_system_pa.Vm.Pages.{out_idx, vpn_idx, free_frame, or_fresh, alloc_bits, alloc_page}
use operating_system_pa.Vm.Pages.Free.{IsFirst, free_frame-IsFirst}
use operating_system_pa.Vm.Pages.Counting.{IsBlank}
use operating_system_pa.Vm.Mmu.{translate, translate_entry, alloc_command}
use operating_system_pa.Vm.Valid.{IsValid}
use operating_system_pa.Vm.Valid.Entry.{WorksIn, write_entry, write_entry-IsValid}

pub out_idx-lt : (vpn : ℕ) → vpn < 256 → out_idx vpn < nr_ptes_per_page
out_idx-lt vpn l = ground arith

pub out_idx-div : (vpn : ℕ) → out_idx vpn ≡ vpn / nr_ptes_per_page
out_idx-div vpn = ground arith

pub vpn_idx-lt : (vpn : ℕ) → vpn_idx vpn < nr_ptes_per_page
vpn_idx-lt vpn = omega arith

pub translate_slot :
    (mode vpn : ℕ) (s : System)
    → vpn < 256
    → translate mode vpn s
      ≡ ok (translate_entry mode (vpn_idx vpn) (s.current.pagetable (out_idx vpn)))
unfolding translate
translate_slot mode vpn s l =
    rw (out_idx-div vpn, lt→ltb (vpn / nr_ptes_per_page) nr_ptes_per_page (omega arith))

-- The page is not mapped.
abbrev pub IsUnmapped : ℕ → System → Type 0
IsUnmapped vpn s = translate rw_read vpn s ≡ ok none

-- The entry that alloc_page writes.
abbrev pub new_entry : Directory → ℕ → ℕ → ℕ → Pte
new_entry d vpn mode i = record (alloc_bits mode (d (vpn_idx vpn))) { pfn = i }

WorksIn-or_fresh :
    (fresh : Directory) (s : System) (i : ℕ) (o : Option Directory)
    → IsBlank fresh
    → s.current.pagetable i ≡ o
    → WorksIn s.current.pagetable i (or_fresh fresh o)
WorksIn-or_fresh fresh s i none b e = inr (e, b)
WorksIn-or_fresh fresh s i (some d) b e = inl e

unmapped_entry :
    (fresh : Directory) (vpn : ℕ) (o : Option Directory)
    → IsBlank fresh
    → translate_entry rw_read (vpn % nr_ptes_per_page) o ≡ none
    → (or_fresh fresh o (vpn_idx vpn)).valid ≡ false
unmapped_entry fresh vpn none b e = b (vpn_idx vpn)
unmapped_entry fresh vpn (some d) b e = ground arith

module _ (fresh : Directory) (vpn mode i : ℕ) (s : System) (l : vpn < 256) (blank : IsBlank fresh)
    (valid : IsValid s) (unmapped : IsUnmapped vpn s) (free : free_frame s.mapcounts ≡ some i) where
  abbrev dir : Directory
  dir = or_fresh fresh (s.current.pagetable (out_idx vpn))

  abbrev pub allocated : System
  allocated =
      write_entry s (out_idx vpn) (vpn_idx vpn) dir (new_entry dir vpn mode i)
        (update s.mapcounts i 1)

  pub alloc_page-allocated : alloc_page fresh vpn mode s ≡ ok (i, allocated)
  unfolding alloc_page
  alloc_page-allocated =
      rw (lt→ltb (out_idx vpn) nr_ptes_per_page (out_idx-lt vpn l), lt→ltb vpn 256 l, free)

  old_invalid : (dir (vpn_idx vpn)).valid ≡ false
  unfolding translate
  old_invalid =
      unmapped_entry fresh vpn (s.current.pagetable (out_idx vpn)) blank
        (ground (arith, unmapped, out_idx-div vpn, out_idx-lt vpn l))

  pub allocated-IsValid : IsValid allocated
  allocated-IsValid =
      let first = free_frame-IsFirst s.mapcounts i free in
      write_entry-IsValid s (out_idx vpn) (vpn_idx vpn) dir (new_entry dir vpn mode i)
        (update s.mapcounts i 1) (out_idx-lt vpn l) (vpn_idx-lt vpn) valid
        (WorksIn-or_fresh fresh s (out_idx vpn) (s.current.pagetable (out_idx vpn)) blank refl)
        (λ f lf. ground (arith, old_invalid, first.unused)) (λ v. first.below)
        (λ f. ground (arith, valid.bounded f)) (λ v w. ground arith)
        (λ e x occurs v w. ground (arith, first.unused, x v w))

-- What the `alloc` command promises for a page that is not mapped yet, with `i` the free frame.
pub record Allocated (s : System) (vpn mode i : ℕ) (r : Bool × System) : Type 0 where
  pub valid : IsValid r.1
  pub answer : r.0 ≡ true
  -- The page can be read, and written if it was not allocated read-only.
  pub readable : translate rw_read vpn r.1 ≡ ok (some i)
  pub writing : translate rw_write vpn r.1 ≡ ok (if mode == rw_read then none else some i)
  pub count : r.1.mapcounts i ≡ 1
  pub other_counts : (f : ℕ) → f ≢ i → r.1.mapcounts f ≡ s.mapcounts f
  pub others : r.1.processes ≡ s.processes

module _ (fresh : Directory) (vpn mode i : ℕ) (s : System) (l : vpn < 256) (blank : IsBlank fresh)
    (valid : IsValid s) (free : free_frame s.mapcounts ≡ some i) where
  -- From a valid system with a free frame and zeroed memory from malloc, alloc of an unmapped page
  -- of the address space with a mode that is not 0 gives it the free frame of the smallest number
  -- with the asked permission and the count 1, changes no other count and no other process, and
  -- keeps the invariant.
  pub alloc_command-Allocated :
      mode ≢ 0
      → IsUnmapped vpn s
      → Returns
          (λ r. Allocated s vpn mode i r × IsFirst 0 nr_pageframes s.mapcounts i)
          (alloc_command fresh vpn mode s)
  unfolding alloc_command
  alloc_command-Allocated m u =
      let first = free_frame-IsFirst s.mapcounts i free in
      let s' = allocated fresh vpn mode i s l blank valid u free in
      rw
        (
          ==_ne mode 0 m,
          u,
          alloc_page-allocated fresh vpn mode i s l blank valid u free,
          ==_ne i (word - 1) (omega (arith, first.below)),
        )
        (
          record {
            valid = allocated-IsValid fresh vpn mode i s l blank valid u free;
            answer = refl;
            readable = translate_slot rw_read vpn s' l ∙ ground arith;
            writing = translate_slot rw_write vpn s' l ∙ ground arith;
            count = ground arith;
            other_counts = λ f ne. ground arith;
            others = refl;
          },
          first,
        )

  -- A page that is mapped is refused.
  pub alloc_command_mapped :
      (f : ℕ)
      → mode ≢ 0
      → translate rw_read vpn s ≡ ok (some f)
      → alloc_command fresh vpn mode s ≡ ok (false, s)
  unfolding alloc_command
  alloc_command_mapped f m u = rw (==_ne mode 0 m, u)
