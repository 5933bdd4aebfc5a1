-- ===== src/Vm/Valid/Release.antt =====
-- The `free` command (vm.c: __free_page, pa4.c: free_page).
use operating_system_pa.Base.{
  ℕ, ◌+◌, ◌-◌, ◌≤◌, ◌<◌, ◌≡◌, ◌≢◌, inl, true, false, none, some, dec, update, refl, arith, Bool,
  lt→ltb, ok, Returns, ◌∙◌,
}
use operating_system_pa.Vm.State.{
  nr_pageframes, nr_ptes_per_page, rw_read, Pte, Directory, System, refs,
}
use operating_system_pa.Vm.Pages.{out_idx, vpn_idx, free_page}
use operating_system_pa.Vm.Pages.Counting.{maps-le-table_refs, maps_self}
use operating_system_pa.Vm.Mmu.{translate, free_command}
use operating_system_pa.Vm.Valid.{IsValid}
use operating_system_pa.Vm.Valid.Alloc.{out_idx-lt, vpn_idx-lt, translate_slot}
use operating_system_pa.Vm.Valid.Entry.{write_entry, write_entry-IsValid}

-- The entry of a page that is mapped.
pub record IsMapped (s : System) (vpn : ℕ) (d : Directory) : Type 0 where
  pub slot : s.current.pagetable (out_idx vpn) ≡ some d
  pub present : (d (vpn_idx vpn)).valid ≡ true

module _ {s : System} {vpn : ℕ} {d : Directory} (l : vpn < 256) (valid : IsValid s)
    (at : IsMapped s vpn d) where
  -- A mapped frame is counted, and is one of the system's.
  pub mapped_refs : 1 ≤ refs (d (vpn_idx vpn)).pfn s
  mapped_refs = omega (
    arith,
    maps_self (d (vpn_idx vpn)) at.present,
    maps-le-table_refs (d (vpn_idx vpn)).pfn s.current.pagetable (out_idx vpn) d (vpn_idx vpn)
        (out_idx-lt vpn l) (vpn_idx-lt vpn) at.slot,
  )

  pub mapped_frame : (d (vpn_idx vpn)).pfn < nr_pageframes
  mapped_frame = grind (arith, valid.in_range (d (vpn_idx vpn)).pfn, mapped_refs)

  pub mapped_count : 1 ≤ s.mapcounts (d (vpn_idx vpn)).pfn
  mapped_count = omega (arith, valid.counted (d (vpn_idx vpn)).pfn mapped_frame, mapped_refs)

abbrev blank_entry : Pte
blank_entry = record { valid = false; writable = false; pfn = 0; private = 0 }

module _ (s : System) (vpn : ℕ) (d : Directory) (l : vpn < 256) (valid : IsValid s)
    (at : IsMapped s vpn d) where
  abbrev pub freed : System
  freed =
      let f = (d (vpn_idx vpn)).pfn in
      write_entry s (out_idx vpn) (vpn_idx vpn) d blank_entry
        (update s.mapcounts f (s.mapcounts f - 1))

  dec_count : (f : ℕ) → 1 ≤ s.mapcounts f → dec (s.mapcounts f) ≡ s.mapcounts f - 1
  dec_count f h = omega (arith, valid.bounded f)

  pub free_page-freed : free_page vpn s ≡ ok freed
  unfolding free_page
  free_page-freed = rw (
    lt→ltb (out_idx vpn) nr_ptes_per_page (out_idx-lt vpn l),
    at.slot,
    lt→ltb (d (vpn_idx vpn)).pfn nr_pageframes (mapped_frame l valid at),
    dec_count (d (vpn_idx vpn)).pfn (mapped_count l valid at),
  )

  pub freed-IsValid : IsValid freed
  freed-IsValid =
      let f = (d (vpn_idx vpn)).pfn in
      write_entry-IsValid s (out_idx vpn) (vpn_idx vpn) d blank_entry
        (update s.mapcounts f (s.mapcounts f - 1)) (out_idx-lt vpn l) (vpn_idx-lt vpn) valid
        (inl at.slot) (λ g lg. ground (arith, at.present, mapped_count l valid at)) (λ v. cc)
        (λ g. ground (arith, valid.bounded g, valid.bounded f)) (λ v w. cc)
        (λ e x occurs v w. ground (arith, x v w, occurs v, mapped_count l valid at))

-- What the `free` command promises for a page that is mapped to the frame `f`.
pub record Freed (s : System) (vpn f : ℕ) (r : Bool × System) : Type 0 where
  pub valid : IsValid r.1
  pub answer : r.0 ≡ true
  pub unmapped : translate rw_read vpn r.1 ≡ ok none
  pub count : r.1.mapcounts f + 1 ≡ s.mapcounts f
  pub other_counts : (g : ℕ) → g ≢ f → r.1.mapcounts g ≡ s.mapcounts g
  pub others : r.1.processes ≡ s.processes

-- From a valid system, free of a mapped page of the address space unmaps it, takes one from the
-- count of its frame and from no other, and keeps the invariant.
pub free_command-Freed :
    (s : System) (vpn : ℕ) (d : Directory)
    → vpn < 256
    → IsValid s
    → IsMapped s vpn d
    → Returns (Freed s vpn (d (vpn_idx vpn)).pfn) (free_command vpn s)
unfolding free_command
free_command-Freed s vpn d l valid at =
    let found : translate rw_read vpn s ≡ ok (some (d (vpn_idx vpn)).pfn) =
      translate_slot rw_read vpn s l ∙ rw at.slot (ground (arith, at.present)) in
    let count = mapped_count l valid at in
    rw (found, free_page-freed s vpn d l valid at)
      (record {
        valid = freed-IsValid s vpn d l valid at;
        answer = refl;
        unmapped = translate_slot rw_read vpn (freed s vpn d l valid at) l ∙ ground arith;
        count = ground (arith, count);
        other_counts = λ g ne. ground arith;
        others = refl;
      })
