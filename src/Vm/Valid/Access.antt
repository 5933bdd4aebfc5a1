-- ===== src/Vm/Valid/Access.antt =====
-- Memory accesses (vm.c: __translate, __access_memory; pa4.c: handle_page_fault).
use operating_system_pa.Base.{
  ℕ, ◌-◌, ◌<◌, ◌≡◌, ◌≢◌, inl, inr, true, false, some, dec, update, refl, arith, ◌==◌, lt→ltb, ok,
  Bool-cases, if◌then◌else◌,
}
use operating_system_pa.Vm.State.{nr_pageframes, nr_ptes_per_page, Pte, Directory, System}
use operating_system_pa.Vm.Pages.{
  out_idx, vpn_idx, free_frame, copy_on_write, fault_on_entry, handle_page_fault,
}
use operating_system_pa.Vm.Pages.Free.{free_frame-IsFirst}
use operating_system_pa.Vm.Valid.{IsValid}
use operating_system_pa.Vm.Valid.Alloc.{out_idx-lt, vpn_idx-lt}
use operating_system_pa.Vm.Valid.Release.{IsMapped, mapped_frame, mapped_count}
use operating_system_pa.Vm.Valid.Entry.{write_entry, write_entry-IsValid}

pub handle_slot :
    (mode vpn : ℕ) (s : System)
    → vpn < 256
    → handle_page_fault vpn mode s ≡ fault_on_entry vpn mode (s.current.pagetable (out_idx vpn)) s
unfolding handle_page_fault
handle_slot mode vpn s l = rw (lt→ltb (out_idx vpn) nr_ptes_per_page (out_idx-lt vpn l))

-- The page was allocated for writing, but its entry does not let the write through now.
pub record IsShared (s : System) (vpn : ℕ) (d : Directory) : Type 0 where
  pub mapped : IsMapped s vpn d
  pub protected : (d (vpn_idx vpn)).writable ≡ false
  pub allowed : (d (vpn_idx vpn)).private ≡ 1

module _ (s : System) (vpn : ℕ) (d : Directory) (l : vpn < 256) (valid : IsValid s)
    (at : IsMapped s vpn d) (allowed : (d (vpn_idx vpn)).private ≡ 1) where
  abbrev reopened : Pte
  reopened = record (d (vpn_idx vpn)) { writable = true }

  -- The last user of a frame gets it back.
  abbrev pub kept : System
  kept = write_entry s (out_idx vpn) (vpn_idx vpn) d reopened s.mapcounts

  -- Another user moves to the frame `i`.
  abbrev pub copied : ℕ → System
  copied i =
      write_entry s (out_idx vpn) (vpn_idx vpn) d (record reopened { pfn = i })
        (update (update s.mapcounts reopened.pfn (s.mapcounts reopened.pfn - 1)) i 1)

  kept-IsValid : s.mapcounts (d (vpn_idx vpn)).pfn ≡ 1 → IsValid kept
  kept-IsValid one =
      write_entry-IsValid s (out_idx vpn) (vpn_idx vpn) d reopened s.mapcounts (out_idx-lt vpn l)
        (vpn_idx-lt vpn) valid (inl at.slot) (λ f lf. refl) (λ v. mapped_frame l valid at)
        valid.bounded (λ v w. (one, allowed)) (λ e x occurs. x)

  copied-IsValid :
      (i : ℕ)
      → s.mapcounts (d (vpn_idx vpn)).pfn ≢ 1
      → free_frame s.mapcounts ≡ some i
      → IsValid (copied i)
  copied-IsValid i many free =
      let first = free_frame-IsFirst s.mapcounts i free in
      write_entry-IsValid s (out_idx vpn) (vpn_idx vpn) d (record reopened { pfn = i })
        (update (update s.mapcounts reopened.pfn (s.mapcounts reopened.pfn - 1)) i 1)
        (out_idx-lt vpn l) (vpn_idx-lt vpn) valid (inl at.slot)
        (λ f lf. ground (arith, at.present, mapped_count l valid at, first.unused))
        (λ v. first.below)
        (λ f. ground (arith, valid.bounded f, valid.bounded (d (vpn_idx vpn)).pfn))
        (λ v w. (ground arith, allowed)) (λ e x occurs v w. ground (arith, x v w, first.unused))

  -- What copy_on_write returns while a frame is free.
  abbrev pub granted : ℕ → System
  granted i = if s.mapcounts (d (vpn_idx vpn)).pfn == 1 then kept else copied i

  pub granted-IsValid : (i : ℕ) → free_frame s.mapcounts ≡ some i → IsValid (granted i)
  granted-IsValid i free = elim (Bool-cases (s.mapcounts (d (vpn_idx vpn)).pfn == 1)) [
    | inl e ↦ rw e (kept-IsValid (ground arith))
    | inr e ↦ rw e (copied-IsValid i (ground arith) free)
  ]

  pub copy_on_write-granted :
      (i : ℕ) → free_frame s.mapcounts ≡ some i → copy_on_write vpn d s ≡ ok (true, granted i)
  unfolding copy_on_write
  copy_on_write-granted i free =
      let first = free_frame-IsFirst s.mapcounts i free in
      let count = mapped_count l valid at in
      let down : dec (s.mapcounts (d (vpn_idx vpn)).pfn) ≡ s.mapcounts (d (vpn_idx vpn)).pfn - 1 =
        omega (arith, count, valid.bounded (d (vpn_idx vpn)).pfn) in
      elim (Bool-cases (s.mapcounts (d (vpn_idx vpn)).pfn == 1)) [
        | inl e ↦ rw (lt→ltb (d (vpn_idx vpn)).pfn nr_pageframes (mapped_frame l valid at), e)
        | inr e ↦
            let apart : (i == (d (vpn_idx vpn)).pfn) ≡ false =
              ground (arith, first.unused, count) in
            rw (
              lt→ltb (d (vpn_idx vpn)).pfn nr_pageframes (mapped_frame l valid at),
              e,
              free,
              down,
              apart,
              first.unused,
            )
      ]
