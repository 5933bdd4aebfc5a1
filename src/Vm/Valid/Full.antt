-- ===== src/Vm/Valid/Full.antt =====
-- What the code does when no frame is free (pa4.c: alloc_page, handle_page_fault).
use operating_system_pa.Base.{
  ℕ, ◌-◌, ◌<◌, ◌≡◌, ◌≢◌, true, none, some, word, refl, arith, lt→ltb, ==_ne, ok, Returns, ◌∙◌,
  update,
}
use operating_system_pa.Vm.State.{
  nr_pageframes, nr_ptes_per_page, rw_read, rw_write, Directory, System, set_directory,
}
use operating_system_pa.Vm.Pages.{
  out_idx, vpn_idx, free_frame, or_fresh, alloc_bits, alloc_page, copy_on_write, handle_page_fault,
}
use operating_system_pa.Vm.Mmu.{translate, alloc_command, access_memory}
use operating_system_pa.Vm.Valid.Alloc.{IsUnmapped, out_idx-lt, translate_slot}
use operating_system_pa.Vm.Valid.Access.{IsShared, handle_slot}
use operating_system_pa.Vm.Valid.Writing.{
  fault_on_entry-copy_on_write, access_loop_hit, access_loop_again,
}

-- With every frame in use, alloc of an unmapped page of the address space with a mode that is not
-- 0 answers true, counts nothing, and maps the page to the frame number that its entry held
-- before, if that is in range.
pub alloc_command_full :
    (fresh : Directory) (vpn mode : ℕ) (s : System)
    → vpn < 256
    → mode ≢ 0
    → IsUnmapped vpn s
    → free_frame s.mapcounts ≡ none
    → (or_fresh fresh (s.current.pagetable (out_idx vpn)) (vpn_idx vpn)).pfn < nr_pageframes
    → Returns
        (λ r.
          (r.0 ≡ true)
          × (r.1.mapcounts ≡ s.mapcounts)
          × (translate rw_read vpn r.1
              ≡ ok (some (or_fresh fresh (s.current.pagetable (out_idx vpn)) (vpn_idx vpn)).pfn)))
        (alloc_command fresh vpn mode s)
unfolding alloc_command alloc_page
alloc_command_full fresh vpn mode s l m u full small =
    let d = or_fresh fresh (s.current.pagetable (out_idx vpn)) in
    let s' =
      set_directory s (out_idx vpn) (update d (vpn_idx vpn) (alloc_bits mode (d (vpn_idx vpn)))) in
    rw
      (
        ==_ne mode 0 m,
        u,
        lt→ltb (out_idx vpn) nr_ptes_per_page (out_idx-lt vpn l),
        lt→ltb vpn 256 l,
        full,
        ==_ne (d (vpn_idx vpn)).pfn (word - 1) (omega arith),
      )
      (refl, refl, translate_slot rw_read vpn s' l ∙ ground arith)

-- With every frame in use, a write to a page of the address space that was allocated for writing,
-- is protected now, and whose frame does not count one user, succeeds without a copy: the entry is
-- opened on the shared frame, and no count changes.
pub access_memory_full :
    (s : System) (vpn : ℕ) (d : Directory)
    → vpn < 256
    → (d (vpn_idx vpn)).pfn < nr_pageframes
    → IsShared s vpn d
    → free_frame s.mapcounts ≡ none
    → s.mapcounts (d (vpn_idx vpn)).pfn ≢ 1
    → Returns
        (λ r.
          (r.0 ≡ true)
          × (translate rw_write vpn r.1 ≡ ok (some (d (vpn_idx vpn)).pfn))
          × (r.1.mapcounts ≡ s.mapcounts))
        (access_memory vpn rw_write s)
unfolding access_memory copy_on_write
access_memory_full s vpn d l small h full many =
    let s' =
      set_directory s (out_idx vpn)
        (update d (vpn_idx vpn) (record (d (vpn_idx vpn)) { writable = true })) in
    let missed : translate rw_write vpn s ≡ ok none =
      translate_slot rw_write vpn s l
      ∙ rw h.mapped.slot (ground (arith, h.mapped.present, h.protected)) in
    let copied : copy_on_write vpn d s ≡ ok (true, s') = rw (
      lt→ltb (d (vpn_idx vpn)).pfn nr_pageframes small,
      ==_ne (s.mapcounts (d (vpn_idx vpn)).pfn) 1 many,
      full,
    ) in
    let handled : handle_page_fault vpn rw_write s ≡ ok (true, s') =
      handle_slot rw_write vpn s l
      ∙ rw h.mapped.slot (fault_on_entry-copy_on_write rw_write vpn d s h ∙ copied) in
    let found : translate rw_write vpn s' ≡ ok (some (d (vpn_idx vpn)).pfn) =
      translate_slot rw_write vpn s' l ∙ ground (arith, h.mapped.present) in
    rw
      (
        lt→ltb vpn 256 l,
        access_loop_again rw_write vpn 1 s s' missed handled,
        access_loop_hit rw_write vpn 0 (d (vpn_idx vpn)).pfn s' found,
      )
      (refl, found, refl)
