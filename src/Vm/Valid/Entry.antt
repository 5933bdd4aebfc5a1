-- ===== src/Vm/Valid/Entry.antt =====
-- A write of one entry of the current page table, with the counts changed to match.
use native.Mathlib.Decide.{ℕ_discrete, dec_lt}
use operating_system_pa.Base.{
  ℕ, ◌+◌, ◌≤◌, ◌<◌, ◌≡◌, ◌⊎◌, inl, inr, true, none, some, List, [], ◌∷◌, word, All, update, sym, ap,
  ◌∙◌, arith,
}
use operating_system_pa.Vm.State.{
  nr_pageframes, nr_ptes_per_page, Pte, Directory, PageTable, Process, Counts, System, refs,
  table_refs, list_refs, maps, slot_refs, directory_refs, set_directory,
}
use operating_system_pa.Vm.Pages.Counting.{
  IsBlank, blank-refs, table_refs-update, maps-le-table_refs, maps_self,
}
use operating_system_pa.Vm.Valid.{IsExclusive, TableIsExclusive, IsValid}

-- What a table's entry keeps when the counts change from `m` to `m'`, if it is among the `r f` that
-- map the frame `f` afterwards.
abbrev pub Keeps : (ℕ → ℕ) → Counts → Counts → Type 0
Keeps r m m' = (e : Pte) → IsExclusive m e → (e.valid ≡ true → 1 ≤ r e.pfn) → IsExclusive m' e

pub table-Keeps :
    (r : ℕ → ℕ) (m m' : Counts) (t : PageTable)
    → ((f : ℕ) → table_refs f t ≤ r f)
    → Keeps r m m'
    → TableIsExclusive m t
    → TableIsExclusive m' t
table-Keeps r m m' t le keep x i j d li lj e = keep (d j) (x i j d li lj e) (λ v.
    omega (arith, le (d j).pfn, maps-le-table_refs (d j).pfn t i d j li lj e, maps_self (d j) v))

pub list-Keeps :
    (r : ℕ → ℕ) (m m' : Counts) (ps : List Process)
    → ((f : ℕ) → list_refs f ps ≤ r f)
    → Keeps r m m'
    → All (λ p. TableIsExclusive m p.pagetable) ps
    → All (λ p. TableIsExclusive m' p.pagetable) ps
list-Keeps r m m' [] le keep x = tt
list-Keeps r m m' (p ∷ ps) le keep x = (
  table-Keeps r m m' p.pagetable (λ f. omega (arith, le f)) keep x.0,
  list-Keeps r m m' ps (λ f. omega (arith, le f)) keep x.1,
)

-- The directory in which an operation works: the one in the table, or a blank one for an empty slot.
abbrev pub WorksIn : PageTable → ℕ → Directory → Type 0
WorksIn t i d = (t i ≡ some d) ⊎ ((t i ≡ none) × IsBlank d)

WorksIn-refs :
    (t : PageTable) (i : ℕ) (d : Directory) (f : ℕ)
    → WorksIn t i d
    → slot_refs f (t i) ≡ directory_refs f d
WorksIn-refs t i d f (inl e) = rw e
WorksIn-refs t i d f (inr (e, b)) = rw e (sym (blank-refs f d b))

WorksIn-IsExclusive :
    (m : Counts) (t : PageTable) (i j : ℕ) (d : Directory)
    → i < nr_ptes_per_page
    → j < nr_ptes_per_page
    → TableIsExclusive m t
    → WorksIn t i d
    → IsExclusive m (d j)
WorksIn-IsExclusive m t i j d li lj x (inl e) = x i j d li lj e
WorksIn-IsExclusive m t i j d li lj x (inr (e, b)) = λ v w. absurd (ground (arith, b j))

-- The state after the write.
abbrev pub write_entry : System → ℕ → ℕ → Directory → Pte → Counts → System
write_entry s i j d p m' = record (set_directory s i (update d j p)) { mapcounts = m' }

pub refs-write_entry :
    (s : System) (i j : ℕ) (d : Directory) (p : Pte) (m' : Counts) (f : ℕ)
    → i < nr_ptes_per_page
    → j < nr_ptes_per_page
    → WorksIn s.current.pagetable i d
    → refs f (write_entry s i j d p m') + maps f (d j) ≡ refs f s + maps f p
refs-write_entry s i j d p m' f li lj at =
    let e =
      table_refs-update f s.current.pagetable i d j p li lj
        (WorksIn-refs s.current.pagetable i d f at) in
    omega (arith, e)

module _ (s : System) (i j : ℕ) (d : Directory) (p : Pte) (m' : Counts) (li : i < nr_ptes_per_page)
    (lj : j < nr_ptes_per_page) (valid : IsValid s) (at : WorksIn s.current.pagetable i d)
    (moved : (f : ℕ) → f < nr_pageframes → m' f + maps f (d j) ≡ s.mapcounts f + maps f p)
    (range : p.valid ≡ true → p.pfn < nr_pageframes) (small : (f : ℕ) → m' f < word)
    (fresh : IsExclusive m' p)
    (keep : (e : Pte)
      → IsExclusive s.mapcounts e
      → (e.valid ≡ true → 1 ≤ m' e.pfn)
      → IsExclusive m' e) where
  after : System
  after = write_entry s i j d p m'

  counted' : (f : ℕ) → f < nr_pageframes → m' f ≡ refs f after
  unfolding after
  counted' f l =
      omega (arith, moved f l, valid.counted f l, refs-write_entry s i j d p m' f li lj at)

  maps_out : (f : ℕ) → nr_pageframes ≤ f → maps f p ≡ 0
  maps_out f l = ground (arith, range)

  in_range' : (f : ℕ) → nr_pageframes ≤ f → refs f after ≡ 0
  unfolding after
  in_range' f l =
      omega (arith, maps_out f l, valid.in_range f l, refs-write_entry s i j d p m' f li lj at)

  within : (f : ℕ) → 1 ≤ refs f after → 1 ≤ m' f
  within f h = elim (dec_lt f nr_pageframes) [
    | yes l ↦ omega (arith, counted' f l)
    | no l ↦ omega (arith, in_range' f (omega arith))
  ]

  Keeps' : Keeps (λ f. refs f after) s.mapcounts m'
  Keeps' e x occurs = keep e x (λ v. within e.pfn (occurs v))

  exclusive' : TableIsExclusive m' after.current.pagetable
  unfolding after
  exclusive' i' j' d' li' lj' e = elim (ℕ_discrete i' i) [
    | no other ↦ Keeps' (d' j') (valid.exclusive i' j' d' li' lj' (ground arith)) (λ v. omega (
      arith,
      maps_self (d' j') v,
      maps-le-table_refs (d' j').pfn after.current.pagetable i' d' j' li' lj' e,
    ))
    | yes same ↦
        let here : update d j p ≡ d' = ground arith in
        elim (ℕ_discrete j' j) [
          | yes e' ↦ ground (arith, here, fresh)
          | no ne ↦
              let old : d' j' ≡ d j' = ap (λ (g : Directory). g j') (sym here) ∙ ground arith in
              Keeps' (d' j')
                (rw old (
                  WorksIn-IsExclusive s.mapcounts s.current.pagetable i j' d li lj' valid.exclusive
                    at))
                (λ v. omega (
                  arith,
                  maps_self (d' j') v,
                  maps-le-table_refs (d' j').pfn after.current.pagetable i' d' j' li' lj' e,
                ))
        ]
  ]

  pub write_entry-IsValid : IsValid (write_entry s i j d p m')
  unfolding after
  write_entry-IsValid = record {
    counted = counted';
    in_range = in_range';
    bounded = small;
    exclusive = exclusive';
    others =
        list-Keeps (λ f. refs f after) s.mapcounts m' s.processes (λ f. omega arith) Keeps'
          valid.others;
  }
