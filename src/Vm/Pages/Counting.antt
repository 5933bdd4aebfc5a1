-- ===== src/Vm/Pages/Counting.antt =====
-- The frame counts against the page tables: what one entry contributes, and what the loops of a
-- fork add.
use operating_system_pa.Base.{
  sum_below-le_times, ℕ, zero, suc, ◌+◌, ◌*◌, ◌≤◌, ◌<◌, ◌≡◌, refl, true, false, none, some, Option,
  List, [], ◌∷◌, ◌++◌, word, Result, ok, sum_below, sum_below-at, sum_below-ext, sum_below-zero,
  term-le-sum_below, update, length, arith, Bool-cases, inl, inr,
}
use operating_system_pa.Vm.State.{
  nr_pageframes, nr_ptes_per_page, Pte, Directory, PageTable, Process, Counts, maps, directory_refs,
  slot_refs, table_refs, list_refs,
}
use operating_system_pa.Vm.Pages.{
  count_entry, count_directory, count_slot, count_table, protect_slot, protect_table,
}

-- A directory that refers to no frame, as `malloc` leaves it when it happens to hand out zeros.
abbrev pub IsBlank : Directory → Type 0
IsBlank d = (j : ℕ) → (d j).valid ≡ false

pub blank-refs : (f : ℕ) (d : Directory) → IsBlank d → directory_refs f d ≡ 0
blank-refs f d h = sum_below-zero nr_ptes_per_page _ (λ j. ground (arith, h j))

-- The write of one entry.
pub directory_refs-update :
    (f : ℕ) (d : Directory) (j : ℕ) (p : Pte)
    → j < nr_ptes_per_page
    → directory_refs f (update d j p) + maps f (d j) ≡ directory_refs f d + maps f p
directory_refs-update f d j p l = ground (
  arith,
  sum_below-at nr_ptes_per_page (λ k. maps f (update d j p k)) (λ k. maps f (d k)) j l
      (λ k a b. ground arith),
)

pub table_refs-update :
    (f : ℕ) (t : PageTable) (i : ℕ) (d : Directory) (j : ℕ) (p : Pte)
    → i < nr_ptes_per_page
    → j < nr_ptes_per_page
    → slot_refs f (t i) ≡ directory_refs f d
    → table_refs f (update t i (some (update d j p))) + maps f (d j) ≡ table_refs f t + maps f p
table_refs-update f t i d j p li lj e =
    let whole =
      sum_below-at nr_ptes_per_page (λ k. slot_refs f (update t i (some (update d j p)) k))
        (λ k. slot_refs f (t k)) i li (λ k a b. ground arith) in
    let part = directory_refs-update f d j p lj in ground (arith, whole, part)

pub maps-le-table_refs :
    (f : ℕ) (t : PageTable) (i : ℕ) (d : Directory) (j : ℕ)
    → i < nr_ptes_per_page
    → j < nr_ptes_per_page
    → t i ≡ some d
    → maps f (d j) ≤ table_refs f t
maps-le-table_refs f t i d j li lj e =
    let slot : directory_refs f d ≡ slot_refs f (t i) = rw e in
    omega (
      arith,
      slot,
      term-le-sum_below nr_ptes_per_page (λ k. maps f (d k)) j lj,
      term-le-sum_below nr_ptes_per_page (λ k. slot_refs f (t k)) i li,
    )

pub maps_self : (p : Pte) → p.valid ≡ true → maps p.pfn p ≡ 1
maps_self p v = ground arith

slot_refs-le : (f : ℕ) (o : Option Directory) → slot_refs f o ≤ 16
slot_refs-le f none = omega arith
slot_refs-le f (some d) =
    omega (arith, sum_below-le_times nr_ptes_per_page 1 (λ j. maps f (d j)) (λ j. ground arith))

pub table_refs-le : (f : ℕ) (t : PageTable) → table_refs f t ≤ 256
table_refs-le f t = omega (
  arith,
  sum_below-le_times nr_ptes_per_page 16 (λ i. slot_refs f (t i)) (λ i. slot_refs-le f (t i)),
)

pub list_refs-le : (f : ℕ) (ps : List Process) → list_refs f ps ≤ 256 * length ps
list_refs-le f [] = omega arith
list_refs-le f (p ∷ ps) = omega (arith, list_refs-le f ps, table_refs-le f p.pagetable)

pub list_refs-append :
    (f : ℕ) (ps qs : List Process) → list_refs f (ps ++ qs) ≡ list_refs f ps + list_refs f qs
list_refs-append f [] qs = omega arith
list_refs-append f (p ∷ ps) qs = omega (arith, list_refs-append f ps qs)

-- Taking the write permission away changes no mapping.
slot_refs-protect : (f : ℕ) (o : Option Directory) → slot_refs f (protect_slot o) ≡ slot_refs f o
slot_refs-protect f none = refl
slot_refs-protect f (some d) = refl

pub table_refs-protect : (f : ℕ) (t : PageTable) → table_refs f (protect_table t) ≡ table_refs f t
table_refs-protect f t = sum_below-ext nr_ptes_per_page _ _ (λ i l. slot_refs-protect f (t i))

-- What a counting loop did: it ended, and added the references of what it went through.
abbrev pub Adds : (ℕ → ℕ) → Counts → Result Counts → Type 0
Adds g m r = (m' : Counts) × (r ≡ ok m') × ((f : ℕ) → m' f ≡ m f + g f)

abbrev pub InRange : (ℕ → ℕ) → Type 0
InRange g = (f : ℕ) → nr_pageframes ≤ f → g f ≡ 0

abbrev pub Fits : (ℕ → ℕ) → Counts → Type 0
Fits g m = (f : ℕ) → m f + g f < word

count_entry-Adds :
    (p : Pte) (m : Counts)
    → InRange (λ f. maps f p)
    → Fits (λ f. maps f p) m
    → Adds (λ f. maps f p) m (count_entry p m)
count_entry-Adds p m r w = elim (Bool-cases p.valid) [
  | inl v ↦
      let small : p.pfn < nr_pageframes = ground (arith, r p.pfn) in
      (update m p.pfn (m p.pfn + 1), ground (arith, w p.pfn), λ f. ground arith)
  | inr v ↦ (m, ground arith, λ f. ground arith)
]

pub count_directory-Adds :
    (n : ℕ) (d : Directory) (m : Counts)
    → InRange (λ f. sum_below n (λ j. maps f (d j)))
    → Fits (λ f. sum_below n (λ j. maps f (d j))) m
    → Adds (λ f. sum_below n (λ j. maps f (d j))) m (count_directory n d m)
unfolding count_directory sum_below
count_directory-Adds zero d m r w = (m, refl, λ f. omega arith)
count_directory-Adds (suc n) d m r w =
    let (m₁, e₁, a₁) =
      count_directory-Adds n d m (λ f l. omega (arith, r f l)) (λ f. omega (arith, w f)) in
    let (m₂, e₂, a₂) =
      count_entry-Adds (d n) m₁ (λ f l. omega (arith, r f l)) (λ f. omega (arith, w f, a₁ f)) in
    (m₂, rw e₁ e₂, λ f. omega (arith, a₁ f, a₂ f))

count_slot-Adds :
    (o : Option Directory) (m : Counts)
    → InRange (λ f. slot_refs f o)
    → Fits (λ f. slot_refs f o) m
    → Adds (λ f. slot_refs f o) m (count_slot o m)
count_slot-Adds none m r w = (m, refl, λ f. omega arith)
count_slot-Adds (some d) m r w = count_directory-Adds nr_ptes_per_page d m r w

pub count_table-Adds :
    (n : ℕ) (t : PageTable) (m : Counts)
    → InRange (λ f. sum_below n (λ i. slot_refs f (t i)))
    → Fits (λ f. sum_below n (λ i. slot_refs f (t i))) m
    → Adds (λ f. sum_below n (λ i. slot_refs f (t i))) m (count_table n t m)
unfolding count_table sum_below
count_table-Adds zero t m r w = (m, refl, λ f. omega arith)
count_table-Adds (suc n) t m r w =
    let (m₁, e₁, a₁) =
      count_table-Adds n t m (λ f l. omega (arith, r f l)) (λ f. omega (arith, w f)) in
    let (m₂, e₂, a₂) =
      count_slot-Adds (t n) m₁ (λ f l. omega (arith, r f l)) (λ f. omega (arith, w f, a₁ f)) in
    (m₂, rw e₁ e₂, λ f. omega (arith, a₁ f, a₂ f))
