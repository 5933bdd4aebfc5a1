-- ===== src/Vm/Valid/Writing.antt =====
-- Whole accesses (vm.c: __access_memory): what each case returns, and that the invariant holds.
use native.Mathlib.Decide.{dec_lt}
use operating_system_pa.Base.{
  ◌≤◌, ◌⊎◌, ℕ, ◌<◌, ◌≡◌, inl, inr, true, false, not, none, some, Option, refl, arith, Bool, ◌==◌,
  lt→ltb, Result, ok, Bool-cases, Returns, ◌∙◌, ap, sym, suc, ◌||◌, ◌&&◌,
}
use operating_system_pa.Vm.State.{
  nr_pageframes, rw_read, rw_write, Directory, System, refs, table_refs, maps,
}
use operating_system_pa.Vm.Pages.{
  out_idx, vpn_idx, free_frame, copy_on_write, fault_on_entry, handle_page_fault,
}
use operating_system_pa.Vm.Mmu.{translate, translate_entry, access_loop, one_access, access_memory}
use operating_system_pa.Vm.Pages.Counting.{maps-le-table_refs}
use operating_system_pa.Vm.Valid.{IsValid}
use operating_system_pa.Vm.Valid.Alloc.{out_idx-lt, vpn_idx-lt, translate_slot}
use operating_system_pa.Vm.Valid.Access.{
  handle_slot, IsShared, granted, granted-IsValid, copy_on_write-granted,
}

abbrev pub entry_frame : Option Directory → ℕ → ℕ
entry_frame none j = 0
entry_frame (some d) j = (d j).pfn

-- The frame that the current process has at `vpn`.
abbrev pub frame_of : ℕ → System → ℕ
frame_of vpn s = entry_frame (s.current.pagetable (out_idx vpn)) (vpn_idx vpn)

-- Whether the entry of a page lets an access through, at once or after the page fault.
abbrev pub entry_permits : ℕ → Option Directory → ℕ → Bool
entry_permits mode none j = false
entry_permits mode (some d) j =
    (d j).valid && (not (mode == rw_write) || (d j).writable || ((d j).private == 1))

abbrev pub permits : ℕ → ℕ → System → Bool
permits mode vpn s = entry_permits mode (s.current.pagetable (out_idx vpn)) (vpn_idx vpn)

-- What an access promises of its result and of the state that it leaves.
pub record Accessed (s : System) (vpn mode : ℕ) (r : Bool × System) : Type 0 where
  pub valid : IsValid r.1
  pub answer : r.0 ≡ permits mode vpn s
  pub opened : r.0 ≡ true → translate mode vpn r.1 ≡ ok (some (frame_of vpn r.1))
  pub refused : r.0 ≡ false → r.1 ≡ s

-- In a valid system, the frame of a page that translates for a write is mapped once in all, and that
-- is by the current process.
pub writable-entry :
    (s : System) (vpn f : ℕ)
    → vpn < 256
    → IsValid s
    → translate rw_write vpn s ≡ ok (some f)
    → (refs f s ≡ 1) × (1 ≤ table_refs f s.current.pagetable)
writable-entry s vpn f l valid e =
    go (s.current.pagetable (out_idx vpn)) refl (ground (arith, translate_slot rw_write vpn s l))
  where
    go :
        (o : Option Directory)
        → s.current.pagetable (out_idx vpn) ≡ o
        → translate_entry rw_write (vpn_idx vpn) o ≡ some f
        → (refs f s ≡ 1) × (1 ≤ table_refs f s.current.pagetable)
    go none at t = cc
    go (some d) at t =
        let x =
          valid.exclusive (out_idx vpn) (vpn_idx vpn) d (out_idx-lt vpn l) (vpn_idx-lt vpn) at in
        let once : s.mapcounts f ≡ 1 = ground (arith, x) in
        let here : maps f (d (vpn_idx vpn)) ≡ 1 = ground arith in
        let mine =
          maps-le-table_refs f s.current.pagetable (out_idx vpn) d (vpn_idx vpn) (out_idx-lt vpn l)
            (vpn_idx-lt vpn) at in
        elim (dec_lt f nr_pageframes) [
          | yes k ↦ (omega (arith, once, valid.counted f k), omega (arith, here, mine))
          | no k ↦ absurd (omega (arith, here, mine, valid.in_range f (omega arith)))
        ]

pub access_loop_hit :
    (mode vpn k f : ℕ) (s : System)
    → translate mode vpn s ≡ ok (some f)
    → access_loop (suc k) vpn mode s ≡ ok (true, s)
unfolding access_loop
access_loop_hit mode vpn k f s e = rw e

access_loop_miss :
    (mode vpn k : ℕ) (s : System)
    → translate mode vpn s ≡ ok none
    → handle_page_fault vpn mode s ≡ ok (false, s)
    → access_loop (suc k) vpn mode s ≡ ok (false, s)
unfolding access_loop
access_loop_miss mode vpn k s e h = rw (e, h)

pub access_loop_again :
    (mode vpn k : ℕ) (s s' : System)
    → translate mode vpn s ≡ ok none
    → handle_page_fault vpn mode s ≡ ok (true, s')
    → access_loop (suc k) vpn mode s ≡ access_loop k vpn mode s'
unfolding access_loop
access_loop_again mode vpn k s s' e h = rw (e, h)

pub fault_on_entry-copy_on_write :
    (mode vpn : ℕ) (d : Directory) (s : System)
    → IsShared s vpn d
    → fault_on_entry vpn mode (some d) s ≡ copy_on_write vpn d s
unfolding fault_on_entry
fault_on_entry-copy_on_write mode vpn d s h = rw (h.mapped.present, h.allowed)

module _ (s : System) (vpn mode i : ℕ) (l : vpn < 256) (valid : IsValid s)
    (free : free_frame s.mapcounts ≡ some i) where
  abbrev Ends : Result (Bool × System) → Type 0
  Ends r = Returns (Accessed s vpn mode) r

  abbrev slot : Option Directory
  slot = s.current.pagetable (out_idx vpn)

  hit :
      (d : Directory)
      → slot ≡ some d
      → (d (vpn_idx vpn)).valid ≡ true
      → (not (mode == rw_write) || (d (vpn_idx vpn)).writable) ≡ true
      → Ends (access_loop 2 vpn mode s)
  hit d at v w =
      let found : translate mode vpn s ≡ ok (some (frame_of vpn s)) =
        translate_slot mode vpn s l ∙ rw at (ground arith) in
      rw (access_loop_hit mode vpn 1 (frame_of vpn s) s found) (record {
        valid = valid;
        answer = rw at (ground arith);
        opened = λ t. found;
        refused = λ t. cc;
      })

  miss :
      translate_entry mode (vpn_idx vpn) slot ≡ none
      → fault_on_entry vpn mode slot s ≡ ok (false, s)
      → entry_permits mode slot (vpn_idx vpn) ≡ false
      → Ends (access_loop 2 vpn mode s)
  miss t h p =
      rw
        (access_loop_miss mode vpn 1 s (translate_slot mode vpn s l ∙ ap ok t)
          (handle_slot mode vpn s l ∙ h))
        (record { valid = valid; answer = sym p; opened = λ b. cc; refused = λ b. refl })

  -- A write to a shared page: the fault is handled, and the second translation succeeds.
  again :
      (d : Directory)
      → slot ≡ some d
      → IsShared s vpn d
      → (mode == rw_write) ≡ true
      → Ends (access_loop 2 vpn mode s)
  again d at h w =
      let s' = granted s vpn d l valid h.mapped h.allowed i in
      let missed : translate mode vpn s ≡ ok none =
        translate_slot mode vpn s l ∙ rw at (ground (arith, h.mapped.present, h.protected)) in
      let handled : handle_page_fault vpn mode s ≡ ok (true, s') =
        handle_slot mode vpn s l
        ∙ rw at (
            fault_on_entry-copy_on_write mode vpn d s h
            ∙ copy_on_write-granted s vpn d l valid h.mapped h.allowed i free) in
      let found : translate mode vpn s' ≡ ok (some (frame_of vpn s')) =
        translate_slot mode vpn s' l ∙ ground (arith, h.mapped.present) in
      rw
        (
          access_loop_again mode vpn 1 s s' missed handled,
          access_loop_hit mode vpn 0 (frame_of vpn s') s' found,
        )
        (record {
          valid = granted-IsValid s vpn d l valid h.mapped h.allowed i free;
          answer = rw at (ground (arith, h.mapped.present, h.allowed));
          opened = λ t. found;
          refused = λ t. cc;
        })

  on_slot : (o : Option Directory) → slot ≡ o → Ends (access_loop 2 vpn mode s)
  unfolding fault_on_entry
  on_slot none at = miss (rw at) (rw at) (rw at)
  on_slot (some d) at = elim (Bool-cases (d (vpn_idx vpn)).valid) [
    | inr v ↦ miss (rw at (rw v)) (rw at (rw v)) (rw at (rw v))
    | inl v ↦ elim (Bool-cases (not (mode == rw_write) || (d (vpn_idx vpn)).writable)) [
      | inl w ↦ hit d at v w
      | inr w ↦ elim (Bool-cases ((d (vpn_idx vpn)).private == 1)) [
        | inl p ↦
            again d at
              (record {
                mapped = record { slot = at; present = v };
                protected = ground arith;
                allowed = ground arith;
              })
              (ground arith)
        | inr p ↦ miss (rw at (ground arith)) (rw at (ground arith)) (rw at (ground arith))
      ]
    ]
  ]

  -- The assertion lets the modes 1, 2 and 3 through.
  pub access_memory-ends :
      one_access mode ≡ true → Returns (Accessed s vpn mode) (access_memory vpn mode s)
  unfolding access_memory
  access_memory-ends one = rw (one, lt→ltb vpn 256 l) (on_slot slot refl)

  -- From a valid system with a free frame, an access for reading (1) or for writing (2) to a page
  -- of the address space ends: it is granted exactly when the page is mapped and, for a write,
  -- open or allocated for writing; when granted, the page translates in that mode; when refused,
  -- the system is as before; and every frame count stays the number of entries that map the frame,
  -- with a writable entry alone on its frame.
  pub access_memory-Accessed :
      (mode ≡ rw_read) ⊎ (mode ≡ rw_write)
      → Returns (Accessed s vpn mode) (access_memory vpn mode s)
  access_memory-Accessed (inl r) = access_memory-ends (ap one_access r)
  access_memory-Accessed (inr w) = access_memory-ends (ap one_access w)
