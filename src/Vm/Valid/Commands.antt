-- ===== src/Vm/Valid/Commands.antt =====
-- Every command keeps the invariant, and so does a session of them (vm.c: __do_simulation).
use operating_system_pa.Base.{
  subst, sum_below-zero, ℕ, ◌≤◌, ◌<◌, ◌≡◌, ◌≢◌, refl, sym, ap, ◌∙◌, inl, inr, Bool, true, false,
  Option, none, some, List, [], ◌∷◌, All, length, Bool-cases, Option-cases, Result, ok, Returns,
  arith, ◌>>=◌,
}
use operating_system_pa.Text.{Token, strtoimax}
use operating_system_pa.Vm.State.{
  rw_read, rw_write, Directory, PageTable, Process, System, init_system, refs, table_refs,
  list_refs,
}
use operating_system_pa.Vm.Pages.{out_idx, vpn_idx, free_frame, switch_process}
use operating_system_pa.Vm.Pages.Counting.{IsBlank}
use operating_system_pa.Vm.Mmu.{
  translate, translate_entry, one_access, access_memory, make_rwflag, alloc_command, free_command,
}
use operating_system_pa.Vm.Console.{
  Outcome, next, after, is_exit, is_switch, is_free, is_read, is_write, is_alloc, is_access,
  then_next, next_or_break, perform_two, perform_three, perform,
}
use operating_system_pa.Vm.Valid.{IsValid}
use operating_system_pa.Vm.Valid.Alloc.{
  IsUnmapped, translate_slot, alloc_command-Allocated, alloc_command_mapped,
}
use operating_system_pa.Vm.Valid.Release.{IsMapped, free_command-Freed}
use operating_system_pa.Vm.Valid.Writing.{access_memory-ends, writable-entry}
use operating_system_pa.Vm.Valid.Fork.{FitsWord, IsBlankTable}
use operating_system_pa.Vm.Valid.Switch.{Switched, switch_process-Switched}

-- A command that names a page has it in the address space and in a mode that exists.
abbrev pub IsLegal : List Token → Type 0
IsLegal [] = Unit
IsLegal (name ∷ []) = Unit
IsLegal (name ∷ arg ∷ []) = is_switch name ≡ false → strtoimax arg < 256
IsLegal (name ∷ vpn ∷ mode ∷ []) = (strtoimax vpn < 256) × (one_access (make_rwflag mode 0) ≡ true)
IsLegal (a ∷ b ∷ c ∷ d ∷ ts) = length (a ∷ b ∷ c ∷ d ∷ ts) ≤ 3

abbrev pub Keeps : Result Outcome → Type 0
Keeps r = Returns (λ o. IsValid (after o)) r

then_next-Keeps :
    (P : Bool × System → Type 0) (r : Result (Bool × System))
    → ((x : Bool × System) → P x → IsValid x.1)
    → Returns P r
    → Keeps (then_next r)
then_next-Keeps P (ok x) f h = f x h
then_next-Keeps P (Result.fault e) f h = h

next_or_break-Keeps :
    (P : Bool × System → Type 0) (r : Result (Bool × System))
    → ((x : Bool × System) → P x → IsValid x.1)
    → Returns P r
    → Keeps (next_or_break r)
next_or_break-Keeps P (ok (true, s)) f h = f (true, s) h
next_or_break-Keeps P (ok (false, s)) f h = f (false, s) h
next_or_break-Keeps P (Result.fault e) f h = h

Switched-Keeps :
    (s : System) (pid : ℕ) (r : Result System)
    → Returns (Switched s pid) r
    → Keeps (r >>= λ s'. ok (next s'))
Switched-Keeps s pid (ok s') h = h.valid
Switched-Keeps s pid (Result.fault e) h = h

-- A page that translates for a read is mapped.
mapped :
    (vpn f : ℕ) (s : System) (o : Option Directory)
    → s.current.pagetable (out_idx vpn) ≡ o
    → translate_entry rw_read (vpn_idx vpn) o ≡ some f
    → (d : Directory) × IsMapped s vpn d
mapped vpn f s none at e = cc
mapped vpn f s (some d) at e = (d, record { slot = at; present = ground arith })

free_command_unmapped :
    (vpn : ℕ) (s : System) → IsUnmapped vpn s → free_command vpn s ≡ ok (false, s)
unfolding free_command
free_command_unmapped vpn s u = rw u

module _ (s : System) (i : ℕ) (valid : IsValid s) (free : free_frame s.mapcounts ≡ some i) where
  free_command-Keeps : (vpn : ℕ) → vpn < 256 → Keeps (then_next (free_command vpn s))
  free_command-Keeps vpn l =
      let o = translate_entry rw_read (vpn_idx vpn) (s.current.pagetable (out_idx vpn)) in
      elim (Option-cases o) [
        | inl n ↦
            let same = free_command_unmapped vpn s (translate_slot rw_read vpn s l ∙ ap ok n) in
            rw same valid
        | inr (f, e) ↦
            let (d, at) = mapped vpn f s (s.current.pagetable (out_idx vpn)) refl e in
            then_next-Keeps _ (free_command vpn s) (λ x h. h.valid)
              (free_command-Freed s vpn d l valid at)
      ]

  access_memory-Keeps :
      (vpn mode : ℕ)
      → vpn < 256
      → one_access mode ≡ true
      → Keeps (then_next (access_memory vpn mode s))
  access_memory-Keeps vpn mode l one =
      then_next-Keeps _ (access_memory vpn mode s) (λ x h. h.valid)
        (access_memory-ends s vpn mode i l valid free one)

  alloc_command-Keeps :
      (fresh : Directory) (vpn mode : ℕ)
      → IsBlank fresh
      → vpn < 256
      → mode ≢ 0
      → Keeps (next_or_break (alloc_command fresh vpn mode s))
  alloc_command-Keeps fresh vpn mode blank l m =
      let o = translate_entry rw_read (vpn_idx vpn) (s.current.pagetable (out_idx vpn)) in
      elim (Option-cases o) [
        | inl n ↦
            next_or_break-Keeps _ (alloc_command fresh vpn mode s) (λ x h. h.0.valid)
              (alloc_command-Allocated fresh vpn mode i s l blank valid free m
                (translate_slot rw_read vpn s l ∙ ap ok n))
        | inr (f, e) ↦
            let same =
              alloc_command_mapped fresh vpn mode i s l blank valid free f m
                (translate_slot rw_read vpn s l ∙ ap ok e) in
            rw same valid
      ]

  perform_two-Keeps :
      (fresh : PageTable) (name : Token) (arg : ℕ)
      → IsBlankTable fresh
      → FitsWord s
      → (is_switch name ≡ false → arg < 256)
      → Keeps (perform_two fresh name arg s)
  unfolding perform_two
  perform_two-Keeps fresh name arg blank few small = elim (Bool-cases (is_switch name)) [
    | inl e ↦ rw e (
        Switched-Keeps s arg (switch_process fresh arg s)
          (switch_process-Switched fresh s arg blank valid few))
    | inr e ↦ elim (Bool-cases (is_free name)) [
      | inl k ↦ rw (e, k) (free_command-Keeps arg (small e))
      | inr k ↦ elim (Bool-cases (is_read name)) [
        | inl r ↦ rw (e, k, r) (access_memory-Keeps arg rw_read (small e) refl)
        | inr r ↦ elim (Bool-cases (is_write name)) [
          | inl w ↦ rw (e, k, r, w) (access_memory-Keeps arg rw_write (small e) refl)
          | inr w ↦ rw (e, k, r, w) valid
        ]
      ]
    ]
  ]

  perform_three-Keeps :
      (fresh : Directory) (name : Token) (vpn mode : ℕ)
      → IsBlank fresh
      → vpn < 256
      → one_access mode ≡ true
      → Keeps (perform_three fresh name vpn mode s)
  unfolding perform_three
  perform_three-Keeps fresh name vpn mode blank l one =
      let m : mode ≢ 0 = λ z. absurd (ground (arith, sym (ap one_access z) ∙ one)) in
      elim (Bool-cases (is_alloc name)) [
        | inl e ↦ rw e (alloc_command-Keeps fresh vpn mode blank l m)
        | inr e ↦ elim (Bool-cases (is_access name)) [
          | inl k ↦ rw (e, k) (access_memory-Keeps vpn mode l one)
          | inr k ↦ rw (e, k) valid
        ]
      ]

  -- From a valid system, in zeroed memory, while a frame is free and the processes are few, every
  -- legal command line of the simulator is carried out to its end and keeps the invariant: counts
  -- equal the mapping entries, and a writable entry is alone on its frame.
  pub perform-IsValid :
      (memory : Directory × PageTable) (tokens : List Token)
      → IsBlank memory.0
      → IsBlankTable memory.1
      → FitsWord s
      → IsLegal tokens
      → Keeps (perform memory tokens s)
  unfolding perform
  perform-IsValid memory [] b t few legal = valid
  perform-IsValid memory (name ∷ []) b t few legal = elim (Bool-cases (is_exit name)) [
    | inl e ↦ rw e valid
    | inr e ↦ rw e valid
  ]
  perform-IsValid memory (name ∷ arg ∷ []) b t few legal =
      perform_two-Keeps memory.1 name (strtoimax arg) t few legal
  perform-IsValid memory (name ∷ vpn ∷ mode ∷ []) b t few legal =
      perform_three-Keeps memory.0 name (strtoimax vpn) (make_rwflag mode 0) b legal.0 legal.1
  perform-IsValid memory (x ∷ y ∷ z ∷ w ∷ ts) b t few legal = absurd (omega (arith, legal))

-- The process 0 with no page.
pub init_system-IsValid : IsValid init_system
init_system-IsValid =
    let nothing : (f : ℕ) → refs f init_system ≡ 0 =
      λ f. omega (arith, sum_below-zero 16 (λ i. 0) (λ i. refl)) in
    record {
      counted = λ f l. omega (arith, nothing f);
      in_range = λ f l. nothing f;
      bounded = λ f. omega arith;
      exclusive = λ i j d li lj e. cc;
      others = tt;
    }

-- The systems that a session of legal commands goes through while a frame is free before each of
-- them, the memory that is handed out is zeroed, and the processes are few.
pub data Reached : System → Type 0 where
  started : Reached init_system
  performed :
      (memory : Directory × PageTable) (tokens : List Token) (i : ℕ) (s s' : System)
      → Reached s
      → free_frame s.mapcounts ≡ some i
      → IsBlank memory.0
      → IsBlankTable memory.1
      → FitsWord s
      → IsLegal tokens
      → perform memory tokens s ≡ ok (next s')
      → Reached s'

next-Keeps : (r : Result Outcome) (s' : System) → r ≡ ok (next s') → Keeps r → IsValid s'
next-Keeps r s' e h = subst (λ (x : Result Outcome). Keeps x) e h

-- Every system that a session of legal commands reaches from the initial process, with zeroed
-- memory, a free frame and few processes before each command, satisfies the invariant of counts
-- and permissions.
pub Reached-IsValid : (s : System) → Reached s → IsValid s
Reached-IsValid s started = init_system-IsValid
Reached-IsValid s (performed memory tokens i s₀ s' r free b t few legal e) =
    next-Keeps (perform memory tokens s₀) s' e
      (perform-IsValid s₀ i (Reached-IsValid s₀ r) free memory tokens b t few legal)

nothing_left :
    (f : ℕ) (ps : List Process) → list_refs f ps ≡ 0 → All (λ p. table_refs f p.pagetable ≡ 0) ps
nothing_left f [] e = tt
nothing_left f (p ∷ ps) e = (omega (arith, e), nothing_left f ps (omega (arith, e)))

-- After any session of legal commands, with zeroed memory, a free frame and few processes before
-- each of them, the frame of a page of the address space that translates for a write is mapped by
-- one entry of the current process and by no entry of any other.
pub writable_alone :
    (s : System) (vpn f : ℕ)
    → vpn < 256
    → Reached s
    → translate rw_write vpn s ≡ ok (some f)
    → (table_refs f s.current.pagetable ≡ 1) × All (λ p. table_refs f p.pagetable ≡ 0) s.processes
writable_alone s vpn f l r e =
    let (one, mine) = writable-entry s vpn f l (Reached-IsValid s r) e in
    (omega (arith, one, mine), nothing_left f s.processes (omega (arith, one, mine)))
