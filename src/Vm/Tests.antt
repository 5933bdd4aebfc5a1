-- ===== src/Vm/Tests.antt =====
-- The theorems on paging at concrete states.
use operating_system_pa.Base.{
  List, [], ◌∷◌, ◌≡◌, refl, true, false, none, some, inr, All, Result, ok, fault, Returns, update,
  arith,
}
use operating_system_pa.Vm.State.{
  nr_pageframes, rw_read, rw_write, Directory, PageTable, System, init_system, table_refs,
}
use operating_system_pa.Vm.Pages.{
  alloc_page, first_free, count_directory, count_table, out_idx, vpn_idx, free_frame, or_fresh,
  fork_process, switch_process,
}
use operating_system_pa.Vm.Pages.Counting.{IsBlank}
use operating_system_pa.Vm.Pages.Free.{IsFirst}
use operating_system_pa.Vm.Mmu.{translate, access_memory, alloc_command, free_command}
use operating_system_pa.Vm.Valid.{IsValid}
use operating_system_pa.Vm.Valid.Alloc.{
  IsUnmapped, allocated, allocated-IsValid, Allocated, alloc_command-Allocated,
}
use operating_system_pa.Vm.Valid.Release.{IsMapped, Freed, free_command-Freed}
use operating_system_pa.Vm.Valid.Writing.{permits, frame_of, Accessed, access_memory-Accessed}
use operating_system_pa.Vm.Valid.Fork.{
  FitsWord, IsBlankTable, fork_process_uninitialised, Forked, fork_process-Forked, permits-fork,
}
use operating_system_pa.Vm.Valid.Switch.{Switched, switch_process-Switched}
use operating_system_pa.Text.{Token, strtoimax, magnitude, digits, strmatch}
use operating_system_pa.Vm.Mmu.{make_rwflag}
use operating_system_pa.Vm.Console.{next, perform, perform_three}
use operating_system_pa.Vm.Valid.Commands.{
  IsLegal, Keeps, init_system-IsValid, perform-IsValid, Reached, started, performed,
  Reached-IsValid, writable_alone,
}
use operating_system_pa.Vm.Valid.Full.{alloc_command_full, access_memory_full}

-- A directory of zeros.
abbrev blank : Directory
blank j = record { valid = false; writable = false; pfn = 0; private = 0 }

blank-IsBlank : IsBlank blank
blank-IsBlank j = refl

init_system-IsUnmapped : IsUnmapped 5 init_system
unfolding translate
init_system-IsUnmapped = refl

init_system-free : free_frame init_system.mapcounts ≡ some 0
unfolding first_free
init_system-free = refl

alloc_command-Allocated_example :
    Returns
      (λ r. Allocated init_system 5 rw_write 0 r × IsFirst 0 nr_pageframes init_system.mapcounts 0)
      (alloc_command blank 5 rw_write init_system)
alloc_command-Allocated_example =
    alloc_command-Allocated blank 5 rw_write 0 init_system (omega arith) blank-IsBlank
      init_system-IsValid init_system-free (omega arith) init_system-IsUnmapped

-- Page 5 is mapped to frame 0, for writing.
abbrev one_page : System
one_page =
    allocated blank 5 rw_write 0 init_system (omega arith) blank-IsBlank init_system-IsValid
      init_system-IsUnmapped init_system-free

one_page-IsValid : IsValid one_page
one_page-IsValid =
    allocated-IsValid blank 5 rw_write 0 init_system (omega arith) blank-IsBlank init_system-IsValid
      init_system-IsUnmapped init_system-free

abbrev page_dir : Directory
page_dir = update blank 5 (record { valid = true; writable = true; pfn = 0; private = 1 })

one_page-IsMapped : IsMapped one_page 5 page_dir
one_page-IsMapped = record { slot = refl; present = refl }

one_page-translate : translate rw_write 5 one_page ≡ ok (some 0)
unfolding translate
one_page-translate = refl

free_command-Freed_example : Returns (Freed one_page 5 0) (free_command 5 one_page)
free_command-Freed_example =
    free_command-Freed one_page 5 page_dir (omega arith) one_page-IsValid one_page-IsMapped

one_page-FitsWord : FitsWord one_page
one_page-FitsWord = omega arith

-- A page table of zeros.
abbrev zeros : PageTable
zeros i = none

zeros-IsBlankTable : IsBlankTable zeros
zeros-IsBlankTable i = refl

fork_process-Forked_example : Returns (Forked one_page 2) (fork_process zeros 2 one_page)
fork_process-Forked_example =
    fork_process-Forked one_page 2 one_page-IsValid one_page-FitsWord zeros zeros-IsBlankTable

switch_process-Switched_example : Returns (Switched one_page 2) (switch_process zeros 2 one_page)
switch_process-Switched_example =
    switch_process-Switched zeros one_page 2 zeros-IsBlankTable one_page-IsValid one_page-FitsWord

abbrev result : Result System → System
result (ok s) = s
result (fault e) = init_system

result-Returns : (P : System → Type 0) (r : Result System) → Returns P r → P (result r)
result-Returns P (ok s) h = h
result-Returns P (fault e) h = absurd h

-- A fork of process 0 with its one page.
abbrev child : System
child = result (fork_process zeros 2 one_page)

child-Forked : Forked one_page 2 child
child-Forked =
    result-Returns (Forked one_page 2) (fork_process zeros 2 one_page)
      (fork_process-Forked one_page 2 one_page-IsValid one_page-FitsWord zeros zeros-IsBlankTable)

permits-fork_example :
    Returns
      (λ s'.
        (permits rw_write 5 s' ≡ permits rw_write 5 one_page)
        × (frame_of 5 s' ≡ frame_of 5 one_page))
      (fork_process zeros 2 one_page)
permits-fork_example =
    permits-fork one_page rw_write 5 zeros 2 (omega arith) zeros-IsBlankTable one_page-IsValid
      one_page-FitsWord

child-free : free_frame child.mapcounts ≡ some 1
unfolding first_free fork_process count_table count_directory
child-free = refl

-- The child writes to the page that it shares with its parent.
access_memory-Accessed_example :
    Returns (Accessed child 5 rw_write) (access_memory 5 rw_write child)
access_memory-Accessed_example =
    access_memory-Accessed child 5 rw_write 1 (omega arith) child-Forked.valid child-free (inr refl)

abbrev full_system : System
full_system = record init_system { mapcounts = λ f. 1 }

alloc_command_full_example :
    Returns
      (λ r.
        (r.0 ≡ true)
        × (r.1.mapcounts ≡ full_system.mapcounts)
        × (translate rw_read 5 r.1
            ≡ ok (
                some (or_fresh blank (full_system.current.pagetable (out_idx 5)) (vpn_idx 5)).pfn)))
      (alloc_command blank 5 rw_read full_system)
unfolding first_free translate
alloc_command_full_example =
    alloc_command_full blank 5 rw_read full_system (omega arith) (omega arith) refl refl
      (omega arith)

-- Page 5 is shared, and no frame is free.
abbrev shared_dir : Directory
shared_dir = update blank 5 (record { valid = true; writable = false; pfn = 0; private = 1 })

abbrev crowded : System
crowded = record {
  current = record { pid = 2; pagetable = update (λ i. none) 0 (some shared_dir) };
  processes = record { pid = 0; pagetable = update (λ i. none) 0 (some shared_dir) } ∷ [];
  mapcounts = λ f. 2;
}

access_memory_full_example :
    Returns
      (λ r.
        (r.0 ≡ true)
        × (translate rw_write 5 r.1 ≡ ok (some 0))
        × (r.1.mapcounts ≡ crowded.mapcounts))
      (access_memory 5 rw_write crowded)
unfolding first_free
access_memory_full_example =
    access_memory_full crowded 5 shared_dir (omega arith) (omega arith)
      (record { mapped = record { slot = refl; present = refl }; protected = refl; allowed = refl })
      refl (omega arith)

-- Memory that held other directories.
abbrev leftovers : PageTable
leftovers i = some page_dir

fork_process_uninitialised_example :
    Returns (λ s'. s'.current.pagetable 1 ≡ some page_dir) (fork_process leftovers 2 one_page)
fork_process_uninitialised_example =
    fork_process_uninitialised leftovers one_page 2 1 one_page-IsValid one_page-FitsWord refl

-- `write 5` in the child.
abbrev write_page : List Token
write_page = (b'w' ∷ b'r' ∷ b'i' ∷ b't' ∷ b'e' ∷ []) ∷ (b'5' ∷ []) ∷ []

perform-IsValid_example : Keeps (perform (blank, zeros) write_page child)
unfolding strtoimax magnitude digits fork_process
perform-IsValid_example =
    perform-IsValid child 1 child-Forked.valid child-free (blank, zeros) write_page blank-IsBlank
      zeros-IsBlankTable (omega arith) (λ e. omega arith)

-- `alloc 5 w` in the initial system.
abbrev alloc_page_5 : List Token
alloc_page_5 = (b'a' ∷ []) ∷ (b'5' ∷ []) ∷ (b'w' ∷ []) ∷ []

alloc_page_5_done : perform (blank, zeros) alloc_page_5 init_system ≡ ok (next one_page)
unfolding perform perform_three alloc_command alloc_page translate first_free strtoimax magnitude
    digits strmatch make_rwflag
alloc_page_5_done = refl

alloc_page_5-IsLegal : IsLegal alloc_page_5
unfolding strtoimax magnitude digits make_rwflag
alloc_page_5-IsLegal = (omega arith, refl)

one_page-Reached : Reached one_page
one_page-Reached =
    performed (blank, zeros) alloc_page_5 0 init_system one_page started init_system-free
      blank-IsBlank zeros-IsBlankTable (omega arith) alloc_page_5-IsLegal alloc_page_5_done

Reached-IsValid_example : IsValid one_page
Reached-IsValid_example = Reached-IsValid one_page one_page-Reached

-- The page that `alloc 5 w` has mapped can be written.
writable_alone_example :
    (table_refs 0 one_page.current.pagetable ≡ 1)
    × All (λ p. table_refs 0 p.pagetable ≡ 0) one_page.processes
writable_alone_example =
    writable_alone one_page 5 0 (omega arith) one_page-Reached one_page-translate
