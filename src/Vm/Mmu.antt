-- ===== src/Vm/Mmu.antt =====
-- sce213-pa4-2020s/vm.c: the MMU and the operations behind the commands. What they print is left
-- out.
use Prim.Native.Nat.{bit_and, bit_or, bit_xor}
use operating_system_pa.Base.{
  ℕ, zero, suc, ◌-◌, ◌*◌, ◌/◌, ◌%◌, Bool, true, false, not, ◌&&◌, ◌||◌, Option, none, some, List,
  [], ◌∷◌, ◌==◌, ltb, if◌then◌else◌, word, Result, ok, assertion, ◌>>=◌, ◌>>◌, guard,
}
use operating_system_pa.Vm.State.{nr_ptes_per_page, rw_read, rw_write, Directory, System, outer}
use operating_system_pa.Vm.Pages.{alloc_page, free_page, handle_page_fault}

abbrev pub translate_entry : ℕ → ℕ → Option Directory → Option ℕ
translate_entry mode pte_index none = none
translate_entry mode pte_index (some pd) =
    if not (pd pte_index).valid
    then none
    else if (mode == rw_write) && not (pd pte_index).writable
    then none
    else some (pd pte_index).pfn

-- `none` is the result `false`, `some pfn` is `true` with `*pfn` written.
unfoldable pub translate : ℕ → ℕ → System → Result (Option ℕ)
translate mode vpn s = do
  pd ← outer s.current.pagetable (vpn / nr_ptes_per_page)
  ok (translate_entry mode (vpn % nr_ptes_per_page) pd)

-- The do-while loop. `retries` counts the faults that may still be tried before `nr_retries < 2`
-- fails; at each round the loop ends on a translation, on a fault that is not handled (`false`), or
-- with the last `ret`, which is `true`.
unfoldable pub access_loop : ℕ → ℕ → ℕ → System → Result (Bool × System)
access_loop zero vpn mode s = ok (true, s)
access_loop (suc retries) vpn mode s = do
  pfn ← translate mode vpn s
  elim pfn [
    | some f ↦ ok (true, s)
    | none ↦ do
      (handled, s') ← handle_page_fault vpn mode s
      if handled then access_loop retries vpn mode s' else ok (false, s')
  ]

-- The asserted test `(rw & RW_READ) ^ (rw & RW_WRITE)`.
abbrev pub one_access : ℕ → Bool
one_access mode = not (bit_xor (bit_and mode rw_read) (bit_and mode rw_write) == 0)

unfoldable pub access_memory : ℕ → ℕ → System → Result (Bool × System)
unfolding access_loop
access_memory vpn mode s = do
  guard (one_access mode) assertion
  guard (ltb vpn (nr_ptes_per_page * nr_ptes_per_page)) assertion
  access_loop 2 vpn mode s

-- The letters are character codes.
unfoldable pub make_rwflag : List ℕ → ℕ → ℕ
make_rwflag [] rwflag = rwflag
make_rwflag (c ∷ mode) rwflag =
    let r = if (c == b'r') || (c == b'R') then bit_or rwflag rw_read else rwflag in
    make_rwflag mode (if (c == b'w') || (c == b'W') then bit_or r rw_write else r)

unfoldable pub alloc_command : Directory → ℕ → ℕ → System → Result (Bool × System)
alloc_command fresh vpn mode s = do
  guard (not (mode == 0)) assertion
  old ← translate rw_read vpn s
  elim old [
    | some f ↦ ok (false, s)
    | none ↦ do
      (pfn, s') ← alloc_page fresh vpn mode s
      if pfn == word - 1 then ok (false, s') else ok (true, s')
  ]

unfoldable pub free_command : ℕ → System → Result (Bool × System)
free_command vpn s = do
  old ← translate rw_read vpn s
  elim old [ none ↦ ok (false, s) | some f ↦ do s' ← free_page vpn s; ok (true, s') ]
