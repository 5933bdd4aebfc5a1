-- ===== src/Vm/Valid/Switch.antt =====
-- The whole of `switch` (pa4.c: switch_process).
use operating_system_pa.Base.{
  ℕ, ◌+◌, ◌≡◌, ◌≢◌, inl, inr, none, some, Option, List, [], ◌∷◌, ◌++◌, All, refl, arith, ◌==◌,
  Result, ok, Bool-cases, Returns, Option-cases, ap, ◌⊎◌,
}
use operating_system_pa.Vm.State.{PageTable, Process, System, refs, table_refs, list_refs}
use operating_system_pa.Vm.Pages.{take_pid, fork_process, switch_to, switch_process}
use operating_system_pa.Vm.Pages.Counting.{list_refs-append}
use operating_system_pa.Vm.Valid.{IsValid, TableIsExclusive}
use operating_system_pa.Vm.Valid.Fork.{FitsWord, IsBlankTable, Forked, fork_process-Forked}

-- How the list `ps` splits when the first process with the pid is taken out.
pub record Taken (pid : ℕ) (ps : List Process) (p : Process) (qs : List Process) : Type 1 where
  pub named : p.pid ≡ pid
  pub before : List Process
  pub after : List Process
  pub split : ps ≡ before ++ p ∷ after
  pub others : qs ≡ before ++ after
  pub first : All (λ q. q.pid ≢ pid) before
  pub counts : (f : ℕ) → list_refs f ps ≡ table_refs f p.pagetable + list_refs f qs
  pub rest : (P : Process → Type 0) → All P ps → P p × All P qs

Taken-cons :
    (pid : ℕ) (x : Process) (ps : List Process) (p : Process) (qs : List Process)
    → x.pid ≢ pid
    → Taken pid ps p qs
    → Taken pid (x ∷ ps) p (x ∷ qs)
Taken-cons pid x ps p qs other t = record {
  named = t.named;
  before = x ∷ t.before;
  after = t.after;
  split = ap (λ (l : List Process). x ∷ l) t.split;
  others = ap (λ (l : List Process). x ∷ l) t.others;
  first = (other, t.first);
  counts = λ f. omega (arith, t.counts f);
  rest = λ P a. let (b, c) = t.rest P a.1 in (b, (a.0, c));
}

pub take_pid-Taken :
    (pid : ℕ) (ps : List Process) (p : Process) (qs : List Process)
    → take_pid pid ps ≡ some (p, qs)
    → Taken pid ps p qs
unfolding take_pid
take_pid-Taken pid [] p qs e = cc
take_pid-Taken pid (x ∷ ps) p qs e = elim (Bool-cases (pid == x.pid)) [
  | inl hit ↦
      let same : x ≡ p = ground arith in
      let others : ps ≡ qs = ground arith in
      rw (← same, ← others)
        (record {
          named = ground arith;
          before = [];
          after = ps;
          split = refl;
          others = refl;
          first = tt;
          counts = λ f. refl;
          rest = λ P a. (a.0, a.1);
        })
  | inr miss ↦ elim (Option-cases (take_pid pid ps)) [
    | inl n ↦ absurd (ground arith)
    | inr ((p', qs'), y) ↦
        let same : p' ≡ p = ground arith in
        let others : x ∷ qs' ≡ qs = ground arith in
        rw (← same, ← others)
          (Taken-cons pid x ps p' qs' (ground arith) (take_pid-Taken pid ps p' qs' y))
  ]
]

pub take_pid-none :
    (pid : ℕ) (ps : List Process) → take_pid pid ps ≡ none → All (λ p. p.pid ≢ pid) ps
unfolding take_pid
take_pid-none pid [] e = tt
take_pid-none pid (x ∷ ps) e = elim (Option-cases (take_pid pid ps)) [
  | inl n ↦ (ground arith, take_pid-none pid ps n)
  | inr ((p', qs'), y) ↦ absurd (ground (arith, y))
]

All-last :
    (P : Process → Type 0) (ps : List Process) (p : Process) → All P ps → P p → All P (ps ++ p ∷ [])
All-last P [] p h x = (x, tt)
All-last P (q ∷ ps) p h x = (h.0, All-last P ps p h.1 x)

Taken-IsValid :
    (s : System) (pid : ℕ) (p : Process) (qs : List Process)
    → IsValid s
    → Taken pid (s.processes ++ s.current ∷ []) p qs
    → IsValid (record s { current = p; processes = qs })
Taken-IsValid s pid p qs valid t =
    let same : (f : ℕ) → refs f (record s { current = p; processes = qs }) ≡ refs f s =
      λ f. omega (arith, t.counts f, list_refs-append f s.processes (s.current ∷ [])) in
    let (mine, rest) =
      t.rest (λ q. TableIsExclusive s.mapcounts q.pagetable)
        (All-last (λ q. TableIsExclusive s.mapcounts q.pagetable) s.processes s.current valid.others
          valid.exclusive) in
    record {
      counted = λ f l. omega (arith, valid.counted f l, same f);
      in_range = λ f l. omega (arith, valid.in_range f l, same f);
      bounded = valid.bounded;
      exclusive = mine;
      others = rest;
    }

-- The first process of the list with the pid has come to run, out of the list with the parent at
-- its end, and no count has changed.
pub record Found (s : System) (pid : ℕ) (s' : System) : Type 0 where
  pub before : List Process
  pub after : List Process
  pub split : s.processes ++ s.current ∷ [] ≡ before ++ s'.current ∷ after
  pub first : All (λ p. p.pid ≢ pid) before
  pub listed : s'.processes ≡ before ++ after
  pub counts : s'.mapcounts ≡ s.mapcounts

-- What a switch leaves: it forks only if no process has the pid.
pub record Switched (s : System) (pid : ℕ) (s' : System) : Type 0 where
  pub valid : IsValid s'
  pub running : s'.current.pid ≡ pid
  pub way :
      Found s pid s' ⊎ (All (λ p. p.pid ≢ pid) (s.processes ++ s.current ∷ []) × Forked s pid s')

-- From a valid system, switch in zeroed memory and with few processes ends; the invariant holds,
-- and the process with that pid runs. If a process of the list, the current one at its end, has
-- the pid, the first such runs, the others stay in their order and no count changes; it forks only
-- if none has the pid.
pub switch_process-Switched :
    (fresh : PageTable) (s : System) (pid : ℕ)
    → IsBlankTable fresh
    → IsValid s
    → FitsWord s
    → Returns (Switched s pid) (switch_process fresh pid s)
unfolding switch_process
switch_process-Switched fresh s pid blank valid few =
    go (take_pid pid (s.processes ++ s.current ∷ [])) refl
  where
    forked :
        (r : Result System)
        → All (λ p. p.pid ≢ pid) (s.processes ++ s.current ∷ [])
        → Returns (Forked s pid) r
        → Returns (Switched s pid) r
    forked (ok s') new h = record { valid = h.valid; running = h.named; way = inr (new, h) }
    forked (Result.fault e) new h = h

    go :
        (o : Option (Process × List Process))
        → take_pid pid (s.processes ++ s.current ∷ []) ≡ o
        → Returns (Switched s pid) (switch_to fresh pid s o)
    go none e =
        forked (fork_process fresh pid s) (take_pid-none pid (s.processes ++ s.current ∷ []) e)
          (fork_process-Forked s pid valid few fresh blank)
    go (some (p, qs)) e =
        let t = take_pid-Taken pid (s.processes ++ s.current ∷ []) p qs e in
        record {
          valid = Taken-IsValid s pid p qs valid t;
          running = t.named;
          way = inl (record {
            before = t.before;
            after = t.after;
            split = t.split;
            first = t.first;
            listed = t.others;
            counts = refl;
          });
        }
