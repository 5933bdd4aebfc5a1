-- ===== src/Sched/Safety/Whole.antt =====
-- Whole simulations, from the loaded script on.
use native.Mathlib.Decide.{ℕ_discrete}
use operating_system_pa.Base.{
  ℕ, zero, suc, ◌+◌, ◌≤◌, ◌<◌, ◌≡◌, refl, inl, inr, Option, none, List, [], ◌∷◌, ==_refl, ==_ne,
  has-append, All, word, Result, ok, Returns, Bool-cases, arith, ◌>>=◌,
}
use operating_system_pa.Sched.State.{
  nr_resources, ResourceSchedule, ready, Process, forkqueue, same_head, System, Scheduler,
  set_process,
}
use operating_system_pa.Sched.Policies.{
  fifo_scheduler, prio_scheduler, pcp_scheduler, pip_scheduler,
}
use operating_system_pa.Sched.Simulation.{
  Tick, continue, finished, tick, simulate, initialize, end_process, load_processes,
}
use operating_system_pa.Sched.Sound.{Unlinked, Pending, ProcessOk, Sound, Idle}
use operating_system_pa.Sched.Sound.Linking.{Queues-set_process, Queues-append}
use operating_system_pa.Sched.Contract.{Lawful}
use operating_system_pa.Sched.Contract.Instances.{fifo-Lawful, prio-Lawful, pcp-Lawful, pip-Lawful}
use operating_system_pa.Sched.Safety.Rounds.{Rounded, tick-Rounded}

-- A description, as __load_script leaves it, that gives the process a life, names resources of the
-- array, and gives every one of them back before the end of the life.
pub record IsScript (x : Process) : Type 0 where
  pub status : x.status ≡ ready
  pub age : x.age ≡ 0
  pub lives : 1 ≤ x.lifespan
  pub small : x.lifespan < word
  pub in_array : All (λ e. e.resource_id < nr_resources) x.resources_to_acquire
  pub returned :
      All (λ e. (1 ≤ e.duration) × (e.at + e.duration ≤ x.lifespan)) x.resources_to_acquire
  pub holding : x.resources_holding ≡ []

-- While the script is loaded: nothing runs, and the addresses from `n` on are unused.
record Loading (n : ℕ) (s : System) : Type 0 where
  sound : Sound s
  current : s.current ≡ none
  unused : (p : ℕ) → n ≤ p → Unlinked p s

all-Pending :
    (lifespan : ℕ) (l : List ResourceSchedule)
    → All (λ e. e.resource_id < nr_resources) l
    → All (λ e. (1 ≤ e.duration) × (e.at + e.duration ≤ lifespan)) l
    → All (Pending 0 lifespan) l
all-Pending lifespan [] a b = tt
all-Pending lifespan (e ∷ l) a b =
    ((a.0, b.0.0, omega arith, b.0.1), all-Pending lifespan l a.1 b.1)

script-ok : (o : ℕ → Option ℕ) (p : ℕ) (x : Process) → IsScript x → ProcessOk o p x
script-ok o p x h = record {
  alive = λ a. omega (arith, h.age, h.lives);
  grown = omega (arith, h.age);
  small = h.small;
  pending = rw h.age (all-Pending x.lifespan x.resources_to_acquire h.in_array h.returned);
  held = rw h.holding tt;
  ids = rw h.holding tt;
}

end_process-Loading :
    (n : ℕ) (x : Process) (s : System)
    → IsScript x
    → Loading n s
    → Loading (suc n) (end_process n x s)
end_process-Loading n x s h l =
    let s' = set_process s n x in
    let apart : Unlinked n s' = l.unused n (omega arith) in
    record {
      sound = record {
        queues =
            Queues-append s' n forkqueue apart (rw (==_refl n) h.status)
              (Queues-set_process s n x (l.unused n (omega arith)) l.sound.queues);
        processes = λ p. elim (ℕ_discrete p n) [
          | yes same ↦ rw (same, ==_refl n) (script-ok s.owner n x h)
          | no other ↦ rw (==_ne p n other) (l.sound.processes p)
        ];
      };
      current = l.current;
      unused = λ p le k. elim (Bool-cases (same_head k forkqueue)) [
        | inl e ↦
            let old = l.unused p (omega arith) forkqueue in
            rw (e, has-append p (s.queue forkqueue) (n ∷ []), old) (ground arith)
        | inr e ↦ rw e (l.unused p (omega arith) k)
      ];
    }

load_processes-Loading :
    (xs : List Process) (n : ℕ) (s : System)
    → All IsScript xs
    → Loading n s
    → Idle (load_processes n xs s)
unfolding load_processes
load_processes-Loading [] n s a l = record {
  sound = l.sound;
  active = λ c e. absurd (ground (arith, l.current));
}
load_processes-Loading (x ∷ xs) n s a l =
    load_processes-Loading xs (suc n) (end_process n x s) a.1 (end_process-Loading n x s a.0 l)

-- The state in which the simulation of a script starts.
abbrev pub loaded : List Process → System
loaded xs = load_processes 0 xs initialize

pub loaded-Idle : (xs : List Process) → All IsScript xs → Idle (loaded xs)
loaded-Idle xs a = load_processes-Loading xs 0 initialize a (record {
  sound = record {
    queues = record {
      distinct = λ h. tt;
      one_head = λ h k p t. absurd (ground arith);
      standing = λ h p t. absurd (ground arith);
    };
    processes = λ p. record {
      alive = λ h. absurd (ground arith);
      grown = omega arith;
      small = omega arith;
      pending = tt;
      held = tt;
      ids = tt;
    };
  };
  current = refl;
  unused = λ p h k. refl;
})

module _ (sched : Scheduler) (law : Lawful sched) where
  next_round :
      (n : ℕ)
      → ((s : System) → Idle s → Returns Rounded (simulate n sched s))
      → (res : Result Tick) → Returns Rounded res
      → Returns Rounded (
          res >>= λ t. elim t [
            | finished s' ↦ ok (finished s')
            | continue s' ↦ simulate n sched s'
          ])
  next_round n rec (ok (continue s)) h = rec s h
  next_round n rec (ok (finished s)) h = h
  next_round n rec (Result.fault f) h = h

  pub simulate-Rounded : (n : ℕ) (s : System) → Idle s → Returns Rounded (simulate n sched s)
  unfolding simulate
  simulate-Rounded zero s idle = idle
  simulate-Rounded (suc n) s idle =
      next_round n (λ t i. simulate-Rounded n t i) (tick sched s) (tick-Rounded sched law s idle)

-- A script whose processes live at least one tick and fewer than 2^32, ask only for resources
-- numbered below 32, hold each for at least one tick and give it back before they end runs under
-- FIFO, Priority, PCP and PIP for any number of rounds with no failed assertion, no corrupted list
-- and no null pointer; every state reached is sound, and a run that stops has nothing left to run
-- or to fork.
pub simulate-loaded :
    (n : ℕ) (xs : List Process)
    → All IsScript xs
    → Returns Rounded (simulate n fifo_scheduler (loaded xs))
      × Returns Rounded (simulate n prio_scheduler (loaded xs))
      × Returns Rounded (simulate n pcp_scheduler (loaded xs))
      × Returns Rounded (simulate n pip_scheduler (loaded xs))
simulate-loaded n xs a = (
  simulate-Rounded fifo_scheduler fifo-Lawful n (loaded xs) (loaded-Idle xs a),
  simulate-Rounded prio_scheduler prio-Lawful n (loaded xs) (loaded-Idle xs a),
  simulate-Rounded pcp_scheduler pcp-Lawful n (loaded xs) (loaded-Idle xs a),
  simulate-Rounded pip_scheduler pip-Lawful n (loaded xs) (loaded-Idle xs a),
)
