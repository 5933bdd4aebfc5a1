-- ===== src/Lib.antt =====
-- A model of the operating-system assignments of this repository, with the theorems that make them
-- correct. The directories are sce213-pa2-2020s (CPU scheduling), sce213-pa3-2020s (locks and a ring
-- buffer) and sce213-pa4-2020s (paging), with the parsers of command lines that the programs read
-- with, that of sce213-pa0-2020s among them. The programs are separate; two of them share the parser.
--
-- Sched, the CPU scheduling simulator.
--   sched.c drives a simulation: at each tick it forks the processes that are due, asks the chosen
--   scheduler for the next process, retires the previous one, and lets the next one acquire what it
--   needs, age by a tick, and release what it is done with. The schedulers of pa2.c are records of
--   callbacks. Both work on the global queues, resources and `current`.
--   Sched/State      process.h, resource.h, sched.h and the globals of sched.c: `struct process` is
--                    Process, a pointer to one is its address, list heads are sequences (Head), the
--                    globals are System, `struct scheduler` is Scheduler.
--   Sched/Locking    pa2.c: fcfs_acquire, fcfs_release, pcp_acquire, prio_release, pip_acquire.
--   Sched/Policies   pa2.c: fifo_schedule, sjf_schedule, srtf_schedule, rr_schedule, prio_schedule and
--                    the seven schedulers.
--   Sched/Simulation sched.c: __fork_on_schedule, __exit_process, __run_current_acquire,
--                    __run_current_release, __do_simulation, __initialize.
--   Sched/Script     sched.c: __load_script and main.
--   Sched/Sound      the invariant. Sched/Contract: what the framework relies on from the callbacks,
--                    and the schedulers that meet it. Sched/Safety: rounds and whole simulations.
--                    Sched/Progress: what a round leaves of the work of the processes. Sched/Choice:
--                    what each policy and protocol chooses. Sched/Loading: the whole program on the
--                    text of a script; Sched/Loaded: what the loader leaves in memory. Sched/Tests, Sched/ScriptTests, Sched/ProgressTests: runs.
--
-- Vm, the virtual memory simulator.
--   vm.c reads commands and simulates the MMU, pa4.c is the part of the kernel that it calls. Both
--   work on `current`, `processes`, `ptbr` and `mapcounts`.
--   Vm/State   vm.h and the globals of vm.c: Pte, Directory, PageTable, Process, System.
--   Vm/Pages   pa4.c: alloc_page, free_page, handle_page_fault, switch_process.
--   Vm/Mmu     vm.c: __translate, __access_memory, __make_rwflag, __alloc_page, __free_page.
--   Vm/Console vm.c: __do_simulation.
--   Vm/Valid   the invariant of counts and permissions, and each operation and command against it.
--              Vm/Tests: runs.
--
-- Locks, the locks of sce213-pa3-2020s.
--   Locks/Spin  atomic.h: compare_and_swap; pa3.c: init_spinlock, acquire_spinlock, release_spinlock,
--               as steps of threads that interleave in any order. Locks/Exclusion: one thread at a
--               time.
--   Locks/Mutex pa3.c: init_mutex, acquire_mutex, release_mutex, statement by statement.
--               Locks/Permits: the invariant of permits, queue and signals, each statement against
--               it, and what follows for the threads; Locks/Permits/Passing: permits that one
--               thread takes and another gives back. Locks/Signals: the pending signals, which all
--               mutexes share. Locks/Tests: runs.
--
-- Ring, the ring buffer of sce213-pa3-2020s and the threads that use it.
--   enqueue_into_ringbuffer and dequeue_from_ringbuffer of pa3.c each take a permit of one semaphore,
--   then the mutex, and give a permit to the other semaphore. The generators (generator.c) and the
--   counter (counter.c) call them through the wrappers of main.c, and main.c compares their counts.
--   Ring/State   pa3.c: struct ringbuffer, init_ringbuffer and the two operations, statement by
--                statement; main.c: __enqueue_rb, __dequeue_rb, __init_rb; the loops of generator_main
--                and counter_main.
--   Ring/Totals  generator.c: fini_generators; main.c: compare_results and the start of the threads.
--   Ring/Signals: the three mutexes together. Ring/Lines: how many threads are where. Ring/Slots: the
--                slots as a queue. Ring/Invariant, Ring/Preservation: the invariant and each statement
--                against it. Ring/Order: the queue. Ring/Totals/Agreement: the counts. Ring/Tests: runs.
--
-- Text, the parsers of command lines (parser.c of sce213-pa1-2020s, sce213-pa2-2020s and
--   sce213-pa4-2020s), and the number readers of the C library that the programs call. Both
--   simulators read their input through it. Text/Splitting: the parser against a description.
--   Text/Quoted is parse_command of sce213-pa0-2020s/pa0.c, on the whole array that holds the line.
--
-- Base holds what these share: tests on numbers, lists, sums, and Result, in which an operation
-- either ends or stops with a Fault: a null pointer followed, an index out of bounds, a failed
-- assertion, or a list node linked while it is in a list.
--
-- Numbers are natural numbers. An `unsigned int` that is counted up or down wraps at 2 ^ 32 (word,
-- inc, dec), an `unsigned long` at 2 ^ 64; other fields are only copied and compared. `S` of
-- a mutex, an `int` in the source, is an unbounded integer here: it counts permits up and threads
-- down, so its range is that of their numbers. The simulation
-- loop of sched.c runs on fuel, one unit for a round; its theorems hold for any number of rounds, and
-- Sched/Progress/Whole says how many are enough. Threads take steps in any order, so a theorem on them
-- is about every state that some order of steps leads to. The loop of __access_memory runs
-- twice at most, which the source bounds itself. The other loops are structural.
--
-- Memory from `malloc` is a parameter where the code reads it before it writes it.
--
-- Not modelled: printing and files; the options, delays, barriers and the lock tester of
-- sce213-pa3-2020s; the shell of sce213-pa1-2020s; list_head.h, a copy of the list library of the Linux
-- kernel; the drafts that no Makefile builds.
pub mod Base
pub mod Locks
pub mod Ring
pub mod Sched
pub mod Text
pub mod Vm
