-- ===== src/Sched/Contract/Instances.antt =====
-- Which of the schedulers of pa2.c meet the contract whatever happens: FIFO, Priority, Priority with
-- PCP and Priority with PIP.
use operating_system_pa.Base.{Returns}
use operating_system_pa.Sched.Policies.{
  fifo_scheduler, prio_scheduler, pcp_scheduler, pip_scheduler, prio_schedule,
}
use operating_system_pa.Sched.Locking.{higher_prio}
use operating_system_pa.Sched.Sound.{Idle}
use operating_system_pa.Sched.State.{System}
use operating_system_pa.Sched.Contract.{Picked, Lawful}
use operating_system_pa.Sched.Contract.Acquire.{
  fcfs_acquire-Acquired, pcp_acquire-Acquired, pip_acquire-Acquired,
}
use operating_system_pa.Sched.Contract.Release.{fcfs_release-Released, prio_release-Released}
use operating_system_pa.Sched.Contract.Choices.{
  fifo_schedule-Picked, prio_schedule-Search, Search-Picked,
}

prio_schedule-Picked : (s : System) → Idle s → Returns (Picked s) (prio_schedule s)
prio_schedule-Picked s idle =
    Search-Picked (higher_prio s) s (prio_schedule s) idle (prio_schedule-Search s idle)

pub fifo-Lawful : Lawful fifo_scheduler
fifo-Lawful = record {
  locks = record { acquire = fcfs_acquire-Acquired; release = fcfs_release-Released };
  schedule = fifo_schedule-Picked;
}

pub prio-Lawful : Lawful prio_scheduler
prio-Lawful = record {
  locks = record { acquire = fcfs_acquire-Acquired; release = fcfs_release-Released };
  schedule = prio_schedule-Picked;
}

pub pcp-Lawful : Lawful pcp_scheduler
pcp-Lawful = record {
  locks = record { acquire = pcp_acquire-Acquired; release = prio_release-Released };
  schedule = prio_schedule-Picked;
}

pub pip-Lawful : Lawful pip_scheduler
pip-Lawful = record {
  locks = record { acquire = pip_acquire-Acquired; release = prio_release-Released };
  schedule = prio_schedule-Picked;
}
