-- ===== src/Sched/State.antt =====
-- The state of kern/schedule: `struct run_queue` and `struct sched_class` (sched.h), and the
-- private `mlfq_inst` of the MLFQ classes. A process is named by its address.
use a_smart_mlfq_project_bas.Common.{ℕ, ◌+◌, ◌-◌, ◌^◌, Bool, true, false, List, Option}
use a_smart_mlfq_project_bas.Common.Int.{ℤ, u32}
use a_smart_mlfq_project_bas.Common.Store.{update}
use a_smart_mlfq_project_bas.Sched.Proc.{ProcState, runnable, Link, self, linked, Proc}

-- `struct run_queue`, without the run pool of the stride scheduler
pub record RunQueue : Type 0 where
  pub run_list : List ℕ
  pub proc_num : ℕ  -- unsigned int
  pub max_time_slice : ℤ

-- `struct mlfq_data`: the four queues by level, and the timer of the boost
pub record MlfqData : Type 0 where
  pub queues : ℕ → List ℕ
  pub global_timer : ℕ  -- unsigned int

pub record SchedState : Type 0 where
  pub procs : ℕ → Proc
  pub rq : RunQueue
  pub mlfq_inst : MlfqData

-- `struct sched_class`. `none` is a failed assertion or an access out of bounds.
pub record SchedClass : Type 0 where
  pub init : SchedState → SchedState
  pub enqueue : SchedState → ℕ → Option SchedState
  pub dequeue : SchedState → ℕ → Option SchedState
  pub pick_next : SchedState → SchedState × Option ℕ
  pub proc_tick : SchedState → ℕ → SchedState

abbrev pub is_runnable : ProcState → Bool
is_runnable runnable = true
is_runnable _ = false

abbrev pub is_linked : Link → Bool
is_linked linked = true
is_linked _ = false

-- `list_empty(&(proc->run_link))`: the entry points to itself
abbrev pub list_empty : Link → Bool
list_empty self = true
list_empty _ = false

abbrev pub set_proc : SchedState → ℕ → Proc → SchedState
set_proc s p v = record s { procs = update s.procs p v }

-- `rq->proc_num ++` and `rq->proc_num --` on an unsigned int
abbrev pub inc_u32 : ℕ → ℕ
inc_u32 n = u32 (n + 1)

abbrev pub dec_u32 : ℕ → ℕ
dec_u32 n = u32 (n + 2 ^ 32 - 1)
