-- ===== src/Sched/Proc.antt =====
-- `struct proc_struct` (Smart MLFG/kern/process/proc.h), the fields that scheduling, waiting and the
-- process tree read, and `alloc_proc` (kern/process/proc.c). The kernel stack, the memory map, the
-- saved registers and the name are left out: no modelled function branches on them.
use a_smart_mlfq_project_bas.Common.{ℕ, Bool, false, Option, none}
use a_smart_mlfq_project_bas.Common.Int.{ℤ, pos, negsuc}

-- `enum proc_state`
pub data ProcState : Type 0 where
  uninit sleeping runnable zombie : ProcState

-- The state of an embedded list entry: its pointers are `NULL` after `alloc_proc`, point to itself
-- after `list_init` or `list_del_init`, and to neighbours while it stands in a list.
pub data Link : Type 0 where
  null self linked : Link

pub record Proc : Type 0 where
  pub state : ProcState
  pub pid : ℤ
  pub runs : ℕ
  pub need_resched : Bool
  pub parent : Option ℕ
  pub flags : ℕ
  pub exit_code : ℤ
  pub wait_state : ℕ
  pub cptr : Option ℕ
  pub yptr : Option ℕ
  pub optr : Option ℕ
  pub on_rq : Bool  -- `proc->rq == rq`; there is one run queue, and `rq` is it or `NULL`
  pub run_link : Link
  pub time_slice : ℤ
  pub lab6_stride : ℕ  -- uint32_t
  pub lab6_priority : ℕ  -- uint32_t
  pub mlfq_level : ℤ
  pub current_slice_ticks : ℤ
  pub sched_count : ℕ  -- int, as its 32-bit word
  pub cpu_time_total : ℕ  -- unsigned int
  pub last_burst : ℕ  -- unsigned int
  pub cpu_score : ℤ
  pub io_score : ℤ

-- The fields that `alloc_proc` sets when `kmalloc` gives it a block. It leaves `exit_code` as the
-- block has it, so that is an argument.
abbrev pub alloc_proc : ℤ → Proc
alloc_proc garbage = record {
  state = uninit;
  pid = negsuc 0;
  runs = 0;
  need_resched = false;
  parent = none;
  flags = 0;
  exit_code = garbage;
  wait_state = 0;
  cptr = none;
  yptr = none;
  optr = none;
  on_rq = false;
  run_link = null;
  time_slice = pos 0;
  lab6_stride = 0;
  lab6_priority = 0;
  mlfq_level = pos 0;
  current_slice_ticks = pos 0;
  sched_count = 0;
  cpu_time_total = 0;
  last_burst = 0;
  cpu_score = pos 0;
  io_score = pos 0;
}

-- the fields that no scheduling class touches, and those of the tree of processes
pub record Kin : Type 0 where
  pub pid : ℤ
  pub parent : Option ℕ
  pub flags : ℕ
  pub exit_code : ℤ
  pub cptr : Option ℕ
  pub yptr : Option ℕ
  pub optr : Option ℕ

abbrev pub kin : Proc → Kin
kin q = record {
  pid = q.pid;
  parent = q.parent;
  flags = q.flags;
  exit_code = q.exit_code;
  cptr = q.cptr;
  yptr = q.yptr;
  optr = q.optr;
}
