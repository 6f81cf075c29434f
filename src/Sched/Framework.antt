-- ===== src/Sched/Framework.antt =====
-- The framework of kern/schedule/sched.c over a scheduling class: wake-ups, the choice of the next
-- process, and ticks. Interrupts are off in each function (`local_intr_save`), so a call is one step.
pub mod Laws
pub mod Wakeup
pub mod Schedule
use a_smart_mlfq_project_bas.Common.{
  ◌==◌, if◌then◌else◌, ◌>>=◌, ◌>>◌, assert, ℕ, ◌+◌, Bool, true, false, not, Option, none, some,
}
use a_smart_mlfq_project_bas.Common.Int.{pos}
use a_smart_mlfq_project_bas.Sched.Proc.{ProcState, runnable, zombie, Proc}
use a_smart_mlfq_project_bas.Sched.State.{SchedState, SchedClass, is_runnable, set_proc}

-- The state of sched.c and of the pointers `current` and `idleproc` of kern/process/proc.c.
pub record Kernel : Type 0 where
  pub sched : SchedState
  pub current : ℕ
  pub idleproc : ℕ

abbrev pub is_zombie : ProcState → Bool
is_zombie zombie = true
is_zombie _ = false

-- the process at an address
abbrev pub proc_at : Kernel → ℕ → Proc
proc_at k p = k.sched.procs p

-- a write to the process at an address
abbrev pub put_proc : Kernel → ℕ → Proc → Kernel
put_proc k p q = record k { sched = set_proc k.sched p q }

unfoldable pub sched_init : SchedClass → SchedState → SchedState
sched_init c s = c.init (record s { rq = record (s.rq) { max_time_slice = pos 5 } })

module _ (c : SchedClass) where
  unfoldable pub sched_class_enqueue : Kernel → ℕ → Option Kernel
  sched_class_enqueue k p =
      if p == k.idleproc then some k else c.enqueue k.sched p >>= λ s. some (record k { sched = s })

  unfoldable pub sched_class_dequeue : Kernel → ℕ → Option Kernel
  sched_class_dequeue k p = c.dequeue k.sched p >>= λ s. some (record k { sched = s })

  unfoldable pub sched_class_proc_tick : Kernel → ℕ → Kernel
  sched_class_proc_tick k p =
      if p == k.idleproc
      then put_proc k p (record (proc_at k p) { need_resched = true })
      else record k { sched = c.proc_tick k.sched p }

  -- the branch of `wakeup_proc` for a process that is not runnable
  unfoldable pub make_runnable : Kernel → ℕ → Option Kernel
  make_runnable k p =
      let k₁ = put_proc k p (record (proc_at k p) { state = runnable; wait_state = 0 }) in
      if p == k.current then some k₁ else sched_class_enqueue k₁ p

  -- A runnable process is only warned about.
  unfoldable pub wakeup_proc : Kernel → ℕ → Option Kernel
  wakeup_proc k p = do
    assert (not (is_zombie (proc_at k p).state))
    if is_runnable (proc_at k p).state then some k else make_runnable k p

  -- The address space and the stack are switched by the hardware and by switch.S.
  unfoldable pub proc_run : Kernel → ℕ → Kernel
  proc_run k p = if p == k.current then k else record k { current = p }

  -- `if (next != NULL) dequeue(next); if (next == NULL) next = idleproc;`
  unfoldable pub take_choice : Kernel → SchedState × Option ℕ → Option (Kernel × ℕ)
  take_choice k (s, none) = some (record k { sched = s }, k.idleproc)
  take_choice k (s, some p) = sched_class_dequeue (record k { sched = s }) p >>= λ k'. some (k', p)

  unfoldable pub choose : Kernel → Option (Kernel × ℕ)
  choose k = take_choice k (c.pick_next k.sched)

  unfoldable pub run_next : Kernel × ℕ → Kernel
  run_next (k, next) =
      proc_run (put_proc k next (record (proc_at k next) { runs = (proc_at k next).runs + 1 })) next

  unfoldable pub requeue_current : Kernel → Option Kernel
  requeue_current k =
      if is_runnable (proc_at k k.current).state then sched_class_enqueue k k.current else some k

  unfoldable pub schedule : Kernel → Option Kernel
  schedule k = do
    let k₀ = put_proc k k.current (record (proc_at k k.current) { need_resched = false })
    k₁ ← requeue_current k₀
    chosen ← choose k₁
    some (run_next chosen)
