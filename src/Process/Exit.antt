-- ===== src/Process/Exit.antt =====
-- kern/process/proc.c: `do_exit` over a scheduling class. The address space is left out.
pub mod Adopt
pub mod Handed
pub mod Orphans
pub mod End
use a_smart_mlfq_project_bas.Common.{
  ◌==◌, if◌then◌else◌, ◌>>=◌, ◌>>◌, assert, ℕ, zero, suc, not, Option, none, some,
}
use a_smart_mlfq_project_bas.Common.Int.{ℤ}
use a_smart_mlfq_project_bas.Process.Family.{adopt_child}
use a_smart_mlfq_project_bas.Process.Life.{World, wt_child, procs_of, put_procs, set_at, wake}
use a_smart_mlfq_project_bas.Sched.Framework.{is_zombie, schedule}
use a_smart_mlfq_project_bas.Sched.Proc.{zombie}
use a_smart_mlfq_project_bas.Sched.State.{SchedClass}

module _ (c : SchedClass) where
  -- `if (proc->wait_state == WT_CHILD) wakeup_proc(proc)`
  unfoldable pub wake_waiting : World → ℕ → Option World
  wake_waiting w p = if (procs_of w p).wait_state == wt_child then wake c w p else some w

  -- one round of the loop: the first child becomes one of `initproc`, which is woken for a zombie
  unfoldable pub pass_child : World → ℕ → Option World
  pass_child w p =
      let u = put_procs w (adopt_child (procs_of w) w.kernel.current w.initproc p) in
      if is_zombie (procs_of u p).state then wake_waiting u u.initproc else some u

  -- The loop, with fuel for the children left.
  unfoldable pub pass_children : ℕ → World → Option ℕ → Option World
  pass_children fuel w none = some w
  pass_children zero w (some p) = none
  pass_children (suc fuel) w (some p) =
      pass_child w p >>= λ u. pass_children fuel u (procs_of u u.kernel.current).cptr

  -- The state when `schedule` has switched away: `do_exit` does not return.
  unfoldable pub do_exit : World → ℤ → Option World
  do_exit w code = do
    let cur = w.kernel.current
    assert (not (cur == w.kernel.idleproc))
    assert (not (cur == w.initproc))
    let u = set_at w cur (record (procs_of w cur) { state = zombie; exit_code = code })
    par ← (procs_of u cur).parent
    v ← wake_waiting u par
    x ← pass_children v.nr_process v (procs_of v v.kernel.current).cptr
    k ← schedule c x.kernel
    some (record x { kernel = k })
