-- ===== src/Sched/Basic.antt =====
-- basic_mlfq_sched.c, the basic MLFQ: down when the slice is used up, else to the top.
pub mod Level
pub mod Class
use a_smart_mlfq_project_bas.Sched.Mlfq
use a_smart_mlfq_project_bas.Common.{if◌then◌else◌, ℕ, ◌||◌, Option, some}
use a_smart_mlfq_project_bas.Common.Int.{pos, ◌+ℤ◌, ltb_ℤ, leb_ℤ}
use a_smart_mlfq_project_bas.Sched.Mlfq.{enqueue, dequeue, pick_next, proc_tick}
use a_smart_mlfq_project_bas.Sched.Proc.{Proc}
use a_smart_mlfq_project_bas.Sched.State.{SchedState, SchedClass}

unfoldable pub basic_mlfq_update_level : Proc → Proc
unfolding ◌+ℤ◌
basic_mlfq_update_level proc =
    let p =
      if ltb_ℤ proc.mlfq_level (pos 0) || leb_ℤ (pos 4) proc.mlfq_level
      then record proc { mlfq_level = pos 0 }
      else proc in
    if leb_ℤ p.current_slice_ticks (pos 0)
    then if ltb_ℤ p.mlfq_level (pos 3) then record p { mlfq_level = p.mlfq_level +ℤ pos 1 } else p
    else record p { mlfq_level = pos 0 }

unfoldable pub basic_mlfq_init : SchedState → SchedState
basic_mlfq_init = Mlfq.mlfq_init

unfoldable pub basic_mlfq_enqueue : SchedState → ℕ → Option SchedState
basic_mlfq_enqueue = Mlfq.enqueue (λ p. some (basic_mlfq_update_level p))

unfoldable pub basic_mlfq_dequeue : SchedState → ℕ → Option SchedState
basic_mlfq_dequeue = Mlfq.dequeue

unfoldable pub basic_mlfq_pick_next : SchedState → SchedState × Option ℕ
basic_mlfq_pick_next = Mlfq.pick_next

unfoldable pub basic_mlfq_proc_tick : SchedState → ℕ → SchedState
basic_mlfq_proc_tick = Mlfq.proc_tick

unfoldable pub basic_mlfq_sched_class : SchedClass
unfolding basic_mlfq_init basic_mlfq_enqueue basic_mlfq_dequeue basic_mlfq_pick_next
    basic_mlfq_proc_tick
basic_mlfq_sched_class = record {
  init = basic_mlfq_init;
  enqueue = basic_mlfq_enqueue;
  dequeue = basic_mlfq_dequeue;
  pick_next = basic_mlfq_pick_next;
  proc_tick = basic_mlfq_proc_tick;
}
