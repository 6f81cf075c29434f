-- ===== src/Sched/RoundRobin.antt =====
-- rr_sched.c, the round-robin class: one queue in order of arrival, one length of slice for all.
pub mod Invariant
pub mod Rotation
pub mod Switch
pub mod Ticks
use a_smart_mlfq_project_bas.Common.{
  if◌then◌else◌, ◌>>=◌, ◌>>◌, assert, erase, ℕ, true, ◌&&◌, ◌||◌, not, Option, none, some, List, [],
  ◌∷◌, ◌++◌,
}
use a_smart_mlfq_project_bas.Common.Int.{ℤ, pos, ◌-ℤ◌, ltb_ℤ, eqb_ℤ}
use a_smart_mlfq_project_bas.Common.Store.{update}
use a_smart_mlfq_project_bas.Sched.Mlfq.{enqueue, dequeue, pick_next, proc_tick}
use a_smart_mlfq_project_bas.Sched.Proc.{Link, null, self, linked, Proc}
use a_smart_mlfq_project_bas.Sched.State.{
  SchedState, SchedClass, is_runnable, is_linked, list_empty, set_proc, inc_u32, dec_u32,
}

unfoldable pub rr_init : SchedState → SchedState
rr_init s = record s { rq = record (s.rq) { run_list = []; proc_num = 0 } }

-- A used-up slice, or one that is too long, is set to the queue's length.
abbrev pub refill : ℤ → ℤ → ℤ
refill left max_slice = if eqb_ℤ left (pos 0) || ltb_ℤ max_slice left then max_slice else left

-- `rr_enqueue` past its assertion. An entry that stands in a list already is refused: to splice it
-- in again would break the list.
unfoldable pub rr_append : SchedState → ℕ → SchedState
rr_append s p = record s {
  procs = update s.procs p (record (s.procs p) {
    time_slice = refill (s.procs p).time_slice s.rq.max_time_slice;
    run_link = linked;
    on_rq = true;
  });
  rq = record (s.rq) { run_list = s.rq.run_list ++ (p ∷ []); proc_num = inc_u32 s.rq.proc_num };
}

unfoldable pub rr_enqueue : SchedState → ℕ → Option SchedState
rr_enqueue s p = do
  assert (is_runnable (s.procs p).state)
  assert (not (is_linked (s.procs p).run_link))
  some (rr_append s p)

-- `list_del_init(&(proc->run_link))`
unfoldable pub rr_unlink : SchedState → ℕ → Link → Option SchedState
rr_unlink s p null = none
rr_unlink s p self = some s
rr_unlink s p linked = some (record s {
  procs = update s.procs p (record (s.procs p) { run_link = self });
  rq = record (s.rq) { run_list = erase s.rq.run_list p };
})

unfoldable pub rr_dequeue : SchedState → ℕ → Option SchedState
rr_dequeue s p = do
  assert (not (list_empty (s.procs p).run_link) && (s.procs p).on_rq)
  t ← rr_unlink s p (s.procs p).run_link
  some (record t { rq = record (t.rq) { proc_num = dec_u32 t.rq.proc_num } })

abbrev pub first : List ℕ → Option ℕ
first [] = none
first (p ∷ ps) = some p

unfoldable pub rr_pick_next : SchedState → SchedState × Option ℕ
rr_pick_next s = (s, first s.rq.run_list)

unfoldable pub rr_tick : Proc → Proc
unfolding ◌-ℤ◌
rr_tick q =
    let left = if ltb_ℤ (pos 0) q.time_slice then q.time_slice -ℤ pos 1 else q.time_slice in
    record q {
      time_slice = left;
      need_resched = if eqb_ℤ left (pos 0) then true else q.need_resched;
    }

unfoldable pub rr_proc_tick : SchedState → ℕ → SchedState
rr_proc_tick s p = set_proc s p (rr_tick (s.procs p))

unfoldable pub rr_sched_class : SchedClass
rr_sched_class = record {
  init = rr_init;
  enqueue = rr_enqueue;
  dequeue = rr_dequeue;
  pick_next = rr_pick_next;
  proc_tick = rr_proc_tick;
}
