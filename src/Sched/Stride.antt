-- ===== src/Sched/Stride.antt =====
-- kern/schedule/default_sched.c: the stride scheduler over a skew heap (USE_SKEW_HEAP is 1).
pub mod Window
pub mod Turn
mod Tests
use a_smart_mlfq_project_bas.Common.{
  ltb, ◌==◌, if◌then◌else◌, ℕ, ◌+◌, ◌-◌, ◌/◌, ◌^◌, true, Option, none, some, [],
}
use a_smart_mlfq_project_bas.Common.Int.{ℤ, pos, negsuc, sub_ℕ, ◌-ℤ◌, ltb_ℤ, eqb_ℤ, u32}
use a_smart_mlfq_project_bas.Common.Store.{update}
use a_smart_mlfq_project_bas.Heap.{Heap, leaf, node, skew_heap_insert, skew_heap_remove}
use a_smart_mlfq_project_bas.Sched.Proc.{Proc}
use a_smart_mlfq_project_bas.Sched.RoundRobin.{refill}
use a_smart_mlfq_project_bas.Sched.State.{RunQueue, inc_u32, dec_u32}

-- the run queue with its pool, and the processes
pub record StrideState : Type 0 where
  pub procs : ℕ → Proc
  pub rq : RunQueue
  pub lab6_run_pool : Heap

abbrev pub big_stride : ℕ
big_stride = 2147483647

-- C's conversion of a 32-bit number to int32_t
abbrev pub to_i32 : ℕ → ℤ
to_i32 n = if ltb n (2 ^ 31) then pos n else sub_ℕ n (2 ^ 32)

unfoldable pub proc_stride_comp_f : (ℕ → Proc) → ℕ → ℕ → ℤ
proc_stride_comp_f procs a b =
    let c = to_i32 (u32 ((procs a).lab6_stride + 2 ^ 32 - (procs b).lab6_stride)) in
    if ltb_ℤ (pos 0) c then pos 1 else if eqb_ℤ c (pos 0) then pos 0 else negsuc 0

unfoldable pub stride_init : StrideState → StrideState
stride_init s = record s {
  rq = record (s.rq) { run_list = []; proc_num = 0 };
  lab6_run_pool = leaf;
}

unfoldable pub stride_enqueue : StrideState → ℕ → StrideState
stride_enqueue s p = record s {
  procs = update s.procs p (record (s.procs p) {
    time_slice = refill (s.procs p).time_slice s.rq.max_time_slice;
    on_rq = true;
  });
  rq = record (s.rq) { proc_num = inc_u32 s.rq.proc_num };
  lab6_run_pool = skew_heap_insert (proc_stride_comp_f s.procs) s.lab6_run_pool p;
}

unfoldable pub stride_dequeue : StrideState → ℕ → StrideState
stride_dequeue s p = record s {
  rq = record (s.rq) { proc_num = dec_u32 s.rq.proc_num };
  lab6_run_pool = skew_heap_remove (proc_stride_comp_f s.procs) s.lab6_run_pool p;
}

-- the step from a stride to the next one
unfoldable pub pass : ℕ → ℕ
pass priority = if priority == 0 then big_stride else big_stride / priority

unfoldable pub advance : Proc → Proc
advance q = record q { lab6_stride = u32 (q.lab6_stride + pass q.lab6_priority) }

unfoldable pub pick_top : StrideState → Heap → StrideState × Option ℕ
pick_top s leaf = (s, none)
pick_top s (node l p r) = (record s { procs = update s.procs p (advance (s.procs p)) }, some p)

unfoldable pub stride_pick_next : StrideState → StrideState × Option ℕ
stride_pick_next s = pick_top s s.lab6_run_pool

unfoldable pub stride_tick : Proc → Proc
unfolding ◌-ℤ◌
stride_tick q =
    let left = if ltb_ℤ (pos 0) q.time_slice then q.time_slice -ℤ pos 1 else q.time_slice in
    record q {
      time_slice = left;
      need_resched = if eqb_ℤ left (pos 0) then true else q.need_resched;
    }

unfoldable pub stride_proc_tick : StrideState → ℕ → StrideState
stride_proc_tick s p = record s { procs = update s.procs p (stride_tick (s.procs p)) }
