-- ===== src/Sched/Stride/Tests.antt =====
-- The stride scheduler on a pool whose strides have passed 2^32.
use a_smart_mlfq_project_bas.Common.{
  ◌==◌, if◌then◌else◌, ℕ, ◌-◌, ◌^◌, ◌≤◌, ◌<◌, ◌≡◌, refl, ◌≢◌, some, [], arith,
}
use a_smart_mlfq_project_bas.Common.Int.{pos, negsuc}
use a_smart_mlfq_project_bas.Heap.{leaf, node}
use a_smart_mlfq_project_bas.Heap.Members.{occurs}
use a_smart_mlfq_project_bas.Sched.Proc.{Proc, alloc_proc}
use a_smart_mlfq_project_bas.Sched.Stride.{
  StrideState, proc_stride_comp_f, stride_dequeue, stride_pick_next,
}
use a_smart_mlfq_project_bas.Sched.Stride.Turn.{IsPool, stepped, stride_turn}
use a_smart_mlfq_project_bas.Sched.Stride.Window.{ahead, InWindow}

-- process 1 is just below 2^32, and process 3 just above
abbrev strides : ℕ → Proc
strides p = record (alloc_proc (pos 0)) {
  lab6_stride = if p == 1 then 2 ^ 32 - 2 else 5;
  lab6_priority = 3;
}

abbrev wrapped : StrideState
wrapped = record {
  procs = strides;
  rq = record { run_list = []; proc_num = 2; max_time_slice = pos 5 };
  lab6_run_pool = node (node leaf 3 leaf) 1 leaf;
}

abbrev window_base : ℕ
window_base = 2 ^ 32 - 9

wrapped-IsPool : IsPool window_base wrapped
wrapped-IsPool = record {
  base_u32 = omega arith;
  ordered = (omega arith, omega arith, tt, (omega arith, tt, tt, tt, tt), tt);
  once = λ p. ground arith;
}

-- 2^32 - 2 counts as less than 5.
process_1_first : proc_stride_comp_f strides 1 3 ≡ negsuc 0
unfolding proc_stride_comp_f
process_1_first = refl

stride_turn_example :
    (t : StrideState) × (stride_pick_next wrapped ≡ (t, some 1))
    × ((x : ℕ)
        → 0 < occurs x (node (node leaf 3 leaf) 1 leaf)
        → ahead strides window_base 1 ≤ ahead strides window_base x)
    × IsPool (2 ^ 32 - 2) (stride_dequeue t 1)
    × InWindow (stride_dequeue t 1).procs (2 ^ 32 - 2) 1
    × ((x : ℕ)
        → occurs x (stride_dequeue t 1).lab6_run_pool
          ≡ (if 1 == x then 0 else occurs x (node (node leaf 3 leaf) 1 leaf)))
    × ((t.procs 1).lab6_stride ≡ stepped (2 ^ 32 - 2) (strides 1).lab6_priority)
    × ((x : ℕ) → x ≢ 1 → t.procs x ≡ strides x)
stride_turn_example = stride_turn window_base (node leaf 3 leaf) leaf 1 wrapped-IsPool refl
