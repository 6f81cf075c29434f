-- ===== src/Sched/Mlfq.antt =====
-- What mlfq_sched.c and basic_mlfq_sched.c have in common, word for word: the queues, the boost, the
-- choice and the tick. They differ in the function that sets a process's level anew, which is
-- the parameter `update_level`.
pub mod Policy
pub mod Invariant
pub mod Enqueue
pub mod Dequeue
pub mod Boost
pub mod Boosted
pub mod Pick
pub mod Tick
pub mod Class
use a_smart_mlfq_project_bas.Common.{
  ltb, leb, if◌then◌else◌, ◌>>=◌, ◌>>◌, assert, get_elem?, erase, ℕ, zero, suc, ◌+◌, Bool, true,
  ◌&&◌, not, Option, none, some, List, [], ◌∷◌, ◌++◌,
}
use a_smart_mlfq_project_bas.Common.Int.{ℤ, pos, negsuc, pos_part, ◌-ℤ◌, leb_ℤ, u32}
use a_smart_mlfq_project_bas.Common.Store.{update}
use a_smart_mlfq_project_bas.Sched.Proc.{Link, null, self, linked, Proc}
use a_smart_mlfq_project_bas.Sched.State.{
  SchedState, is_runnable, is_linked, list_empty, set_proc, inc_u32, dec_u32,
}

abbrev pub mlfq_levels : ℕ
mlfq_levels = 4

abbrev pub boost_ticks : ℕ
boost_ticks = 1000

-- `level_slice[level]`; `none` is an index out of bounds
unfoldable pub level_slice : ℤ → Option ℤ
level_slice (pos n) = get_elem? (pos 2 ∷ pos 4 ∷ pos 8 ∷ pos 16 ∷ []) n
level_slice (negsuc n) = none

-- `list_add_before(&(mlfq_inst.queues[i]), &(proc->run_link))`: before the head is at the end
abbrev pub add_last : (ℕ → List ℕ) → ℕ → ℕ → ℕ → List ℕ
add_last queues i p = update queues i (queues i ++ (p ∷ []))

unfoldable pub mlfq_init : SchedState → SchedState
mlfq_init s = record s {
  mlfq_inst = record { queues = λ i. []; global_timer = 0 };
  rq = record (s.rq) { proc_num = 0 };
}

-- An entry that stands in a list already is refused: to splice it in again would break both lists.
unfoldable pub link_in : SchedState → ℕ → Proc → Option SchedState
link_in s p q = level_slice q.mlfq_level >>= λ slice.
    if is_linked q.run_link
    then none
    else some (record s {
      procs =
          update s.procs p
            (record q { current_slice_ticks = slice; run_link = linked; on_rq = true });
      mlfq_inst = record (s.mlfq_inst) {
        queues = add_last s.mlfq_inst.queues (pos_part q.mlfq_level) p;
      };
      rq = record (s.rq) { proc_num = inc_u32 s.rq.proc_num };
    })

-- the sign of an `int` that is given as its word
abbrev pub is_positive_int : ℕ → Bool
is_positive_int n = ltb 0 n && ltb n 2147483648

-- A process that ran before has its level set anew; a new one starts at the top.
unfoldable pub relevel : (Proc → Option Proc) → Proc → Option Proc
relevel update_level q =
    if is_positive_int q.sched_count then update_level q else some (record q { mlfq_level = pos 0 })

unfoldable pub enqueue : (Proc → Option Proc) → SchedState → ℕ → Option SchedState
enqueue update_level s p = do
  assert (is_runnable (s.procs p).state)
  q ← relevel update_level (s.procs p)
  link_in s p q

-- `list_del_init(&(proc->run_link))`: out of the queue that it stands in. Pointers that are `NULL`
-- fault.
unfoldable pub unlink : SchedState → ℕ → Link → Option SchedState
unlink s p null = none
unlink s p self = some s
unlink s p linked = some (record s {
  procs = update s.procs p (record (s.procs p) { run_link = self });
  mlfq_inst = record (s.mlfq_inst) { queues = λ i. erase (s.mlfq_inst.queues i) p };
})

unfoldable pub dequeue : SchedState → ℕ → Option SchedState
dequeue s p = do
  assert (not (list_empty (s.procs p).run_link) && (s.procs p).on_rq)
  t ← unlink s p (s.procs p).run_link
  some (record t { rq = record (t.rq) { proc_num = dec_u32 t.rq.proc_num } })

-- One round of the inner loop of `priority_boost`: from queue `i` to the end of queue 0.
unfoldable pub boost_proc : SchedState → ℕ → ℕ → SchedState
boost_proc s i p =
    let q = update s.mlfq_inst.queues i (erase (s.mlfq_inst.queues i) p) in
    record s {
      procs =
          update s.procs p (record (s.procs p) { mlfq_level = pos 0; current_slice_ticks = pos 2 });
      mlfq_inst = record (s.mlfq_inst) { queues = add_last q 0 p };
    }

-- The inner loop, which reads each `next` before it moves the entry.
unfoldable pub boost_queue : SchedState → ℕ → List ℕ → SchedState
boost_queue s i [] = s
boost_queue s i (p ∷ ps) = boost_queue (boost_proc s i p) i ps

unfoldable pub boost_level : SchedState → ℕ → SchedState
boost_level s i = boost_queue s i (s.mlfq_inst.queues i)

unfoldable pub priority_boost : SchedState → SchedState
priority_boost s = boost_level (boost_level (boost_level s 1) 2) 3

-- the first process of the first queue that is not empty, from level `i` on, with `k` levels left
unfoldable pub first_queue : (ℕ → List ℕ) → ℕ → ℕ → Option ℕ
first_queue queues i zero = none
first_queue queues i (suc k) = elim (queues i) [
  | [] ↦ first_queue queues (suc i) k
  | p ∷ ps ↦ some p
]

-- The boost that is due before a choice.
unfoldable pub boost_if_due : SchedState → SchedState
boost_if_due s =
    let t = priority_boost s in
    if leb boost_ticks s.mlfq_inst.global_timer
    then record t { mlfq_inst = record (t.mlfq_inst) { global_timer = 0 } }
    else s

unfoldable pub count_choice : SchedState → Option ℕ → SchedState
count_choice s none = s
count_choice s (some p) =
    set_proc s p (record (s.procs p) { sched_count = inc_u32 (s.procs p).sched_count })

unfoldable pub pick_next : SchedState → SchedState × Option ℕ
unfolding count_choice
pick_next s =
    let t = boost_if_due s in
    let next = first_queue t.mlfq_inst.queues 0 mlfq_levels in (count_choice t next, next)

-- `current_slice_ticks` may go below 0: a tick can come before the process is taken off.
unfoldable pub tick : Proc → Proc
unfolding ◌-ℤ◌
tick q =
    let left = q.current_slice_ticks -ℤ pos 1 in
    record q {
      current_slice_ticks = left;
      need_resched = if leb_ℤ left (pos 0) then true else q.need_resched;
    }

unfoldable pub proc_tick : SchedState → ℕ → SchedState
unfolding tick
proc_tick s p =
    let t = if is_runnable (s.procs p).state then set_proc s p (tick (s.procs p)) else s in
    record t {
      mlfq_inst = record (t.mlfq_inst) { global_timer = u32 (t.mlfq_inst.global_timer + 1) };
    }
