-- ===== src/Sched/Smart.antt =====
-- mlfq_sched.c, the smart MLFQ: the level is set by the behaviour that the process showed.
pub mod Range
pub mod Class
pub mod Behaviour
use a_smart_mlfq_project_bas.Sched.Mlfq
use a_smart_mlfq_project_bas.Common.{if◌then◌else◌, ◌>>=◌, ◌>>◌, Bool, ◌||◌, Option, some}
use a_smart_mlfq_project_bas.Common.Int.{
  ℤ, pos, ◌+ℤ◌, ◌-ℤ◌, ◌*ℤ◌, ◌/ℤ◌, ltb_ℤ, leb_ℤ, eqb_ℤ, to_u32,
}
use a_smart_mlfq_project_bas.Sched.Mlfq.{level_slice, enqueue, dequeue, pick_next, proc_tick}
use a_smart_mlfq_project_bas.Sched.Proc.{Proc}
use a_smart_mlfq_project_bas.Sched.State.{SchedClass}

-- `if (level < 0 || level >= MLFQ_LEVELS) level = 0`
unfoldable pub check_level : Proc → Proc
check_level p =
    if ltb_ℤ p.mlfq_level (pos 0) || leb_ℤ (pos 4) p.mlfq_level
    then record p { mlfq_level = pos 0 }
    else p

unfoldable pub is_expired : Proc → Bool
is_expired p = leb_ℤ p.current_slice_ticks (pos 0)

-- steps 2 and 3: what was used of the slice, in ticks, and as a share of 1000
unfoldable pub used_of : Proc → ℤ → ℤ
unfolding is_expired ◌-ℤ◌
used_of p max_slice = if is_expired p then max_slice else max_slice -ℤ p.current_slice_ticks

unfoldable pub ratio_of : ℤ → ℤ → ℤ
unfolding ◌*ℤ◌ ◌/ℤ◌
ratio_of used max_slice = used *ℤ pos 1000 /ℤ max_slice

-- step 4: the moving average, which starts at the first ratio
unfoldable pub ewma : ℤ → ℤ → ℤ
unfolding ◌+ℤ◌ ◌*ℤ◌ ◌/ℤ◌
ewma score ratio =
    if eqb_ℤ score (pos 0) then ratio else (pos 6 *ℤ score +ℤ pos 4 *ℤ ratio) /ℤ pos 10

-- step 5: down a level when the slice is used up, and up one or to the top when it is not
unfoldable pub next_level : Bool → ℤ → ℤ → ℤ
unfolding ◌+ℤ◌ ◌-ℤ◌
next_level expired score level =
    if expired
    then if ltb_ℤ level (pos 3) then level +ℤ pos 1 else level
    else if ltb_ℤ score (pos 300)
    then pos 0
    else if ltb_ℤ (pos 0) level
    then level -ℤ pos 1
    else level

unfoldable pub mlfq_predict_and_level_update : Proc → Option Proc
mlfq_predict_and_level_update proc = do
  let p = check_level proc
  max_slice ← level_slice p.mlfq_level
  let used = used_of p max_slice
  let score = ewma p.cpu_score (ratio_of used max_slice)
  some (record p {
    last_burst = to_u32 used;
    cpu_score = score;
    mlfq_level = next_level (is_expired p) score p.mlfq_level;
  })

unfoldable pub mlfq_sched_class : SchedClass
mlfq_sched_class = record {
  init = Mlfq.mlfq_init;
  enqueue = Mlfq.enqueue mlfq_predict_and_level_update;
  dequeue = Mlfq.dequeue;
  pick_next = Mlfq.pick_next;
  proc_tick = Mlfq.proc_tick;
}
