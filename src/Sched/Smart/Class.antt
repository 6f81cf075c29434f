-- ===== src/Sched/Smart/Class.antt =====
-- `mlfq_sched_class` (mlfq_sched.c) under the framework.
use a_smart_mlfq_project_bas.Common.{arith}
use a_smart_mlfq_project_bas.Sched.Framework.Laws.{Lawful}
use a_smart_mlfq_project_bas.Sched.Mlfq.Class.{mlfq_lawful}
use a_smart_mlfq_project_bas.Sched.Mlfq.Policy.{slice, slice_small, Policy}
use a_smart_mlfq_project_bas.Sched.Smart.{
  is_expired, mlfq_predict_and_level_update, mlfq_sched_class,
}
use a_smart_mlfq_project_bas.Sched.Smart.Range.{
  used, ratio, new_score, new_level, mlfq_predict_and_level_update-eq, ratio-le, new_score-le,
  new_level-lt,
}

pub smart_policy : Policy
smart_policy = record {
  update_level = mlfq_predict_and_level_update;
  total = λ p v.
      let c = new_score v.score (ratio p.current_slice_ticks v.level) in
      (
        new_level (is_expired p) c v.level,
        used p.current_slice_ticks v.level,
        c,
        mlfq_predict_and_level_update-eq p v,
        new_level-lt (is_expired p) c v.level v.level_lt,
        new_score-le v.score (ratio p.current_slice_ticks v.level) v.score_le (
            ratio-le (used p.current_slice_ticks v.level) (slice v.level) (omega arith)
              (slice_small v.level v.level_lt).0),
      );
}

pub smart_lawful : Lawful mlfq_sched_class
unfolding mlfq_sched_class smart_policy
smart_lawful = mlfq_lawful smart_policy
