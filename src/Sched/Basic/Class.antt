-- ===== src/Sched/Basic/Class.antt =====
-- `basic_mlfq_sched_class` (basic_mlfq_sched.c), the class that sched.c selects, under the framework.
use a_smart_mlfq_project_bas.Common.{◌==◌, if◌then◌else◌, ◌+◌, some, arith}
use a_smart_mlfq_project_bas.Sched.Basic.{basic_mlfq_update_level, basic_mlfq_sched_class}
use a_smart_mlfq_project_bas.Sched.Basic.Level.{basic_mlfq_update_level-eq}
use a_smart_mlfq_project_bas.Sched.Framework.Laws.{Lawful}
use a_smart_mlfq_project_bas.Sched.Mlfq.Class.{mlfq_lawful}
use a_smart_mlfq_project_bas.Sched.Mlfq.Policy.{Policy}
use a_smart_mlfq_project_bas.Sched.Smart.{is_expired}

pub basic_policy : Policy
basic_policy = record {
  update_level = λ p. some (basic_mlfq_update_level p);
  total = λ p v. (
    (if is_expired p then (if v.level == 3 then 3 else v.level + 1) else 0),
    p.last_burst,
    v.score,
    cc (basic_mlfq_update_level-eq p v, v.score_eq),
    ground (arith, v.level_lt),
    v.score_le,
  );
}

pub basic_lawful : Lawful basic_mlfq_sched_class
unfolding basic_mlfq_sched_class basic_policy
basic_lawful = mlfq_lawful basic_policy
