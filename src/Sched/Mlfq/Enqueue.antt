-- ===== src/Sched/Mlfq/Enqueue.antt =====
-- `mlfq_enqueue` and `basic_mlfq_enqueue`: they never fault, and keep the invariant.
use a_smart_mlfq_project_bas.Common.{
  Bool-cases, ℕ, ◌≤◌, ◌<◌, ◌≡◌, refl, ap, inl, inr, false, some, arith,
}
use a_smart_mlfq_project_bas.Common.Int.{pos}
use a_smart_mlfq_project_bas.Sched.Mlfq.{is_positive_int, relevel, enqueue}
use a_smart_mlfq_project_bas.Sched.Mlfq.Invariant.{
  IsValid, linked_in, link_in-eq, linked_in-IsValid,
}
use a_smart_mlfq_project_bas.Sched.Mlfq.Policy.{InRange, Policy}
use a_smart_mlfq_project_bas.Sched.Proc.{runnable, Proc}
use a_smart_mlfq_project_bas.Sched.State.{SchedState, is_runnable, is_linked}

-- a process with its level set anew
abbrev pub relevelled : Proc → ℕ → ℕ → ℕ → Proc
relevelled q l b c = record q { mlfq_level = pos l; last_burst = b; cpu_score = pos c }

module _ (policy : Policy) where
  relevel_total :
      (q : Proc)
      → InRange q
      → (l b c : ℕ) × (relevel policy.update_level q ≡ some (relevelled q l b c))
        × (l < 4)
        × (c ≤ 1000)
  unfolding relevel
  relevel_total q v = elim (Bool-cases (is_positive_int q.sched_count)) [
    | inl old ↦ rw old (policy.total q v)
    | inr new ↦ (
      0,
      q.last_burst,
      v.score,
      rw new (ap (λ c. some (record q { mlfq_level = pos 0; cpu_score = c })) v.score_eq),
      omega arith,
      v.score_le,
    )
  ]

  -- For a valid state and a runnable process in no queue, the call returns: the process stands at
  -- the end of the queue of a level from 0 to 3, with that level's slice, and the state is valid.
  pub enqueue-IsValid :
      {s : SchedState} (p : ℕ)
      → IsValid s
      → (s.procs p).state ≡ runnable
      → is_linked (s.procs p).run_link ≡ false
      → (l b c : ℕ) × (l < 4)
        × (enqueue policy.update_level s p ≡ some (linked_in s p (relevelled (s.procs p) l b c) l))
        × IsValid (linked_in s p (relevelled (s.procs p) l b c) l)
  unfolding enqueue
  enqueue-IsValid {s} p v ready free =
      let (l, b, c, e, hl, hc) = relevel_total (s.procs p) (v.ranges p) in
      let q = relevelled (s.procs p) l b c in
      (
        l,
        b,
        c,
        hl,
        rw (ap is_runnable ready, e) (link_in-eq s p q l hl refl free),
        linked_in-IsValid p q l c v hl refl refl hc ready free,
      )
