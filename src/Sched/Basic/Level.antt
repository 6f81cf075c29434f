-- ===== src/Sched/Basic/Level.antt =====
-- The basic level update (basic_mlfq_sched.c), and how the smart one differs from it.
use a_smart_mlfq_project_bas.Common.{
  ◌==◌, if◌then◌else◌, ℕ, ◌+◌, ◌-◌, ◌<◌, min, ◌≡◌, refl, ap, ◌⊎◌, inl, inr, Bool, true, false, some,
  arith,
}
use a_smart_mlfq_project_bas.Common.Int.{pos, ltb_ℤ}
use a_smart_mlfq_project_bas.Sched.Basic.{basic_mlfq_update_level}
use a_smart_mlfq_project_bas.Sched.Mlfq.Policy.{InRange}
use a_smart_mlfq_project_bas.Sched.Proc.{Proc}
use a_smart_mlfq_project_bas.Sched.Smart.{is_expired, mlfq_predict_and_level_update}
use a_smart_mlfq_project_bas.Sched.Smart.Range.{
  used, ratio, new_score, new_level, mlfq_predict_and_level_update-eq,
}

-- For a process in range the basic update computes this.
pub basic_mlfq_update_level-eq :
    (p : Proc) (v : InRange p)
    → basic_mlfq_update_level p ≡ record p {
      mlfq_level = pos (if is_expired p then (if v.level == 3 then 3 else v.level + 1) else 0);
    }
unfolding basic_mlfq_update_level is_expired
basic_mlfq_update_level-eq p v = ground arith

compared :
    (e : Bool) (c l : ℕ)
    → l < 4
    → ((e ≡ true)
        × (pos (new_level e c l) ≡ pos (if e then (if l == 3 then 3 else l + 1) else 0))
        × (pos (new_level e c l) ≡ pos (min (l + 1) 3)))
      ⊎ ((e ≡ false)
          × (pos (if e then (if l == 3 then 3 else l + 1) else 0) ≡ pos 0)
          × (pos (new_level e c l) ≡ (if ltb_ℤ (pos c) (pos 300) then pos 0 else pos (l - 1))))
compared true c l h = inl (refl, ground arith, ground arith)
compared false c l h = inr (refl, refl, ground arith)

-- For a process in range whose slice is used up, the smart and the basic update set the same level,
-- one below the old one or the lowest. For one that gave the processor up early, the basic update
-- always sets the top level; the smart one does so if the new score is below 300, and else sets the
-- level above the old one.
pub smart_vs_basic :
    (p : Proc) (v : InRange p)
    → (q : Proc) × (mlfq_predict_and_level_update p ≡ some q)
      × (((is_expired p ≡ true)
            × (q.mlfq_level ≡ (basic_mlfq_update_level p).mlfq_level)
            × (q.mlfq_level ≡ pos (min (v.level + 1) 3)))
          ⊎ ((is_expired p ≡ false)
              × ((basic_mlfq_update_level p).mlfq_level ≡ pos 0)
              × (q.mlfq_level
                  ≡ (if ltb_ℤ q.cpu_score (pos 300) then pos 0 else pos (v.level - 1)))))
smart_vs_basic p v =
    let c = new_score v.score (ratio p.current_slice_ticks v.level) in
    (
      record p {
        mlfq_level = pos (new_level (is_expired p) c v.level);
        last_burst = used p.current_slice_ticks v.level;
        cpu_score = pos c;
      },
      mlfq_predict_and_level_update-eq p v,
      rw (ap (λ (q : Proc). q.mlfq_level) (basic_mlfq_update_level-eq p v))
          (compared (is_expired p) c v.level v.level_lt),
    )
