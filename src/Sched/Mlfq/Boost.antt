-- ===== src/Sched/Mlfq/Boost.antt =====
-- `priority_boost` (mlfq_sched.c, basic_mlfq_sched.c): it moves every process to the top queue.
use a_smart_mlfq_project_bas.Common.{
  ◌==◌, if◌then◌else◌, length, count, erase, count-erase_self, count-erase_of_ne, length-erase_add,
  ℕ, zero, suc, ◌+◌, ◌≤◌, ◌<◌, ◌≡◌, refl, ◌∙◌, ◌≢◌, List, arith,
}
use a_smart_mlfq_project_bas.Common.Int.{pos}
use a_smart_mlfq_project_bas.Common.Store.{update, update_all, update_cases}
use a_smart_mlfq_project_bas.Sched.Mlfq.{add_last, boost_proc}
use a_smart_mlfq_project_bas.Sched.Mlfq.Invariant.{
  queued, total, IsPlaced, IsValid, count-add_last, queued-add_last, total-add_last, count_twice,
}
use a_smart_mlfq_project_bas.Sched.Mlfq.Policy.{InRange}
use a_smart_mlfq_project_bas.Sched.Proc.{Proc}
use a_smart_mlfq_project_bas.Sched.State.{SchedState, is_linked}

-- what one round of the inner loop does to the queues
abbrev pub moved : (ℕ → List ℕ) → ℕ → ℕ → ℕ → List ℕ
moved queues i p = add_last (update queues i (erase (queues i) p)) 0 p

count-moved :
    (queues : ℕ → List ℕ) (i p a : ℕ)
    → 0 < count p (queues i)
    → count a (update queues i (erase (queues i) p) i) + (if p == a then 1 else 0)
      ≡ count a (queues i)
count-moved queues i p a h =
    ground (arith, count-erase_self p (queues i), count-erase_of_ne a p (queues i))

queued-moved :
    (queues : ℕ → List ℕ) (i p a : ℕ)
    → i < 4
    → 0 < count p (queues i)
    → queued (moved queues i p) a ≡ queued queues a
queued-moved queues zero p a hi h = omega (
  arith,
  queued-add_last (update queues 0 (erase (queues 0) p)) 0 p a (omega arith),
  count-moved queues 0 p a h,
)
queued-moved queues (suc zero) p a hi h = omega (
  arith,
  queued-add_last (update queues 1 (erase (queues 1) p)) 0 p a (omega arith),
  count-moved queues 1 p a h,
)
queued-moved queues (suc (suc zero)) p a hi h = omega (
  arith,
  queued-add_last (update queues 2 (erase (queues 2) p)) 0 p a (omega arith),
  count-moved queues 2 p a h,
)
queued-moved queues (suc (suc (suc zero))) p a hi h = omega (
  arith,
  queued-add_last (update queues 3 (erase (queues 3) p)) 0 p a (omega arith),
  count-moved queues 3 p a h,
)
queued-moved queues (suc (suc (suc (suc i)))) p a hi h = absurd (omega arith)

length-moved :
    (queues : ℕ → List ℕ) (i p : ℕ)
    → 0 < count p (queues i)
    → length (update queues i (erase (queues i) p) i) + 1 ≡ length (queues i)
length-moved queues i p h = ground (arith, length-erase_add p (queues i))

total-moved :
    (queues : ℕ → List ℕ) (i p : ℕ)
    → i < 4
    → 0 < count p (queues i)
    → total (moved queues i p) ≡ total queues
total-moved queues zero p hi h = omega (
  arith,
  total-add_last (update queues 0 (erase (queues 0) p)) 0 p (omega arith),
  length-moved queues 0 p h,
)
total-moved queues (suc zero) p hi h = omega (
  arith,
  total-add_last (update queues 1 (erase (queues 1) p)) 0 p (omega arith),
  length-moved queues 1 p h,
)
total-moved queues (suc (suc zero)) p hi h = omega (
  arith,
  total-add_last (update queues 2 (erase (queues 2) p)) 0 p (omega arith),
  length-moved queues 2 p h,
)
total-moved queues (suc (suc (suc zero))) p hi h = omega (
  arith,
  total-add_last (update queues 3 (erase (queues 3) p)) 0 p (omega arith),
  length-moved queues 3 p h,
)
total-moved queues (suc (suc (suc (suc i)))) p hi h = absurd (omega arith)

count-moved_other :
    (queues : ℕ → List ℕ) (i p j a : ℕ) → a ≢ p → count a (moved queues i p j) ≡ count a (queues j)
count-moved_other queues i p j a h = ground (
  arith,
  count-add_last (update queues i (erase (queues i) p)) 0 p j a,
  count-erase_of_ne a p (queues i),
)

-- A process that stands in one place only stands at the top once it is moved.
moved_to_top :
    (queues : ℕ → List ℕ) (i p j : ℕ)
    → j < 4
    → queued (moved queues i p) p ≤ 1
    → 0 < count p (moved queues i p j)
    → j ≡ 0
moved_to_top queues i p zero hj one n = refl
moved_to_top queues i p (suc j) hj one n =
    absurd (
      omega
        (arith, count_twice (moved queues i p) (suc j) p (omega arith) hj, count_top queues i p))
  where
    count_top : (qs : ℕ → List ℕ) (k q : ℕ) → 0 < count q (moved qs k q 0)
    count_top qs k q = ground (arith, count-add_last (update qs k (erase (qs k) q)) 0 q 0 q)

pub boost_proc-IsValid :
    {s : SchedState} (i p : ℕ)
    → IsValid s
    → i < 4
    → 0 < count p (s.mlfq_inst.queues i)
    → IsValid (boost_proc s i p)
unfolding boost_proc
boost_proc-IsValid {s} i p v hi h = record {
  ranges =
      λ a. update_all InRange s.procs p _ a (boosted-InRange (s.procs p) (v.ranges p)) (v.ranges a);
  once = λ a.
      update_cases
        (λ x. queued (moved s.mlfq_inst.queues i p) a ≡ (if is_linked x.run_link then 1 else 0))
        s.procs p _ a (λ same. queued-moved s.mlfq_inst.queues i p a hi h ∙ rw same (v.once p))
        (λ other. queued-moved s.mlfq_inst.queues i p a hi h ∙ v.once a);
  placed = λ j a hj n.
      update_cases (λ x. IsPlaced x j) s.procs p _ a
        (λ same. boosted-IsPlaced (v.placed i p hi h) (top j hj (rw same at n)))
        (λ other. v.placed j a hj (rw (count-moved_other s.mlfq_inst.queues i p j a other) at n));
  counted = rw (total-moved s.mlfq_inst.queues i p hi h) v.counted;
}
  where
    top : (j : ℕ) → j < 4 → 0 < count p (moved s.mlfq_inst.queues i p j) → j ≡ 0
    top j hj n =
        moved_to_top s.mlfq_inst.queues i p j hj
          (ground (arith, queued-moved s.mlfq_inst.queues i p p hi h, v.once p)) n

    boosted-IsPlaced :
        {q : Proc} {k j : ℕ}
        → IsPlaced q k
        → j ≡ 0
        → IsPlaced (record q { mlfq_level = pos 0; current_slice_ticks = pos 2 }) j
    boosted-IsPlaced w e = record {
      at_level = rw e;
      full_slice = rw e;
      ready = w.ready;
      owned = w.owned;
    }

    boosted-InRange :
        (q : Proc)
        → InRange q
        → InRange (record q { mlfq_level = pos 0; current_slice_ticks = pos 2 })
    boosted-InRange q r = record {
      level = 0;
      score = r.score;
      level_lt = omega arith;
      level_eq = refl;
      score_le = r.score_le;
      score_eq = r.score_eq;
      ticks_le = omega arith;
    }
