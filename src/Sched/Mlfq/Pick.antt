-- ===== src/Sched/Mlfq/Pick.antt =====
-- `mlfq_pick_next` and `basic_mlfq_pick_next`: the boost when it is due, and the choice.
use a_smart_mlfq_project_bas.Common.{
  leb, if◌then◌else◌, Bool-cases, ℕ, zero, suc, ◌+◌, ◌≤◌, ◌<◌, ◌≡◌, refl, subst, ◌⊎◌, inl, inr,
  true, false, Option, none, some, List, [], ◌∷◌, ◌++◌, arith,
}
use a_smart_mlfq_project_bas.Common.Store.{update_all, update_cases}
use a_smart_mlfq_project_bas.Sched.Mlfq.{
  boost_ticks, first_queue, boost_if_due, count_choice, pick_next,
}
use a_smart_mlfq_project_bas.Sched.Mlfq.Boosted.{priority_boost_lem}
use a_smart_mlfq_project_bas.Sched.Mlfq.Invariant.{queued, IsPlaced, IsValid}
use a_smart_mlfq_project_bas.Sched.Mlfq.Policy.{InRange}
use a_smart_mlfq_project_bas.Sched.Proc.{Proc}
use a_smart_mlfq_project_bas.Sched.State.{SchedState, is_linked, inc_u32}

-- The queues of the levels above `i` are empty.
abbrev pub EmptyAbove : (ℕ → List ℕ) → ℕ → Type 0
EmptyAbove queues zero = Unit
EmptyAbove queues (suc i) = (queues i ≡ []) × EmptyAbove queues i

-- `p` heads the first queue that is not empty, at level `i`.
pub record IsFirst (queues : ℕ → List ℕ) (p i : ℕ) : Type 0 where
  pub rest : List ℕ
  pub in_bounds : i < 4
  pub heads : queues i ≡ p ∷ rest
  pub above : EmptyAbove queues i

List-cases {ℓ} : {A : Type ℓ} (xs : List A) → (xs ≡ []) ⊎ ((x : A) × (r : List A) × (xs ≡ x ∷ r))
List-cases [] = inl refl
List-cases (x ∷ r) = inr (x, r, refl)

first_queue_cases :
    (queues : ℕ → List ℕ) (k i n : ℕ)
    → i + k ≡ n
    → EmptyAbove queues i
    → ((first_queue queues i k ≡ none) × EmptyAbove queues n)
      ⊎ ((p j : ℕ) × (r : List ℕ) × (first_queue queues i k ≡ some p)
          × (j < n)
          × (queues j ≡ p ∷ r)
          × EmptyAbove queues j)
unfolding first_queue
first_queue_cases queues zero i n e above =
    inl (refl, subst (EmptyAbove queues) (omega arith) above)
first_queue_cases queues (suc k) i n e above = elim (List-cases (queues i)) [
  | inl empty ↦
      rw (empty, first_queue) (first_queue_cases queues k (suc i) n (omega arith) (empty, above))
  | inr (p, r, h) ↦ inr (p, i, r, rw (h, first_queue) refl, omega arith, h, above)
]

-- A boost that is due, or none, keeps the invariant.
pub boost_if_due-IsValid : {s : SchedState} → IsValid s → IsValid (boost_if_due s)
unfolding boost_if_due
boost_if_due-IsValid {s} v = elim (Bool-cases (leb boost_ticks s.mlfq_inst.global_timer)) [
  | inl due ↦
      let w = (priority_boost_lem v).0 in
      rw due (record { ranges = w.ranges; once = w.once; placed = w.placed; counted = w.counted })
  | inr early ↦ rw early v
]

InRange-counted : {q : Proc} (n : ℕ) → InRange q → InRange (record q { sched_count = n })
InRange-counted n r = record {
  level = r.level;
  score = r.score;
  level_lt = r.level_lt;
  level_eq = r.level_eq;
  score_le = r.score_le;
  score_eq = r.score_eq;
  ticks_le = r.ticks_le;
}

IsPlaced-counted :
    {q : Proc} {i : ℕ} (n : ℕ) → IsPlaced q i → IsPlaced (record q { sched_count = n }) i
IsPlaced-counted n w = record {
  at_level = w.at_level;
  full_slice = w.full_slice;
  ready = w.ready;
  owned = w.owned;
}

count_choice-IsValid : {s : SchedState} (o : Option ℕ) → IsValid s → IsValid (count_choice s o)
unfolding count_choice
count_choice-IsValid none v = v
count_choice-IsValid {s} (some p) v =
    let n = inc_u32 (s.procs p).sched_count in
    record {
      ranges = λ a. update_all InRange s.procs p _ a (InRange-counted n (v.ranges p)) (v.ranges a);
      once = λ a.
          update_cases (λ x. queued s.mlfq_inst.queues a ≡ (if is_linked x.run_link then 1 else 0))
            s.procs p _ a (λ same. rw same (v.once p)) (λ other. v.once a);
      placed = λ i a hi c.
          update_cases (λ x. IsPlaced x i) s.procs p _ a
            (λ same. IsPlaced-counted n (v.placed i p hi (rw same at c)))
            (λ other. v.placed i a hi c);
      counted = v.counted;
    }

-- From a valid state the choice leaves a valid state. It is the head of the first queue that is not
-- empty once a due boost is done, and none exactly when all four queues are empty. The boost is due from
-- 1000 ticks of the timer on: then all processes stand in queue 0, those of a higher level first; before,
-- the queues are as they were.
pub pick_next_lem :
    {s : SchedState}
    → IsValid s
    → let qs = (boost_if_due s).mlfq_inst.queues in
      let (t, next) = pick_next s in
      IsValid t
      × (t.mlfq_inst.queues ≡ qs)
      × (((next ≡ none) × EmptyAbove qs 4) ⊎ ((p i : ℕ) × (next ≡ some p) × IsFirst qs p i))
      × (1000 ≤ s.mlfq_inst.global_timer
          → (qs 0
              ≡ s.mlfq_inst.queues 0
                ++ s.mlfq_inst.queues 1
                ++ s.mlfq_inst.queues 2
                ++ s.mlfq_inst.queues 3)
            × (qs 1 ≡ [])
            × (qs 2 ≡ [])
            × (qs 3 ≡ []))
      × (s.mlfq_inst.global_timer < 1000 → qs ≡ s.mlfq_inst.queues)
unfolding pick_next boost_if_due
pick_next_lem {s} v =
    let u = boost_if_due s in
    let next = first_queue u.mlfq_inst.queues 0 4 in
    (
      count_choice-IsValid next (boost_if_due-IsValid v),
      queues-count_choice u next,
      elim (first_queue_cases u.mlfq_inst.queues 4 0 4 (omega arith) tt) [
        | inl h ↦ inl h
        | inr (p, j, r, e, hj, h, above) ↦
            inr (p, j, e, record { rest = r; in_bounds = hj; heads = h; above = above })
      ],
      λ due.
          let d : leb 1000 s.mlfq_inst.global_timer ≡ true = ground arith in
          let (_, a, b, c, e) = priority_boost_lem v in rw d (a, b, c, e),
      λ early. let d : leb 1000 s.mlfq_inst.global_timer ≡ false = ground arith in rw d refl,
    )
  where
    queues-count_choice :
        (u : SchedState) (o : Option ℕ) → (count_choice u o).mlfq_inst.queues ≡ u.mlfq_inst.queues
    queues-count_choice u none = refl
    queues-count_choice u (some p) = refl
