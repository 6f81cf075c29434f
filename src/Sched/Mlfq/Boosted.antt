-- ===== src/Sched/Mlfq/Boosted.antt =====
-- The loops of `priority_boost` (mlfq_sched.c, basic_mlfq_sched.c), from one round to the whole.
use mathlib.Core.List.{append-nil, append_assoc}
use a_smart_mlfq_project_bas.Common.{
  count, ℕ, ◌<◌, ◌≡◌, refl, sym, ap, ◌∙◌, ◌≢◌, List, [], ◌∷◌, ◌++◌, arith,
}
use a_smart_mlfq_project_bas.Sched.Mlfq.{boost_proc, boost_queue, boost_level, priority_boost}
use a_smart_mlfq_project_bas.Sched.Mlfq.Boost.{moved, boost_proc-IsValid}
use a_smart_mlfq_project_bas.Sched.Mlfq.Invariant.{IsValid}
use a_smart_mlfq_project_bas.Sched.State.{SchedState}

moved_top : (queues : ℕ → List ℕ) (i p : ℕ) → i ≢ 0 → moved queues i p 0 ≡ queues 0 ++ (p ∷ [])
moved_top queues i p h = ground arith

moved_left :
    (queues : ℕ → List ℕ) (i p : ℕ) (ps : List ℕ)
    → i ≢ 0
    → queues i ≡ p ∷ ps
    → moved queues i p i ≡ ps
moved_left queues i p ps ne h = ground arith

moved_rest : (queues : ℕ → List ℕ) (i p j : ℕ) → j ≢ 0 → j ≢ i → moved queues i p j ≡ queues j
moved_rest queues i p j n₀ n = ground arith

-- What moving the processes `ps` out of queue `i` does, the order kept.
record Emptied (s : SchedState) (i : ℕ) (ps : List ℕ) (t : SchedState) : Type 0 where
  valid : IsValid t
  top : t.mlfq_inst.queues 0 ≡ s.mlfq_inst.queues 0 ++ ps
  empty : t.mlfq_inst.queues i ≡ []
  rest : (j : ℕ) → j ≢ 0 → j ≢ i → t.mlfq_inst.queues j ≡ s.mlfq_inst.queues j

boost_queue-Emptied :
    {s : SchedState} (i : ℕ) (ps : List ℕ)
    → IsValid s
    → i ≢ 0
    → i < 4
    → s.mlfq_inst.queues i ≡ ps
    → Emptied s i ps (boost_queue s i ps)
unfolding boost_queue boost_proc
boost_queue-Emptied {s} i [] v ne hi e = record {
  valid = v;
  top = sym (append-nil (s.mlfq_inst.queues 0));
  empty = e;
  rest = λ j _ _. refl;
}
boost_queue-Emptied {s} i (p ∷ ps) v ne hi e =
    let r =
      boost_queue-Emptied {s = boost_proc s i p} i ps (boost_proc-IsValid i p v hi (front i p ps e))
        ne hi (left i p ps ne e) in
    record {
      valid = r.valid;
      top =
          r.top
          ∙ ap (λ qs. qs ++ ps) (moved_top s.mlfq_inst.queues i p ne)
          ∙ append_assoc (s.mlfq_inst.queues 0) (p ∷ []) ps;
      empty = r.empty;
      rest = λ j n₀ n. r.rest j n₀ n ∙ moved_rest s.mlfq_inst.queues i p j n₀ n;
    }
  where
    front :
        (k q : ℕ) (qs : List ℕ) → s.mlfq_inst.queues k ≡ q ∷ qs → 0 < count q (s.mlfq_inst.queues k)
    front k q qs h = rw h (ground arith)

    left :
        (k q : ℕ) (qs : List ℕ)
        → k ≢ 0
        → s.mlfq_inst.queues k ≡ q ∷ qs
        → (boost_proc s k q).mlfq_inst.queues k ≡ qs
    left k q qs n h = moved_left s.mlfq_inst.queues k q qs n h

-- From a valid state the boost leaves queues 1 to 3 empty and queue 0 with all processes, those of
-- a higher level first and each queue in its order; the state is valid, so each has level 0 and the
-- slice of level 0.
pub priority_boost_lem :
    {s : SchedState}
    → IsValid s
    → let qs = s.mlfq_inst.queues in
      let t = priority_boost s in
      IsValid t
      × (t.mlfq_inst.queues 0 ≡ qs 0 ++ qs 1 ++ qs 2 ++ qs 3)
      × (t.mlfq_inst.queues 1 ≡ [])
      × (t.mlfq_inst.queues 2 ≡ [])
      × (t.mlfq_inst.queues 3 ≡ [])
unfolding priority_boost boost_level
priority_boost_lem {s} v =
    let a = boost_queue-Emptied 1 (s.mlfq_inst.queues 1) v (omega arith) (omega arith) refl in
    let s₁ = boost_level s 1 in
    let b =
      boost_queue-Emptied 2 (s₁.mlfq_inst.queues 2) a.valid (omega arith) (omega arith) refl in
    let s₂ = boost_level s₁ 2 in
    let c =
      boost_queue-Emptied 3 (s₂.mlfq_inst.queues 3) b.valid (omega arith) (omega arith) refl in
    (
      c.valid,
      c.top
          ∙ cc (
            b.top,
            a.top,
            b.rest 3 (omega arith) (omega arith),
            a.rest 3 (omega arith) (omega arith),
            a.rest 2 (omega arith) (omega arith),
          ),
      c.rest 1 (omega arith) (omega arith) ∙ b.rest 1 (omega arith) (omega arith) ∙ a.empty,
      c.rest 2 (omega arith) (omega arith) ∙ b.empty,
      c.empty,
    )
