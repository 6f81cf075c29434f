-- ===== src/Sched/Mlfq/Dequeue.antt =====
-- `mlfq_dequeue` and `basic_mlfq_dequeue`: they take a queued process out, and keep the invariant.
use a_smart_mlfq_project_bas.Common.{
  ltb, if◌then◌else◌, tests, Bool-cases, count, erase, count-erase_self, count-erase_of_ne,
  length-erase_add, ℕ, ◌+◌, ◌<◌, ◌≡◌, ap, inl, inr, true, ◌&&◌, not, some, List, arith,
}
use a_smart_mlfq_project_bas.Common.Store.{update, update_all, update_cases}
use a_smart_mlfq_project_bas.Sched.Mlfq.{unlink, dequeue}
use a_smart_mlfq_project_bas.Sched.Mlfq.Invariant.{
  queued, total, IsPlaced, IsValid, count-le-queued,
}
use a_smart_mlfq_project_bas.Sched.Mlfq.Policy.{InRange}
use a_smart_mlfq_project_bas.Sched.Proc.{self, linked}
use a_smart_mlfq_project_bas.Sched.State.{SchedState, is_linked, list_empty, dec_u32}

abbrev pub unlinked : SchedState → ℕ → SchedState
unlinked s p = record s {
  procs = update s.procs p (record (s.procs p) { run_link = self });
  mlfq_inst = record (s.mlfq_inst) { queues = λ i. erase (s.mlfq_inst.queues i) p };
  rq = record (s.rq) { proc_num = dec_u32 s.rq.proc_num };
}

-- A queued process stands in one of the four queues.
pub queue_of :
    (queues : ℕ → List ℕ) (p : ℕ)
    → 0 < queued queues p
    → (i : ℕ) × (i < 4) × (0 < count p (queues i))
queue_of queues p h = elim (Bool-cases (ltb 0 (count p (queues 0)))) [
  | inl e ↦ (0, omega arith, omega (tests, e))
  | inr n₀ ↦ elim (Bool-cases (ltb 0 (count p (queues 1)))) [
    | inl e ↦ (1, omega arith, omega (tests, e))
    | inr n₁ ↦ elim (Bool-cases (ltb 0 (count p (queues 2)))) [
      | inl e ↦ (2, omega arith, omega (tests, e))
      | inr n₂ ↦ (3, omega arith, ground arith)
    ]
  ]
]

module _ {s : SchedState} (v : IsValid s) where
  linked_owned : (p : ℕ) → (s.procs p).run_link ≡ linked → (s.procs p).on_rq ≡ true
  linked_owned p e =
      let (i, hi, c) = queue_of s.mlfq_inst.queues p (ground (arith, v.once p)) in
      (v.placed i p hi c).owned

  InRange-unlinked : (p : ℕ) → InRange (record (s.procs p) { run_link = self })
  InRange-unlinked p =
      let r = v.ranges p in
      record {
        level = r.level;
        score = r.score;
        level_lt = r.level_lt;
        level_eq = r.level_eq;
        score_le = r.score_le;
        score_eq = r.score_eq;
        ticks_le = r.ticks_le;
      }

  once-unlinked :
      (p a : ℕ)
      → (s.procs p).run_link ≡ linked
      → queued (unlinked s p).mlfq_inst.queues a
        ≡ (if is_linked ((unlinked s p).procs a).run_link then 1 else 0)
  once-unlinked p a e =
      let qs = s.mlfq_inst.queues in
      update_cases
        (λ x. queued (unlinked s p).mlfq_inst.queues a ≡ (if is_linked x.run_link then 1 else 0))
        s.procs p _ a
        (λ same. rw same (
          ground (
            arith,
            count-erase_self p (qs 0),
            count-erase_self p (qs 1),
            count-erase_self p (qs 2),
            count-erase_self p (qs 3),
            v.once p,
          )))
        (λ other.
          rw
            (
              count-erase_of_ne a p (qs 0) other,
              count-erase_of_ne a p (qs 1) other,
              count-erase_of_ne a p (qs 2) other,
              count-erase_of_ne a p (qs 3) other,
            )
            (v.once a))

  total-unlinked :
      (p : ℕ)
      → (s.procs p).run_link ≡ linked
      → total (unlinked s p).mlfq_inst.queues + 1 ≡ total s.mlfq_inst.queues
  total-unlinked p e =
      let qs = s.mlfq_inst.queues in
      ground (
        arith,
        length-erase_add p (qs 0),
        length-erase_add p (qs 1),
        length-erase_add p (qs 2),
        length-erase_add p (qs 3),
        v.once p,
      )

  allowed :
      (p : ℕ)
      → (s.procs p).run_link ≡ linked
      → (not (list_empty (s.procs p).run_link) && (s.procs p).on_rq) ≡ true
  allowed p e = rw (ap list_empty e) (linked_owned p e)

  -- For a valid state and a process in a queue, the call returns, the process stands in no queue,
  -- every other place is as it was, and the state is valid.
  pub dequeue-IsValid :
      (p : ℕ)
      → (s.procs p).run_link ≡ linked
      → (dequeue s p ≡ some (unlinked s p)) × IsValid (unlinked s p)
  unfolding dequeue unlink
  dequeue-IsValid p e = (
    rw (allowed p e, ap (unlink s p) e),
    record {
      ranges = λ a. update_all InRange s.procs p _ a (InRange-unlinked p) (v.ranges a);
      once = λ a. once-unlinked p a e;
      placed = λ i a hi n.
          update_cases (λ x. IsPlaced x i) s.procs p _ a
            (λ same. absurd (
              ground (
                arith,
                rw same at n,
                count-erase_self p (s.mlfq_inst.queues i),
                count-le-queued s.mlfq_inst.queues i p hi,
                v.once p,
              )))
            (λ other.
              v.placed i a hi (rw (count-erase_of_ne a p (s.mlfq_inst.queues i) other) at n));
      counted = omega (arith, total-unlinked p e, v.counted);
    },
  )
