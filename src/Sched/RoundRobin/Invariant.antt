-- ===== src/Sched/RoundRobin/Invariant.antt =====
-- The invariant of the round-robin class (rr_sched.c), kept by each of its operations.
use a_smart_mlfq_project_bas.Common.{
  if◌then◌else◌, length, length-append, count, erase, count-append, count-erase_self,
  count-erase_of_ne, length-erase_add, ℕ, ◌<◌, ◌≡◌, refl, ap, ◌∙◌, true, false, ◌&&◌, not, some, [],
  ◌∷◌, ◌++◌, arith,
}
use a_smart_mlfq_project_bas.Common.Int.{ℤ, pos, ◌-ℤ◌, ◌≤ℤ◌, ◌<ℤ◌, u32}
use a_smart_mlfq_project_bas.Common.Store.{update, update_all, update_cases}
use a_smart_mlfq_project_bas.Sched.Proc.{runnable, self, linked, Proc}
use a_smart_mlfq_project_bas.Sched.RoundRobin.{
  refill, rr_append, rr_enqueue, rr_unlink, rr_dequeue, rr_tick, rr_proc_tick,
}
use a_smart_mlfq_project_bas.Sched.State.{
  SchedState, is_runnable, is_linked, list_empty, set_proc, dec_u32,
}

-- What a process has while it stands in the queue: a slice of 1 to `max` ticks among it.
pub record IsWaiting (q : Proc) (max_slice : ℤ) : Type 0 where
  pub ready : q.state ≡ runnable
  pub owned : q.on_rq ≡ true
  pub some_left : pos 0 <ℤ q.time_slice
  pub not_long : q.time_slice ≤ℤ max_slice

pub record IsQueue (s : SchedState) : Type 0 where
  pub slices : (p : ℕ) → pos 0 ≤ℤ (s.procs p).time_slice
  pub positive : pos 0 <ℤ s.rq.max_time_slice
  pub once : (p : ℕ) → count p s.rq.run_list ≡ (if is_linked (s.procs p).run_link then 1 else 0)
  pub waiting : (p : ℕ) → 0 < count p s.rq.run_list → IsWaiting (s.procs p) s.rq.max_time_slice
  pub counted : s.rq.proc_num ≡ u32 (length s.rq.run_list)

refill_bounds :
    (left max_slice : ℤ)
    → pos 0 ≤ℤ left
    → pos 0 <ℤ max_slice
    → (pos 0 <ℤ refill left max_slice) × (refill left max_slice ≤ℤ max_slice)
refill_bounds left max_slice h k = ground arith

-- From a valid queue a runnable process that stands in no list is appended, with a slice of 1 to the
-- greatest length, and the queue stays valid.
pub rr_enqueue-IsQueue :
    {s : SchedState} (p : ℕ)
    → IsQueue s
    → (s.procs p).state ≡ runnable
    → is_linked (s.procs p).run_link ≡ false
    → (rr_enqueue s p ≡ some (rr_append s p))
      × IsQueue (rr_append s p)
      × ((rr_append s p).rq.run_list ≡ s.rq.run_list ++ (p ∷ []))
unfolding rr_enqueue rr_append
rr_enqueue-IsQueue {s} p v ready free =
    let b = refill_bounds (s.procs p).time_slice s.rq.max_time_slice (v.slices p) v.positive in
    (
      rw (ap is_runnable ready, free) refl,
      record {
        slices = λ a.
            update_all (λ q. pos 0 ≤ℤ q.time_slice) s.procs p _ a (omega (arith, b)) (v.slices a);
        positive = v.positive;
        once = λ a. ground (arith, count-append a s.rq.run_list (p ∷ []), v.once a);
        waiting = λ a n.
            update_cases (λ q. IsWaiting q s.rq.max_time_slice) s.procs p _ a
              (λ same. record { ready = ready; owned = refl; some_left = b.0; not_long = b.1 })
              (λ other. v.waiting a (ground (arith, count-append a s.rq.run_list (p ∷ []))));
        counted = omega (arith, length-append s.rq.run_list (p ∷ []), v.counted);
      },
      refl,
    )

-- the state after `rr_dequeue`
abbrev pub rr_removed : SchedState → ℕ → SchedState
rr_removed s p = record s {
  procs = update s.procs p (record (s.procs p) { run_link = self });
  rq = record (s.rq) { run_list = erase s.rq.run_list p; proc_num = dec_u32 s.rq.proc_num };
}

rr_tick_nonneg : (q : Proc) → pos 0 ≤ℤ q.time_slice → pos 0 ≤ℤ (rr_tick q).time_slice
unfolding rr_tick ◌-ℤ◌
rr_tick_nonneg q h = ground arith

rr_tick_link : (q : Proc) → (rr_tick q).run_link ≡ q.run_link
unfolding rr_tick
rr_tick_link q = refl

-- From a valid queue a process that stands in it is taken out, the order of the others is kept, and
-- the queue stays valid.
pub rr_dequeue-IsQueue :
    {s : SchedState} (p : ℕ)
    → IsQueue s
    → (s.procs p).run_link ≡ linked
    → (rr_dequeue s p ≡ some (rr_removed s p)) × IsQueue (rr_removed s p)
unfolding rr_dequeue rr_unlink
rr_dequeue-IsQueue {s} p v on =
    let present : 0 < count p s.rq.run_list = ground (arith, v.once p) in
    let allowed : (not (list_empty (s.procs p).run_link) && (s.procs p).on_rq) ≡ true =
      rw (ap list_empty on) (v.waiting p present).owned in
    (
      rw (allowed, ap (rr_unlink s p) on) refl,
      record {
        slices =
            λ a. update_all (λ q. pos 0 ≤ℤ q.time_slice) s.procs p _ a (v.slices p) (v.slices a);
        positive = v.positive;
        once = λ a.
            update_cases
              (λ x. count a (erase s.rq.run_list p) ≡ (if is_linked x.run_link then 1 else 0))
              s.procs p _ a
              (λ same. rw same (ground (arith, count-erase_self p s.rq.run_list, v.once p)))
              (λ other. rw (count-erase_of_ne a p s.rq.run_list other) (v.once a));
        waiting = λ a n.
            update_cases (λ q. IsWaiting q s.rq.max_time_slice) s.procs p _ a
              (λ same.
                absurd (ground (arith, rw same at n, count-erase_self p s.rq.run_list, v.once p)))
              (λ other. v.waiting a (rw (count-erase_of_ne a p s.rq.run_list other) at n));
        counted = ground (arith, length-erase_add p s.rq.run_list, v.once p, v.counted);
      },
    )

-- A write to a process outside the queue that leaves it outside keeps a valid queue valid.
pub set_proc-IsQueue :
    {s : SchedState} (p : ℕ) (q : Proc)
    → IsQueue s
    → is_linked (s.procs p).run_link ≡ false
    → is_linked q.run_link ≡ false
    → pos 0 ≤ℤ q.time_slice
    → IsQueue (set_proc s p q)
set_proc-IsQueue {s} p q v free free' h = record {
  slices = λ a. update_all (λ x. pos 0 ≤ℤ x.time_slice) s.procs p q a h (v.slices a);
  positive = v.positive;
  once = λ a.
      update_cases (λ x. count a s.rq.run_list ≡ (if is_linked x.run_link then 1 else 0)) s.procs p
        q a (λ same. rw (same, free') (v.once p ∙ ap (λ b. if b then 1 else 0) free))
        (λ other. v.once a);
  waiting = λ a n.
      update_cases (λ x. IsWaiting x s.rq.max_time_slice) s.procs p q a
        (λ same. absurd (ground (arith, rw same at n, v.once p))) (λ other. v.waiting a n);
  counted = v.counted;
}

-- A tick of a process outside the queue keeps a valid queue valid.
pub rr_proc_tick-IsQueue :
    {s : SchedState} (p : ℕ)
    → IsQueue s
    → is_linked (s.procs p).run_link ≡ false
    → IsQueue (rr_proc_tick s p)
unfolding rr_proc_tick
rr_proc_tick-IsQueue {s} p v free =
    set_proc-IsQueue p (rr_tick (s.procs p)) v free (ap is_linked (rr_tick_link (s.procs p)) ∙ free)
      (rr_tick_nonneg (s.procs p) (v.slices p))
