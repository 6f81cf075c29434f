-- ===== src/Sched/Mlfq/Tick.antt =====
-- `mlfq_proc_tick` and `basic_mlfq_proc_tick`.
use a_smart_mlfq_project_bas.Common.{
  leb, if◌then◌else◌, Bool-cases, ℕ, zero, suc, ◌≤◌, ◌<◌, ◌≡◌, refl, ◌↔◌, inl, inr, true, false,
  arith,
}
use a_smart_mlfq_project_bas.Common.Int.{pos, ◌-ℤ◌}
use a_smart_mlfq_project_bas.Common.Store.{update_all, update_cases}
use a_smart_mlfq_project_bas.Sched.Mlfq.{tick, proc_tick}
use a_smart_mlfq_project_bas.Sched.Mlfq.Invariant.{queued, IsPlaced, IsValid, count-le-queued}
use a_smart_mlfq_project_bas.Sched.Mlfq.Policy.{InRange}
use a_smart_mlfq_project_bas.Sched.Proc.{Proc}
use a_smart_mlfq_project_bas.Sched.State.{SchedState, is_runnable, is_linked, set_proc}

InRange-tick : (q : Proc) → InRange q → InRange (tick q)
unfolding tick
InRange-tick q r = record {
  level = r.level;
  score = r.score;
  level_lt = r.level_lt;
  level_eq = r.level_eq;
  score_le = r.score_le;
  score_eq = r.score_eq;
  ticks_le = ground (arith, r.ticks_le);
}

link-tick : (q : Proc) → (tick q).run_link ≡ q.run_link
unfolding tick
link-tick q = refl

ticked-IsValid :
    {s : SchedState} (p : ℕ)
    → IsValid s
    → is_linked (s.procs p).run_link ≡ false
    → IsValid (set_proc s p (tick (s.procs p)))
ticked-IsValid {s} p v free = record {
  ranges =
      λ a. update_all InRange s.procs p _ a (InRange-tick (s.procs p) (v.ranges p)) (v.ranges a);
  once = λ a.
      update_cases (λ x. queued s.mlfq_inst.queues a ≡ (if is_linked x.run_link then 1 else 0))
        s.procs p _ a (λ same. rw (same, link-tick) (v.once p)) (λ other. v.once a);
  placed = λ i a hi c.
      update_cases (λ x. IsPlaced x i) s.procs p _ a
        (λ same.
          absurd
            (ground (arith, rw same at c, count-le-queued s.mlfq_inst.queues i p hi, v.once p)))
        (λ other. v.placed i a hi c);
  counted = v.counted;
}

-- A tick of a process that is in no queue keeps a valid state valid.
pub proc_tick-IsValid :
    {s : SchedState} (p : ℕ)
    → IsValid s
    → is_linked (s.procs p).run_link ≡ false
    → IsValid (proc_tick s p)
unfolding proc_tick
proc_tick-IsValid {s} p v free = elim (Bool-cases (is_runnable (s.procs p).state)) [
  | inl run ↦
      let w = ticked-IsValid p v free in
      rw run (record { ranges = w.ranges; once = w.once; placed = w.placed; counted = w.counted })
  | inr idle ↦
      rw idle (record { ranges = v.ranges; once = v.once; placed = v.placed; counted = v.counted })
]

-- a process after `k` ticks in a row
abbrev pub ticks : ℕ → Proc → Proc
ticks zero q = q
ticks (suc k) q = tick (ticks k q)

ticks_left :
    (k n : ℕ) (q : Proc)
    → q.current_slice_ticks ≡ pos n
    → q.need_resched ≡ false
    → 0 < n
    → ((ticks k q).current_slice_ticks ≡ pos n -ℤ pos k) × ((ticks k q).need_resched ≡ leb n k)
unfolding tick ◌-ℤ◌
ticks_left zero n q e r h = (rw e (ground arith), rw r (ground arith))
ticks_left (suc k) n q e r h =
    let (t, f) = ticks_left k n q e r h in (rw t (ground arith), rw (t, f) (ground arith))

-- A process that starts with `n` ticks left asks for a reschedule after `k` ticks exactly when all
-- `n` are used up.
pub tick-need_resched :
    (k n : ℕ) (q : Proc)
    → q.current_slice_ticks ≡ pos n
    → q.need_resched ≡ false
    → 0 < n
    → ((ticks k q).need_resched ≡ true) ↔ (n ≤ k)
tick-need_resched k n q e r h = rw (ticks_left k n q e r h).1 (ground arith)
