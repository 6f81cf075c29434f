-- ===== src/Sched/RoundRobin/Ticks.antt =====
-- A process that runs under the round-robin class (kern/schedule/rr_sched.c and sched.c): the clock
-- ticks until it has to give the processor up.
use a_smart_mlfq_project_bas.Common.{
  if◌then◌else◌, ne-==, ◌>>=◌, ℕ, zero, suc, ◌<◌, ◌≡◌, refl, ◌∙◌, ◌≢◌, true, false, Option, none,
  some, arith,
}
use a_smart_mlfq_project_bas.Common.Int.{pos, ◌-ℤ◌}
use a_smart_mlfq_project_bas.Common.Store.{update_self}
use a_smart_mlfq_project_bas.Sched.Framework.{Kernel, proc_at, sched_class_proc_tick}
use a_smart_mlfq_project_bas.Sched.Proc.{Proc}
use a_smart_mlfq_project_bas.Sched.RoundRobin.{rr_tick, rr_proc_tick, rr_sched_class}
use a_smart_mlfq_project_bas.Sched.RoundRobin.Invariant.{IsQueue, rr_proc_tick-IsQueue}
use a_smart_mlfq_project_bas.Sched.State.{SchedState, is_linked}

-- The clock ticks, each one a call of `sched_class_proc_tick` for the current process, until
-- `need_resched` is set: the kernel then and the number of ticks, or `none` if the fuel does not do.
abbrev pub run_until : ℕ → Kernel → Option (Kernel × ℕ)
run_until zero k = none
run_until (suc fuel) k =
    let k' = sched_class_proc_tick rr_sched_class k k.current in
    let rest = run_until fuel k' >>= λ r. some (r.0, suc r.1) in
    if (proc_at k' k'.current).need_resched then some (k', 1) else rest

-- The process has run until its slice was used up.
pub record HasRun (s : SchedState) (p : ℕ) (t : SchedState) : Type 0 where
  pub valid : IsQueue t
  pub used : (t.procs p).time_slice ≡ pos 0
  pub state : (t.procs p).state ≡ (s.procs p).state
  pub free : is_linked (t.procs p).run_link ≡ false
  pub rq : t.rq ≡ s.rq
  pub others : (a : ℕ) → a ≢ p → t.procs a ≡ s.procs a

tick_slice : (q : Proc) (n : ℕ) → q.time_slice ≡ pos (suc n) → (rr_tick q).time_slice ≡ pos n
unfolding rr_tick ◌-ℤ◌
tick_slice q n e = ground arith

tick_last : (q : Proc) → q.time_slice ≡ pos 1 → (rr_tick q).need_resched ≡ true
unfolding rr_tick ◌-ℤ◌
tick_last q e = rw e refl

tick_more :
    (q : Proc) (n : ℕ)
    → q.time_slice ≡ pos (suc (suc n))
    → (rr_tick q).need_resched ≡ q.need_resched
unfolding rr_tick ◌-ℤ◌
tick_more q n e = ground arith

tick-eq :
    (k : Kernel)
    → k.current ≢ k.idleproc
    → sched_class_proc_tick rr_sched_class k k.current
      ≡ record k { sched = rr_proc_tick k.sched k.current }
unfolding sched_class_proc_tick rr_sched_class
tick-eq k ne = rw (ne-== k.current k.idleproc ne) refl

ticked : (s : SchedState) (p : ℕ) → (rr_proc_tick s p).procs p ≡ rr_tick (s.procs p)
unfolding rr_proc_tick
ticked s p = update_self s.procs p (rr_tick (s.procs p))

ticked_other : (s : SchedState) (p a : ℕ) → a ≢ p → (rr_proc_tick s p).procs a ≡ s.procs a
unfolding rr_proc_tick
ticked_other s p a ne = rw (ne-== a p ne) refl

ticked_rq : (s : SchedState) (p : ℕ) → (rr_proc_tick s p).rq ≡ s.rq
unfolding rr_proc_tick
ticked_rq s p = refl

tick_state : (q : Proc) → (rr_tick q).state ≡ q.state
unfolding rr_tick
tick_state q = refl

tick_free : (q : Proc) → is_linked q.run_link ≡ false → is_linked (rr_tick q).run_link ≡ false
unfolding rr_tick
tick_free q e = e

-- A process with a slice of n + 1 ticks that need not give the processor up runs for exactly these
-- ticks: then the slice is used up.
pub run_until_lem :
    (n fuel : ℕ) (k : Kernel)
    → IsQueue k.sched
    → is_linked (proc_at k k.current).run_link ≡ false
    → k.current ≢ k.idleproc
    → (proc_at k k.current).time_slice ≡ pos (suc n)
    → (proc_at k k.current).need_resched ≡ false
    → n < fuel
    → (t : SchedState) × (run_until fuel k ≡ some (record k { sched = t }, suc n))
      × HasRun k.sched k.current t
run_until_lem n zero k v free ni left calm enough = absurd (omega arith)
run_until_lem zero (suc fuel) k v free ni left calm enough =
    let t = rr_proc_tick k.sched k.current in
    let here = ticked k.sched k.current in
    let asked : (t.procs k.current).need_resched ≡ true = rw here (tick_last _ left) in
    (
      t,
      rw (tick-eq k ni, asked) refl,
      record {
        valid = rr_proc_tick-IsQueue k.current v free;
        used = rw here (tick_slice _ 0 left);
        state = rw here (tick_state _);
        free = rw here (tick_free _ free);
        rq = ticked_rq k.sched k.current;
        others = ticked_other k.sched k.current;
      },
    )
run_until_lem (suc n) (suc fuel) k v free ni left calm enough =
    let s = rr_proc_tick k.sched k.current in
    let here = ticked k.sched k.current in
    let quiet : (s.procs k.current).need_resched ≡ false = rw here (tick_more _ n left ∙ calm) in
    let (t, e, h) =
      run_until_lem n fuel (record k { sched = s }) (rr_proc_tick-IsQueue k.current v free)
        (rw here (tick_free _ free)) ni (rw here (tick_slice _ (suc n) left)) quiet (omega arith) in
    (
      t,
      rw (tick-eq k ni, quiet, e) refl,
      record {
        valid = h.valid;
        used = h.used;
        state = h.state ∙ rw here (tick_state _);
        free = h.free;
        rq = h.rq ∙ ticked_rq k.sched k.current;
        others = λ a ne. h.others a ne ∙ ticked_other k.sched k.current a ne;
      },
    )
