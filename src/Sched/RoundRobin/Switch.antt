-- ===== src/Sched/RoundRobin/Switch.antt =====
-- `schedule` under the round-robin class (kern/schedule/rr_sched.c and sched.c): the process that ran is
-- put back, and the first one of the queue is taken out.
use a_smart_mlfq_project_bas.Common.{
  ◌==◌, ==_iff, ne-==, Bool-cases, count, erase, ℕ, ◌+◌, ◌<◌, ◌≡◌, refl, sym, ap, ◌∙◌, subst, ◌≢◌,
  inl, inr, true, false, some, List, [], ◌∷◌, ◌++◌, arith,
}
use a_smart_mlfq_project_bas.Common.Int.{pos, ◌≤ℤ◌, ◌<ℤ◌}
use a_smart_mlfq_project_bas.Common.Store.{update, update_all, update_self, update_keeps}
use a_smart_mlfq_project_bas.Sched.Framework.{
  Kernel, proc_at, sched_class_enqueue, sched_class_dequeue, proc_run, take_choice, choose,
  run_next, requeue_current, schedule,
}
use a_smart_mlfq_project_bas.Sched.Proc.{runnable, self, linked}
use a_smart_mlfq_project_bas.Sched.RoundRobin.{rr_append, first, rr_pick_next, rr_sched_class}
use a_smart_mlfq_project_bas.Sched.RoundRobin.Invariant.{
  IsQueue, rr_enqueue-IsQueue, rr_removed, rr_dequeue-IsQueue, set_proc-IsQueue,
}
use a_smart_mlfq_project_bas.Sched.Smart.Range.{used}
use a_smart_mlfq_project_bas.Sched.State.{SchedState, is_runnable, is_linked, set_proc}

-- the processes that take turns: the current one and the queue behind it
abbrev pub ring : Kernel → List ℕ
ring k = k.current ∷ k.sched.rq.run_list

-- A valid queue, none of whose processes is the idle one or has been asked to give the processor up,
-- under a current process that may run.
pub record IsRunning (k : Kernel) : Type 0 where
  pub valid : IsQueue k.sched
  pub ready : (proc_at k k.current).state ≡ runnable
  pub free : is_linked (proc_at k k.current).run_link ≡ false
  pub some_left : pos 0 <ℤ (proc_at k k.current).time_slice
  pub not_long : (proc_at k k.current).time_slice ≤ℤ k.sched.rq.max_time_slice
  pub not_idle : k.current ≢ k.idleproc
  pub idle_free : is_linked (proc_at k k.idleproc).run_link ≡ false
  pub calm : (a : ℕ) → 0 < count a (ring k) → (proc_at k a).need_resched ≡ false

-- the queue behind the first step of `schedule`: the flag cleared and the process put back
abbrev pub put_back : SchedState → ℕ → SchedState
put_back t c = rr_append (set_proc t c (record (t.procs c) { need_resched = false })) c

pub put_back_self :
    (t : SchedState) (c : ℕ)
    → (t.procs c).time_slice ≡ pos 0
    → (((put_back t c).procs c).time_slice ≡ t.rq.max_time_slice)
      × (((put_back t c).procs c).need_resched ≡ false)
unfolding rr_append
put_back_self t c used = rw ((==_iff c c).1 refl, used) (refl, refl)

pub put_back_other : (t : SchedState) (c a : ℕ) → a ≢ c → (put_back t c).procs a ≡ t.procs a
unfolding rr_append
put_back_other t c a ne = rw (ne-== a c ne) refl

pub put_back_max : (t : SchedState) (c : ℕ) → (put_back t c).rq.max_time_slice ≡ t.rq.max_time_slice
unfolding rr_append
put_back_max t c = refl

-- the kernel behind `schedule`
abbrev pub switched_to : Kernel → SchedState → ℕ → Kernel
switched_to k s x =
    let t = rr_removed s x in
    record k {
      sched = set_proc t x (record (t.procs x) { runs = (t.procs x).runs + 1 });
      current = x;
    }

run_next-eq :
    (k : Kernel) (s : SchedState) (x : ℕ)
    → run_next rr_sched_class (record k { sched = rr_removed s x }, x) ≡ switched_to k s x
unfolding run_next proc_run
run_next-eq k s x = elim (Bool-cases (x == k.current)) [
  | inl e ↦
      let t = rr_removed s x in
      let s' = set_proc t x (record (t.procs x) { runs = (t.procs x).runs + 1 }) in
      rw e (ap (λ (y : ℕ). record k { sched = s'; current = y }) (sym ((==_iff x k.current).0 e)))
  | inr e ↦ rw e refl
]

-- `schedule` for a process that may run on and a queue in which some process stands then.
pub schedule-eq :
    (k : Kernel) (x : ℕ)
    → IsQueue k.sched
    → (proc_at k k.current).state ≡ runnable
    → is_linked (proc_at k k.current).run_link ≡ false
    → k.current ≢ k.idleproc
    → (rest : List ℕ) → k.sched.rq.run_list ++ (k.current ∷ []) ≡ x ∷ rest
    → (schedule rr_sched_class k ≡ some (switched_to k (put_back k.sched k.current) x))
      × IsQueue (put_back k.sched k.current)
      × ((put_back k.sched k.current).rq.run_list ≡ x ∷ rest)
      × (((put_back k.sched k.current).procs x).run_link ≡ linked)
unfolding schedule requeue_current sched_class_enqueue choose take_choice sched_class_dequeue
    rr_sched_class rr_pick_next
schedule-eq k x v ready free ni rest e =
    let c = k.current in
    let q = record (k.sched.procs c) { need_resched = false } in
    let same = update_self k.sched.procs c q in
    let v₀ : IsQueue (set_proc k.sched c q) = set_proc-IsQueue c q v free free (v.slices c) in
    let (en, v₁, l) =
      rr_enqueue-IsQueue c v₀ (ap (λ r. r.state) same ∙ ready)
        (ap (λ r. is_linked r.run_link) same ∙ free) in
    let l' : (put_back k.sched c).rq.run_list ≡ x ∷ rest = l ∙ e in
    let here : 0 < count x (put_back k.sched c).rq.run_list = rw l' (ground arith) in
    let on : ((put_back k.sched c).procs x).run_link ≡ linked = ground (arith, v₁.once x) in
    let (de, w) = rr_dequeue-IsQueue x v₁ on in
    let up : is_runnable (update k.sched.procs c q c).state ≡ true =
      ap (λ r. is_runnable r.state) same ∙ ap is_runnable ready in
    (
      rw (up, ne-== c k.idleproc ni, en, ap first l', de, run_next-eq k (put_back k.sched c) x)
          refl,
      v₁,
      l',
      on,
    )

-- what `switched_to` does to a process
pub switched_to_slice :
    (k : Kernel) (s : SchedState) (x a : ℕ)
    → (proc_at (switched_to k s x) a).time_slice ≡ (s.procs a).time_slice
switched_to_slice k s x a =
    update_keeps (λ q. q.time_slice) (rr_removed s x).procs x _ a refl
    ∙ update_keeps (λ q. q.time_slice) s.procs x _ a refl

switched_to_state :
    (k : Kernel) (s : SchedState) (x a : ℕ)
    → (proc_at (switched_to k s x) a).state ≡ (s.procs a).state
switched_to_state k s x a =
    update_keeps (λ q. q.state) (rr_removed s x).procs x _ a refl
    ∙ update_keeps (λ q. q.state) s.procs x _ a refl

switched_to_calm :
    (k : Kernel) (s : SchedState) (x a : ℕ)
    → (proc_at (switched_to k s x) a).need_resched ≡ (s.procs a).need_resched
switched_to_calm k s x a =
    update_keeps (λ q. q.need_resched) (rr_removed s x).procs x _ a refl
    ∙ update_keeps (λ q. q.need_resched) s.procs x _ a refl

switched_to_free :
    (k : Kernel) (s : SchedState) (x : ℕ)
    → is_linked (proc_at (switched_to k s x) x).run_link ≡ false
switched_to_free k s x = ground (arith, (==_iff x x).1 refl)

switched_to_idle :
    (k : Kernel) (s : SchedState) (x : ℕ)
    → is_linked (s.procs k.idleproc).run_link ≡ false
    → is_linked (proc_at (switched_to k s x) k.idleproc).run_link ≡ false
switched_to_idle k s x free =
    update_keeps (λ q. is_linked q.run_link) (rr_removed s x).procs x _ k.idleproc refl
    ∙ update_all (λ q. is_linked q.run_link ≡ false) s.procs x _ k.idleproc refl free

-- a valid queue behind the process that is taken from its front
pub switched_to-IsRunning :
    (k : Kernel) (s : SchedState) (x : ℕ) (rest : List ℕ)
    → IsQueue s
    → s.rq.run_list ≡ x ∷ rest
    → (s.procs x).run_link ≡ linked
    → is_linked (s.procs k.idleproc).run_link ≡ false
    → ((a : ℕ) → 0 < count a (x ∷ rest) → (s.procs a).need_resched ≡ false)
    → IsRunning (switched_to k s x) × (ring (switched_to k s x) ≡ x ∷ rest)
switched_to-IsRunning k s x rest v l on idle calm =
    let here : 0 < count x s.rq.run_list = rw l (ground arith) in
    let wait = v.waiting x here in
    let (_, w) = rr_dequeue-IsQueue x v on in
    let t = rr_removed s x in
    let free : is_linked (t.procs x).run_link ≡ false =
      ap (λ q. is_linked q.run_link)
        (update_self s.procs x (record (s.procs x) { run_link = self })) in
    let r : ring (switched_to k s x) ≡ x ∷ rest =
      ap (λ ys. x ∷ ys) (ap (λ ys. erase ys x) l ∙ rw ((==_iff x x).1 refl) refl) in
    let slice = switched_to_slice k s x x in
    (
      record {
        valid = set_proc-IsQueue x _ w free free (w.slices x);
        ready = switched_to_state k s x x ∙ wait.ready;
        free = switched_to_free k s x;
        some_left = rw slice wait.some_left;
        not_long = rw slice wait.not_long;
        not_idle = λ e. absurd (ground (arith, ap is_linked on, idle, e));
        idle_free = switched_to_idle k s x idle;
        calm = λ a m. switched_to_calm k s x a ∙ calm a (subst (λ ys. 0 < count a ys) r m);
      },
      r,
    )
