-- ===== src/Sched/Framework/Schedule.antt =====
-- `schedule` (kern/schedule/sched.c): it returns, loses no process, and idles only with nothing to run.
use native.Mathlib.Decide.{ℕ_discrete}
use a_smart_mlfq_project_bas.Common.{
  ◌==◌, ==_iff, ==-ne, Bool-cases, ℕ, ◌+◌, ◌≡◌, refl, sym, ap, ◌∙◌, subst, ◌≢◌, ◌⊎◌, inl, inr, true,
  false, some,
}
use a_smart_mlfq_project_bas.Sched.Framework.{
  Kernel, proc_at, sched_class_enqueue, sched_class_dequeue, proc_run, take_choice, choose,
  run_next, requeue_current, schedule,
}
use a_smart_mlfq_project_bas.Sched.Framework.Laws.{
  LinkChange, NoLinkChange, Lawful, Sound, touched, touched-NoLinkChange, link-LinkChange_self,
  link-LinkChange_ne,
}
use a_smart_mlfq_project_bas.Sched.Framework.Wakeup.{is_runnable-eq}
use a_smart_mlfq_project_bas.Sched.Proc.{kin, runnable}
use a_smart_mlfq_project_bas.Sched.State.{SchedState, SchedClass, is_runnable, is_linked}

module _ {c : SchedClass} (l : Lawful c) where
  -- Between the requeue and the choice every runnable process but the idle one stands in a queue.
  record AllQueued (s : SchedState) (idle : ℕ) : Type 0 where
    inv : l.Inv s
    idle_free : is_linked (s.procs idle).run_link ≡ false
    idle_ready : (s.procs idle).state ≡ runnable
    none_lost :
        (a : ℕ) → (s.procs a).state ≡ runnable → a ≢ idle → is_linked (s.procs a).run_link ≡ true

  -- the current process with its flag cleared
  abbrev cleared : Kernel → SchedState
  cleared k = touched k.sched k.current (proc_at k k.current).runs false

  module _ {k : Kernel} (v : Sound l k) where
    clear : NoLinkChange k.sched (cleared k)
    clear = touched-NoLinkChange k.sched k.current (proc_at k k.current).runs false

    cleared-Inv : l.Inv (cleared k)
    cleared-Inv = l.touch k.current (proc_at k k.current).runs false v.inv

    still_queued :
        (a : ℕ)
        → ((cleared k).procs a).state ≡ runnable
        → a ≢ k.current
        → a ≢ k.idleproc
        → is_linked ((cleared k).procs a).run_link ≡ true
    still_queued a r nc ni = clear.links a ∙ v.none_lost a (sym (clear.states a) ∙ r) nc ni

    -- The current process is not put back: it does not run, or it is the idle one.
    AllQueued-skipped :
        (((cleared k).procs k.current).state ≢ runnable) ⊎ (k.current ≡ k.idleproc)
        → AllQueued (cleared k) k.idleproc
    AllQueued-skipped skip = record {
      inv = cleared-Inv;
      idle_free = clear.links k.idleproc ∙ v.idle_free;
      idle_ready = clear.states k.idleproc ∙ v.idle_ready;
      none_lost = λ a r ni.
          still_queued a r
            (λ here. elim skip [
              | inl stopped ↦ stopped (subst (λ x. ((cleared k).procs x).state ≡ runnable) here r)
              | inr idle ↦ ni (here ∙ idle)
            ])
            ni;
    }

    AllQueued-requeued :
        (t : SchedState)
        → k.current ≢ k.idleproc
        → l.Inv t
        → LinkChange (cleared k) k.current true t
        → AllQueued t k.idleproc
    AllQueued-requeued t ne i e = record {
      inv = i;
      idle_free = link-LinkChange_ne e (λ h. ne (sym h)) ∙ clear.links k.idleproc ∙ v.idle_free;
      idle_ready = e.states k.idleproc ∙ clear.states k.idleproc ∙ v.idle_ready;
      none_lost = λ a r ni. elim (Bool-cases (a == k.current)) [
        | inl here ↦ rw ((==_iff a k.current).0 here) (link-LinkChange_self e)
        | inr away ↦
            link-LinkChange_ne e (==-ne a k.current away)
            ∙ still_queued a (sym (e.states a) ∙ r) (==-ne a k.current away) ni
      ];
    }

    requeue_total :
        (s : SchedState) × (requeue_current c (record k { sched = cleared k })
          ≡ some (record k { sched = s }))
        × AllQueued s k.idleproc
        × ((a : ℕ) → (s.procs a).state ≡ (proc_at k a).state)
        × ((a : ℕ) → kin (s.procs a) ≡ kin (proc_at k a))
    unfolding requeue_current sched_class_enqueue
    requeue_total = elim (Bool-cases (is_runnable ((cleared k).procs k.current).state)) [
      | inr stopped ↦ (
        cleared k,
        rw stopped refl,
        AllQueued-skipped (inl (λ h. cc (h))),
        clear.states,
        clear.kins,
      )
      | inl run ↦ elim (Bool-cases (k.current == k.idleproc)) [
        | inl idle ↦ (
          cleared k,
          rw (run, idle) refl,
          AllQueued-skipped (inr ((==_iff k.current k.idleproc).0 idle)),
          clear.states,
          clear.kins,
        )
        | inr busy ↦
            let (t, e, i, ch) =
              l.enqueue_ok k.current cleared-Inv (is_runnable-eq _ run)
                (clear.links k.current ∙ v.current_free) in
            (
              t,
              rw (run, busy, e) refl,
              AllQueued-requeued t (==-ne k.current k.idleproc busy) i ch,
              λ a. ch.states a ∙ clear.states a,
              λ a. ch.kins a ∙ clear.kins a,
            )
      ]
    ]

  -- What `choose` hands over: the next process in no queue, the rest as they were.
  record Chosen (s : SchedState) (idle next : ℕ) (t : SchedState) : Type 0 where
    inv : l.Inv t
    next_free : is_linked (t.procs next).run_link ≡ false
    next_ready : (t.procs next).state ≡ runnable
    idle_free : is_linked (t.procs idle).run_link ≡ false
    states : (a : ℕ) → (t.procs a).state ≡ (s.procs a).state
    kins : (a : ℕ) → kin (t.procs a) ≡ kin (s.procs a)
    none_lost :
        (a : ℕ)
        → (t.procs a).state ≡ runnable
        → a ≢ next
        → a ≢ idle
        → is_linked (t.procs a).run_link ≡ true
    -- the idle process only if no other one is runnable
    idles : (next ≡ idle) → (a : ℕ) → (s.procs a).state ≡ runnable → a ≡ idle

  module _ (k : Kernel) (q : AllQueued k.sched k.idleproc) where
    not_linked : (a : ℕ) → is_linked (proc_at k a).run_link ≡ true → a ≢ k.idleproc
    not_linked a h e = cc (q.idle_free, subst (λ x. is_linked (proc_at k x).run_link ≡ true) e h)

    Chosen-none :
        (t : SchedState)
        → l.Inv t
        → NoLinkChange k.sched t
        → ((a : ℕ) → is_linked (proc_at k a).run_link ≡ false)
        → Chosen k.sched k.idleproc k.idleproc t
    Chosen-none t i same none_linked = record {
      inv = i;
      next_free = same.links k.idleproc ∙ q.idle_free;
      next_ready = same.states k.idleproc ∙ q.idle_ready;
      idle_free = same.links k.idleproc ∙ q.idle_free;
      states = same.states;
      kins = same.kins;
      none_lost = λ a r n ni. same.links a ∙ q.none_lost a (sym (same.states a) ∙ r) ni;
      idles = λ _ a r. elim (ℕ_discrete a k.idleproc) [
        | yes e ↦ e
        | no ne ↦ cc (q.none_lost a r ne, none_linked a)
      ];
    }

    Chosen-some :
        (t u : SchedState) (p : ℕ)
        → NoLinkChange k.sched t
        → is_linked (proc_at k p).run_link ≡ true
        → l.Inv u
        → LinkChange t p false u
        → Chosen k.sched k.idleproc p u
    Chosen-some t u p same on i e = record {
      inv = i;
      next_free = link-LinkChange_self e;
      next_ready = e.states p ∙ same.states p ∙ l.linked_ready p q.inv on;
      idle_free =
          link-LinkChange_ne e (λ h. not_linked p on (sym h)) ∙ same.links k.idleproc ∙ q.idle_free;
      states = λ a. e.states a ∙ same.states a;
      kins = λ a. e.kins a ∙ same.kins a;
      none_lost = λ a r n ni.
          link-LinkChange_ne e n
          ∙ same.links a
          ∙ q.none_lost a (sym (e.states a ∙ same.states a) ∙ r) ni;
      idles = λ h. absurd (not_linked p on h);
    }

    choose_total :
        (t : SchedState) × (next : ℕ) × (choose c k ≡ some (record k { sched = t }, next))
        × Chosen k.sched k.idleproc next t
    unfolding choose take_choice sched_class_dequeue
    choose_total =
        let (t, o, e, i, same, cases) = l.pick_ok q.inv in
        elim cases [
          | inl (n, none_linked) ↦ (t, k.idleproc, rw (e, n) refl, Chosen-none t i same none_linked)
          | inr (p, n, on) ↦
              let (u, d, j, ch) = l.dequeue_ok p i (same.links p ∙ on) in
              (u, p, rw (e, n, d) refl, Chosen-some t u p same on j ch)
        ]

  proc_run-eq : (k : Kernel) (p : ℕ) → proc_run c k p ≡ record k { current = p }
  unfolding proc_run
  proc_run-eq k p = elim (Bool-cases (p == k.current)) [
    | inl e ↦ rw e (ap (λ x. record k { current = x }) (sym ((==_iff p k.current).0 e)))
    | inr e ↦ rw e refl
  ]

  -- the kernel after the switch to `next`
  abbrev switched : Kernel → SchedState → ℕ → Kernel
  switched k t next = record k {
    sched = touched t next ((t.procs next).runs + 1) (t.procs next).need_resched;
    current = next;
  }

  switched-Sound :
      (k : Kernel) (s t : SchedState) (next : ℕ)
      → Chosen s k.idleproc next t
      → (s.procs k.idleproc).state ≡ runnable
      → Sound l (switched k t next)
  switched-Sound k s t next w ready =
      let same =
        touched-NoLinkChange t next ((t.procs next).runs + 1) (t.procs next).need_resched in
      record {
        inv = l.touch next ((t.procs next).runs + 1) (t.procs next).need_resched w.inv;
        current_free = same.links next ∙ w.next_free;
        idle_free = same.links k.idleproc ∙ w.idle_free;
        idle_ready = same.states k.idleproc ∙ w.states k.idleproc ∙ ready;
        none_lost = λ a r n ni. same.links a ∙ w.none_lost a (sym (same.states a) ∙ r) n ni;
      }

  schedule_total :
      {k : Kernel}
      → Sound l k
      → (k' : Kernel) × (schedule c k ≡ some k')
        × Sound l k'
        × ((proc_at k' k'.current).state ≡ runnable)
        × (k'.idleproc ≡ k.idleproc)
        × ((a : ℕ) → (proc_at k' a).state ≡ (proc_at k a).state)
        × ((a : ℕ) → kin (proc_at k' a) ≡ kin (proc_at k a))
        × (k'.current ≡ k.idleproc → (a : ℕ) → (proc_at k a).state ≡ runnable → a ≡ k.idleproc)
  unfolding schedule run_next
  schedule_total {k} v =
      let (s, e, q, st, sk) = requeue_total v in
      let k₁ = record k { sched = s } in
      let (t, next, d, w) = choose_total k₁ q in
      let same =
        touched-NoLinkChange t next ((t.procs next).runs + 1) (t.procs next).need_resched in
      (
        switched k t next,
        rw (e, d, proc_run-eq),
        switched-Sound k s t next w q.idle_ready,
        same.states next ∙ w.next_ready,
        refl,
        λ a. same.states a ∙ w.states a ∙ st a,
        λ a. same.kins a ∙ w.kins a ∙ sk a,
        λ idle a r. w.idles idle a (st a ∙ r),
      )

  -- `schedule` returns from every sound state. The invariant holds again, so no runnable process has
  -- been lost; the new current process is runnable, and no process has changed its state.
  pub schedule-Sound :
      {k : Kernel}
      → Sound l k
      → (k' : Kernel) × (schedule c k ≡ some k')
        × Sound l k'
        × ((proc_at k' k'.current).state ≡ runnable)
        × (k'.idleproc ≡ k.idleproc)
        × ((a : ℕ) → (proc_at k' a).state ≡ (proc_at k a).state)
  schedule-Sound v = let (k', e, s, r, i, st, _, _) = schedule_total v in (k', e, s, r, i, st)

  -- All that is known of a switch.
  pub record Switched (k k' : Kernel) : Type 0 where
    pub sound : Sound l k'
    pub running : (proc_at k' k'.current).state ≡ runnable
    pub same_idle : k'.idleproc ≡ k.idleproc
    pub same_states : (a : ℕ) → (proc_at k' a).state ≡ (proc_at k a).state
    pub same_kin : (a : ℕ) → kin (proc_at k' a) ≡ kin (proc_at k a)

  pub schedule-Switched :
      {k : Kernel} → Sound l k → (k' : Kernel) × (schedule c k ≡ some k') × Switched k k'
  schedule-Switched v =
      let (k', e, s, r, i, st, sk, _) = schedule_total v in
      (k', e, record { sound = s; running = r; same_idle = i; same_states = st; same_kin = sk })

  -- `schedule` switches to the idle process only if no other process is runnable.
  pub schedule_idles :
      {k k' : Kernel}
      → Sound l k
      → schedule c k ≡ some k'
      → k'.current ≡ k.idleproc
      → (a : ℕ) → (proc_at k a).state ≡ runnable
      → a ≡ k.idleproc
  schedule_idles {k} {k'} v e idle a r =
      let (k₁, e₁, _, _, _, _, _, only) = schedule_total v in
      let same : k₁ ≡ k' = cc (e₁, e) in only (ap (λ x. x.current) same ∙ idle) a r
