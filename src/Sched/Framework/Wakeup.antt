-- ===== src/Sched/Framework/Wakeup.antt =====
-- `wakeup_proc` (kern/schedule/sched.c).
use a_smart_mlfq_project_bas.Common.{
  ◌==◌, ==_iff, ne-==, ==-ne, Bool-cases, ℕ, ◌≡◌, refl, sym, ap, ◌∙◌, ◌≢◌, inl, inr, true, false,
  not, some, arith,
}
use a_smart_mlfq_project_bas.Sched.Framework.{
  Kernel, is_zombie, proc_at, sched_class_enqueue, make_runnable, wakeup_proc,
}
use a_smart_mlfq_project_bas.Sched.Framework.Laws.{
  LinkChange, Lawful, Sound, restated, kins-restated, links-restated, states-restated,
  link-LinkChange_self, link-LinkChange_ne,
}
use a_smart_mlfq_project_bas.Sched.Proc.{ProcState, runnable, zombie, kin}
use a_smart_mlfq_project_bas.Sched.State.{SchedState, SchedClass, is_runnable, is_linked}

pub is_runnable-eq : (x : ProcState) → is_runnable x ≡ true → x ≡ runnable
is_runnable-eq x h = ground arith

not_zombie : (x : ProcState) → x ≢ zombie → not (is_zombie x) ≡ true
not_zombie x h = ground arith

module _ {c : SchedClass} (l : Lawful c) where
  -- What stays after the state of one process is set to runnable, which is not linked yet.
  pub record Woken (k : Kernel) (p : ℕ) (k' : Kernel) : Type 0 where
    pub sound : Sound l k'
    pub ready : (proc_at k' p).state ≡ runnable
    pub same_current : k'.current ≡ k.current
    pub same_idle : k'.idleproc ≡ k.idleproc
    pub same_states : (a : ℕ) → a ≢ p → (proc_at k' a).state ≡ (proc_at k a).state
    pub same_kin : (a : ℕ) → kin (proc_at k' a) ≡ kin (proc_at k a)

  module _ {k : Kernel} (p : ℕ) (v : Sound l k)
      (idle : is_runnable (proc_at k p).state ≡ false) where
    not_linked : is_linked (proc_at k p).run_link ≡ false
    not_linked = elim (Bool-cases (is_linked (proc_at k p).run_link)) [
      | inl e ↦ cc (l.linked_ready p v.inv e)
      | inr e ↦ e
    ]

    abbrev woken : SchedState
    woken = restated k.sched p 0 runnable

    woken-Inv : l.Inv woken
    woken-Inv = l.restate p 0 runnable v.inv not_linked

    woken_ready : (woken.procs p).state ≡ runnable
    woken_ready = states-restated k.sched p 0 runnable p ∙ ground arith

    woken_free : is_linked (woken.procs p).run_link ≡ false
    woken_free = links-restated k.sched p 0 runnable p ∙ not_linked

    state-woken_ne : (a : ℕ) → a ≢ p → (woken.procs a).state ≡ (k.sched.procs a).state
    state-woken_ne a ne = states-restated k.sched p 0 runnable a ∙ ground arith

    not_idle : p ≢ k.idleproc
    not_idle h = cc (v.idle_ready, ap (λ a. (proc_at k a).state) h)

    links-woken : (a : ℕ) → is_linked (woken.procs a).run_link ≡ is_linked (proc_at k a).run_link
    links-woken = links-restated k.sched p 0 runnable

    still_linked :
        (a : ℕ)
        → a ≢ p
        → (woken.procs a).state ≡ runnable
        → a ≢ k.current
        → a ≢ k.idleproc
        → is_linked (woken.procs a).run_link ≡ true
    still_linked a ne r nc ni = links-woken a ∙ v.none_lost a (sym (state-woken_ne a ne) ∙ r) nc ni

    Woken-current : p ≡ k.current → Woken k p (record k { sched = woken })
    Woken-current here = record {
      sound = record {
        inv = woken-Inv;
        current_free = links-woken k.current ∙ v.current_free;
        idle_free = links-woken k.idleproc ∙ v.idle_free;
        idle_ready = state-woken_ne k.idleproc (λ h. not_idle (sym h)) ∙ v.idle_ready;
        none_lost = λ a r nc ni. still_linked a (λ h. nc (h ∙ here)) r nc ni;
      };
      ready = woken_ready;
      same_current = refl;
      same_idle = refl;
      same_states = state-woken_ne;
      same_kin = kins-restated k.sched p 0 runnable;
    }

    Woken-queued :
        (t : SchedState)
        → p ≢ k.current
        → l.Inv t
        → LinkChange woken p true t
        → Woken k p (record k { sched = t })
    Woken-queued t nc i e = record {
      sound = record {
        inv = i;
        current_free =
            link-LinkChange_ne e (λ h. nc (sym h)) ∙ links-woken k.current ∙ v.current_free;
        idle_free =
            link-LinkChange_ne e (λ h. not_idle (sym h)) ∙ links-woken k.idleproc ∙ v.idle_free;
        idle_ready =
            e.states k.idleproc ∙ state-woken_ne k.idleproc (λ h. not_idle (sym h)) ∙ v.idle_ready;
        none_lost = λ a r na nd. elim (Bool-cases (a == p)) [
          | inl same ↦ rw ((==_iff a p).0 same) (link-LinkChange_self e)
          | inr other ↦
              let ne : a ≢ p = ground arith in
              link-LinkChange_ne e ne ∙ still_linked a ne (sym (e.states a) ∙ r) na nd
        ];
      };
      ready = e.states p ∙ woken_ready;
      same_current = refl;
      same_idle = refl;
      same_states = λ a ne. e.states a ∙ state-woken_ne a ne;
      same_kin = λ a. e.kins a ∙ kins-restated k.sched p 0 runnable a;
    }

  make_runnable-Woken :
      {k : Kernel} (p : ℕ)
      → Sound l k
      → is_runnable (proc_at k p).state ≡ false
      → (k' : Kernel) × (make_runnable c k p ≡ some k') × Woken k p k'
  unfolding make_runnable sched_class_enqueue
  make_runnable-Woken {k} p v idle = elim (Bool-cases (p == k.current)) [
    | inl here ↦ (_, rw here refl, Woken-current p v idle ((==_iff p k.current).0 here))
    | inr away ↦
        let (t, e, i, ch) =
          l.enqueue_ok p (woken-Inv p v idle) (woken_ready p v idle) (woken_free p v idle) in
        let apart : (p == k.idleproc) ≡ false = ne-== p k.idleproc (not_idle p v idle) in
        (
          record k { sched = t },
          rw (away, apart, e) refl,
          Woken-queued p v idle t (==-ne p k.current away) i ch,
        )
  ]

  -- All that is known of a wake-up.
  pub wakeup_proc-Woken :
      {k : Kernel} (p : ℕ)
      → Sound l k
      → (proc_at k p).state ≢ zombie
      → (k' : Kernel) × (wakeup_proc c k p ≡ some k') × Woken k p k'
  unfolding wakeup_proc
  wakeup_proc-Woken {k} p v alive =
      let lives : not (is_zombie (proc_at k p).state) ≡ true =
        not_zombie (proc_at k p).state alive in
      elim (Bool-cases (is_runnable (proc_at k p).state)) [
        | inl run ↦ (
          k,
          rw (lives, run),
          record {
            sound = v;
            ready = is_runnable-eq (proc_at k p).state run;
            same_current = refl;
            same_idle = refl;
            same_states = λ a ne. refl;
            same_kin = λ a. refl;
          },
        )
        | inr idle ↦ let (k', e, w) = make_runnable-Woken p v idle in (k', rw (lives, idle) e, w)
      ]

  -- Waking a process that is no zombie returns, makes it runnable, leaves the current process in
  -- place, and keeps the invariant: it is in a queue afterwards unless it is the current one or idle.
  pub wakeup_proc-Sound :
      {k : Kernel} (p : ℕ)
      → Sound l k
      → (proc_at k p).state ≢ zombie
      → (k' : Kernel) × (wakeup_proc c k p ≡ some k')
        × Sound l k'
        × ((proc_at k' p).state ≡ runnable)
        × (k'.current ≡ k.current)
        × (k'.idleproc ≡ k.idleproc)
  wakeup_proc-Sound p v alive =
      let (k', e, w) = wakeup_proc-Woken p v alive in
      (k', e, w.sound, w.ready, w.same_current, w.same_idle)
