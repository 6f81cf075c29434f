-- ===== src/Sched/Framework/Laws.antt =====
-- What the framework needs of a scheduling class: the interface between sched.c and the classes.
use a_smart_mlfq_project_bas.Common.{
  ◌==◌, if◌then◌else◌, ne-==, ==-ne, Bool-cases, ℕ, ◌≡◌, refl, sym, ap, ◌∙◌, ◌≢◌, ◌⊎◌, inl, inr,
  Bool, true, false, Option, none, some, arith,
}
use a_smart_mlfq_project_bas.Common.Int.{pos}
use a_smart_mlfq_project_bas.Common.Store.{update_cases, update_keeps}
use a_smart_mlfq_project_bas.Sched.Framework.{Kernel}
use a_smart_mlfq_project_bas.Sched.Proc.{ProcState, uninit, runnable, null, Proc, kin}
use a_smart_mlfq_project_bas.Sched.State.{SchedState, SchedClass, is_linked, set_proc}

-- Two scheduler states agree on the states of all processes, and on which entries are linked but
-- for the process `p`, which is linked in the second one as `b` says.
pub record LinkChange (s : SchedState) (p : ℕ) (b : Bool) (t : SchedState) : Type 0 where
  pub states : (a : ℕ) → (t.procs a).state ≡ (s.procs a).state
  pub links :
      (a : ℕ)
      → is_linked (t.procs a).run_link ≡ (if a == p then b else is_linked (s.procs a).run_link)
  pub kins : (a : ℕ) → kin (t.procs a) ≡ kin (s.procs a)

pub record NoLinkChange (s : SchedState) (t : SchedState) : Type 0 where
  pub states : (a : ℕ) → (t.procs a).state ≡ (s.procs a).state
  pub links : (a : ℕ) → is_linked (t.procs a).run_link ≡ is_linked (s.procs a).run_link
  pub kins : (a : ℕ) → kin (t.procs a) ≡ kin (s.procs a)

-- Two process structures agree on what a class may look at.
abbrev pub SameSched : Proc → Proc → Type 0
SameSched q r =
    (q.state ≡ r.state)
    × (q.run_link ≡ r.run_link)
    × (q.on_rq ≡ r.on_rq)
    × (q.time_slice ≡ r.time_slice)
    × (q.mlfq_level ≡ r.mlfq_level)
    × (q.current_slice_ticks ≡ r.current_slice_ticks)
    × (q.cpu_score ≡ r.cpu_score)

-- What alloc_proc sets of the fields that a class may look at.
abbrev pub IsNew : Proc → Type 0
IsNew q =
    (q.state ≡ uninit)
    × (q.run_link ≡ null)
    × (q.time_slice ≡ pos 0)
    × (q.mlfq_level ≡ pos 0)
    × (q.current_slice_ticks ≡ pos 0)
    × (q.cpu_score ≡ pos 0)

-- The laws, over an invariant that the class chooses.
pub record Lawful (c : SchedClass) : Type 1 where
  pub Inv : SchedState → Type 0
  pub linked_ready :
      {s : SchedState} (p : ℕ)
      → Inv s
      → is_linked (s.procs p).run_link ≡ true
      → (s.procs p).state ≡ runnable
  pub touch :
      {s : SchedState} (p n : ℕ) (b : Bool)
      → Inv s
      → Inv (set_proc s p (record (s.procs p) { need_resched = b; runs = n }))
  pub mark :
      {s : SchedState} (p : ℕ) (q : Proc) → Inv s → SameSched q (s.procs p) → Inv (set_proc s p q)
  pub admit :
      {s : SchedState} (p : ℕ) (q : Proc)
      → Inv s
      → is_linked (s.procs p).run_link ≡ false
      → IsNew q
      → Inv (set_proc s p q)
  pub restate :
      {s : SchedState} (p w : ℕ) (x : ProcState)
      → Inv s
      → is_linked (s.procs p).run_link ≡ false
      → Inv (set_proc s p (record (s.procs p) { state = x; wait_state = w }))
  pub enqueue_ok :
      {s : SchedState} (p : ℕ)
      → Inv s
      → (s.procs p).state ≡ runnable
      → is_linked (s.procs p).run_link ≡ false
      → (t : SchedState) × (c.enqueue s p ≡ some t) × Inv t × LinkChange s p true t
  pub dequeue_ok :
      {s : SchedState} (p : ℕ)
      → Inv s
      → is_linked (s.procs p).run_link ≡ true
      → (t : SchedState) × (c.dequeue s p ≡ some t) × Inv t × LinkChange s p false t
  pub pick_ok :
      {s : SchedState}
      → Inv s
      → (t : SchedState) × (o : Option ℕ) × (c.pick_next s ≡ (t, o))
        × Inv t
        × NoLinkChange s t
        × (((o ≡ none) × ((a : ℕ) → is_linked (s.procs a).run_link ≡ false))
            ⊎ ((p : ℕ) × (o ≡ some p) × (is_linked (s.procs p).run_link ≡ true)))
  pub tick_ok :
      {s : SchedState} (p : ℕ)
      → Inv s
      → is_linked (s.procs p).run_link ≡ false
      → Inv (c.proc_tick s p) × NoLinkChange s (c.proc_tick s p)

-- The invariant of the framework: the current process and the idle one stand in no queue, the idle
-- one is runnable, and every other runnable process stands in a queue.
pub record Sound {c : SchedClass} (l : Lawful c) (k : Kernel) : Type 0 where
  pub inv : l.Inv k.sched
  pub current_free : is_linked (k.sched.procs k.current).run_link ≡ false
  pub idle_free : is_linked (k.sched.procs k.idleproc).run_link ≡ false
  pub idle_ready : (k.sched.procs k.idleproc).state ≡ runnable
  pub none_lost :
      (p : ℕ)
      → (k.sched.procs p).state ≡ runnable
      → p ≢ k.current
      → p ≢ k.idleproc
      → is_linked (k.sched.procs p).run_link ≡ true

-- How the two writes of the framework to a process bear on states and links.
abbrev pub touched : SchedState → ℕ → ℕ → Bool → SchedState
touched s p n b = set_proc s p (record (s.procs p) { need_resched = b; runs = n })

abbrev pub restated : SchedState → ℕ → ℕ → ProcState → SchedState
restated s p w x = set_proc s p (record (s.procs p) { state = x; wait_state = w })

pub touched-NoLinkChange : (s : SchedState) (p n : ℕ) (b : Bool) → NoLinkChange s (touched s p n b)
touched-NoLinkChange s p n b = record {
  states = λ a.
      update_cases (λ x. x.state ≡ (s.procs a).state) s.procs p _ a (λ same. rw same) (λ _. refl);
  links = λ a.
      update_cases (λ x. is_linked x.run_link ≡ is_linked (s.procs a).run_link) s.procs p _ a
        (λ same. rw same) (λ _. refl);
  kins = λ a. update_keeps kin s.procs p _ a refl;
}

pub kins-restated :
    (s : SchedState) (p w : ℕ) (x : ProcState) (a : ℕ)
    → kin ((restated s p w x).procs a) ≡ kin (s.procs a)
kins-restated s p w x a = update_keeps kin s.procs p _ a refl

pub links-restated :
    (s : SchedState) (p w : ℕ) (x : ProcState) (a : ℕ)
    → is_linked ((restated s p w x).procs a).run_link ≡ is_linked (s.procs a).run_link
links-restated s p w x a =
    update_cases (λ y. is_linked y.run_link ≡ is_linked (s.procs a).run_link) s.procs p _ a
      (λ same. rw same) (λ _. refl)

pub states-restated :
    (s : SchedState) (p w : ℕ) (x : ProcState) (a : ℕ)
    → ((restated s p w x).procs a).state ≡ (if a == p then x else (s.procs a).state)
states-restated s p w x a = elim (Bool-cases (a == p)) [ inl e ↦ rw e | inr e ↦ rw e ]

pub link-LinkChange_self :
    {s t : SchedState} {p : ℕ} {b : Bool} → LinkChange s p b t → is_linked (t.procs p).run_link ≡ b
link-LinkChange_self {p} e = e.links p ∙ ground arith

pub link-LinkChange_ne :
    {s t : SchedState} {p a : ℕ} {b : Bool}
    → LinkChange s p b t
    → a ≢ p
    → is_linked (t.procs a).run_link ≡ is_linked (s.procs a).run_link
link-LinkChange_ne {a} e ne = e.links a ∙ ground arith

-- A write that changes nothing that a class may look at keeps the invariant.
pub marked-Sound :
    {c : SchedClass} (l : Lawful c) {k : Kernel} (p : ℕ) (q : Proc)
    → SameSched q (k.sched.procs p)
    → Sound l k
    → Sound l (record k { sched = set_proc k.sched p q })
marked-Sound l {k} p q e v =
    let states = λ (a : ℕ). update_keeps (λ r. r.state) k.sched.procs p q a e.0 in
    let links =
      λ (a : ℕ). update_keeps (λ r. is_linked r.run_link) k.sched.procs p q a (ap is_linked e.1) in
    record {
      inv = l.mark p q v.inv e;
      current_free = links k.current ∙ v.current_free;
      idle_free = links k.idleproc ∙ v.idle_free;
      idle_ready = states k.idleproc ∙ v.idle_ready;
      none_lost = λ a r nc ni. links a ∙ v.none_lost a (sym (states a) ∙ r) nc ni;
    }

-- A new structure that stands in no queue, and is neither the current process nor the idle one.
pub admitted-Sound :
    {c : SchedClass} (l : Lawful c) {k : Kernel} (p : ℕ) (q : Proc)
    → is_linked (k.sched.procs p).run_link ≡ false
    → p ≢ k.current
    → p ≢ k.idleproc
    → IsNew q
    → Sound l k
    → Sound l (record k { sched = set_proc k.sched p q })
admitted-Sound l {k} p q free nc ni e v =
    let others : (a : ℕ) → a ≢ p → (set_proc k.sched p q).procs a ≡ k.sched.procs a =
      λ a ne. rw (ne-== a p ne) refl in
    record {
      inv = l.admit p q v.inv free e;
      current_free =
          ap (λ r. is_linked r.run_link) (others k.current (λ h. nc (sym h))) ∙ v.current_free;
      idle_free =
          ap (λ r. is_linked r.run_link) (others k.idleproc (λ h. ni (sym h))) ∙ v.idle_free;
      idle_ready = ap (λ r. r.state) (others k.idleproc (λ h. ni (sym h))) ∙ v.idle_ready;
      none_lost = λ a r na nd. elim (Bool-cases (a == p)) [
        | inl same ↦
            let new : ((set_proc k.sched p q).procs a).state ≡ uninit = rw same e.0 in
            absurd (cc (sym new ∙ r))
        | inr other ↦
            let o = others a (==-ne a p other) in
            ap (λ x. is_linked x.run_link) o ∙ v.none_lost a (ap (λ x. x.state) (sym o) ∙ r) na nd
      ];
    }
