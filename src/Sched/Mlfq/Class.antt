-- ===== src/Sched/Mlfq/Class.antt =====
-- The MLFQ classes satisfy the interface that the framework (kern/schedule/sched.c) asks for.
use a_smart_mlfq_project_bas.Common.{
  leb, ◌==◌, if◌then◌else◌, Bool-cases, ℕ, ◌≡◌, refl, sym, ap, ◌∙◌, ◌⊎◌, inl, inr, Bool, true,
  false, Option, none, some, List, [], ◌∷◌, arith,
}
use a_smart_mlfq_project_bas.Common.Int.{pos}
use a_smart_mlfq_project_bas.Common.Store.{update_all, update_cases, update_keeps}
use a_smart_mlfq_project_bas.Sched.Framework.Laws.{
  LinkChange, NoLinkChange, SameSched, IsNew, Lawful, touched, restated, touched-NoLinkChange,
  links-restated,
}
use a_smart_mlfq_project_bas.Sched.Mlfq.{
  boost_ticks, mlfq_init, enqueue, dequeue, boost_proc, boost_queue, boost_level, priority_boost,
  boost_if_due, count_choice, pick_next, tick, proc_tick,
}
use a_smart_mlfq_project_bas.Sched.Mlfq.Dequeue.{unlinked, queue_of, dequeue-IsValid}
use a_smart_mlfq_project_bas.Sched.Mlfq.Enqueue.{relevelled, enqueue-IsValid}
use a_smart_mlfq_project_bas.Sched.Mlfq.Invariant.{IsPlaced, IsValid, linked_in, count-le-queued}
use a_smart_mlfq_project_bas.Sched.Mlfq.Pick.{
  EmptyAbove, IsFirst, boost_if_due-IsValid, pick_next_lem,
}
use a_smart_mlfq_project_bas.Sched.Mlfq.Policy.{InRange, Policy}
use a_smart_mlfq_project_bas.Sched.Mlfq.Tick.{proc_tick-IsValid}
use a_smart_mlfq_project_bas.Sched.Proc.{ProcState, runnable, Link, linked, Proc, kin}
use a_smart_mlfq_project_bas.Sched.State.{
  SchedState, SchedClass, is_runnable, is_linked, set_proc, inc_u32,
}

InRange-touched :
    {q : Proc} (n : ℕ) (b : Bool) → InRange q → InRange (record q { need_resched = b; runs = n })
InRange-touched n b r = record {
  level = r.level;
  score = r.score;
  level_lt = r.level_lt;
  level_eq = r.level_eq;
  score_le = r.score_le;
  score_eq = r.score_eq;
  ticks_le = r.ticks_le;
}

IsPlaced-touched :
    {q : Proc} {i : ℕ} (n : ℕ) (b : Bool)
    → IsPlaced q i
    → IsPlaced (record q { need_resched = b; runs = n }) i
IsPlaced-touched n b w = record {
  at_level = w.at_level;
  full_slice = w.full_slice;
  ready = w.ready;
  owned = w.owned;
}

InRange-restated :
    {q : Proc} (n : ℕ) (x : ProcState)
    → InRange q
    → InRange (record q { state = x; wait_state = n })
InRange-restated n x r = record {
  level = r.level;
  score = r.score;
  level_lt = r.level_lt;
  level_eq = r.level_eq;
  score_le = r.score_le;
  score_eq = r.score_eq;
  ticks_le = r.ticks_le;
}

touched-IsValid : {s : SchedState} (p n : ℕ) (b : Bool) → IsValid s → IsValid (touched s p n b)
touched-IsValid {s} p n b v = record {
  ranges = λ a. update_all InRange s.procs p _ a (InRange-touched n b (v.ranges p)) (v.ranges a);
  once =
      λ a. v.once a ∙ ap (λ x. if x then 1 else 0) (sym ((touched-NoLinkChange s p n b).links a));
  placed = λ i a hi c.
      update_cases (λ x. IsPlaced x i) s.procs p _ a
        (λ same. IsPlaced-touched n b (v.placed i p hi (rw same at c)))
        (λ other. v.placed i a hi c);
  counted = v.counted;
}

InRange-marked : {q r : Proc} → SameSched r q → InRange q → InRange r
InRange-marked e r = record {
  level = r.level;
  score = r.score;
  level_lt = r.level_lt;
  level_eq = e.4 ∙ r.level_eq;
  score_le = r.score_le;
  score_eq = e.6 ∙ r.score_eq;
  ticks_le = rw e.5 r.ticks_le;
}

IsPlaced-marked : {q r : Proc} {i : ℕ} → SameSched r q → IsPlaced q i → IsPlaced r i
IsPlaced-marked e w = record {
  at_level = e.4 ∙ w.at_level;
  full_slice = e.5 ∙ w.full_slice;
  ready = e.0 ∙ w.ready;
  owned = e.2 ∙ w.owned;
}

marked-IsValid :
    {s : SchedState} (p : ℕ) (q : Proc)
    → IsValid s
    → SameSched q (s.procs p)
    → IsValid (set_proc s p q)
marked-IsValid {s} p q v e = record {
  ranges = λ a. update_all InRange s.procs p q a (InRange-marked e (v.ranges p)) (v.ranges a);
  once = λ a.
      v.once a
      ∙ ap (λ x. if is_linked x then 1 else 0)
          (sym (update_keeps (λ r. r.run_link) s.procs p q a e.1));
  placed = λ i a hi c.
      update_cases (λ x. IsPlaced x i) s.procs p q a
        (λ same. IsPlaced-marked e (v.placed i p hi (rw same at c))) (λ other. v.placed i a hi c);
  counted = v.counted;
}

restated-IsValid :
    {s : SchedState} (p w : ℕ) (x : ProcState)
    → IsValid s
    → is_linked (s.procs p).run_link ≡ false
    → IsValid (restated s p w x)
restated-IsValid {s} p w x v free = record {
  ranges = λ a. update_all InRange s.procs p _ a (InRange-restated w x (v.ranges p)) (v.ranges a);
  once = λ a. v.once a ∙ ap (λ y. if y then 1 else 0) (sym (links-restated s p w x a));
  placed = λ i a hi c.
      update_cases (λ y. IsPlaced y i) s.procs p _ a
        (λ same.
          absurd
            (ground (arith, rw same at c, count-le-queued s.mlfq_inst.queues i p hi, v.once p)))
        (λ other. v.placed i a hi c);
  counted = v.counted;
}

admitted-IsValid :
    {s : SchedState} (p : ℕ) (q : Proc)
    → IsValid s
    → is_linked (s.procs p).run_link ≡ false
    → IsNew q
    → IsValid (set_proc s p q)
admitted-IsValid {s} p q v free e = record {
  ranges = λ a.
      update_all InRange s.procs p q a
        (record {
          level = 0;
          score = 0;
          level_lt = omega arith;
          level_eq = e.3;
          score_le = omega arith;
          score_eq = e.5;
          ticks_le = rw e.4 (omega arith);
        })
        (v.ranges a);
  once = λ a.
      v.once a
      ∙ ap (λ y. if y then 1 else 0)
          (sym
            (update_keeps (λ r. is_linked r.run_link) s.procs p q a (ap is_linked e.1 ∙ sym free)));
  placed = λ i a hi c.
      update_cases (λ y. IsPlaced y i) s.procs p q a
        (λ same.
          absurd
            (ground (arith, rw same at c, count-le-queued s.mlfq_inst.queues i p hi, v.once p)))
        (λ other. v.placed i a hi c);
  counted = v.counted;
}

is_linked-eq : (x : Link) → is_linked x ≡ true → x ≡ linked
is_linked-eq x h = ground arith

linked_ready :
    {s : SchedState} (p : ℕ)
    → IsValid s
    → is_linked (s.procs p).run_link ≡ true
    → (s.procs p).state ≡ runnable
linked_ready {s} p v on =
    let (i, hi, c) = queue_of s.mlfq_inst.queues p (ground (arith, v.once p)) in
    (v.placed i p hi c).ready

-- How the operations bear on states and links.
linked_in-LinkChange :
    (s : SchedState) (p l b c : ℕ)
    → LinkChange s p true (linked_in s p (relevelled (s.procs p) l b c) l)
linked_in-LinkChange s p l b c = record {
  states = λ a.
      update_cases (λ x. x.state ≡ (s.procs a).state) s.procs p _ a (λ same. rw same) (λ _. refl);
  links = λ a. elim (Bool-cases (a == p)) [ inl e ↦ rw e | inr e ↦ rw e ];
  kins = λ a. update_keeps kin s.procs p _ a refl;
}

unlinked-LinkChange : (s : SchedState) (p : ℕ) → LinkChange s p false (unlinked s p)
unlinked-LinkChange s p = record {
  states = λ a.
      update_cases (λ x. x.state ≡ (s.procs a).state) s.procs p _ a (λ same. rw same) (λ _. refl);
  links = λ a. elim (Bool-cases (a == p)) [ inl e ↦ rw e | inr e ↦ rw e ];
  kins = λ a. update_keeps kin s.procs p _ a refl;
}

set_proc-NoLinkChange :
    (s : SchedState) (p : ℕ) (q : Proc)
    → q.state ≡ (s.procs p).state
    → is_linked q.run_link ≡ is_linked (s.procs p).run_link
    → kin q ≡ kin (s.procs p)
    → NoLinkChange s (set_proc s p q)
set_proc-NoLinkChange s p q e f g = record {
  kins = λ a. update_keeps kin s.procs p q a g;
  states = λ a.
      update_cases (λ x. x.state ≡ (s.procs a).state) s.procs p _ a (λ same. rw same e) (λ _. refl);
  links = λ a.
      update_cases (λ x. is_linked x.run_link ≡ is_linked (s.procs a).run_link) s.procs p _ a
        (λ same. rw same f) (λ _. refl);
}

NoLinkChange-trans : {s t u : SchedState} → NoLinkChange s t → NoLinkChange t u → NoLinkChange s u
NoLinkChange-trans a b = record {
  states = λ p. b.states p ∙ a.states p;
  links = λ p. b.links p ∙ a.links p;
  kins = λ p. b.kins p ∙ a.kins p;
}

boost_queue-NoLinkChange :
    (s : SchedState) (i : ℕ) (ps : List ℕ) → NoLinkChange s (boost_queue s i ps)
unfolding boost_queue boost_proc
boost_queue-NoLinkChange s i [] = record { states = λ a. refl; links = λ a. refl; kins = λ a. refl }
boost_queue-NoLinkChange s i (p ∷ ps) =
    let w =
      set_proc-NoLinkChange s p
        (record (s.procs p) { mlfq_level = pos 0; current_slice_ticks = pos 2 }) refl refl refl in
    NoLinkChange-trans (record { states = w.states; links = w.links; kins = w.kins })
      (boost_queue-NoLinkChange (boost_proc s i p) i ps)

priority_boost-NoLinkChange : (s : SchedState) → NoLinkChange s (priority_boost s)
unfolding priority_boost boost_level
priority_boost-NoLinkChange s =
    NoLinkChange-trans
      (NoLinkChange-trans (boost_queue-NoLinkChange s 1 (s.mlfq_inst.queues 1))
        (boost_queue-NoLinkChange _ 2 _))
      (boost_queue-NoLinkChange _ 3 _)

boost_if_due-NoLinkChange : (s : SchedState) → NoLinkChange s (boost_if_due s)
unfolding boost_if_due
boost_if_due-NoLinkChange s = elim (Bool-cases (leb boost_ticks s.mlfq_inst.global_timer)) [
  | inl due ↦
      let w = priority_boost-NoLinkChange s in
      rw due (record { states = w.states; links = w.links; kins = w.kins })
  | inr early ↦ rw early (record { states = λ a. refl; links = λ a. refl; kins = λ a. refl })
]

count_choice-NoLinkChange : (s : SchedState) (o : Option ℕ) → NoLinkChange s (count_choice s o)
unfolding count_choice
count_choice-NoLinkChange s none = record {
  states = λ a. refl;
  links = λ a. refl;
  kins = λ a. refl;
}
count_choice-NoLinkChange s (some p) =
    set_proc-NoLinkChange s p (record (s.procs p) { sched_count = inc_u32 (s.procs p).sched_count })
      refl refl refl

pick_next-NoLinkChange : (s : SchedState) → NoLinkChange s (pick_next s).0
unfolding pick_next
pick_next-NoLinkChange s =
    NoLinkChange-trans (boost_if_due-NoLinkChange s) (count_choice-NoLinkChange (boost_if_due s) _)

none_linked :
    {s : SchedState}
    → IsValid s
    → EmptyAbove s.mlfq_inst.queues 4
    → (a : ℕ) → is_linked (s.procs a).run_link ≡ false
none_linked {s} v e a = ground (arith, e.0, e.1.0, e.1.1.0, e.1.1.1.0, v.once a)

head_linked :
    {s : SchedState} {p i : ℕ}
    → IsValid s
    → IsFirst s.mlfq_inst.queues p i
    → is_linked (s.procs p).run_link ≡ true
head_linked {s} {p} {i} v f =
    ground (arith, f.heads, count-le-queued s.mlfq_inst.queues i p f.in_bounds, v.once p)

proc_tick-NoLinkChange : (s : SchedState) (p : ℕ) → NoLinkChange s (proc_tick s p)
unfolding proc_tick tick
proc_tick-NoLinkChange s p = elim (Bool-cases (is_runnable (s.procs p).state)) [
  | inl run ↦
      let w = set_proc-NoLinkChange s p (tick (s.procs p)) refl refl refl in
      rw run (record { states = w.states; links = w.links; kins = w.kins })
  | inr idle ↦ rw idle (record { states = λ a. refl; links = λ a. refl; kins = λ a. refl })
]

pick_ok :
    {s : SchedState}
    → IsValid s
    → (t : SchedState) × (o : Option ℕ) × (pick_next s ≡ (t, o))
      × IsValid t
      × NoLinkChange s t
      × (((o ≡ none) × ((a : ℕ) → is_linked (s.procs a).run_link ≡ false))
          ⊎ ((p : ℕ) × (o ≡ some p) × (is_linked (s.procs p).run_link ≡ true)))
pick_ok {s} v =
    let (w, same, cases, _, _) = pick_next_lem v in
    let u = boost_if_due-IsValid v in
    let links = boost_if_due-NoLinkChange s in
    (
      (pick_next s).0,
      (pick_next s).1,
      refl,
      w,
      pick_next-NoLinkChange s,
      elim cases [
        | inl (e, h) ↦ inl (e, λ a. sym (links.links a) ∙ none_linked u h a)
        | inr (p, i, e, f) ↦ inr (p, e, sym (links.links p) ∙ head_linked u f)
      ],
    )

abbrev pub mlfq_class : Policy → SchedClass
mlfq_class policy = record {
  init = mlfq_init;
  enqueue = enqueue policy.update_level;
  dequeue = dequeue;
  pick_next = pick_next;
  proc_tick = proc_tick;
}

pub mlfq_lawful : (policy : Policy) → Lawful (mlfq_class policy)
mlfq_lawful policy = record {
  Inv = IsValid;
  linked_ready = linked_ready;
  touch = touched-IsValid;
  mark = marked-IsValid;
  admit = admitted-IsValid;
  restate = restated-IsValid;
  enqueue_ok = λ p v ready free.
      let (l, b, c, h, e, w) = enqueue-IsValid policy p v ready free in
      (_, e, w, linked_in-LinkChange _ p l b c);
  dequeue_ok = λ p v on.
      let (e, w) = dequeue-IsValid v p (is_linked-eq _ on) in (_, e, w, unlinked-LinkChange _ p);
  pick_ok = pick_ok;
  tick_ok = λ p v free. (proc_tick-IsValid p v free, proc_tick-NoLinkChange _ p);
}

-- The invariant that the class brings to the framework is that of the queues.
pub mlfq_lawful-Inv : (policy : Policy) (s : SchedState) → IsValid s → (mlfq_lawful policy).Inv s
unfolding mlfq_lawful
mlfq_lawful-Inv policy s v = v
