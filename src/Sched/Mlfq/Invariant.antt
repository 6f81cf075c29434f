-- ===== src/Sched/Mlfq/Invariant.antt =====
-- The invariant of the MLFQ classes (mlfq_sched.c, basic_mlfq_sched.c).
use a_smart_mlfq_project_bas.Common.{
  ◌==◌, if◌then◌else◌, length, length-append, count, count-append, ℕ, zero, suc, ◌+◌, ◌≤◌, ◌<◌, ◌≡◌,
  refl, ◌≢◌, true, false, some, List, [], ◌∷◌, arith,
}
use a_smart_mlfq_project_bas.Common.Int.{pos, u32}
use a_smart_mlfq_project_bas.Common.Store.{update, update_all, update_cases}
use a_smart_mlfq_project_bas.Sched.Mlfq.{add_last, mlfq_init, link_in}
use a_smart_mlfq_project_bas.Sched.Mlfq.Policy.{slice, level_slice-eq, InRange}
use a_smart_mlfq_project_bas.Sched.Proc.{runnable, linked, Proc}
use a_smart_mlfq_project_bas.Sched.State.{SchedState, is_linked, inc_u32}

-- how many entries of the four queues are this process
abbrev pub queued : (ℕ → List ℕ) → ℕ → ℕ
queued queues p = count p (queues 0) + count p (queues 1) + count p (queues 2) + count p (queues 3)

abbrev pub total : (ℕ → List ℕ) → ℕ
total queues = length (queues 0) + length (queues 1) + length (queues 2) + length (queues 3)

-- What a process has while it stands in queue `i`.
pub record IsPlaced (q : Proc) (i : ℕ) : Type 0 where
  pub at_level : q.mlfq_level ≡ pos i
  pub full_slice : q.current_slice_ticks ≡ pos (slice i)
  pub ready : q.state ≡ runnable
  pub owned : q.on_rq ≡ true

pub record IsValid (s : SchedState) : Type 0 where
  pub ranges : (p : ℕ) → InRange (s.procs p)
  pub once :
      (p : ℕ) → queued s.mlfq_inst.queues p ≡ (if is_linked (s.procs p).run_link then 1 else 0)
  pub placed : (i p : ℕ) → i < 4 → 0 < count p (s.mlfq_inst.queues i) → IsPlaced (s.procs p) i
  pub counted : s.rq.proc_num ≡ u32 (total s.mlfq_inst.queues)

-- `mlfq_init` gives an empty, valid state when no process is linked in.
pub mlfq_init-IsValid :
    (s : SchedState)
    → ((p : ℕ) → InRange (s.procs p))
    → ((p : ℕ) → is_linked (s.procs p).run_link ≡ false)
    → IsValid (mlfq_init s)
unfolding mlfq_init
mlfq_init-IsValid s r u = record {
  ranges = r;
  once = λ p. rw (u p);
  placed = λ i p h c. absurd (omega arith);
  counted = refl;
}

-- An entry that is added to queue `l` counts there.
pub count-add_last :
    (queues : ℕ → List ℕ) (l p i a : ℕ)
    → count a (add_last queues l p i)
      ≡ count a (queues i) + (if i == l then (if p == a then 1 else 0) else 0)
count-add_last queues l p i a = ground (arith, count-append a (queues l) (p ∷ []))

pub queued-add_last :
    (queues : ℕ → List ℕ) (l p a : ℕ)
    → l < 4
    → queued (add_last queues l p) a ≡ queued queues a + (if p == a then 1 else 0)
queued-add_last queues l p a h = ground (
  arith,
  count-add_last queues l p 0 a,
  count-add_last queues l p 1 a,
  count-add_last queues l p 2 a,
  count-add_last queues l p 3 a,
)

length-add_last :
    (queues : ℕ → List ℕ) (l p i : ℕ)
    → length (add_last queues l p i) ≡ length (queues i) + (if i == l then 1 else 0)
length-add_last queues l p i = ground (arith, length-append (queues l) (p ∷ []))

pub total-add_last :
    (queues : ℕ → List ℕ) (l p : ℕ) → l < 4 → total (add_last queues l p) ≡ total queues + 1
total-add_last queues l p h = ground (
  arith,
  length-add_last queues l p 0,
  length-add_last queues l p 1,
  length-add_last queues l p 2,
  length-add_last queues l p 3,
)

InRange-placed :
    (q : Proc) (l c : ℕ)
    → l < 4
    → q.mlfq_level ≡ pos l
    → q.cpu_score ≡ pos c
    → c ≤ 1000
    → InRange (record q { current_slice_ticks = pos (slice l); run_link = linked; on_rq = true })
InRange-placed q l c h e ec hc = record {
  level = l;
  score = c;
  level_lt = h;
  level_eq = e;
  score_le = hc;
  score_eq = ec;
  ticks_le = omega arith;
}

-- `link_in` at a level in bounds appends the process to that queue, with a full slice.
abbrev pub linked_in : SchedState → ℕ → Proc → ℕ → SchedState
linked_in s p q l = record s {
  procs =
      update s.procs p
        (record q { current_slice_ticks = pos (slice l); run_link = linked; on_rq = true });
  mlfq_inst = record (s.mlfq_inst) { queues = add_last s.mlfq_inst.queues l p };
  rq = record (s.rq) { proc_num = inc_u32 s.rq.proc_num };
}

pub link_in-eq :
    (s : SchedState) (p : ℕ) (q : Proc) (l : ℕ)
    → l < 4
    → q.mlfq_level ≡ pos l
    → is_linked q.run_link ≡ false
    → link_in s p q ≡ some (linked_in s p q l)
unfolding link_in
link_in-eq s p q l h e u = rw (e, level_slice-eq l h, u)

pub count-le-queued : (queues : ℕ → List ℕ) (i p : ℕ) → i < 4 → count p (queues i) ≤ queued queues p
count-le-queued queues zero p h = omega arith
count-le-queued queues (suc zero) p h = omega arith
count-le-queued queues (suc (suc zero)) p h = omega arith
count-le-queued queues (suc (suc (suc zero))) p h = omega arith
count-le-queued queues (suc (suc (suc (suc i)))) p h = absurd (omega arith)

-- An address in queue 0 and in another one counts twice.
pub count_twice :
    (queues : ℕ → List ℕ) (i p : ℕ)
    → i ≢ 0
    → i < 4
    → count p (queues 0) + count p (queues i) ≤ queued queues p
count_twice queues zero p ne h = absurd (ne refl)
count_twice queues (suc zero) p ne h = omega arith
count_twice queues (suc (suc zero)) p ne h = omega arith
count_twice queues (suc (suc (suc zero))) p ne h = omega arith
count_twice queues (suc (suc (suc (suc i)))) p ne h = absurd (omega arith)

IsPlaced-new :
    (q : Proc) (l i : ℕ)
    → q.mlfq_level ≡ pos l
    → q.state ≡ runnable
    → i ≡ l
    → IsPlaced (record q { current_slice_ticks = pos (slice l); run_link = linked; on_rq = true }) i
IsPlaced-new q l i e ready same = record {
  at_level = rw same e;
  full_slice = rw same;
  ready = ready;
  owned = refl;
}

pub linked_in-IsValid :
    {s : SchedState} (p : ℕ) (q : Proc) (l c : ℕ)
    → IsValid s
    → l < 4
    → q.mlfq_level ≡ pos l
    → q.cpu_score ≡ pos c
    → c ≤ 1000
    → q.state ≡ runnable
    → is_linked (s.procs p).run_link ≡ false
    → IsValid (linked_in s p q l)
linked_in-IsValid {s} p q l c v h e ec hc ready u = record {
  ranges = λ a. update_all InRange s.procs p _ a (InRange-placed q l c h e ec hc) (v.ranges a);
  once = λ a. ground (arith, queued-add_last s.mlfq_inst.queues l p a h, v.once a);
  placed = λ i a hi n.
      update_cases (λ x. IsPlaced x i) s.procs p _ a
        (λ same. IsPlaced-new q l i e ready (
          ground (
            arith,
            count-add_last s.mlfq_inst.queues l p i a,
            count-le-queued s.mlfq_inst.queues i p hi,
            v.once p,
          )))
        (λ other. v.placed i a hi (ground (arith, count-add_last s.mlfq_inst.queues l p i a)));
  counted = omega (arith, total-add_last s.mlfq_inst.queues l p h, v.counted);
}
