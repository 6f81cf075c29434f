-- ===== src/Sched/Tests.antt =====
-- The theorems about kern/schedule at concrete states.
use a_smart_mlfq_project_bas.Common.{
  ◌==◌, if◌then◌else◌, ◌>>=◌, count, ℕ, ◌≤◌, ◌<◌, ◌≡◌, refl, ◌≢◌, ◌↔◌, ◌⊎◌, true, false, ◌||◌,
  Option, none, some, List, [], ◌∷◌, arith,
}
use a_smart_mlfq_project_bas.Common.Int.{pos, ltb_ℤ}
use a_smart_mlfq_project_bas.Sched.Basic.{basic_mlfq_update_level}
use a_smart_mlfq_project_bas.Sched.Basic.Class.{basic_policy}
use a_smart_mlfq_project_bas.Sched.Basic.Level.{smart_vs_basic}
use a_smart_mlfq_project_bas.Sched.Framework.{
  Kernel, proc_at, sched_class_enqueue, sched_class_dequeue, wakeup_proc, proc_run, take_choice,
  choose, run_next, requeue_current, schedule,
}
use a_smart_mlfq_project_bas.Sched.Framework.Laws.{Lawful, Sound}
use a_smart_mlfq_project_bas.Sched.Framework.Schedule.{schedule-Sound, schedule_idles}
use a_smart_mlfq_project_bas.Sched.Framework.Wakeup.{wakeup_proc-Sound}
use a_smart_mlfq_project_bas.Sched.Mlfq.{
  level_slice, mlfq_init, enqueue, dequeue, priority_boost, first_queue, boost_if_due, count_choice,
  pick_next,
}
use a_smart_mlfq_project_bas.Sched.Mlfq.Boosted.{priority_boost_lem}
use a_smart_mlfq_project_bas.Sched.Mlfq.Class.{mlfq_class, mlfq_lawful, mlfq_lawful-Inv}
use a_smart_mlfq_project_bas.Sched.Mlfq.Dequeue.{unlinked, dequeue-IsValid}
use a_smart_mlfq_project_bas.Sched.Mlfq.Enqueue.{relevelled, enqueue-IsValid}
use a_smart_mlfq_project_bas.Sched.Mlfq.Invariant.{
  IsValid, mlfq_init-IsValid, linked_in, linked_in-IsValid,
}
use a_smart_mlfq_project_bas.Sched.Mlfq.Pick.{EmptyAbove, IsFirst, pick_next_lem}
use a_smart_mlfq_project_bas.Sched.Mlfq.Policy.{InRange}
use a_smart_mlfq_project_bas.Sched.Mlfq.Tick.{ticks, tick-need_resched}
use a_smart_mlfq_project_bas.Sched.Proc.{uninit, sleeping, runnable, null, linked, Proc, alloc_proc}
use a_smart_mlfq_project_bas.Sched.RoundRobin.Invariant.{IsWaiting}
use a_smart_mlfq_project_bas.Sched.RoundRobin.Rotation.{turns, rr_rotates}
use a_smart_mlfq_project_bas.Sched.RoundRobin.Switch.{ring, IsRunning}
use a_smart_mlfq_project_bas.Sched.Smart.{
  check_level, is_expired, used_of, ratio_of, ewma, next_level, mlfq_predict_and_level_update,
}
use a_smart_mlfq_project_bas.Sched.Smart.Behaviour.{
  mlfq_predict_and_level_update_total, use_up, spent, cpu_bound_sinks,
}
use a_smart_mlfq_project_bas.Sched.Smart.Class.{smart_policy}
use a_smart_mlfq_project_bas.Sched.State.{SchedState, is_linked}
use a_smart_mlfq_project_bas.Sched.Timer.{Timer, timer_init, is_pending, add_timer, del_timer}
use a_smart_mlfq_project_bas.Sched.Timer.Deadlines.{deadlines, add_timer_lem, del_timer_lem}

-- Process 1 is the idle one, 3 and 4 are runnable, 6 sleeps, and nothing is known of the rest.
abbrev table : ℕ → Proc
table p = record (alloc_proc (pos 0)) {
  state =
      if p == 6 then sleeping else if (p == 1) || ((p == 3) || (p == 4)) then runnable else uninit;
}

abbrev blank : SchedState
blank = record {
  procs = table;
  rq = record { run_list = []; proc_num = 9; max_time_slice = pos 5 };
  mlfq_inst = record { queues = λ i. []; global_timer = 1000 };
}

table-InRange : (p : ℕ) → InRange (table p)
table-InRange p = record {
  level = 0;
  score = 0;
  level_lt = omega arith;
  level_eq = refl;
  score_le = omega arith;
  score_eq = refl;
  ticks_le = omega arith;
}

abbrev empty : SchedState
empty = record blank {
  rq = record (blank.rq) { proc_num = 0 };
  mlfq_inst = record { queues = λ i. []; global_timer = 0 };
}

empty-IsValid : IsValid empty
unfolding mlfq_init
empty-IsValid = mlfq_init-IsValid blank table-InRange (λ p. refl)

-- Process 4 in queue 2, as after two slices used up.
abbrev worn : Proc
worn = record (table 4) { mlfq_level = pos 2; sched_count = 3; cpu_score = pos 640 }

abbrev waiting : SchedState
waiting = linked_in empty 4 worn 2

waiting-IsValid : IsValid waiting
waiting-IsValid =
    linked_in-IsValid 4 worn 2 640 empty-IsValid (omega arith) refl refl (omega arith) refl refl

enqueue-IsValid_example :
    (l b c : ℕ) × (l < 4)
    × (enqueue smart_policy.update_level waiting 3
        ≡ some (linked_in waiting 3 (relevelled (table 3) l b c) l))
    × IsValid (linked_in waiting 3 (relevelled (table 3) l b c) l)
enqueue-IsValid_example = enqueue-IsValid smart_policy 3 waiting-IsValid refl refl

dequeue-IsValid_example :
    (dequeue waiting 4 ≡ some (unlinked waiting 4)) × IsValid (unlinked waiting 4)
dequeue-IsValid_example = dequeue-IsValid waiting-IsValid 4 refl

priority_boost_example :
    let t = priority_boost waiting in
    IsValid t
    × (t.mlfq_inst.queues 0 ≡ 4 ∷ [])
    × (t.mlfq_inst.queues 1 ≡ [])
    × (t.mlfq_inst.queues 2 ≡ [])
    × (t.mlfq_inst.queues 3 ≡ [])
priority_boost_example = priority_boost_lem waiting-IsValid

pick_next_example :
    let qs = (boost_if_due waiting).mlfq_inst.queues in
    let (t, next) = pick_next waiting in
    IsValid t
    × (t.mlfq_inst.queues ≡ qs)
    × (((next ≡ none) × EmptyAbove qs 4) ⊎ ((p i : ℕ) × (next ≡ some p) × IsFirst qs p i))
    × (1000 ≤ waiting.mlfq_inst.global_timer
        → (qs 0 ≡ 4 ∷ []) × (qs 1 ≡ []) × (qs 2 ≡ []) × (qs 3 ≡ []))
    × (waiting.mlfq_inst.global_timer < 1000 → qs ≡ waiting.mlfq_inst.queues)
pick_next_example = pick_next_lem waiting-IsValid

picks_waiting : (pick_next waiting).1 ≡ some 4
unfolding pick_next boost_if_due first_queue count_choice
picks_waiting = refl

tick-need_resched_example :
    ((ticks 4 (record (table 3) { current_slice_ticks = pos 4 })).need_resched ≡ true) ↔ (4 ≤ 4)
tick-need_resched_example =
    tick-need_resched 4 4 (record (table 3) { current_slice_ticks = pos 4 }) refl refl (omega arith)

abbrev worn-InRange : InRange (record worn { current_slice_ticks = pos 3 })
worn-InRange = record {
  level = 2;
  score = 640;
  level_lt = omega arith;
  level_eq = refl;
  score_le = omega arith;
  score_eq = refl;
  ticks_le = omega arith;
}

-- 5 of 8 ticks used, a share of 625: the score falls from 640 to 634, and the level to 1.
yielded :
    mlfq_predict_and_level_update (record worn { current_slice_ticks = pos 3 })
    ≡ some (record worn {
      current_slice_ticks = pos 3;
      mlfq_level = pos 1;
      last_burst = 5;
      cpu_score = pos 634;
    })
unfolding mlfq_predict_and_level_update check_level level_slice used_of ratio_of ewma next_level
yielded = refl

predict_total_example :
    let p = record worn { current_slice_ticks = pos 3 } in
    (l b c : ℕ) × (mlfq_predict_and_level_update p
      ≡ some (record p { mlfq_level = pos l; last_burst = b; cpu_score = pos c }))
    × (l ≤ 3)
    × (b ≤ 8)
    × (c ≤ 1000)
    × (((◌≡◌ {A = ℕ} 640 0) × (c ≡ 625)) ⊎ ((◌≢◌ {A = ℕ} 640 0) × (625 ≤ c) × (c ≤ 640)))
predict_total_example =
    mlfq_predict_and_level_update_total (record worn { current_slice_ticks = pos 3 }) worn-InRange

cpu_bound_sinks_example :
    let p = record worn { current_slice_ticks = pos 3 } in
    (b c : ℕ) × ((use_up p >>= use_up >>= use_up) ≡ some (spent p 3 b c)) × (700 ≤ c) × (c ≤ 1000)
cpu_bound_sinks_example = cpu_bound_sinks (record worn { current_slice_ticks = pos 3 }) worn-InRange

smart_vs_basic_example :
    let p = record worn { current_slice_ticks = pos 3 } in
    (q : Proc) × (mlfq_predict_and_level_update p ≡ some q)
    × (((is_expired p ≡ true)
          × (q.mlfq_level ≡ (basic_mlfq_update_level p).mlfq_level)
          × (q.mlfq_level ≡ pos 3))
        ⊎ ((is_expired p ≡ false)
            × ((basic_mlfq_update_level p).mlfq_level ≡ pos 0)
            × (q.mlfq_level ≡ (if ltb_ℤ q.cpu_score (pos 300) then pos 0 else pos 1))))
smart_vs_basic_example = smart_vs_basic (record worn { current_slice_ticks = pos 3 }) worn-InRange

-- The framework with the basic class: process 3 runs, 4 waits, 6 sleeps.
abbrev busy : Kernel
busy = record { sched = waiting; current = 3; idleproc = 1 }

abbrev basic_laws : Lawful (mlfq_class basic_policy)
basic_laws = mlfq_lawful basic_policy

waiting_queued :
    (p : ℕ)
    → (waiting.procs p).state ≡ runnable
    → p ≢ 3
    → p ≢ 1
    → is_linked (waiting.procs p).run_link ≡ true
waiting_queued p r a b = ground arith

busy-Sound : Sound basic_laws busy
busy-Sound = record {
  inv = mlfq_lawful-Inv basic_policy waiting waiting-IsValid;
  current_free = refl;
  idle_free = refl;
  idle_ready = refl;
  none_lost = waiting_queued;
}

schedule-Sound_example :
    (k' : Kernel) × (schedule (mlfq_class basic_policy) busy ≡ some k')
    × Sound basic_laws k'
    × ((proc_at k' k'.current).state ≡ runnable)
    × (k'.idleproc ≡ 1)
    × ((a : ℕ) → (proc_at k' a).state ≡ (proc_at busy a).state)
schedule-Sound_example = schedule-Sound basic_laws busy-Sound

wakeup_proc-Sound_example :
    (k' : Kernel) × (wakeup_proc (mlfq_class basic_policy) busy 6 ≡ some k')
    × Sound basic_laws k'
    × ((proc_at k' 6).state ≡ runnable)
    × (k'.current ≡ 3)
    × (k'.idleproc ≡ 1)
wakeup_proc-Sound_example = wakeup_proc-Sound basic_laws 6 busy-Sound (λ e. cc)

-- With nothing in the queues and process 3 asleep, the idle process 1 is next.
abbrev still : SchedState
still = record blank {
  procs = λ p. record (alloc_proc (pos 0)) { state = if p == 1 then runnable else sleeping };
}

abbrev quiet : Kernel
quiet = record { sched = mlfq_init still; current = 3; idleproc = 1 }

still-InRange : (p : ℕ) → InRange (still.procs p)
still-InRange p = record {
  level = 0;
  score = 0;
  level_lt = omega arith;
  level_eq = refl;
  score_le = omega arith;
  score_eq = refl;
  ticks_le = omega arith;
}

quiet-Sound : Sound basic_laws quiet
unfolding mlfq_init
quiet-Sound = record {
  inv =
      mlfq_lawful-Inv basic_policy (mlfq_init still)
        (mlfq_init-IsValid still still-InRange (λ p. refl));
  current_free = refl;
  idle_free = refl;
  idle_ready = refl;
  none_lost = λ p r a b. absurd (ground arith);
}

abbrev kernel_or : Option Kernel → Kernel → Kernel
kernel_or none k = k
kernel_or (some k) _ = k

abbrev quiet_next : Kernel
quiet_next = kernel_or (schedule (mlfq_class basic_policy) quiet) quiet

quiet_next-eq :
    (schedule (mlfq_class basic_policy) quiet ≡ some quiet_next) × (quiet_next.current ≡ 1)
unfolding schedule requeue_current sched_class_enqueue choose take_choice sched_class_dequeue
    run_next proc_run mlfq_init pick_next boost_if_due first_queue count_choice
quiet_next-eq = (refl, refl)

schedule_idles_example : ◌≡◌ {A = ℕ} 1 1
schedule_idles_example =
    schedule_idles basic_laws quiet-Sound quiet_next-eq.0 quiet_next-eq.1 1
      (unfold mlfq_init in refl)

-- Two timers, due at 3 and at 7, and one that goes between them.
abbrev two_timers : List Timer
two_timers =
    record { addr = 10; expires = 3; proc = some 4 }
    ∷ record { addr = 11; expires = 4; proc = some 6 }
    ∷ []

add_timer_example :
    (r : List Timer) × (add_timer two_timers (timer_init 12 (some 6) (pos 5)) ≡ some r)
    × (deadlines 0 r ≡ (10, 3) ∷ (12, 5) ∷ (11, 7) ∷ [])
unfolding timer_init is_pending
add_timer_example =
    add_timer_lem 0 two_timers (timer_init 12 (some 6) (pos 5)) (omega arith) refl refl

del_timer_example : deadlines 0 (del_timer two_timers 10) ≡ (11, 7) ∷ []
del_timer_example = del_timer_lem 0 two_timers 10 (omega arith)

-- Process 2 runs before 3 and 4 in the round-robin queue, each one with a slice of two ticks.
abbrev line : Kernel
line = record {
  sched = record blank {
    procs = λ p. record (table p) {
      state = runnable;
      need_resched = false;
      time_slice = if p == 1 then pos 0 else pos 2;
      run_link = if (p == 3) || (p == 4) then linked else null;
      on_rq = if (p == 3) || (p == 4) then true else false;
    };
    rq = record { run_list = 3 ∷ 4 ∷ []; proc_num = 2; max_time_slice = pos 5 };
  };
  current = 2;
  idleproc = 1;
}

line-waiting : (p : ℕ) → 0 < count p (3 ∷ 4 ∷ []) → IsWaiting (proc_at line p) (pos 5)
line-waiting p h = ground arith

line-IsRunning : IsRunning line
line-IsRunning = record {
  valid = record {
    slices = λ p. ground arith;
    positive = omega arith;
    once = λ p. ground arith;
    waiting = line-waiting;
    counted = refl;
  };
  ready = refl;
  free = refl;
  some_left = omega arith;
  not_long = omega arith;
  not_idle = λ e. omega arith;
  idle_free = refl;
  calm = λ a m. refl;
}

rr_rotates_example :
    (k : Kernel) × (turns 2 line ≡ some (k, (2, 2) ∷ (3, 2) ∷ []))
    × IsRunning k
    × (ring k ≡ 4 ∷ 2 ∷ 3 ∷ [])
    × ((a : ℕ) → 0 < count a (2 ∷ 3 ∷ []) → (proc_at k a).time_slice ≡ pos 5)
    × ((a : ℕ) → count a (2 ∷ 3 ∷ []) ≡ 0 → (proc_at k a).time_slice ≡ (proc_at line a).time_slice)
rr_rotates_example = rr_rotates (2 ∷ 3 ∷ []) (4 ∷ []) line-IsRunning refl
