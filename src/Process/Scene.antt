-- ===== src/Process/Scene.antt =====
-- The system calls of kern/process/proc.c at a concrete state: the idle process 1, `initproc` 4 and
-- its child 3, which runs and has the child 6. Process 6 sleeps or has ended.
use a_smart_mlfq_project_bas.Common.{
  ◌==◌, if◌then◌else◌, ==_iff, Bool-cases, ℕ, ◌≤◌, ◌<◌, ◌≡◌, refl, sym, subst, ◌≢◌, ◌⊎◌, inl, inr,
  Bool, true, false, ◌||◌, Option, none, some, List, [], ◌∷◌, ◌++◌, arith,
}
use a_smart_mlfq_project_bas.Common.Errors.{e_no_mem, e_no_free_proc}
use a_smart_mlfq_project_bas.Common.Int.{pos}
use a_smart_mlfq_project_bas.Common.Store.{update}
use a_smart_mlfq_project_bas.Process.Exit.{do_exit}
use a_smart_mlfq_project_bas.Process.Exit.End.{IsEnded, do_exit-IsEnded}
use a_smart_mlfq_project_bas.Process.Family.{unlink_child}
use a_smart_mlfq_project_bas.Process.Family.Children.{Children, IsFamily}
use a_smart_mlfq_project_bas.Process.Family.Unlink.{unlink_child-IsFamily}
use a_smart_mlfq_project_bas.Process.Fork.{Memory, pids_of, do_fork}
use a_smart_mlfq_project_bas.Process.Fork.Child.{IsForked, IsUnused, do_fork-IsForked}
use a_smart_mlfq_project_bas.Process.Fork.Error.{SameBut, do_fork-error}
use a_smart_mlfq_project_bas.Process.Life.{
  World, is_interrupted, procs_of, table_of, reaped, do_wait, do_kill,
}
use a_smart_mlfq_project_bas.Process.Life.Kill.{IsMarked, do_kill-marks}
use a_smart_mlfq_project_bas.Process.Life.Wait.{IsReaped, do_wait-some}
use a_smart_mlfq_project_bas.Process.Life.Zombie.{first_dead}
use a_smart_mlfq_project_bas.Process.Pid.{max_process}
use a_smart_mlfq_project_bas.Process.Pid.Unique.{IsPidState}
use a_smart_mlfq_project_bas.Process.Table.{hash32, pid_hashfn, find_in, find_proc}
use a_smart_mlfq_project_bas.Sched.Basic.Class.{basic_policy}
use a_smart_mlfq_project_bas.Sched.Framework.Laws.{Lawful, Sound}
use a_smart_mlfq_project_bas.Sched.Mlfq.{mlfq_init}
use a_smart_mlfq_project_bas.Sched.Mlfq.Class.{mlfq_class, mlfq_lawful, mlfq_lawful-Inv}
use a_smart_mlfq_project_bas.Sched.Mlfq.Invariant.{
  IsValid, mlfq_init-IsValid, linked_in, linked_in-IsValid,
}
use a_smart_mlfq_project_bas.Sched.Mlfq.Policy.{InRange}
use a_smart_mlfq_project_bas.Sched.Proc.{uninit, sleeping, runnable, zombie, Proc, alloc_proc}
use a_smart_mlfq_project_bas.Sched.State.{SchedState, is_linked}

abbrev crew : Bool → ℕ → Proc
crew dead p = record (alloc_proc (pos 0)) {
  state =
      if p == 6
      then (if dead then zombie else sleeping)
      else (if (p == 1) || ((p == 3) || (p == 4)) then runnable else uninit);
  pid = pos p;
  parent = if p == 6 then some 3 else (if p == 3 then some 4 else none);
  cptr = if p == 3 then some 6 else (if p == 4 then some 3 else none);
}

abbrev kids_of : ℕ → List ℕ
kids_of r = if r == 3 then 6 ∷ [] else (if r == 4 then 3 ∷ [] else [])

abbrev crew_state : Bool → SchedState
crew_state dead = record {
  procs = crew dead;
  rq = record { run_list = []; proc_num = 0; max_time_slice = pos 5 };
  mlfq_inst = record { queues = λ i. []; global_timer = 0 };
}

crew-InRange : (dead : Bool) (p : ℕ) → InRange (crew dead p)
crew-InRange dead p = record {
  level = 0;
  score = 0;
  level_lt = omega arith;
  level_eq = refl;
  score_le = omega arith;
  score_eq = refl;
  ticks_le = omega arith;
}

crew-IsValid : (dead : Bool) → IsValid (crew_state dead)
unfolding mlfq_init
crew-IsValid dead = mlfq_init-IsValid (crew_state dead) (crew-InRange dead) (λ p. refl)

-- process 4 waits in queue 2
abbrev waiting : Bool → SchedState
waiting dead = linked_in (crew_state dead) 4 (record (crew dead 4) { mlfq_level = pos 2 }) 2

waiting-IsValid : (dead : Bool) → IsValid (waiting dead)
waiting-IsValid dead =
    linked_in-IsValid 4 (record (crew dead 4) { mlfq_level = pos 2 }) 2 0 (crew-IsValid dead)
      (omega arith) refl refl (omega arith) refl refl

abbrev scene : Bool → World
scene dead = record {
  kernel = record { sched = waiting dead; current = 3; idleproc = 1 };
  initproc = 4;
  proc_list = 6 ∷ 3 ∷ 4 ∷ [];
  nr_process = 3;
  hash_list = λ b. if b == pid_hashfn 6 then 6 ∷ [] else [];
  pid_state = record { next_safe = 8192; last_pid = 6 };
  blocks = 6 ∷ 3 ∷ 4 ∷ [];
  kstacks = 6 ∷ 3 ∷ 4 ∷ [];
}

abbrev basic_laws : Lawful (mlfq_class basic_policy)
basic_laws = mlfq_lawful basic_policy

waiting_queued :
    (dead : Bool) (p : ℕ)
    → ((waiting dead).procs p).state ≡ runnable
    → p ≢ 3
    → p ≢ 1
    → is_linked ((waiting dead).procs p).run_link ≡ true
waiting_queued true p r a b = ground arith
waiting_queued false p r a b = ground arith

scene-Sound : (dead : Bool) → Sound basic_laws (scene dead).kernel
scene-Sound dead = record {
  inv = mlfq_lawful-Inv basic_policy (waiting dead) (waiting-IsValid dead);
  current_free = refl;
  idle_free = refl;
  idle_ready = refl;
  none_lost = waiting_queued dead;
}

scene-Children : (dead : Bool) (r : ℕ) → Children (procs_of (scene dead)) r (kids_of r)
scene-Children dead r = elim (Bool-cases (r == 3)) [
  | inl e ↦
      subst (λ x. Children (procs_of (scene dead)) x (kids_of x)) (sym ((==_iff r 3).0 e))
        (record {
          elders = (refl, refl);
          youngers = (refl, tt);
          parents = (refl, tt);
          once = λ x. ground arith;
        })
  | inr e ↦ elim (Bool-cases (r == 4)) [
    | inl f ↦
        subst (λ x. Children (procs_of (scene dead)) x (kids_of x)) (sym ((==_iff r 4).0 f))
          (record {
            elders = (refl, refl);
            youngers = (refl, tt);
            parents = (refl, tt);
            once = λ x. ground arith;
          })
    | inr f ↦
        rw (e, f)
          (record { elders = rw (e, f) refl; youngers = tt; parents = tt; once = λ x. omega arith })
  ]
]

scene-IsFamily : (dead : Bool) → IsFamily (procs_of (scene dead)) kids_of
scene-IsFamily dead = record { children = scene-Children dead; not_own = λ r. ground arith }

-- kill
found : find_proc (table_of (scene false)) 6 ≡ some 6
unfolding find_proc find_in pid_hashfn hash32
found = refl

do_kill-marks_example :
    (u : World) × (do_kill (mlfq_class basic_policy) (scene false) (pos 6) ≡ some (u, pos 0))
    × IsMarked (scene false) 6 u
    × Sound basic_laws u.kernel
    × (is_interrupted (procs_of (scene false) 6) ≡ true → (procs_of u 6).state ≡ runnable)
do_kill-marks_example =
    do_kill-marks basic_laws (scene false) 6 6 found refl (λ e. cc) (scene-Sound false)

do_wait-some_example :
    (xs : List ℕ) × (ys : List ℕ) × (u : World) × (6 ∷ [] ≡ xs ++ 6 ∷ ys)
    × (first_dead (procs_of (scene true)) xs ≡ none)
    × (do_wait (mlfq_class basic_policy) true (scene true) (pos 0) ≡ some (reaped u (pos 0)))
    × IsReaped (scene true) kids_of 3 6 xs ys u
do_wait-some_example =
    do_wait-some (mlfq_class basic_policy) (scene true) (scene-IsFamily true) (omega arith) 6 refl
      (λ e. omega arith) (λ e. omega arith)

do_exit-IsEnded_example :
    (u : World) × (kids' : ℕ → List ℕ) × (do_exit (mlfq_class basic_policy) (scene true) (pos 5)
      ≡ some u)
    × IsEnded basic_laws (scene true) (pos 5) kids_of kids' u
do_exit-IsEnded_example =
    do_exit-IsEnded basic_laws (scene true) (pos 5) 4 (scene-Sound true) (scene-IsFamily true)
      (λ e. omega arith) (λ e. omega arith) refl (λ e. cc) (λ e. omega arith) (λ e. cc) refl
      (omega arith)

-- the answers where all allocations succeed, with the new structure at 7
abbrev plenty : Memory
plenty = record { block = some 7; kstack_ok = true; mm_ok = true; garbage = pos 9 }

scene-IsUnused : IsUnused (scene false) kids_of 7
scene-IsUnused = record {
  not_current = λ e. omega arith;
  not_idle = λ e. omega arith;
  unlinked = refl;
  unlisted = refl;
  new = λ r. ground arith;
  barren = refl;
}

scene-IsPidState : IsPidState (pids_of (scene false)) (scene false).pid_state
scene-IsPidState = record {
  positive = omega arith;
  bound = omega arith;
  none_between = λ q a b. ground arith;
}

do_fork-IsForked_example :
    (u : World) × (n : ℕ) × (do_fork (mlfq_class basic_policy) plenty (scene false)
      ≡ some (u, pos n))
    × IsForked basic_laws (scene false) kids_of 7 n u
do_fork-IsForked_example =
    do_fork-IsForked basic_laws plenty (scene false) 7 (omega arith) refl refl refl refl
      (scene-Sound false) (scene-IsFamily false) scene-IsPidState (omega arith) scene-IsUnused

do_fork-error_example :
    let m = record plenty { mm_ok = false } in
    (max_process ≤ 3
      → do_fork (mlfq_class basic_policy) m (scene false) ≡ some (scene false, e_no_free_proc))
    × (3 < max_process
        → ◌≡◌ {A = Option ℕ} (some 7) none
        → do_fork (mlfq_class basic_policy) m (scene false) ≡ some (scene false, e_no_mem))
    × ((p : ℕ)
        → 3 < max_process
        → some 7 ≡ some p
        → p ≢ 3
        → ◌≡◌ {A = ℕ} 0 0
        → (◌≡◌ {A = Bool} true false) ⊎ (◌≡◌ {A = Bool} false false)
        → (u : World) × (do_fork (mlfq_class basic_policy) m (scene false) ≡ some (u, e_no_mem))
          × SameBut p (scene false) u)
do_fork-error_example =
    do_fork-error (mlfq_class basic_policy) (record plenty { mm_ok = false }) (scene false)

unlink_child-IsFamily_example :
    IsFamily (unlink_child (procs_of (scene true)) 6 3) (update kids_of 3 [])
unlink_child-IsFamily_example = unlink_child-IsFamily 6 3 [] [] (scene-IsFamily true) refl
