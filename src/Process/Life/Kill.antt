-- ===== src/Process/Life/Kill.antt =====
-- kern/process/proc.c: `do_kill`.
use a_smart_mlfq_project_bas.Common.{
  ◌==◌, ==_iff, Bool-cases, ℕ, ◌+◌, ◌%◌, ◌≡◌, refl, sym, ap, ◌∙◌, ◌≢◌, inl, inr, true, false, none,
  some, arith,
}
use a_smart_mlfq_project_bas.Common.Errors.{e_inval, e_killed}
use a_smart_mlfq_project_bas.Common.Int.{ℤ, pos, pos_part}
use a_smart_mlfq_project_bas.Common.Store.{update_keeps}
use a_smart_mlfq_project_bas.Process.Life.{
  World, is_exiting, is_interrupted, procs_of, set_at, table_of, wake, mark_exiting, kill_found,
  do_kill,
}
use a_smart_mlfq_project_bas.Process.Table.{find_proc}
use a_smart_mlfq_project_bas.Sched.Framework.{Kernel}
use a_smart_mlfq_project_bas.Sched.Framework.Laws.{Lawful, Sound, marked-Sound}
use a_smart_mlfq_project_bas.Sched.Framework.Wakeup.{Woken, wakeup_proc-Woken}
use a_smart_mlfq_project_bas.Sched.Proc.{runnable, zombie, Kin}
use a_smart_mlfq_project_bas.Sched.State.{SchedClass}

-- The world after a process was marked: it is ending, and nothing else about the tree has changed.
pub record IsMarked (w : World) (p : ℕ) (u : World) : Type 0 where
  pub ending : is_exiting (procs_of u p) ≡ true
  pub parents : (a : ℕ) → (procs_of u a).parent ≡ (procs_of w a).parent
  pub pids : (a : ℕ) → (procs_of u a).pid ≡ (procs_of w a).pid
  pub same_list : u.proc_list ≡ w.proc_list
  pub same_current : u.kernel.current ≡ w.kernel.current

flag_set : (f : ℕ) → (f % 2 == 1) ≡ false → ((f + 1) % 2 == 1) ≡ true
flag_set f h = ground arith

abbrev marked : World → ℕ → World
marked w p = set_at w p (record (procs_of w p) { flags = (procs_of w p).flags + 1 })

marked-IsMarked :
    (w : World) (p : ℕ) → is_exiting (procs_of w p) ≡ false → IsMarked w p (marked w p)
marked-IsMarked w p h = record {
  ending = rw ((==_iff p p).1 refl) (flag_set (procs_of w p).flags h);
  parents = λ a. update_keeps (λ q. q.parent) (procs_of w) p _ a refl;
  pids = λ a. update_keeps (λ q. q.pid) (procs_of w) p _ a refl;
  same_list = refl;
  same_current = refl;
}

-- A process that is woken stays marked.
Woken-IsMarked :
    {c : SchedClass} (l : Lawful c) (w : World) (p : ℕ) (k : Kernel)
    → IsMarked w p (marked w p)
    → Woken l (marked w p).kernel p k
    → IsMarked w p (record (marked w p) { kernel = k })
Woken-IsMarked l w p k m v = record {
  ending = ap (λ (x : Kin). x.flags % 2 == 1) (v.same_kin p) ∙ m.ending;
  parents = λ a. ap (λ (x : Kin). x.parent) (v.same_kin a) ∙ m.parents a;
  pids = λ a. ap (λ (x : Kin). x.pid) (v.same_kin a) ∙ m.pids a;
  same_list = refl;
  same_current = v.same_current;
}

-- To kill a listed process that is neither ending nor a zombie returns 0: the process is marked as
-- ending, and it is made runnable if its wait can be interrupted; no runnable process is lost.
pub do_kill-marks :
    {c : SchedClass} (l : Lawful c) (w : World) (p : ℕ) (pid : ℕ)
    → find_proc (table_of w) pid ≡ some p
    → is_exiting (procs_of w p) ≡ false
    → (procs_of w p).state ≢ zombie
    → Sound l w.kernel
    → (u : World) × (do_kill c w (pos pid) ≡ some (u, pos 0))
      × IsMarked w p u
      × Sound l u.kernel
      × (is_interrupted (procs_of w p) ≡ true → (procs_of u p).state ≡ runnable)
unfolding do_kill kill_found mark_exiting wake
do_kill-marks {c} l w p pid e h alive v =
    let m = marked-IsMarked w p h in
    let sound =
      marked-Sound l p (record (procs_of w p) { flags = (procs_of w p).flags + 1 })
        (refl, refl, refl, refl, refl, refl, refl) v in
    elim (Bool-cases (is_interrupted (procs_of w p))) [
      | inl i ↦
          let lives : (procs_of (marked w p) p).state ≢ zombie =
            λ z. alive (sym (update_keeps (λ q. q.state) (procs_of w) p _ p refl) ∙ z) in
          let (k, f, woken) = wakeup_proc-Woken l p sound lives in
          (
            record (marked w p) { kernel = k },
            rw (e, h, i, f) refl,
            Woken-IsMarked l w p k m woken,
            woken.sound,
            λ _. woken.ready,
          )
      | inr i ↦ (marked w p, rw (e, h, i) refl, m, sound, λ j. absurd (cc))
    ]

-- The errors of do_kill, after which the world is as before: E_INVAL if no process is found, and
-- E_KILLED for a process that is ending already.
pub do_kill-error :
    (c : SchedClass) (w : World) (pid : ℤ)
    → (find_proc (table_of w) (pos_part pid) ≡ none → do_kill c w pid ≡ some (w, e_inval))
      × ((p : ℕ)
          → find_proc (table_of w) (pos_part pid) ≡ some p
          → is_exiting (procs_of w p) ≡ true
          → do_kill c w pid ≡ some (w, e_killed))
unfolding do_kill kill_found
do_kill-error c w pid = (λ e. rw e refl, λ p e h. rw (e, h) refl)
