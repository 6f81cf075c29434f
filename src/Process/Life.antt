-- ===== src/Process/Life.antt =====
-- kern/process/proc.c: the system calls that make, wait for and end processes, over a scheduling
-- class. Memory is left to the caller: whether an allocation or a check succeeds is an argument.
pub mod Zombie
pub mod Wait
pub mod Kill
use a_smart_mlfq_project_bas.Common.{
  ◌==◌, if◌then◌else◌, ◌>>=◌, ◌>>◌, assert, erase, ℕ, zero, suc, ◌+◌, ◌-◌, ◌/◌, ◌%◌, ◌^◌, Bool,
  true, false, ◌||◌, not, Option, none, some, List, ◌∷◌,
}
use a_smart_mlfq_project_bas.Common.Errors.{e_bad_proc, e_inval, e_killed}
use a_smart_mlfq_project_bas.Common.Int.{ℤ, pos, pos_part, eqb_ℤ}
use a_smart_mlfq_project_bas.Common.Store.{update}
use a_smart_mlfq_project_bas.Format.{flags}
use a_smart_mlfq_project_bas.Process.Family.{link_child, unlink_child}
use a_smart_mlfq_project_bas.Process.Family.Link.{points_to}
use a_smart_mlfq_project_bas.Process.Pid.{PidState}
use a_smart_mlfq_project_bas.Process.Table.{HashTable, unhash_proc, find_proc}
use a_smart_mlfq_project_bas.Sched.Framework.{Kernel, is_zombie, wakeup_proc, schedule}
use a_smart_mlfq_project_bas.Sched.Proc.{sleeping, Proc}
use a_smart_mlfq_project_bas.Sched.State.{SchedClass}

pub record World : Type 0 where
  pub kernel : Kernel
  pub initproc : ℕ
  pub proc_list : List ℕ
  pub nr_process : ℕ
  pub hash_list : ℕ → List ℕ
  pub pid_state : PidState
  pub blocks : List ℕ  -- the process structures that kmalloc has given out
  pub kstacks : List ℕ  -- the processes that own a kernel stack

abbrev pub wt_child : ℕ
wt_child = 2147483649

-- `flags & PF_EXITING`
abbrev pub is_exiting : Proc → Bool
is_exiting q = q.flags % 2 == 1

-- `wait_state & WT_INTERRUPTED`
abbrev pub is_interrupted : Proc → Bool
is_interrupted q = (q.wait_state / 2 ^ 31) % 2 == 1

abbrev pub procs_of : World → (ℕ → Proc)
procs_of w = w.kernel.sched.procs

abbrev pub put_procs : World → (ℕ → Proc) → World
put_procs w procs = record w {
  kernel = record (w.kernel) { sched = record (w.kernel.sched) { procs = procs } };
}

-- a write to the process at an address
abbrev pub set_at : World → ℕ → Proc → World
set_at w p q = put_procs w (update (procs_of w) p q)

-- the hash lists with the pids of the processes at hand
abbrev pub table_of : World → HashTable
table_of w = record { pid_of = λ p. pos_part (procs_of w p).pid; hash_list = w.hash_list }

unfoldable pub set_links : World → ℕ → Option World
set_links w p = (procs_of w p).parent >>= λ par.
    some (record (put_procs w (link_child (procs_of w) p par)) {
      proc_list = p ∷ w.proc_list;
      nr_process = w.nr_process + 1;
    })

-- The parent is read only where there is no younger sibling.
abbrev pub parent_read : Option ℕ → Option ℕ → Option ℕ
parent_read none par = par
parent_read (some y) none = some y
parent_read (some y) (some par) = some par

unfoldable pub remove_links : World → ℕ → Option World
remove_links w p = parent_read (procs_of w p).yptr (procs_of w p).parent >>= λ par.
    some (record (put_procs w (unlink_child (procs_of w) p par)) {
      proc_list = erase w.proc_list p;
      nr_process = w.nr_process - 1;
    })

-- The walk along the children: whether there is one, and the first zombie. The fuel is for the
-- siblings left.
unfoldable pub first_zombie : (ℕ → Proc) → ℕ → Option ℕ → Option (Bool × Option ℕ)
first_zombie procs fuel none = some (false, none)
first_zombie procs zero (some p) = none
first_zombie procs (suc fuel) (some p) = elim (is_zombie (procs p).state) [
  | true ↦ some (true, some p)
  | false ↦ first_zombie procs fuel (procs p).optr >>= λ r. some (true, r.1)
]

-- the process with a pid, if it is a child of the current one
unfoldable pub zombie_with : World → ℤ → Bool × Option ℕ
zombie_with w pid = elim (find_proc (table_of w) (pos_part pid)) [
  | none ↦ (false, none)
  | some p ↦
      if points_to (procs_of w p).parent w.kernel.current
      then (true, if is_zombie (procs_of w p).state then some p else none)
      else (false, none)
]

-- `do_wait` from `repeat` to its test of `haskid`: whether there is a child to wait for, and one that
-- has ended
unfoldable pub look_for : World → ℤ → Option (Bool × Option ℕ)
look_for w pid =
    if eqb_ℤ pid (pos 0)
    then first_zombie (procs_of w) w.nr_process (procs_of w w.kernel.current).cptr
    else some (zombie_with w pid)

-- `do_wait` from `found` on; the exit code is what is stored through `code_store`
unfoldable pub reap : World → ℕ → Option (World × ℤ)
reap w p = do
  assert (not ((p == w.kernel.idleproc) || (p == w.initproc)))
  let code = (procs_of w p).exit_code
  let t = unhash_proc (table_of w) p
  u ← remove_links (record w { hash_list = t.hash_list }) p
  some (record u { kstacks = erase u.kstacks p; blocks = erase u.blocks p }, code)

-- one round of `do_wait`: it returns a number, with the exit code if that is 0; or it sleeps, in the
-- state after `schedule` has chosen another process
pub data WaitResult : Type 0 where
  reaped : World → ℤ → WaitResult
  failed : World → ℤ → WaitResult
  asleep : World → WaitResult

module _ (c : SchedClass) where
  unfoldable pub wait_sleep : World → Option World
  wait_sleep w =
      let q = procs_of w w.kernel.current in
      let u = set_at w w.kernel.current (record q { state = sleeping; wait_state = wt_child }) in
      schedule c u.kernel >>= λ k. some (record u { kernel = k })

  unfoldable pub wait_decide : World → Bool × Option ℕ → Option WaitResult
  wait_decide w (haskid, some p) = reap w p >>= λ r. some (reaped r.0 r.1)
  wait_decide w (true, none) = wait_sleep w >>= λ u. some (asleep u)
  wait_decide w (false, none) = some (failed w e_bad_proc)

  -- `memory_ok` is the check of `code_store`.
  unfoldable pub do_wait : Bool → World → ℤ → Option WaitResult
  do_wait memory_ok w pid =
      if memory_ok then look_for w pid >>= wait_decide w else some (failed w e_inval)

  unfoldable pub wake : World → ℕ → Option World
  wake w p = wakeup_proc c w.kernel p >>= λ k. some (record w { kernel = k })

  -- the branch of `do_kill` for a process that is not ending yet
  unfoldable pub mark_exiting : World → ℕ → Option World
  mark_exiting w p =
      let q = procs_of w p in
      let u = set_at w p (record q { flags = q.flags + 1 }) in
      if is_interrupted q then wake u p else some u

  unfoldable pub kill_found : World → Option ℕ → Option (World × ℤ)
  kill_found w none = some (w, e_inval)
  kill_found w (some p) =
      if is_exiting (procs_of w p)
      then some (w, e_killed)
      else mark_exiting w p >>= λ u. some (u, pos 0)

  unfoldable pub do_kill : World → ℤ → Option (World × ℤ)
  do_kill w pid = kill_found w (find_proc (table_of w) (pos_part pid))

unfoldable pub do_yield : World → World
do_yield w =
    set_at w w.kernel.current (record (procs_of w w.kernel.current) { need_resched = true })

unfoldable pub lab6_set_priority : World → ℕ → World
lab6_set_priority w priority =
    let q = procs_of w w.kernel.current in
    set_at w w.kernel.current (record q { lab6_priority = if priority == 0 then 1 else priority })
