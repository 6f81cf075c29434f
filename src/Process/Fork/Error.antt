-- ===== src/Process/Fork/Error.antt =====
-- kern/process/proc.c: the failures of `do_fork`.
use a_smart_mlfq_project_bas.Common.{
  leb, ◌==◌, ==_iff, ne-==, Bool-cases, erase, ℕ, ◌≤◌, ◌<◌, ◌≡◌, refl, sym, ◌≢◌, ◌⊎◌, inl, inr,
  true, false, none, some, List, ◌∷◌, arith,
}
use a_smart_mlfq_project_bas.Common.Errors.{e_no_mem, e_no_free_proc}
use a_smart_mlfq_project_bas.Common.Int.{ℤ}
use a_smart_mlfq_project_bas.Process.Fork.{
  Memory, take_block, free_block, take_kstack, put_kstack, fork_block, fork_room, do_fork,
}
use a_smart_mlfq_project_bas.Process.Life.{World, procs_of}
use a_smart_mlfq_project_bas.Process.Pid.{max_process}
use a_smart_mlfq_project_bas.Sched.State.{SchedClass}

-- Two worlds agree but for the process structure at one address.
pub record SameBut (p : ℕ) (w u : World) : Type 0 where
  pub procs : (a : ℕ) → a ≢ p → procs_of u a ≡ procs_of w a
  pub proc_list : u.proc_list ≡ w.proc_list
  pub nr_process : u.nr_process ≡ w.nr_process
  pub hash_list : u.hash_list ≡ w.hash_list
  pub pid_state : u.pid_state ≡ w.pid_state
  pub blocks : u.blocks ≡ w.blocks
  pub kstacks : u.kstacks ≡ w.kstacks
  pub queues : u.kernel.sched.mlfq_inst ≡ w.kernel.sched.mlfq_inst
  pub rq : u.kernel.sched.rq ≡ w.kernel.sched.rq
  pub current : u.kernel.current ≡ w.kernel.current
  pub idleproc : u.kernel.idleproc ≡ w.kernel.idleproc
  pub initproc : u.initproc ≡ w.initproc

take_free : (p : ℕ) (xs : List ℕ) → erase (p ∷ xs) p ≡ xs
take_free p xs = rw ((==_iff p p).1 refl) refl

pub ready_to_fork :
    (w : World) (p : ℕ) (garbage : ℤ)
    → p ≢ w.kernel.current
    → (procs_of w w.kernel.current).wait_state ≡ 0
    → let u = take_block w p garbage in ((procs_of u u.kernel.current).wait_state == 0) ≡ true
unfolding take_block
ready_to_fork w p garbage ne z = rw (ne-== w.kernel.current p (λ e. ne (sym e)), z) refl

taken-SameBut :
    (w : World) (p : ℕ) (garbage : ℤ) → SameBut p w (free_block (take_block w p garbage) p)
unfolding take_block free_block
taken-SameBut w p garbage = record {
  procs = λ a ne. rw (ne-== a p ne) refl;
  proc_list = refl;
  nr_process = refl;
  hash_list = refl;
  pid_state = refl;
  blocks = take_free p w.blocks;
  kstacks = refl;
  queues = refl;
  rq = refl;
  current = refl;
  idleproc = refl;
  initproc = refl;
}

stacked-SameBut :
    (w : World) (p : ℕ) (garbage : ℤ)
    → SameBut p w (free_block (put_kstack (take_kstack (take_block w p garbage) p) p) p)
unfolding take_block free_block take_kstack put_kstack
stacked-SameBut w p garbage = record {
  procs = λ a ne. rw (ne-== a p ne) refl;
  proc_list = refl;
  nr_process = refl;
  hash_list = refl;
  pid_state = refl;
  blocks = take_free p w.blocks;
  kstacks = take_free p w.kstacks;
  queues = refl;
  rq = refl;
  current = refl;
  idleproc = refl;
  initproc = refl;
}

-- do_fork fails without a place in the table, without a structure, without a stack and without an
-- address space. It returns the error of that case, and gives back what it took: but for the contents
-- of the structure that it got and freed, the world is as before.
pub do_fork-error :
    (c : SchedClass) (m : Memory) (w : World)
    → (max_process ≤ w.nr_process → do_fork c m w ≡ some (w, e_no_free_proc))
      × (w.nr_process < max_process → m.block ≡ none → do_fork c m w ≡ some (w, e_no_mem))
      × ((p : ℕ)
          → w.nr_process < max_process
          → m.block ≡ some p
          → p ≢ w.kernel.current
          → (procs_of w w.kernel.current).wait_state ≡ 0
          → (m.kstack_ok ≡ false) ⊎ (m.mm_ok ≡ false)
          → (u : World) × (do_fork c m w ≡ some (u, e_no_mem)) × SameBut p w u)
unfolding do_fork fork_room fork_block
do_fork-error c m w = (
  λ h. let full : leb max_process w.nr_process ≡ true = ground arith in rw full refl,
  λ h e. let room : leb max_process w.nr_process ≡ false = ground arith in rw (room, e) refl,
  λ p h e ne z f.
      let room : leb max_process w.nr_process ≡ false = ground arith in
      let ready = ready_to_fork w p m.garbage ne z in
      elim (Bool-cases m.kstack_ok) [
        | inr k ↦ (
          free_block (take_block w p m.garbage) p,
          rw (room, e, ready, k) refl,
          taken-SameBut w p m.garbage,
        )
        | inl k ↦ elim (Bool-cases m.mm_ok) [
          | inr mm ↦ (
            free_block (put_kstack (take_kstack (take_block w p m.garbage) p) p) p,
            rw (room, e, ready, k, mm) refl,
            stacked-SameBut w p m.garbage,
          )
          | inl mm ↦ absurd (ground (arith, f, k, mm))
        ]
      ],
)
