-- ===== src/Process/Fork.antt =====
-- kern/process/proc.c: `do_fork` over a scheduling class. What `kmalloc`, `setup_kstack` and
-- `copy_mm` answer is an argument: an address or NULL, and whether the other two succeed. What they
-- do to memory is left out, but for the blocks and stacks that a process owns.
pub mod Error
pub mod Kept
pub mod Child
use a_smart_mlfq_project_bas.Common.{
  leb, ◌==◌, if◌then◌else◌, ◌>>=◌, ◌>>◌, assert, erase, ℕ, Bool, not, Option, none, some, List, ◌∷◌,
  map,
}
use a_smart_mlfq_project_bas.Common.Errors.{e_no_mem, e_no_free_proc}
use a_smart_mlfq_project_bas.Common.Int.{ℤ, pos, pos_part}
use a_smart_mlfq_project_bas.Process.Life.{World, procs_of, set_at, table_of, set_links, wake}
use a_smart_mlfq_project_bas.Process.Pid.{max_process, get_pid}
use a_smart_mlfq_project_bas.Process.Table.{hash_proc}
use a_smart_mlfq_project_bas.Sched.Proc.{Proc, alloc_proc}
use a_smart_mlfq_project_bas.Sched.State.{SchedClass}

-- the answers of the allocations, in the order in which they are asked for
pub record Memory : Type 0 where
  pub block : Option ℕ
  pub kstack_ok : Bool
  pub mm_ok : Bool
  pub garbage : ℤ  -- what the block holds where alloc_proc writes nothing

-- a process structure of its own, with the current process as its parent
abbrev pub new_proc : World → ℤ → Proc
new_proc w garbage = record (alloc_proc garbage) { parent = some w.kernel.current }

unfoldable pub take_block : World → ℕ → ℤ → World
take_block w p garbage = record (set_at w p (new_proc w garbage)) { blocks = p ∷ w.blocks }

-- kfree(proc)
unfoldable pub free_block : World → ℕ → World
free_block w p = record w { blocks = erase w.blocks p }

unfoldable pub take_kstack : World → ℕ → World
take_kstack w p = record w { kstacks = p ∷ w.kstacks }

-- put_kstack(proc)
unfoldable pub put_kstack : World → ℕ → World
put_kstack w p = record w { kstacks = erase w.kstacks p }

-- the pids of the listed processes, in the order of the list
abbrev pub pids_of : World → List ℕ
pids_of w = map (λ p. pos_part (procs_of w p).pid) w.proc_list

-- the part without interrupts: a pid, the hash lists and the links
unfoldable pub enter_child : World → ℕ → Option World
enter_child w p = do
  s ← get_pid w.pid_state (pids_of w)
  let u = record (set_at w p (record (procs_of w p) { pid = pos s.last_pid })) { pid_state = s }
  let t = hash_proc (table_of u) p
  set_links (record u { hash_list = t.hash_list }) p

module _ (c : SchedClass) where
  unfoldable pub fork_child : World → ℕ → Option (World × ℤ)
  fork_child w p = do u ← enter_child w p; v ← wake c u p; some (v, (procs_of v p).pid)

  -- `do_fork` once it has a block
  unfoldable pub fork_block : Memory → World → ℕ → Option (World × ℤ)
  fork_block m w p = do
    let u = take_block w p m.garbage
    assert ((procs_of u u.kernel.current).wait_state == 0)
    if not m.kstack_ok
        then some (free_block u p, e_no_mem)
        else if not m.mm_ok
        then some (free_block (put_kstack (take_kstack u p) p) p, e_no_mem)
        else fork_child (take_kstack u p) p

  unfoldable pub fork_room : Memory → World → Option ℕ → Option (World × ℤ)
  fork_room m w none = some (w, e_no_mem)
  fork_room m w (some p) = fork_block m w p

  unfoldable pub do_fork : Memory → World → Option (World × ℤ)
  do_fork m w =
      if leb max_process w.nr_process then some (w, e_no_free_proc) else fork_room m w m.block
