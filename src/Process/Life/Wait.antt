-- ===== src/Process/Life/Wait.antt =====
-- kern/process/proc.c: `do_wait`.
use a_smart_mlfq_project_bas.Common.{
  ne-==, length, count, erase, count-append, ℕ, ◌-◌, ◌≤◌, ◌<◌, ◌≡◌, refl, sym, subst, ◌≢◌, true,
  Option, none, some, List, [], ◌∷◌, ◌++◌, arith,
}
use a_smart_mlfq_project_bas.Common.Errors.{e_bad_proc}
use a_smart_mlfq_project_bas.Common.Int.{pos}
use a_smart_mlfq_project_bas.Common.Store.{update}
use a_smart_mlfq_project_bas.Process.Family.{unlink_child}
use a_smart_mlfq_project_bas.Process.Family.Children.{Parents-count, IsFamily}
use a_smart_mlfq_project_bas.Process.Family.Unlink.{unlink_child-IsFamily}
use a_smart_mlfq_project_bas.Process.Life.{
  World, procs_of, put_procs, parent_read, remove_links, look_for, reap, reaped, failed,
  wait_decide, do_wait,
}
use a_smart_mlfq_project_bas.Process.Life.Zombie.{
  first_dead, is_cons, first_zombie_lem, first_dead_split,
}
use a_smart_mlfq_project_bas.Process.Table.{unhash_proc}
use a_smart_mlfq_project_bas.Sched.State.{SchedClass}

parent_read_lem : (y : Option ℕ) (par : ℕ) → parent_read y (some par) ≡ some par
parent_read_lem none par = refl
parent_read_lem (some y) par = refl

-- Reaping a child: its exit code is handed on, it leaves the hash lists, the list of processes and
-- the tree, in which its siblings keep their order, and its stack and its structure are freed.
pub record IsReaped (w : World) (kids : ℕ → List ℕ) (par p : ℕ) (xs ys : List ℕ) (u : World)
    : Type 0 where
  pub family : IsFamily (procs_of u) (update kids par (xs ++ ys))
  pub unhashed : (b : ℕ) → u.hash_list b ≡ erase (w.hash_list b) p
  pub unlisted : u.proc_list ≡ erase w.proc_list p
  pub counted : u.nr_process ≡ w.nr_process - 1
  pub stack_freed : u.kstacks ≡ erase w.kstacks p
  pub block_freed : u.blocks ≡ erase w.blocks p

pub reap_lem :
    (w : World) (kids : ℕ → List ℕ) (par p : ℕ) (xs ys : List ℕ)
    → IsFamily (procs_of w) kids
    → kids par ≡ xs ++ p ∷ ys
    → p ≢ w.kernel.idleproc
    → p ≢ w.initproc
    → (u : World) × (reap w p ≡ some (u, (procs_of w p).exit_code)) × IsReaped w kids par p xs ys u
unfolding reap remove_links unhash_proc
reap_lem w kids par p xs ys v e i j =
    let here : 0 < count p (kids par) =
      let s = count-append p xs (p ∷ ys) in subst (λ l. 0 < count p l) (sym e) (ground arith) in
    let up = Parents-count (procs_of w) par p (kids par) (v.children par).parents here in
    (
      record (put_procs w (unlink_child (procs_of w) p par)) {
        hash_list = λ b. erase (w.hash_list b) p;
        proc_list = erase w.proc_list p;
        nr_process = w.nr_process - 1;
        kstacks = erase w.kstacks p;
        blocks = erase w.blocks p;
      },
      rw
          (
            ne-== p w.kernel.idleproc i,
            ne-== p w.initproc j,
            up,
            parent_read_lem (procs_of w p).yptr par,
          )
          refl,
      record {
        family = unlink_child-IsFamily p par xs ys v e;
        unhashed = λ b. refl;
        unlisted = refl;
        counted = refl;
        stack_freed = refl;
        block_freed = refl;
      },
    )

module _ (c : SchedClass) (w : World) {kids : ℕ → List ℕ} (v : IsFamily (procs_of w) kids)
    (enough : length (kids w.kernel.current) ≤ w.nr_process) where
  looked :
      look_for w (pos 0)
      ≡ some (is_cons (kids w.kernel.current), first_dead (procs_of w) (kids w.kernel.current))
  unfolding look_for
  looked =
      first_zombie_lem (procs_of w) w.nr_process _ (kids w.kernel.current)
        (v.children w.kernel.current).elders enough

  -- To wait for any child, without one, is the error E_BAD_PROC, and the state stays as it is.
  pub do_wait-none :
      kids w.kernel.current ≡ [] → do_wait c true w (pos 0) ≡ some (failed w e_bad_proc)
  unfolding do_wait wait_decide
  do_wait-none e = rw (looked, e) refl

  -- To wait for any child, where one has ended, reaps the youngest that has.
  pub do_wait-some :
      (p : ℕ)
      → first_dead (procs_of w) (kids w.kernel.current) ≡ some p
      → p ≢ w.kernel.idleproc
      → p ≢ w.initproc
      → (xs : List ℕ) × (ys : List ℕ) × (u : World) × (kids w.kernel.current ≡ xs ++ p ∷ ys)
        × (first_dead (procs_of w) xs ≡ none)
        × (do_wait c true w (pos 0) ≡ some (reaped u (procs_of w p).exit_code))
        × IsReaped w kids w.kernel.current p xs ys u
  unfolding do_wait wait_decide
  do_wait-some p e i j =
      let (xs, ys, q, d, n) = first_dead_split (procs_of w) p (kids w.kernel.current) e in
      let (u, r, t) = reap_lem w kids w.kernel.current p xs ys v q i j in
      (xs, ys, u, q, n, rw (looked, e, r) refl, t)
