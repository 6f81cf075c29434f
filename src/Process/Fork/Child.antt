-- ===== src/Process/Fork/Child.antt =====
-- kern/process/proc.c: the child that `do_fork` makes.
use a_smart_mlfq_project_bas.Common.{
  leb, ne-==, length, count, ℕ, suc, ◌+◌, ◌<◌, ◌≡◌, refl, sym, ap, ◌∙◌, subst, ◌≢◌, true, false,
  some, List, [], ◌∷◌, map, arith,
}
use a_smart_mlfq_project_bas.Common.Int.{ℤ, pos, pos_part}
use a_smart_mlfq_project_bas.Common.Store.{update, update_self}
use a_smart_mlfq_project_bas.Process.Family.{link_child}
use a_smart_mlfq_project_bas.Process.Family.Children.{IsFamily}
use a_smart_mlfq_project_bas.Process.Family.Link.{link_child_keeps, link_child-IsFamily}
use a_smart_mlfq_project_bas.Process.Fork.{
  Memory, new_proc, take_block, take_kstack, pids_of, enter_child, fork_child, fork_block,
  fork_room, do_fork,
}
use a_smart_mlfq_project_bas.Process.Fork.Error.{ready_to_fork}
use a_smart_mlfq_project_bas.Process.Fork.Kept.{link_child-Sound, replaced-IsFamily, kin-IsFamily}
use a_smart_mlfq_project_bas.Process.Life.{World, procs_of, put_procs, set_links, wake}
use a_smart_mlfq_project_bas.Process.Pid.{max_process, max_pid, PidState, pid_init, get_pid}
use a_smart_mlfq_project_bas.Process.Pid.Unique.{IsPidState, IsFresh, get_pid-IsFresh}
use a_smart_mlfq_project_bas.Process.Table.{pid_hashfn, hash_proc}
use a_smart_mlfq_project_bas.Sched.Framework.{Kernel}
use a_smart_mlfq_project_bas.Sched.Framework.Laws.{Lawful, Sound, marked-Sound, admitted-Sound}
use a_smart_mlfq_project_bas.Sched.Framework.Wakeup.{Woken, wakeup_proc-Woken}
use a_smart_mlfq_project_bas.Sched.Proc.{uninit, runnable, zombie, Proc, Kin}
use a_smart_mlfq_project_bas.Sched.State.{SchedClass, is_linked}

-- What do_fork leaves: the child is the youngest of the current process, runnable, with a pid that no
-- listed process has, at the head of the list of processes; the counts and the owned blocks and stacks
-- are one more.
pub record IsForked {c : SchedClass} (l : Lawful c) (w : World) (kids : ℕ → List ℕ) (p n : ℕ)
    (u : World) : Type 0 where
  pub family : IsFamily (procs_of u) (update kids w.kernel.current (p ∷ kids w.kernel.current))
  pub sound : Sound l u.kernel
  pub ready : (procs_of u p).state ≡ runnable
  pub pid : (procs_of u p).pid ≡ pos n
  pub fresh : IsFresh (pids_of w) u.pid_state
  pub newest : u.pid_state.last_pid ≡ n
  pub listed : u.proc_list ≡ p ∷ w.proc_list
  pub counted : u.nr_process ≡ w.nr_process + 1
  pub hashed : u.hash_list (pid_hashfn n) ≡ p ∷ w.hash_list (pid_hashfn n)
  pub stack : u.kstacks ≡ p ∷ w.kstacks
  pub block : u.blocks ≡ p ∷ w.blocks

-- An address at which nothing of the world stands.
pub record IsUnused (w : World) (kids : ℕ → List ℕ) (p : ℕ) : Type 0 where
  pub not_current : p ≢ w.kernel.current
  pub not_idle : p ≢ w.kernel.idleproc
  pub unlinked : is_linked (procs_of w p).run_link ≡ false
  pub unlisted : count p w.proc_list ≡ 0
  pub new : (r : ℕ) → count p (kids r) ≡ 0
  pub barren : kids p ≡ []

map_same :
    (f g : ℕ → ℕ) (xs : List ℕ) → ((x : ℕ) → 0 < count x xs → f x ≡ g x) → map f xs ≡ map g xs
map_same f g [] h = refl
map_same f g (x ∷ xs) h =
    let a = h x (ground arith) in let b = map_same f g xs (λ y m. h y (ground arith)) in cc

length-map : (f : ℕ → ℕ) (xs : List ℕ) → length (map f xs) ≡ length xs
length-map f [] = refl
length-map f (x ∷ xs) = ap suc (length-map f xs)

module _ (w : World) (p : ℕ) (garbage : ℤ) (s : PidState) where
  abbrev born : ℕ → Proc
  born = update (procs_of w) p (new_proc w garbage)

  abbrev named : ℕ → Proc
  named = update born p (record (born p) { pid = pos s.last_pid })

  abbrev entered : World
  entered = record (put_procs w (link_child named p w.kernel.current)) {
    pid_state = s;
    hash_list =
        update w.hash_list (pid_hashfn s.last_pid) (p ∷ w.hash_list (pid_hashfn s.last_pid));
    proc_list = p ∷ w.proc_list;
    nr_process = w.nr_process + 1;
    blocks = p ∷ w.blocks;
    kstacks = p ∷ w.kstacks;
  }

  born_self : born p ≡ new_proc w garbage
  born_self = update_self (procs_of w) p (new_proc w garbage)

  named_self : named p ≡ record (new_proc w garbage) { pid = pos s.last_pid }
  named_self =
      update_self born p (record (born p) { pid = pos s.last_pid })
      ∙ ap (λ (q : Proc). record q { pid = pos s.last_pid }) born_self

  enter_child-eq :
      get_pid w.pid_state (pids_of (take_kstack (take_block w p garbage) p)) ≡ some s
      → enter_child (take_kstack (take_block w p garbage) p) p ≡ some entered
  unfolding enter_child take_kstack take_block hash_proc set_links
  enter_child-eq e =
      let up : (named p).parent ≡ some w.kernel.current = ap (λ (q : Proc). q.parent) named_self in
      let pid : (named p).pid ≡ pos s.last_pid = ap (λ (q : Proc). q.pid) named_self in
      rw (e, up, pid) refl

  module _ {c : SchedClass} (l : Lawful c) {kids : ℕ → List ℕ} (free : IsUnused w kids p)
      (v : Sound l w.kernel) (f : IsFamily (procs_of w) kids) where
    entered-Sound : Sound l entered.kernel
    entered-Sound = link_child-Sound l p w.kernel.current (
        marked-Sound l p (record (born p) { pid = pos s.last_pid })
          (refl, refl, refl, refl, refl, refl, refl)
          (admitted-Sound l p (new_proc w garbage) free.unlinked free.not_current free.not_idle
            (refl, refl, refl, refl, refl, refl) v))

    named-IsFamily : IsFamily named kids
    named-IsFamily =
        replaced-IsFamily p (record (born p) { pid = pos s.last_pid })
          (replaced-IsFamily p (new_proc w garbage) f free.new free.barren refl) free.new
          free.barren (ap (λ (q : Proc). q.cptr) born_self)

    entered-IsFamily :
        IsFamily (procs_of entered) (update kids w.kernel.current (p ∷ kids w.kernel.current))
    entered-IsFamily =
        link_child-IsFamily p w.kernel.current named-IsFamily free.new free.not_current
          (ap (λ (q : Proc). q.parent) named_self)

    entered_state : (procs_of entered p).state ≡ uninit
    entered_state =
        link_child_keeps named p w.kernel.current (λ q. q.state) p (λ q y o. refl) (λ q z. refl)
        ∙ ap (λ (q : Proc). q.state) named_self

    entered_pid : (procs_of entered p).pid ≡ pos s.last_pid
    entered_pid =
        link_child_keeps named p w.kernel.current (λ q. q.pid) p (λ q y o. refl) (λ q z. refl)
        ∙ ap (λ (q : Proc). q.pid) named_self

    Woken-IsForked :
        (k : Kernel)
        → Woken l entered.kernel p k
        → IsFresh (pids_of w) s
        → IsForked l w kids p s.last_pid (record entered { kernel = k })
    Woken-IsForked k wk fr = record {
      family = kin-IsFamily entered-IsFamily wk.same_kin;
      sound = wk.sound;
      ready = wk.ready;
      pid = ap (λ (x : Kin). x.pid) (wk.same_kin p) ∙ entered_pid;
      fresh = fr;
      newest = refl;
      listed = refl;
      counted = refl;
      hashed =
          update_self w.hash_list (pid_hashfn s.last_pid) (p ∷ w.hash_list (pid_hashfn s.last_pid));
      stack = refl;
      block = refl;
    }

-- The pids of the list are those from before: the new structure is not in it.
pids_same :
    (w : World) (p : ℕ) (garbage : ℤ) {kids : ℕ → List ℕ}
    → IsUnused w kids p
    → pids_of (take_kstack (take_block w p garbage) p) ≡ pids_of w
unfolding take_kstack take_block
pids_same w p garbage free =
    map_same (λ a. pos_part (born w p garbage pid_init a).pid) (λ a. pos_part (procs_of w a).pid)
      w.proc_list
      (λ x m.
        let ne : x ≢ p = λ e.
          let n = subst (λ a. 0 < count a w.proc_list) e m in
          let o = free.unlisted in omega arith in
        let same : born w p garbage pid_init x ≡ procs_of w x = rw (ne-== x p ne) refl in
        ap (λ (q : Proc). pos_part q.pid) same)

-- Where all allocations succeed and the table has room, do_fork makes a child at an unused address:
-- the youngest child of the current process, runnable, with a pid that no listed process has, in the
-- lists by pid and of all processes, and it returns that pid. The tree of processes and the invariant
-- of the scheduler hold again.
pub do_fork-IsForked :
    {c : SchedClass} (l : Lawful c) (m : Memory) (w : World) {kids : ℕ → List ℕ} (p : ℕ)
    → w.nr_process < max_process
    → m.block ≡ some p
    → m.kstack_ok ≡ true
    → m.mm_ok ≡ true
    → (procs_of w w.kernel.current).wait_state ≡ 0
    → Sound l w.kernel
    → IsFamily (procs_of w) kids
    → IsPidState (pids_of w) w.pid_state
    → suc (length w.proc_list) < max_pid
    → IsUnused w kids p
    → (u : World) × (n : ℕ) × (do_fork c m w ≡ some (u, pos n)) × IsForked l w kids p n u
unfolding do_fork fork_room fork_block fork_child wake
do_fork-IsForked {c} l m w {kids} p h b ks mm z v f ip len free =
    let room : leb max_process w.nr_process ≡ false = ground arith in
    let ready = ready_to_fork w p m.garbage free.not_current z in
    let count_ok : suc (length (pids_of w)) < max_pid =
      subst (λ x. suc x < max_pid) (sym (length-map (λ a. pos_part (procs_of w a).pid) w.proc_list))
        len in
    let (s, e, fr) = get_pid-IsFresh (pids_of w) ip count_ok in
    let same = pids_same w p m.garbage free in
    let entered_eq = enter_child-eq w p m.garbage s (ap (get_pid w.pid_state) same ∙ e) in
    let alive : (procs_of (entered w p m.garbage s) p).state ≢ zombie =
      λ x. cc (entered_state w p m.garbage s l free v f) in
    let (k, r, wk) = wakeup_proc-Woken l p (entered-Sound w p m.garbage s l free v f) alive in
    let done = Woken-IsForked w p m.garbage s l free v f k wk fr in
    (
      record (entered w p m.garbage s) { kernel = k },
      s.last_pid,
      rw (room, b, ready, ks, mm, entered_eq, r, done.pid) refl,
      done,
    )
