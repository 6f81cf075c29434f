-- ===== src/Process/Exit/End.antt =====
-- kern/process/proc.c: what `do_exit` does.
use a_smart_mlfq_project_bas.Common.{
  ◌==◌, if◌then◌else◌, ne-==, Bool-cases, length, count, ℕ, ◌≤◌, ◌≡◌, refl, sym, ap, ◌∙◌, subst,
  ◌≢◌, inl, inr, some, List, [], arith,
}
use a_smart_mlfq_project_bas.Common.Int.{ℤ}
use a_smart_mlfq_project_bas.Common.Store.{update, update_self, update_read, update_keeps}
use a_smart_mlfq_project_bas.Process.Exit.{do_exit}
use a_smart_mlfq_project_bas.Process.Exit.Adopt.{tree-IsFamily, IsOrphaned}
use a_smart_mlfq_project_bas.Process.Exit.Handed.{handed, kin-IsOrphaned, family-IsOrphaned}
use a_smart_mlfq_project_bas.Process.Exit.Orphans.{
  IsPassing, IsWoken, wake_waiting-IsWoken, pass_children-IsPassedOn,
}
use a_smart_mlfq_project_bas.Process.Family.Children.{IsFamily}
use a_smart_mlfq_project_bas.Process.Fork.Kept.{kin-IsFamily}
use a_smart_mlfq_project_bas.Process.Life.{World, procs_of, set_at}
use a_smart_mlfq_project_bas.Sched.Framework.Laws.{Lawful, Sound}
use a_smart_mlfq_project_bas.Sched.Framework.Schedule.{schedule-Switched}
use a_smart_mlfq_project_bas.Sched.Proc.{ProcState, runnable, zombie, Proc}
use a_smart_mlfq_project_bas.Sched.State.{SchedClass, is_linked}

-- Two writes to one address.
twice_at :
    {A : Type 0} (s : ℕ → A) (a : ℕ) (v x : A) (b : ℕ)
    → update (update s a v) a x b ≡ update s a x b
twice_at s a v x b = elim (Bool-cases (b == a)) [ inl e ↦ rw e refl | inr e ↦ rw e refl ]

update_twice : {A : Type 0} (s : ℕ → A) (a : ℕ) (v x : A) → update (update s a v) a x ≡ update s a x
update_twice s a v x = λ i b. twice_at s a v x b i

-- How a world has changed when the current process has ended.
pub record IsEnded {c : SchedClass} (l : Lawful c) (w : World) (code : ℤ) (kids kids' : ℕ → List ℕ)
    (u : World) : Type 0 where
  pub sound : Sound l u.kernel
  pub running : (procs_of u u.kernel.current).state ≡ runnable
  pub ended : (procs_of u w.kernel.current).state ≡ zombie
  pub family : IsFamily (procs_of u) kids'
  pub none_left : kids' w.kernel.current ≡ []
  pub to_init : kids' w.initproc ≡ handed (kids w.kernel.current) (kids w.initproc)
  pub others : (r : ℕ) → r ≢ w.kernel.current → r ≢ w.initproc → kids' r ≡ kids r

module _ {c : SchedClass} (l : Lawful c) (w : World) (code : ℤ) where
  abbrev cur : ℕ
  cur = w.kernel.current

  abbrev ended : World
  ended = set_at w cur (record (procs_of w cur) { state = zombie; exit_code = code })

  abbrev marked_code : ℕ → Proc
  marked_code = update (procs_of w) cur (record (procs_of w cur) { exit_code = code })

  abbrev mark_zombie : Proc → Proc
  mark_zombie q = record q { state = zombie; wait_state = (procs_of w cur).wait_state }

  ended_eq : update marked_code cur (mark_zombie (marked_code cur)) ≡ procs_of ended
  ended_eq =
      update_twice (procs_of w) cur _ (mark_zombie (marked_code cur))
      ∙ ap (λ q. update (procs_of w) cur (mark_zombie q)) (update_self (procs_of w) cur _)

  ended-Sound : Sound l w.kernel → cur ≢ w.kernel.idleproc → Sound l ended.kernel
  ended-Sound v ne = record {
    inv =
        subst (λ procs. l.Inv (record (w.kernel.sched) { procs = procs })) ended_eq
          (l.restate cur (procs_of w cur).wait_state zombie
            (l.mark cur _ v.inv (refl, refl, refl, refl, refl, refl, refl))
            (update_keeps (λ q. is_linked q.run_link) (procs_of w) cur _ cur refl
              ∙ v.current_free));
    current_free =
        update_keeps (λ q. is_linked q.run_link) (procs_of w) cur _ cur refl ∙ v.current_free;
    idle_free =
        update_keeps (λ q. is_linked q.run_link) (procs_of w) cur _ w.kernel.idleproc refl
        ∙ v.idle_free;
    idle_ready =
        update_read (λ q. q.state) (procs_of w) cur _ w.kernel.idleproc
        ∙ ap (λ b. if b then zombie else (procs_of w w.kernel.idleproc).state)
            (ne-== w.kernel.idleproc cur (λ h. ne (sym h)))
        ∙ v.idle_ready;
    none_lost = λ a r nc ni.
        update_keeps (λ q. is_linked q.run_link) (procs_of w) cur _ a refl
        ∙ v.none_lost a
            (sym (
                update_read (λ q. q.state) (procs_of w) cur _ a
                ∙ ap (λ b. if b then zombie else (procs_of w a).state) (ne-== a cur nc))
              ∙ r)
            nc ni;
  }

  ended-IsFamily : {kids : ℕ → List ℕ} → IsFamily (procs_of w) kids → IsFamily (procs_of ended) kids
  ended-IsFamily f = tree-IsFamily f (record {
    cptrs = λ a. update_keeps (λ z. z.cptr) (procs_of w) cur _ a refl;
    yptrs = λ a. update_keeps (λ z. z.yptr) (procs_of w) cur _ a refl;
    optrs = λ a. update_keeps (λ z. z.optr) (procs_of w) cur _ a refl;
    parents = λ a. update_keeps (λ z. z.parent) (procs_of w) cur _ a refl;
  })

  own_state : (x : ProcState) → (if cur == cur then zombie else x) ≡ zombie
  own_state x = ground arith

  same_at : (a : ℕ) → a ≢ cur → procs_of ended a ≡ procs_of w a
  same_at a ne = rw (ne-== a cur ne) refl

  ended_alive :
      (a : ℕ) → a ≢ cur → (procs_of w a).state ≢ zombie → (procs_of ended a).state ≢ zombie
  ended_alive a ne h z = h (sym (ap (λ q. q.state) (same_at a ne)) ∙ z)

  ended_up : (par : ℕ) → (procs_of w cur).parent ≡ some par → (procs_of ended cur).parent ≡ some par
  ended_up par e = update_keeps (λ q. q.parent) (procs_of w) cur _ cur refl ∙ e

  -- What holds when the parent has been woken.
  ready_to_pass :
      {kids : ℕ → List ℕ} (u : World)
      → IsWoken l ended u
      → IsFamily (procs_of w) kids
      → cur ≢ w.initproc
      → (procs_of w w.initproc).state ≢ zombie
      → count w.initproc (kids cur) ≡ 0
      → IsPassing l u (update kids cur []) (kids cur)
  ready_to_pass {kids} u o f ni lives n =
      let init : u.initproc ≡ w.initproc = ap (λ x. x.initproc) o.same_rest in
      record {
        sound = o.sound;
        orphaned =
            subst (λ x. IsOrphaned (procs_of u) x (update kids cur []) (kids cur))
              (sym o.same_current)
              (kin-IsOrphaned (family-IsOrphaned cur (ended-IsFamily f)) o.same_kin);
        init_lives =
            subst (λ i. (procs_of u i).state ≢ zombie) (sym init)
              (o.alive w.initproc (ended_alive w.initproc (λ h. ni (sym h)) lives));
        other = λ h. ni (sym o.same_current ∙ h ∙ init);
        not_init = rw init n;
      }

  -- A current process that is neither the idle one nor initproc ends, in a sound state with a tree of
  -- processes, where its parent and initproc live, initproc is not its child, and nr_process counts at
  -- least its children. do_exit runs to its switch: the process is a zombie without children, initproc
  -- has them in front of its own, the last one first, all other children are as before, a runnable process is
  -- current, and the scheduler's invariant and the tree hold again.
  pub do_exit-IsEnded :
      {kids : ℕ → List ℕ} (par : ℕ)
      → Sound l w.kernel
      → IsFamily (procs_of w) kids
      → cur ≢ w.kernel.idleproc
      → cur ≢ w.initproc
      → (procs_of w cur).parent ≡ some par
      → (procs_of w par).state ≢ zombie
      → par ≢ cur
      → (procs_of w w.initproc).state ≢ zombie
      → count w.initproc (kids cur) ≡ 0
      → length (kids cur) ≤ w.nr_process
      → (u : World) × (kids' : ℕ → List ℕ) × (do_exit c w code ≡ some u)
        × IsEnded l w code kids kids' u
  unfolding do_exit
  do_exit-IsEnded {kids} par v f ni nt up up_lives not_up init_lives not_kid enough =
      let (u, e, o) =
        wake_waiting-IsWoken l ended par (ended-Sound v ni) (ended_alive par not_up up_lives) in
      let count_ok : length (kids cur) ≤ u.nr_process =
        subst (λ n. length (kids cur) ≤ n) (sym (ap (λ x. x.nr_process) o.same_rest)) enough in
      let init : u.initproc ≡ w.initproc = ap (λ x. x.initproc) o.same_rest in
      let (x, kids', g, d) =
        pass_children-IsPassedOn l u.nr_process u (kids cur)
          (ready_to_pass u o f nt init_lives not_kid) count_ok in
      let (k, h, s) = schedule-Switched l d.sound in
      (
        record x { kernel = k },
        kids',
        rw (ne-== cur w.kernel.idleproc ni, ne-== cur w.initproc nt, ended_up par up, e, g, h) refl,
        record {
          sound = s.sound;
          running = s.running;
          ended =
              s.same_states cur
              ∙ d.dead cur (
                  o.dead cur (
                    update_read (λ q. q.state) (procs_of w) cur _ cur
                    ∙ own_state (procs_of w cur).state));
          family = kin-IsFamily d.family s.same_kin;
          none_left = d.others cur (λ q. nt (q ∙ init)) ∙ update_self kids cur [];
          to_init =
              ap kids' (sym init)
              ∙ d.to_init
              ∙ ap (handed (kids cur))
                  (ap (update kids cur []) init ∙ rw (ne-== w.initproc cur (λ h. nt (sym h))) refl);
          others = λ r nc nr. d.others r (λ q. nr (q ∙ init)) ∙ rw (ne-== r cur nc) refl;
        },
      )
