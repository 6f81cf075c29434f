-- ===== src/Process/Exit/Orphans.antt =====
-- kern/process/proc.c: the loop of `do_exit` over the children.
use a_smart_mlfq_project_bas.Common.{
  ◌==◌, ==_iff, ne-==, ==-ne, Bool-cases, length, count, ℕ, zero, suc, ◌≤◌, ◌≡◌, refl, sym, ap, ◌∙◌,
  subst, ◌≢◌, inl, inr, some, List, [], ◌∷◌, arith,
}
use a_smart_mlfq_project_bas.Common.Store.{update, update_self, update_keeps}
use a_smart_mlfq_project_bas.Process.Exit.{wake_waiting, pass_child, pass_children}
use a_smart_mlfq_project_bas.Process.Exit.Adopt.{IsOrphaned, adopt_child-IsOrphaned}
use a_smart_mlfq_project_bas.Process.Exit.Handed.{handed, kin-IsOrphaned, IsOrphaned-IsFamily}
use a_smart_mlfq_project_bas.Process.Family.{link_child, adopt_child}
use a_smart_mlfq_project_bas.Process.Family.Children.{IsFamily}
use a_smart_mlfq_project_bas.Process.Family.Link.{link_child_keeps}
use a_smart_mlfq_project_bas.Process.Fork.Kept.{link_child-Sound}
use a_smart_mlfq_project_bas.Process.Life.{World, wt_child, procs_of, put_procs, wake}
use a_smart_mlfq_project_bas.Sched.Framework.{is_zombie}
use a_smart_mlfq_project_bas.Sched.Framework.Laws.{Lawful, Sound, marked-Sound}
use a_smart_mlfq_project_bas.Sched.Framework.Wakeup.{wakeup_proc-Woken}
use a_smart_mlfq_project_bas.Sched.Proc.{zombie, Proc, kin}
use a_smart_mlfq_project_bas.Sched.State.{SchedClass}

module _ {c : SchedClass} (l : Lawful c) where
  -- What the loop keeps.
  pub record IsPassing (w : World) (kids : ℕ → List ℕ) (ps : List ℕ) : Type 0 where
    pub sound : Sound l w.kernel
    pub orphaned : IsOrphaned (procs_of w) w.kernel.current kids ps
    pub init_lives : (procs_of w w.initproc).state ≢ zombie
    pub other : w.kernel.current ≢ w.initproc
    pub not_init : count w.initproc ps ≡ 0

  -- what stands in a world after a wake-up of `initproc`
  adopt_child-Sound :
      (w : World) (p : ℕ)
      → Sound l w.kernel
      → Sound l (put_procs w (adopt_child (procs_of w) w.kernel.current w.initproc p)).kernel
  unfolding adopt_child
  adopt_child-Sound w p v =
      marked-Sound l p _ (refl, refl, refl, refl, refl, refl, refl)
        (link_child-Sound l p w.initproc
          (marked-Sound l w.kernel.current _ (refl, refl, refl, refl, refl, refl, refl) v))

  adopt_child-state :
      (procs : ℕ → Proc) (cur init p a : ℕ)
      → (adopt_child procs cur init p a).state ≡ (procs a).state
  unfolding adopt_child
  adopt_child-state procs cur init p a =
      update_keeps (λ z. z.state)
        (link_child (update procs cur (record (procs cur) { cptr = (procs p).optr })) p init) p _ a
        refl
      ∙ link_child_keeps (update procs cur (record (procs cur) { cptr = (procs p).optr })) p init
          (λ z. z.state) a (λ q y o. refl) (λ q k. refl)
      ∙ update_keeps (λ z. z.state) procs cur _ a refl

  -- How a world may change when a process is woken.
  pub record IsWoken (w u : World) : Type 0 where
    pub sound : Sound l u.kernel
    pub same_current : u.kernel.current ≡ w.kernel.current
    pub same_idle : u.kernel.idleproc ≡ w.kernel.idleproc
    pub same_rest : u ≡ record w { kernel = u.kernel }
    pub same_kin : (a : ℕ) → kin (procs_of u a) ≡ kin (procs_of w a)
    pub alive : (a : ℕ) → (procs_of w a).state ≢ zombie → (procs_of u a).state ≢ zombie
    pub dead : (a : ℕ) → (procs_of w a).state ≡ zombie → (procs_of u a).state ≡ zombie

  unwoken-IsWoken : (w : World) → Sound l w.kernel → IsWoken w w
  unwoken-IsWoken w v = record {
    sound = v;
    same_current = refl;
    same_idle = refl;
    same_rest = refl;
    same_kin = λ a. refl;
    alive = λ a h. h;
    dead = λ a h. h;
  }

  wake-IsWoken :
      (w : World) (p : ℕ)
      → Sound l w.kernel
      → (procs_of w p).state ≢ zombie
      → (u : World) × (wake c w p ≡ some u) × IsWoken w u
  unfolding wake
  wake-IsWoken w p v lives =
      let (k, e, o) = wakeup_proc-Woken l p v lives in
      (
        record w { kernel = k },
        rw e refl,
        record {
          sound = o.sound;
          same_current = o.same_current;
          same_idle = o.same_idle;
          same_rest = refl;
          same_kin = o.same_kin;
          alive = λ a h. elim (Bool-cases (a == p)) [
            | inl s ↦ λ z. let r = o.ready in let g = (==_iff a p).0 s in cc (r, z, g)
            | inr n ↦ λ z. h (sym (o.same_states a (==-ne a p n)) ∙ z)
          ];
          dead =
              λ a h. o.same_states a (λ g. lives (ap (λ x. (procs_of w x).state) (sym g) ∙ h)) ∙ h;
        },
      )

  pub wake_waiting-IsWoken :
      (w : World) (p : ℕ)
      → Sound l w.kernel
      → (procs_of w p).state ≢ zombie
      → (u : World) × (wake_waiting c w p ≡ some u) × IsWoken w u
  unfolding wake_waiting
  wake_waiting-IsWoken w p v lives = elim (Bool-cases ((procs_of w p).wait_state == wt_child)) [
    | inl e ↦ let (u, f, o) = wake-IsWoken w p v lives in (u, rw (e, f), o)
    | inr e ↦ (w, rw e, unwoken-IsWoken w v)
  ]

  module _ {w : World} {kids : ℕ → List ℕ} {p : ℕ} {ps : List ℕ}
      (v : IsPassing w kids (p ∷ ps)) where
    abbrev taken : World
    taken = put_procs w (adopt_child (procs_of w) w.kernel.current w.initproc p)

    taken-IsOrphaned :
        IsOrphaned
          (procs_of taken)
          w.kernel.current
          (update kids w.initproc (p ∷ kids w.initproc))
          ps
    taken-IsOrphaned =
        adopt_child-IsOrphaned w.initproc v.other (λ e. let n = v.not_init in ground (arith, e, n))
          v.orphaned

    taken_alive : (procs_of taken w.initproc).state ≢ zombie
    taken_alive z =
        v.init_lives
          (sym (adopt_child-state (procs_of w) w.kernel.current w.initproc p w.initproc) ∙ z)

    woken-IsPassing :
        (u : World)
        → IsWoken taken u
        → IsPassing u (update kids w.initproc (p ∷ kids w.initproc)) ps
    woken-IsPassing u o =
        let init : u.initproc ≡ w.initproc = ap (λ x. x.initproc) o.same_rest in
        record {
          sound = o.sound;
          orphaned =
              subst
                (λ cur.
                  IsOrphaned (procs_of u) cur (update kids w.initproc (p ∷ kids w.initproc)) ps)
                (sym o.same_current) (kin-IsOrphaned taken-IsOrphaned o.same_kin);
          init_lives =
              subst (λ i. (procs_of u i).state ≢ zombie) (sym init)
                (o.alive w.initproc taken_alive);
          other = λ h. v.other (sym o.same_current ∙ h ∙ init);
          not_init = let n = v.not_init in rw init (ground arith);
        }

    pass_child-IsWoken : (u : World) × (pass_child c w p ≡ some u) × IsWoken taken u
    unfolding pass_child
    pass_child-IsWoken = elim (Bool-cases (is_zombie (procs_of taken p).state)) [
      | inl z ↦
          let (u, e, o) =
            wake_waiting-IsWoken taken w.initproc (adopt_child-Sound w p v.sound) taken_alive in
          (u, rw z e, o)
      | inr z ↦ (taken, rw z refl, unwoken-IsWoken taken (adopt_child-Sound w p v.sound))
    ]

  -- How the loop changes a world in which the current process has the children `ps`.
  pub record IsPassedOn (w : World) (kids : ℕ → List ℕ) (ps : List ℕ) (u : World)
      (kids' : ℕ → List ℕ) : Type 0 where
    pub sound : Sound l u.kernel
    pub family : IsFamily (procs_of u) kids'
    pub to_init : kids' w.initproc ≡ handed ps (kids w.initproc)
    pub others : (r : ℕ) → r ≢ w.initproc → kids' r ≡ kids r
    pub same_current : u.kernel.current ≡ w.kernel.current
    pub same_idle : u.kernel.idleproc ≡ w.kernel.idleproc
    pub dead : (a : ℕ) → (procs_of w a).state ≡ zombie → (procs_of u a).state ≡ zombie

  pub pass_children-IsPassedOn :
      (fuel : ℕ) (w : World) {kids : ℕ → List ℕ} (ps : List ℕ)
      → IsPassing w kids ps
      → length ps ≤ fuel
      → (u : World) × (kids' : ℕ → List ℕ) × (pass_children c fuel w
            (procs_of w w.kernel.current).cptr
          ≡ some u)
        × IsPassedOn w kids ps u kids'
  unfolding pass_children
  pass_children-IsPassedOn fuel w {kids} [] v h = (
    w,
    kids,
    rw v.orphaned.left refl,
    record {
      sound = v.sound;
      family = IsOrphaned-IsFamily v.orphaned;
      to_init = refl;
      others = λ r ne. refl;
      same_current = refl;
      same_idle = refl;
      dead = λ a z. z;
    },
  )
  pass_children-IsPassedOn zero w (p ∷ ps) v h = absurd (omega arith)
  pass_children-IsPassedOn (suc fuel) w {kids} (p ∷ ps) v h =
      let (t, e, o) = pass_child-IsWoken v in
      let (u, kids', f, d) =
        pass_children-IsPassedOn fuel t ps (woken-IsPassing v t o) (omega arith) in
      let init : t.initproc ≡ w.initproc = ap (λ x. x.initproc) o.same_rest in
      (
        u,
        kids',
        rw (v.orphaned.left.0, e) f,
        record {
          sound = d.sound;
          family = d.family;
          to_init =
              ap kids' (sym init)
              ∙ d.to_init
              ∙ ap (handed ps) (
                  ap (update kids w.initproc (p ∷ kids w.initproc)) init
                  ∙ update_self kids w.initproc (p ∷ kids w.initproc));
          others = λ r ne. d.others r (λ g. ne (g ∙ init)) ∙ rw (ne-== r w.initproc ne) refl;
          same_current = d.same_current ∙ o.same_current;
          same_idle = d.same_idle ∙ o.same_idle;
          dead = λ a z.
              d.dead a
                (o.dead a (adopt_child-state (procs_of w) w.kernel.current w.initproc p a ∙ z));
        },
      )
