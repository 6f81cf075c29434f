-- ===== src/Process/Fork/Kept.antt =====
-- kern/process/proc.c: what the making of a child keeps.
use a_smart_mlfq_project_bas.Common.{
  ◌==◌, ==_iff, ne-==, Bool-cases, count, ℕ, ◌<◌, ◌≡◌, refl, sym, ap, ◌∙◌, subst, inl, inr, Option,
  none, some, List, [], arith,
}
use a_smart_mlfq_project_bas.Common.Store.{update}
use a_smart_mlfq_project_bas.Process.Family.{set_yptr, link_child}
use a_smart_mlfq_project_bas.Process.Family.Children.{
  Elders, Elders-same, Youngers-same, Parents-same, IsFamily,
}
use a_smart_mlfq_project_bas.Sched.Framework.{Kernel}
use a_smart_mlfq_project_bas.Sched.Framework.Laws.{Lawful, Sound, marked-Sound}
use a_smart_mlfq_project_bas.Sched.Proc.{Proc, Kin, kin}
use a_smart_mlfq_project_bas.Sched.State.{SchedClass}

-- The writes to the tree keep the invariant of the scheduler.
pub set_yptr-Sound :
    {c : SchedClass} (l : Lawful c) {k : Kernel} (o y : Option ℕ)
    → Sound l k
    → Sound l (record k { sched = record (k.sched) { procs = set_yptr k.sched.procs o y } })
unfolding set_yptr
set_yptr-Sound l none y v = v
set_yptr-Sound l (some o) y v = marked-Sound l o _ (refl, refl, refl, refl, refl, refl, refl) v

pub link_child-Sound :
    {c : SchedClass} (l : Lawful c) {k : Kernel} (p par : ℕ)
    → Sound l k
    → Sound l (record k { sched = record (k.sched) { procs = link_child k.sched.procs p par } })
unfolding link_child
link_child-Sound l {k} p par v =
    marked-Sound l par _ (refl, refl, refl, refl, refl, refl, refl)
      (set_yptr-Sound l (k.sched.procs par).cptr (some p)
        (marked-Sound l p _ (refl, refl, refl, refl, refl, refl, refl) v))

-- A structure that is in no list of children and has none may be replaced.
pub replaced-IsFamily :
    {procs : ℕ → Proc} {kids : ℕ → List ℕ} (p : ℕ) (q : Proc)
    → IsFamily procs kids
    → ((r : ℕ) → count p (kids r) ≡ 0)
    → kids p ≡ []
    → q.cptr ≡ none
    → IsFamily (update procs p q) kids
replaced-IsFamily {procs} {kids} p q v new barren e =
    let same : (r x : ℕ) → 0 < count x (kids r) → update procs p q x ≡ procs x = λ r x m.
      rw
        (ne-== x p
          (λ h. let n = subst (λ z. 0 < count z (kids r)) h m in let k = new r in omega arith))
        refl in
    record {
      children = λ r.
          let w = v.children r in
          record {
            elders = elim (Bool-cases (r == p)) [
              | inl h ↦
                  let h' = (==_iff r p).0 h in
                  subst (λ xs. Elders (update procs p q) (update procs p q r).cptr xs)
                    (sym (ap kids h' ∙ barren)) (rw h e)
              | inr h ↦
                  Elders-same procs (update procs p q) (procs r).cptr _ (kids r) w.elders
                    (rw h refl) (λ x m. ap (λ z. z.optr) (same r x m))
            ];
            youngers =
                Youngers-same procs (update procs p q) none (kids r) w.youngers
                  (λ x m. ap (λ z. z.yptr) (same r x m));
            parents =
                Parents-same procs (update procs p q) r (kids r) w.parents
                  (λ x m. ap (λ z. z.parent) (same r x m));
            once = w.once;
          };
      not_own = v.not_own;
    }

-- A tree depends on the fields of the tree only.
pub kin-IsFamily :
    {procs procs' : ℕ → Proc} {kids : ℕ → List ℕ}
    → IsFamily procs kids
    → ((a : ℕ) → kin (procs' a) ≡ kin (procs a))
    → IsFamily procs' kids
kin-IsFamily {procs} {procs'} {kids} v k = record {
  children = λ r.
      let w = v.children r in
      record {
        elders =
            Elders-same procs procs' (procs r).cptr (procs' r).cptr (kids r) w.elders
              (ap (λ (x : Kin). x.cptr) (k r)) (λ x m. ap (λ (y : Kin). y.optr) (k x));
        youngers =
            Youngers-same procs procs' none (kids r) w.youngers
              (λ x m. ap (λ (y : Kin). y.yptr) (k x));
        parents =
            Parents-same procs procs' r (kids r) w.parents
              (λ x m. ap (λ (y : Kin). y.parent) (k x));
        once = w.once;
      };
  not_own = v.not_own;
}
