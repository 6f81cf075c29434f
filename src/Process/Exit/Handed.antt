-- ===== src/Process/Exit/Handed.antt =====
-- kern/process/proc.c: the children that a process that ends has not handed over yet.
use a_smart_mlfq_project_bas.Common.{
  ◌==◌, if◌then◌else◌, ==_iff, ne-==, Bool-cases, count, ℕ, ◌≡◌, refl, sym, ap, ◌∙◌, inl, inr, none,
  List, [], ◌∷◌, arith,
}
use a_smart_mlfq_project_bas.Common.Store.{update, update_cases, update_read, update_keeps}
use a_smart_mlfq_project_bas.Process.Exit.Adopt.{tree-IsFamily, childless, IsOrphaned}
use a_smart_mlfq_project_bas.Process.Family.Children.{
  Children, Elders-same, Youngers-same, Parents-same, IsFamily,
}
use a_smart_mlfq_project_bas.Process.Family.Link.{one_parent}
use a_smart_mlfq_project_bas.Process.Fork.Kept.{kin-IsFamily}
use a_smart_mlfq_project_bas.Sched.Proc.{Proc, Kin, kin}

-- The children that were handed over, in front of those that were there: the last one comes first.
abbrev pub handed : List ℕ → List ℕ → List ℕ
handed [] xs = xs
handed (p ∷ ps) xs = handed ps (p ∷ xs)

abbrev pub childless_kin : Kin → Kin
childless_kin k = record k { cptr = none }

pub kin-IsOrphaned :
    {procs procs' : ℕ → Proc} {cur : ℕ} {kids : ℕ → List ℕ} {ps : List ℕ}
    → IsOrphaned procs cur kids ps
    → ((a : ℕ) → kin (procs' a) ≡ kin (procs a))
    → IsOrphaned procs' cur kids ps
kin-IsOrphaned {procs} {procs'} {cur} {kids} {ps} o k = record {
  family = kin-IsFamily o.family (λ a.
      update_read kin procs' cur _ a
      ∙ ap (λ x. if a == cur then x else kin (procs' a)) (ap childless_kin (k cur))
      ∙ ap (λ x. if a == cur then childless_kin (kin (procs cur)) else x) (k a)
      ∙ sym (update_read kin procs cur _ a));
  left =
      Elders-same procs procs' (procs cur).cptr (procs' cur).cptr ps o.left
        (ap (λ (x : Kin). x.cptr) (k cur)) (λ x m. ap (λ (y : Kin). y.optr) (k x));
  once = o.once;
  apart = o.apart;
}

-- A process whose children are all handed over has none.
pub IsOrphaned-IsFamily :
    {procs : ℕ → Proc} {cur : ℕ} {kids : ℕ → List ℕ}
    → IsOrphaned procs cur kids []
    → IsFamily procs kids
IsOrphaned-IsFamily {procs} {cur} o = tree-IsFamily o.family (record {
  cptrs = λ a. sym (update_keeps (λ z. z.cptr) procs cur _ a (sym o.left));
  yptrs = λ a. sym (update_keeps (λ z. z.yptr) procs cur _ a refl);
  optrs = λ a. sym (update_keeps (λ z. z.optr) procs cur _ a refl);
  parents = λ a. sym (update_keeps (λ z. z.parent) procs cur _ a refl);
})

-- In a tree all children of a process may be handed over.
pub family-IsOrphaned :
    {procs : ℕ → Proc} {kids : ℕ → List ℕ} (cur : ℕ)
    → IsFamily procs kids
    → IsOrphaned procs cur (update kids cur []) (kids cur)
family-IsOrphaned {procs} {kids} cur v = record {
  family = record {
    children = λ q.
        update_cases (λ xs. Children (childless procs cur) q xs) kids cur [] q
          (λ e. record {
            elders =
                update_read (λ z. z.cptr) procs cur _ q
                ∙ ap (λ b. if b then none else (procs q).cptr) ((==_iff q cur).1 e);
            youngers = tt;
            parents = tt;
            once = λ x. omega arith;
          })
          (λ ne.
            let w = v.children q in
            record {
              elders =
                  Elders-same procs (childless procs cur) (procs q).cptr _ (kids q) w.elders
                    (update_read (λ z. z.cptr) procs cur _ q
                      ∙ ap (λ b. if b then none else (procs q).cptr) (ne-== q cur ne))
                    (λ x m. update_keeps (λ z. z.optr) procs cur _ x refl);
              youngers =
                  Youngers-same procs (childless procs cur) none (kids q) w.youngers
                    (λ x m. update_keeps (λ z. z.yptr) procs cur _ x refl);
              parents =
                  Parents-same procs (childless procs cur) q (kids q) w.parents
                    (λ x m. update_keeps (λ z. z.parent) procs cur _ x refl);
              once = w.once;
            });
    not_own =
        λ q. update_cases (λ xs. count q xs ≡ 0) kids cur [] q (λ e. refl) (λ ne. v.not_own q);
  };
  left = (v.children cur).elders;
  once = (v.children cur).once;
  apart = λ r x m.
      update_cases (λ xs. count x xs ≡ 0) kids cur [] r (λ e. refl)
        (λ ne. elim (Bool-cases (count x (kids r) == 0)) [
          | inl e ↦ ground arith
          | inr e ↦ absurd (ne (sym (one_parent cur r x v m (ground arith))))
        ]);
}
