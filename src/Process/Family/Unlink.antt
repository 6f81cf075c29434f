-- ===== src/Process/Family/Unlink.antt =====
-- kern/process/proc.c: what `remove_links` does to the tree.
use a_smart_mlfq_project_bas.Common.{
  ◌==◌, if◌then◌else◌, ==_iff, ne-==, Bool-cases, count, count-append, ℕ, ◌+◌, ◌≤◌, ◌<◌, ◌≡◌, refl,
  sym, ap, ◌∙◌, subst, ◌≢◌, inl, inr, true, false, none, List, ◌∷◌, ◌++◌, arith,
}
use a_smart_mlfq_project_bas.Common.Store.{update, update_cases}
use a_smart_mlfq_project_bas.Process.Family.{set_yptr, unlink_child}
use a_smart_mlfq_project_bas.Process.Family.Children.{
  Elders, Children, Elders-same, Youngers-same, Parents-same, IsFamily,
}
use a_smart_mlfq_project_bas.Process.Family.Detached.{
  last_or, younger_of, Elders-behind, Parents-without, without_head, Elders-after, Youngers-after,
  next_cptr, last_none-count, next_cptr-last, next_cptr_same, set_optr-optr, set_optr-cptr,
  set_optr_keeps,
}
use a_smart_mlfq_project_bas.Process.Family.Link.{
  points_to, set_yptr-yptr, set_yptr_keeps, head_listed, one_parent,
}
use a_smart_mlfq_project_bas.Sched.Proc.{Proc}

module _ (procs : ℕ → Proc) (p par : ℕ) where
  unlinking : ℕ → Proc
  unlinking = set_yptr procs (procs p).optr (procs p).yptr

  unlinking-optr : (x : ℕ) → (unlinking x).optr ≡ (procs x).optr
  unfolding unlinking
  unlinking-optr x = set_yptr_keeps (λ q. q.optr) procs (procs p).optr (procs p).yptr x (λ q. refl)

  unlinking-cptr : (x : ℕ) → (unlinking x).cptr ≡ (procs x).cptr
  unfolding unlinking
  unlinking-cptr x = set_yptr_keeps (λ q. q.cptr) procs (procs p).optr (procs p).yptr x (λ q. refl)

  -- The pointers after `remove_links` for a process that is not its own elder.
  module _ (apart : points_to (procs p).optr p ≡ false) where
    unlinking-yptr : (unlinking p).yptr ≡ (procs p).yptr
    unfolding unlinking
    unlinking-yptr = set_yptr-yptr procs (procs p).optr (procs p).yptr p ∙ rw apart refl

    unlink_child-optr :
        (x : ℕ)
        → (unlink_child procs p par x).optr
          ≡ (if points_to (procs p).yptr x then (procs p).optr else (procs x).optr)
    unfolding unlink_child unlinking
    unlink_child-optr x =
        set_optr-optr unlinking par (unlinking p).optr (unlinking p).yptr x
        ∙ rw (unlinking-yptr, unlinking-optr p, unlinking-optr x) refl

    unlink_child-cptr :
        (x : ℕ)
        → (unlink_child procs p par x).cptr
          ≡ next_cptr (procs p).yptr (procs p).optr (x == par) (procs x).cptr
    unfolding unlink_child unlinking
    unlink_child-cptr x =
        set_optr-cptr unlinking par (unlinking p).optr (unlinking p).yptr x
        ∙ rw (unlinking-yptr, unlinking-optr p, unlinking-cptr x) refl

    unlink_child-yptr :
        (x : ℕ)
        → (unlink_child procs p par x).yptr
          ≡ (if points_to (procs p).optr x then (procs p).yptr else (procs x).yptr)
    unfolding unlink_child unlinking
    unlink_child-yptr x =
        set_optr_keeps unlinking par (unlinking p).optr (λ q. q.yptr) (unlinking p).yptr x
          (λ q. refl) (λ q. refl)
        ∙ set_yptr-yptr procs (procs p).optr (procs p).yptr x

    unlink_child-parent : (x : ℕ) → (unlink_child procs p par x).parent ≡ (procs x).parent
    unfolding unlink_child unlinking
    unlink_child-parent x =
        set_optr_keeps unlinking par (unlinking p).optr (λ q. q.parent) (unlinking p).yptr x
          (λ q. refl) (λ q. refl)
        ∙ set_yptr_keeps (λ q. q.parent) procs (procs p).optr (procs p).yptr x (λ q. refl)

module _ {procs : ℕ → Proc} {kids : ℕ → List ℕ} (p par : ℕ) (xs ys : List ℕ)
    (v : IsFamily procs kids) (listed : kids par ≡ xs ++ p ∷ ys) where
  abbrev left_procs : ℕ → Proc
  left_procs = unlink_child procs p par

  abbrev own : Children procs par (xs ++ p ∷ ys)
  own = subst (Children procs par) listed (v.children par)

  in_kids : (x : ℕ) → 0 < count x (xs ++ p ∷ ys) → 0 < count x (kids par)
  in_kids x m = subst (λ l. 0 < count x l) (sym listed) m

  once_of : (x : ℕ) → count x xs + count x (p ∷ ys) ≤ 1
  once_of x = let o = own.once x in let s = count-append x xs (p ∷ ys) in omega arith

  elder_listed : (x : ℕ) → points_to (procs p).optr x ≡ true → 0 < count x ys
  elder_listed x h =
      head_listed procs (procs p).optr ys x
        (Elders-behind procs (procs par).cptr xs p ys own.elders) h

  last_sibling : (procs p).yptr ≡ last_or none xs
  last_sibling = younger_of procs none xs p ys own.youngers

  younger_listed : (x : ℕ) → points_to (procs p).yptr x ≡ true → 0 < count x xs
  younger_listed x h = last_none-count x xs (ap (λ t. points_to t x) (sym last_sibling) ∙ h)

  not_elder : points_to (procs p).optr p ≡ false
  not_elder = elim (Bool-cases (points_to (procs p).optr p)) [
    | inl e ↦ let k = elder_listed p e in let o = once_of p in absurd (ground arith)
    | inr e ↦ e
  ]

  not_younger : (x : ℕ) → 0 < count x ys → points_to (procs p).yptr x ≡ false
  not_younger x m = elim (Bool-cases (points_to (procs p).yptr x)) [
    | inl e ↦ let k = younger_listed x e in let o = once_of x in absurd (ground arith)
    | inr e ↦ e
  ]

  -- siblings of p are no children of another process
  foreign :
      (q x : ℕ)
      → q ≢ par
      → 0 < count x (kids q)
      → (points_to (procs p).optr x ≡ false) × (points_to (procs p).yptr x ≡ false)
  foreign q x ne m =
      let s = count-append x xs (p ∷ ys) in
      let clash : 0 < count x (xs ++ p ∷ ys) → ⊥ = λ k. ne (one_parent q par x v m (in_kids x k)) in
      (
        elim (Bool-cases (points_to (procs p).optr x)) [
          | inl e ↦ let k = elder_listed x e in absurd (clash (ground arith))
          | inr e ↦ e
        ],
        elim (Bool-cases (points_to (procs p).yptr x)) [
          | inl e ↦ let k = younger_listed x e in absurd (clash (ground arith))
          | inr e ↦ e
        ],
      )

  head_after : (left_procs par).cptr ≡ without_head xs (procs par).cptr (procs p).optr
  head_after =
      unlink_child-cptr procs p par not_elder par
      ∙ ap (λ b. next_cptr (procs p).yptr (procs p).optr b (procs par).cptr)
          ((==_iff par par).1 refl)
      ∙ ap (λ t. next_cptr t (procs p).optr true (procs par).cptr) last_sibling
      ∙ next_cptr-last (procs p).optr (procs par).cptr xs

  optr_of_other : (q x : ℕ) → q ≢ par → 0 < count x (kids q) → (left_procs x).optr ≡ (procs x).optr
  optr_of_other q x ne m = unlink_child-optr procs p par not_elder x ∙ rw (foreign q x ne m).1 refl

  yptr_of_other : (q x : ℕ) → q ≢ par → 0 < count x (kids q) → (left_procs x).yptr ≡ (procs x).yptr
  yptr_of_other q x ne m = unlink_child-yptr procs p par not_elder x ∙ rw (foreign q x ne m).0 refl

  left_children : Children left_procs par (xs ++ ys)
  left_children = record {
    elders =
        subst (λ c. Elders left_procs c (xs ++ ys)) (sym head_after)
          (Elders-after procs left_procs p (unlink_child-optr procs p par not_elder)
            (unlink_child-yptr procs p par not_elder) none (procs par).cptr xs ys own.elders
            own.youngers own.once not_younger);
    youngers =
        Youngers-after procs left_procs p (unlink_child-optr procs p par not_elder)
          (unlink_child-yptr procs p par not_elder) none xs ys
          (Elders-behind procs (procs par).cptr xs p ys own.elders) own.youngers own.once;
    parents =
        Parents-same procs left_procs par (xs ++ ys) (Parents-without procs par xs p ys own.parents)
          (λ x m. unlink_child-parent procs p par not_elder x);
    once = λ x. let o = once_of x in let s = count-append x xs ys in ground arith;
  }

  other_children : (q : ℕ) → q ≢ par → Children left_procs q (kids q)
  other_children q ne =
      let w = v.children q in
      record {
        elders =
            Elders-same procs left_procs (procs q).cptr _ (kids q) w.elders
              (unlink_child-cptr procs p par not_elder q
                ∙ ap (λ b. next_cptr (procs p).yptr (procs p).optr b (procs q).cptr)
                    (ne-== q par ne)
                ∙ next_cptr_same (procs p).yptr (procs p).optr (procs q).cptr)
              (λ x m. optr_of_other q x ne m);
        youngers =
            Youngers-same procs left_procs none (kids q) w.youngers (λ x m. yptr_of_other q x ne m);
        parents =
            Parents-same procs left_procs q (kids q) w.parents
              (λ x m. unlink_child-parent procs p par not_elder x);
        once = w.once;
      }

  -- In a tree of processes a child is taken out, wherever it stands among its siblings; all other
  -- children are as before, and in the same order.
  pub unlink_child-IsFamily : IsFamily left_procs (update kids par (xs ++ ys))
  unlink_child-IsFamily = record {
    children = λ q.
        update_cases (λ l. Children left_procs q l) kids par (xs ++ ys) q
          (λ e. subst (λ r. Children left_procs r (xs ++ ys)) (sym e) left_children)
          (λ ne. other_children q ne);
    not_own = λ q.
        update_cases (λ l. count q l ≡ 0) kids par (xs ++ ys) q
          (λ e.
            let n = subst (λ l. count par l ≡ 0) listed (v.not_own par) in
            let s = count-append par xs (p ∷ ys) in
            let t = count-append par xs ys in
            subst (λ r. count r (xs ++ ys) ≡ 0) (sym e) (ground arith))
          (λ ne. v.not_own q);
  }
