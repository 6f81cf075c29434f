-- ===== src/Process/Family/Link.antt =====
-- kern/process/proc.c: what `set_links` does to the tree.
use a_smart_mlfq_project_bas.Common.{
  ◌==◌, if◌then◌else◌, ==_iff, ne-==, Bool-cases, count, ℕ, ◌≤◌, ◌<◌, ◌≡◌, refl, sym, ap, ◌∙◌,
  subst, ◌≢◌, inl, inr, Bool, true, false, Option, none, some, List, [], ◌∷◌, arith,
}
use a_smart_mlfq_project_bas.Common.Store.{update, update_cases, update_read, update_keeps}
use a_smart_mlfq_project_bas.Process.Family.{set_yptr, link_child}
use a_smart_mlfq_project_bas.Process.Family.Children.{
  Elders, Youngers, Children, Elders-same, Youngers-same, Parents-same, Parents-count, IsFamily,
}
use a_smart_mlfq_project_bas.Sched.Proc.{Proc}

-- whether a pointer leads to an address
abbrev pub points_to : Option ℕ → ℕ → Bool
points_to none x = false
points_to (some o) x = x == o

pub set_yptr-yptr :
    (procs : ℕ → Proc) (o y : Option ℕ) (x : ℕ)
    → (set_yptr procs o y x).yptr ≡ (if points_to o x then y else (procs x).yptr)
unfolding set_yptr
set_yptr-yptr procs none y x = refl
set_yptr-yptr procs (some o) y x =
    update_read (λ q. q.yptr) procs o (record (procs o) { yptr = y }) x

-- `yptr` is all that it writes.
pub set_yptr_keeps :
    {A : Type 0} (g : Proc → A) (procs : ℕ → Proc) (o y : Option ℕ) (x : ℕ)
    → ((q : Proc) → g (record q { yptr = y }) ≡ g q)
    → g (set_yptr procs o y x) ≡ g (procs x)
unfolding set_yptr
set_yptr_keeps g procs none y x h = refl
set_yptr_keeps g procs (some o) y x h =
    update_keeps g procs o (record (procs o) { yptr = y }) x (h (procs o))

module _ (procs : ℕ → Proc) (p par : ℕ) where
  linking : ℕ → Proc
  linking = update procs p (record (procs p) { yptr = none; optr = (procs par).cptr })

  pub link_child-optr :
      (x : ℕ)
      → (link_child procs p par x).optr ≡ (if x == p then (procs par).cptr else (procs x).optr)
  unfolding link_child linking
  link_child-optr x =
      update_keeps (λ q. q.optr) (set_yptr linking (procs par).cptr (some p)) par _ x refl
      ∙ set_yptr_keeps (λ q. q.optr) linking (procs par).cptr (some p) x (λ q. refl)
      ∙ update_read (λ q. q.optr) procs p _ x

  pub link_child-yptr :
      (x : ℕ)
      → (link_child procs p par x).yptr ≡ (
          if points_to (procs par).cptr x
          then some p
          else (if x == p then none else (procs x).yptr))
  unfolding link_child linking
  link_child-yptr x =
      update_keeps (λ q. q.yptr) (set_yptr linking (procs par).cptr (some p)) par _ x refl
      ∙ set_yptr-yptr linking (procs par).cptr (some p) x
      ∙ ap (λ y. if points_to (procs par).cptr x then some p else y)
          (update_read (λ q. q.yptr) procs p _ x)

  pub link_child-cptr :
      (x : ℕ) → (link_child procs p par x).cptr ≡ (if x == par then some p else (procs x).cptr)
  unfolding link_child linking
  link_child-cptr x =
      update_read (λ q. q.cptr) (set_yptr linking (procs par).cptr (some p)) par _ x
      ∙ ap (λ c. if x == par then some p else c)
          (set_yptr_keeps (λ q. q.cptr) linking (procs par).cptr (some p) x (λ q. refl)
            ∙ update_keeps (λ q. q.cptr) procs p _ x refl)

  pub link_child_keeps :
      {A : Type 0} (g : Proc → A) (x : ℕ)
      → ((q : Proc) (y o : Option ℕ) → g (record q { yptr = y; optr = o }) ≡ g q)
      → ((q : Proc) (c : Option ℕ) → g (record q { cptr = c }) ≡ g q)
      → g (link_child procs p par x) ≡ g (procs x)
  unfolding link_child linking
  link_child_keeps g x h k =
      update_keeps g (set_yptr linking (procs par).cptr (some p)) par _ x (k _ _)
      ∙ set_yptr_keeps g linking (procs par).cptr (some p) x (λ q. h q (some p) q.optr)
      ∙ update_keeps g procs p _ x (h (procs p) none (procs par).cptr)

-- The head of a list of children is in it.
pub head_listed :
    (procs : ℕ → Proc) (c : Option ℕ) (xs : List ℕ) (x : ℕ)
    → Elders procs c xs
    → points_to c x ≡ true
    → 0 < count x xs
head_listed procs c [] x v h = let e = v in absurd (ground (arith, h, ap (λ o. points_to o x) e))
head_listed procs c (z ∷ xs) x v h = let e = ap (λ o. points_to o x) v.0 in ground (arith, h, e)

-- Two processes do not share a child.
pub one_parent :
    {procs : ℕ → Proc} {kids : ℕ → List ℕ} (q r x : ℕ)
    → IsFamily procs kids
    → 0 < count x (kids q)
    → 0 < count x (kids r)
    → q ≡ r
one_parent {procs} {kids} q r x v m n =
    let a = Parents-count procs q x (kids q) (v.children q).parents m in
    let b = Parents-count procs r x (kids r) (v.children r).parents n in ground (arith, a, b)

module _ {procs : ℕ → Proc} {kids : ℕ → List ℕ} (p par : ℕ) (v : IsFamily procs kids)
    (new : (q : ℕ) → count p (kids q) ≡ 0) (other : p ≢ par) where
  abbrev linked_procs : ℕ → Proc
  linked_procs = link_child procs p par

  not_new : (q x : ℕ) → 0 < count x (kids q) → (x == p) ≡ false
  not_new q x m =
      ne-== x p (λ e. let n = new q in let k = subst (λ z. 0 < count z (kids q)) e m in omega arith)

  head_not_new : points_to (procs par).cptr p ≡ false
  head_not_new = elim (Bool-cases (points_to (procs par).cptr p)) [
    | inl e ↦
        let m = head_listed procs (procs par).cptr (kids par) p (v.children par).elders e in
        let n = new par in absurd (omega arith)
    | inr e ↦ e
  ]

  optr_of_listed : (q x : ℕ) → 0 < count x (kids q) → (linked_procs x).optr ≡ (procs x).optr
  optr_of_listed q x m = link_child-optr procs p par x ∙ rw (not_new q x m) refl

  yptr_of_listed :
      (q x : ℕ)
      → 0 < count x (kids q)
      → points_to (procs par).cptr x ≡ false
      → (linked_procs x).yptr ≡ (procs x).yptr
  yptr_of_listed q x m h = link_child-yptr procs p par x ∙ rw (h, not_new q x m) refl

  older : Elders procs (procs par).cptr (kids par)
  older = (v.children par).elders

  Youngers-behind :
      (c : Option ℕ) (xs : List ℕ)
      → Elders procs c xs
      → (procs par).cptr ≡ c
      → Youngers procs none xs
      → ((x : ℕ) → count x xs ≤ 1)
      → ((x : ℕ) → 0 < count x xs → 0 < count x (kids par))
      → Youngers linked_procs (some p) xs
  Youngers-behind c [] e h y o w = tt
  Youngers-behind c (x ∷ xs) e h y o w = (
    link_child-yptr procs p par x
        ∙ (let hp = ap (λ o. points_to o x) (h ∙ e.0) in ground (arith, hp)),
    Youngers-same procs linked_procs (some x) xs y.1 (λ z m.
        let ox = o x in
        let ne : (z == x) ≡ false =
          ne-== z x (λ t. let k = subst (λ r. 0 < count r xs) t m in ground arith) in
        yptr_of_listed par z (w z (ground arith)) (ap (λ o. points_to o z) (h ∙ e.0) ∙ ne)),
  )

  link_child-parent : (x : ℕ) → (linked_procs x).parent ≡ (procs x).parent
  link_child-parent x = link_child_keeps procs p par (λ q. q.parent) x (λ q y o. refl) (λ q c. refl)

  children_of_parent : (procs p).parent ≡ some par → Children linked_procs par (p ∷ kids par)
  children_of_parent up =
      let w = v.children par in
      record {
        elders = (
          link_child-cptr procs p par par ∙ ground arith,
          Elders-same procs linked_procs (procs par).cptr _ (kids par) w.elders
              (link_child-optr procs p par p ∙ ground arith) (optr_of_listed par),
        );
        youngers = (
          link_child-yptr procs p par p ∙ rw head_not_new (ground arith),
          Youngers-behind (procs par).cptr (kids par) w.elders refl w.youngers w.once (λ x m. m),
        );
        parents = (
          link_child-parent p ∙ up,
          Parents-same procs linked_procs par (kids par) w.parents (λ x m. link_child-parent x),
        );
        once = λ x.
            let o = w.once x in
            let n = new par in
            elim (Bool-cases (p == x)) [
              | inl e ↦
                  let z = subst (λ r. count r (kids par) ≡ 0) ((==_iff p x).0 e) n in
                  ground (arith, z)
              | inr e ↦ ground (arith, e, o)
            ];
      }

  -- the head of the children of the parent is no child of another process
  head_of_other : (q x : ℕ) → q ≢ par → 0 < count x (kids q) → points_to (procs par).cptr x ≡ false
  head_of_other q x ne m = elim (Bool-cases (points_to (procs par).cptr x)) [
    | inl e ↦ absurd (
        ne (
          one_parent q par x v m
            (head_listed procs (procs par).cptr (kids par) x (v.children par).elders e)))
    | inr e ↦ e
  ]

  children_of_other : (q : ℕ) → q ≢ par → Children linked_procs q (kids q)
  children_of_other q ne =
      let w = v.children q in
      record {
        elders =
            Elders-same procs linked_procs (procs q).cptr _ (kids q) w.elders
              (link_child-cptr procs p par q ∙ rw (ne-== q par ne) refl) (optr_of_listed q);
        youngers =
            Youngers-same procs linked_procs none (kids q) w.youngers
              (λ x m. yptr_of_listed q x m (head_of_other q x ne m));
        parents = Parents-same procs linked_procs q (kids q) w.parents (λ x m. link_child-parent x);
        once = w.once;
      }

  -- In a tree of processes a new process with a parent becomes its youngest child; all other children
  -- are as before.
  pub link_child-IsFamily :
      (procs p).parent ≡ some par → IsFamily linked_procs (update kids par (p ∷ kids par))
  link_child-IsFamily up = record {
    children = λ q.
        update_cases (λ xs. Children linked_procs q xs) kids par (p ∷ kids par) q
          (λ e. subst (λ r. Children linked_procs r (p ∷ kids par)) (sym e) (children_of_parent up))
          (λ ne. children_of_other q ne);
    not_own = λ q.
        update_cases (λ xs. count q xs ≡ 0) kids par (p ∷ kids par) q
          (λ e.
            let n = v.not_own par in
            subst (λ r. count r (p ∷ kids par) ≡ 0) (sym e) (ground (arith, n, other)))
          (λ ne. v.not_own q);
  }
