-- ===== src/Process/Exit/Adopt.antt =====
-- kern/process/proc.c: the children of a process that ends become those of `initproc`.
use a_smart_mlfq_project_bas.Common.{
  ◌==◌, if◌then◌else◌, ne-==, count, ℕ, ◌≤◌, ◌<◌, ◌≡◌, refl, sym, ap, ◌∙◌, subst, ◌≢◌, false,
  Option, none, some, List, ◌∷◌, arith,
}
use a_smart_mlfq_project_bas.Common.Store.{
  update, update_cases, update_self, update_read, update_keeps,
}
use a_smart_mlfq_project_bas.Process.Family.{link_child, adopt_child}
use a_smart_mlfq_project_bas.Process.Family.Children.{
  Elders, Elders-same, Youngers-same, Parents-same, IsFamily,
}
use a_smart_mlfq_project_bas.Process.Family.Link.{
  points_to, link_child-optr, link_child-yptr, link_child-cptr, link_child_keeps,
  link_child-IsFamily,
}
use a_smart_mlfq_project_bas.Sched.Proc.{Proc}

-- Two stores agree on the fields of the tree.
pub record SameTree (procs procs' : ℕ → Proc) : Type 0 where
  pub cptrs : (a : ℕ) → (procs' a).cptr ≡ (procs a).cptr
  pub yptrs : (a : ℕ) → (procs' a).yptr ≡ (procs a).yptr
  pub optrs : (a : ℕ) → (procs' a).optr ≡ (procs a).optr
  pub parents : (a : ℕ) → (procs' a).parent ≡ (procs a).parent

pub tree-IsFamily :
    {procs procs' : ℕ → Proc} {kids : ℕ → List ℕ}
    → IsFamily procs kids
    → SameTree procs procs'
    → IsFamily procs' kids
tree-IsFamily {procs} {procs'} {kids} v k = record {
  children = λ r.
      let w = v.children r in
      record {
        elders =
            Elders-same procs procs' (procs r).cptr (procs' r).cptr (kids r) w.elders (k.cptrs r)
              (λ x m. k.optrs x);
        youngers = Youngers-same procs procs' none (kids r) w.youngers (λ x m. k.yptrs x);
        parents = Parents-same procs procs' r (kids r) w.parents (λ x m. k.parents x);
        once = w.once;
      };
  not_own = v.not_own;
}

-- the store in which a process has no children
abbrev pub childless : (ℕ → Proc) → ℕ → (ℕ → Proc)
childless procs cur = update procs cur (record (procs cur) { cptr = none })

-- `kids` gives the children of all but the current process, whose children `ps` are still linked by
-- `optr`: their `yptr` and their parent are those from before.
pub record IsOrphaned (procs : ℕ → Proc) (cur : ℕ) (kids : ℕ → List ℕ) (ps : List ℕ) : Type 0 where
  pub family : IsFamily (childless procs cur) kids
  pub left : Elders procs (procs cur).cptr ps
  pub once : (x : ℕ) → count x ps ≤ 1
  pub apart : (r x : ℕ) → 0 < count x ps → count x (kids r) ≡ 0

-- A process that is no child of any may be given a parent.
parent_set-IsFamily :
    {procs : ℕ → Proc} {kids : ℕ → List ℕ} (p : ℕ) (par : Option ℕ)
    → IsFamily procs kids
    → ((r : ℕ) → count p (kids r) ≡ 0)
    → IsFamily (update procs p (record (procs p) { parent = par })) kids
parent_set-IsFamily {procs} {kids} p par v new =
    let q = record (procs p) { parent = par } in
    record {
      children = λ r.
          let w = v.children r in
          record {
            elders =
                Elders-same procs (update procs p q) (procs r).cptr _ (kids r) w.elders
                  (update_keeps (λ z. z.cptr) procs p q r refl)
                  (λ x m. update_keeps (λ z. z.optr) procs p q x refl);
            youngers =
                Youngers-same procs (update procs p q) none (kids r) w.youngers
                  (λ x m. update_keeps (λ z. z.yptr) procs p q x refl);
            parents = Parents-same procs (update procs p q) r (kids r) w.parents (λ x m.
                update_read (λ z. z.parent) procs p q x
                ∙ rw
                    (ne-== x p (λ h.
                      let n = subst (λ z. 0 < count z (kids r)) h m in
                      let k = new r in omega arith))
                    refl);
            once = w.once;
          };
      not_own = v.not_own;
    }

module _ (procs : ℕ → Proc) (cur init p : ℕ) (other : cur ≢ init) where
  abbrev passed : ℕ → Proc
  passed = update procs cur (record (procs cur) { cptr = (procs p).optr })

  abbrev cleared : ℕ → Proc
  cleared = childless procs cur

  abbrev given : ℕ → Proc
  given = update cleared p (record (cleared p) { parent = some init })

  cptr_passed : (a : ℕ) → (passed a).cptr ≡ (if a == cur then (procs p).optr else (procs a).cptr)
  cptr_passed a = update_read (λ z. z.cptr) procs cur _ a

  cptr_given : (a : ℕ) → (given a).cptr ≡ (if a == cur then none else (procs a).cptr)
  cptr_given a =
      update_keeps (λ z. z.cptr) cleared p _ a refl ∙ update_read (λ z. z.cptr) procs cur _ a

  passed_same : (passed init).cptr ≡ (given init).cptr
  passed_same =
      let e = ne-== init cur (λ h. other (sym h)) in
      cptr_passed init
      ∙ ap (λ b. if b then (procs p).optr else (procs init).cptr) e
      ∙ sym (cptr_given init ∙ ap (λ b. if b then none else (procs init).cptr) e)

  yptr_same : (a : ℕ) → (passed a).yptr ≡ (given a).yptr
  yptr_same a =
      update_keeps (λ z. z.yptr) procs cur _ a refl
      ∙ sym (
          update_keeps (λ z. z.yptr) cleared p _ a refl
          ∙ update_keeps (λ z. z.yptr) procs cur _ a refl)

  optr_same : (a : ℕ) → (passed a).optr ≡ (given a).optr
  optr_same a =
      update_keeps (λ z. z.optr) procs cur _ a refl
      ∙ sym (
          update_keeps (λ z. z.optr) cleared p _ a refl
          ∙ update_keeps (λ z. z.optr) procs cur _ a refl)

  abbrev adopted : ℕ → Proc
  adopted = adopt_child procs cur init p

  abbrev moved : ℕ → Proc
  moved = link_child passed p init

  adopted_keeps :
      {A : Type 0} (g : Proc → A) (a : ℕ)
      → ((q : Proc) (o : Option ℕ) → g (record q { parent = o }) ≡ g q)
      → g (adopted a) ≡ g (moved a)
  unfolding adopt_child
  adopted_keeps g a h = update_keeps g moved p _ a (h (moved p) (some init))

  cptr_adopted :
      (a : ℕ)
      → (adopted a).cptr
        ≡ (if a == init then some p else (if a == cur then (procs p).optr else (procs a).cptr))
  cptr_adopted a =
      adopted_keeps (λ z. z.cptr) a (λ q o. refl)
      ∙ link_child-cptr passed p init a
      ∙ ap (λ c. if a == init then some p else c) (cptr_passed a)

  yptr_adopted : (a : ℕ) → (adopted a).yptr ≡ (link_child given p init a).yptr
  yptr_adopted a =
      adopted_keeps (λ z. z.yptr) a (λ q o. refl)
      ∙ link_child-yptr passed p init a
      ∙ ap (λ c. if points_to c a then some p else (if a == p then none else (passed a).yptr))
          passed_same
      ∙ ap (λ y. if points_to (given init).cptr a then some p else (if a == p then none else y))
          (yptr_same a)
      ∙ sym (link_child-yptr given p init a)

  optr_adopted : (a : ℕ) → (adopted a).optr ≡ (link_child given p init a).optr
  optr_adopted a =
      adopted_keeps (λ z. z.optr) a (λ q o. refl)
      ∙ link_child-optr passed p init a
      ∙ ap (λ c. if a == p then c else (passed a).optr) passed_same
      ∙ ap (λ o. if a == p then (given init).cptr else o) (optr_same a)
      ∙ sym (link_child-optr given p init a)

  parent_adopted : (a : ℕ) → (adopted a).parent ≡ (if a == p then some init else (procs a).parent)
  unfolding adopt_child
  parent_adopted a =
      update_read (λ z. z.parent) moved p _ a
      ∙ ap (λ o. if a == p then some init else o)
          (link_child_keeps passed p init (λ z. z.parent) a (λ q y o. refl) (λ q k. refl)
            ∙ update_keeps (λ z. z.parent) procs cur _ a refl)

  parent_linked :
      (a : ℕ)
      → (link_child given p init a).parent ≡ (if a == p then some init else (procs a).parent)
  parent_linked a =
      link_child_keeps given p init (λ z. z.parent) a (λ q y o. refl) (λ q k. refl)
      ∙ update_read (λ z. z.parent) cleared p _ a
      ∙ ap (λ o. if a == p then some init else o) (update_keeps (λ z. z.parent) procs cur _ a refl)

  no_kids_left :
      (o c : Option ℕ) (a : ℕ)
      → (if a == cur then none else (if a == init then some p else (if a == cur then o else c)))
        ≡ (if a == init then some p else (if a == cur then none else c))
  no_kids_left o c a = ground arith

  adopted-SameTree : SameTree (link_child given p init) (childless adopted cur)
  adopted-SameTree = record {
    cptrs = λ a.
        let l = update_read (λ z. z.cptr) adopted cur (record (adopted cur) { cptr = none }) a in
        let k = cptr_adopted a in
        let m = link_child-cptr given p init a in
        l
        ∙ ap (λ c. if a == cur then none else c) k
        ∙ no_kids_left (procs p).optr (procs a).cptr a
        ∙ sym (m ∙ ap (λ c. if a == init then some p else c) (cptr_given a));
    yptrs = λ a. update_keeps (λ z. z.yptr) adopted cur _ a refl ∙ yptr_adopted a;
    optrs = λ a. update_keeps (λ z. z.optr) adopted cur _ a refl ∙ optr_adopted a;
    parents = λ a.
        update_keeps (λ z. z.parent) adopted cur _ a refl
        ∙ parent_adopted a
        ∙ sym (parent_linked a);
  }

module _ {procs : ℕ → Proc} {kids : ℕ → List ℕ} {cur p : ℕ} {ps : List ℕ} (init : ℕ)
    (other : cur ≢ init) (not_init : p ≢ init) (o : IsOrphaned procs cur kids (p ∷ ps)) where
  p_new : (r : ℕ) → count p (kids r) ≡ 0
  p_new r = o.apart r p (ground arith)

  later_ne : (x : ℕ) → 0 < count x ps → (x == p) ≡ false
  later_ne x m =
      ne-== x p
        (λ e. let k = o.once p in let n = subst (λ z. 0 < count z ps) e m in ground (arith, k, n))

  later_optr : (x : ℕ) → 0 < count x ps → (adopt_child procs cur init p x).optr ≡ (procs x).optr
  later_optr x m =
      let e = later_ne x m in
      optr_adopted procs cur init p other x
      ∙ link_child-optr (given procs cur init p other) p init x
      ∙ ap
          (λ b.
            if b
            then (given procs cur init p other init).cptr
            else (given procs cur init p other x).optr)
          e
      ∙ sym (optr_same procs cur init p other x)
      ∙ update_keeps (λ z. z.optr) procs cur _ x refl

  own_next : (o c : Option ℕ) → (if cur == cur then o else c) ≡ o
  own_next o c = ground arith

  -- The adoption of the first of the children leaves the others to be adopted.
  pub adopt_child-IsOrphaned :
      IsOrphaned (adopt_child procs cur init p) cur (update kids init (p ∷ kids init)) ps
  adopt_child-IsOrphaned = record {
    family =
        tree-IsFamily
          (link_child-IsFamily p init (parent_set-IsFamily p (some init) o.family p_new) p_new
            not_init
            (ap (λ z. z.parent)
              (update_self (childless procs cur) p
                (record (childless procs cur p) { parent = some init }))))
          (adopted-SameTree procs cur init p other);
    left =
        Elders-same procs (adopt_child procs cur init p) (procs p).optr _ ps o.left.1
          (cptr_adopted procs cur init p other cur
            ∙ ap
                (λ b.
                  if b then some p else (if cur == cur then (procs p).optr else (procs cur).cptr))
                (ne-== cur init other)
            ∙ own_next (procs p).optr (procs cur).cptr)
          later_optr;
    once = λ x. let k = o.once x in ground (arith, k);
    apart = λ r x m.
        update_cases (λ xs. count x xs ≡ 0) kids init (p ∷ kids init) r
          (λ e.
            let k = o.apart init x (ground (arith, m)) in
            let n = later_ne x m in ground (arith, k, n))
          (λ ne. o.apart r x (ground (arith, m)));
  }
