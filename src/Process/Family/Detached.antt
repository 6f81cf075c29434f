-- ===== src/Process/Family/Detached.antt =====
-- kern/process/proc.c: the list of children without one of them.
use a_smart_mlfq_project_bas.Common.{
  ◌==◌, if◌then◌else◌, ne-==, Bool-cases, count, count-append, ℕ, ◌≤◌, ◌<◌, ◌≡◌, refl, sym, ap, ◌∙◌,
  subst, inl, inr, Bool, true, false, Option, none, some, List, [], ◌∷◌, ◌++◌, arith,
}
use a_smart_mlfq_project_bas.Common.Store.{update_read, update_keeps}
use a_smart_mlfq_project_bas.Process.Family.{set_optr}
use a_smart_mlfq_project_bas.Process.Family.Children.{
  Elders, Youngers, Parents, Elders-same, Youngers-same,
}
use a_smart_mlfq_project_bas.Process.Family.Link.{points_to, head_listed}
use a_smart_mlfq_project_bas.Sched.Proc.{Proc}

-- the last of a list, or what stands before it
abbrev pub last_or : Option ℕ → List ℕ → Option ℕ
last_or y [] = y
last_or y (x ∷ xs) = last_or (some x) xs

pub last_or-count :
    (z x : ℕ) (xs : List ℕ) → points_to (last_or (some x) xs) z ≡ true → 0 < count z (x ∷ xs)
last_or-count z x [] h = ground (arith, h)
last_or-count z x (y ∷ xs) h = let k = last_or-count z y xs h in ground arith

pub younger_of :
    (procs : ℕ → Proc) (y : Option ℕ) (xs : List ℕ) (p : ℕ) (ys : List ℕ)
    → Youngers procs y (xs ++ p ∷ ys)
    → (procs p).yptr ≡ last_or y xs
younger_of procs y [] p ys v = v.0
younger_of procs y (x ∷ xs) p ys v = younger_of procs (some x) xs p ys v.1

-- what stands behind a list that leads to p
pub Elders-behind :
    (procs : ℕ → Proc) (c : Option ℕ) (xs : List ℕ) (p : ℕ) (ys : List ℕ)
    → Elders procs c (xs ++ p ∷ ys)
    → Elders procs (procs p).optr ys
Elders-behind procs c [] p ys v = v.1
Elders-behind procs c (x ∷ xs) p ys v = Elders-behind procs (procs x).optr xs p ys v.1

pub Parents-without :
    (procs : ℕ → Proc) (par : ℕ) (xs : List ℕ) (p : ℕ) (ys : List ℕ)
    → Parents procs par (xs ++ p ∷ ys)
    → Parents procs par (xs ++ ys)
Parents-without procs par [] p ys v = v.1
Parents-without procs par (x ∷ xs) p ys v = (v.0, Parents-without procs par xs p ys v.1)

-- what stands first once p is gone
abbrev pub without_head : List ℕ → Option ℕ → Option ℕ → Option ℕ
without_head [] c o = o
without_head (x ∷ xs) c o = c

module _ (procs procs' : ℕ → Proc) (p : ℕ)
    (optrs : (x : ℕ)
      → (procs' x).optr ≡ (if points_to (procs p).yptr x then (procs p).optr else (procs x).optr))
    (yptrs : (x : ℕ)
      → (procs' x).yptr
        ≡ (if points_to (procs p).optr x then (procs p).yptr else (procs x).yptr)) where
  pub Elders-after :
      (y c : Option ℕ) (xs ys : List ℕ)
      → Elders procs c (xs ++ p ∷ ys)
      → Youngers procs y (xs ++ p ∷ ys)
      → ((x : ℕ) → count x (xs ++ p ∷ ys) ≤ 1)
      → ((x : ℕ) → 0 < count x ys → points_to (procs p).yptr x ≡ false)
      → Elders procs' (without_head xs c (procs p).optr) (xs ++ ys)
  Elders-after y c [] ys e v o f =
      Elders-same procs procs' (procs p).optr (procs p).optr ys e.1 refl
        (λ x m. optrs x ∙ rw (f x m) refl)
  Elders-after y c (x ∷ []) ys e v o f = (
    e.0,
    Elders-same procs procs' (procs p).optr (procs' x).optr ys e.1.1
        (let h = ap (λ t. points_to t x) v.1.0 in optrs x ∙ ground (arith, h))
        (λ z m. optrs z ∙ rw (f z m) refl),
  )
  Elders-after y c (x ∷ z ∷ xs) ys e v o f =
      let far : points_to (procs p).yptr x ≡ false =
        elim (Bool-cases (points_to (procs p).yptr x)) [
          | inl h ↦
              let up = younger_of procs (some z) xs p ys v.1.1 in
              let k = last_or-count x z xs (ap (λ t. points_to t x) (sym up) ∙ h) in
              let ox = o x in let split = count-append x xs (p ∷ ys) in absurd (ground arith)
          | inr h ↦ h
        ] in
      (
        e.0,
        subst (λ t. Elders procs' t (z ∷ (xs ++ ys))) (sym (optrs x ∙ rw far refl))
            (Elders-after (some x) (procs x).optr (z ∷ xs) ys e.1 v.1
              (λ t. let ot = o t in ground arith) f),
      )

  pub Youngers-after :
      (y : Option ℕ) (xs ys : List ℕ)
      → Elders procs (procs p).optr ys
      → Youngers procs y (xs ++ p ∷ ys)
      → ((x : ℕ) → count x (xs ++ p ∷ ys) ≤ 1)
      → Youngers procs' y (xs ++ ys)
  Youngers-after y [] [] e v o = tt
  Youngers-after y [] (z ∷ ys) e v o = (
    (let h = ap (λ t. points_to t z) e.0 in let k = v.0 in yptrs z ∙ ground (arith, h, k)),
    Youngers-same procs procs' (some z) ys v.1.1 (λ x m.
        let oz = o z in
        let ne : (x == z) ≡ false =
          ne-== x z (λ t. let k = subst (λ r. 0 < count r ys) t m in ground arith) in
        yptrs x ∙ rw (ap (λ t. points_to t x) e.0 ∙ ne) refl),
  )
  Youngers-after y (x ∷ xs) ys e v o =
      let far : points_to (procs p).optr x ≡ false =
        elim (Bool-cases (points_to (procs p).optr x)) [
          | inl h ↦
              let k = head_listed procs (procs p).optr ys x e h in
              let ox = o x in let split = count-append x xs (p ∷ ys) in absurd (ground arith)
          | inr h ↦ h
        ] in
      (
        yptrs x ∙ rw far v.0,
        Youngers-after (some x) xs ys e v.1 (λ t. let ot = o t in ground arith),
      )

pub last_or-some : (x : ℕ) (xs : List ℕ) → (l : ℕ) × (last_or (some x) xs ≡ some l)
last_or-some x [] = (x, refl)
last_or-some x (y ∷ xs) = last_or-some y xs

-- the youngest child of `par`, seen from `x`, once one whose younger sibling is `y` is gone
abbrev pub next_cptr : Option ℕ → Option ℕ → Bool → Option ℕ → Option ℕ
next_cptr none o b c = if b then o else c
next_cptr (some y) o b c = c

pub last_none-count : (x : ℕ) (xs : List ℕ) → points_to (last_or none xs) x ≡ true → 0 < count x xs
last_none-count x [] h = absurd (ground (arith, h))
last_none-count x (y ∷ xs) h = last_or-count x y xs h

pub next_cptr-last :
    (o c : Option ℕ) (xs : List ℕ) → next_cptr (last_or none xs) o true c ≡ without_head xs c o
next_cptr-last o c [] = refl
next_cptr-last o c (x ∷ xs) = let (l, e) = last_or-some x xs in rw e refl

pub next_cptr_same : (y o c : Option ℕ) → next_cptr y o false c ≡ c
next_cptr_same none o c = refl
next_cptr_same (some y) o c = refl

module _ (procs : ℕ → Proc) (par : ℕ) (o : Option ℕ) where
  pub set_optr-optr :
      (y : Option ℕ) (x : ℕ)
      → (set_optr procs y par o x).optr ≡ (if points_to y x then o else (procs x).optr)
  unfolding set_optr
  set_optr-optr none x = update_keeps (λ q. q.optr) procs par _ x refl
  set_optr-optr (some y) x = update_read (λ q. q.optr) procs y _ x

  pub set_optr-cptr :
      (y : Option ℕ) (x : ℕ)
      → (set_optr procs y par o x).cptr ≡ next_cptr y o (x == par) (procs x).cptr
  unfolding set_optr
  set_optr-cptr none x = update_read (λ q. q.cptr) procs par _ x
  set_optr-cptr (some y) x = update_keeps (λ q. q.cptr) procs y _ x refl

  pub set_optr_keeps :
      {A : Type 0} (g : Proc → A) (y : Option ℕ) (x : ℕ)
      → ((q : Proc) → g (record q { optr = o }) ≡ g q)
      → ((q : Proc) → g (record q { cptr = o }) ≡ g q)
      → g (set_optr procs y par o x) ≡ g (procs x)
  unfolding set_optr
  set_optr_keeps g none x h k = update_keeps g procs par _ x (k _)
  set_optr_keeps g (some y) x h k = update_keeps g procs y _ x (h _)
