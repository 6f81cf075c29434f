-- ===== src/Process/Family/Children.antt =====
-- kern/process/proc.c: the children of a process as a list, the youngest first.
use a_smart_mlfq_project_bas.Common.{
  ◌==◌, ==_iff, Bool-cases, count, ℕ, ◌≤◌, ◌<◌, ◌≡◌, ◌∙◌, subst, inl, inr, Option, none, some, List,
  [], ◌∷◌, arith,
}
use a_smart_mlfq_project_bas.Sched.Proc.{Proc}

-- `optr` leads from the first one through the list to NULL
abbrev pub Elders : (ℕ → Proc) → Option ℕ → List ℕ → Type 0
Elders procs c [] = c ≡ none
Elders procs c (x ∷ xs) = (c ≡ some x) × Elders procs (procs x).optr xs

-- `yptr` leads from each one to the one before it
abbrev pub Youngers : (ℕ → Proc) → Option ℕ → List ℕ → Type 0
Youngers procs y [] = Unit {0}
Youngers procs y (x ∷ xs) = ((procs x).yptr ≡ y) × Youngers procs (some x) xs

abbrev pub Parents : (ℕ → Proc) → ℕ → List ℕ → Type 0
Parents procs par [] = Unit {0}
Parents procs par (x ∷ xs) = ((procs x).parent ≡ some par) × Parents procs par xs

pub record Children (procs : ℕ → Proc) (par : ℕ) (xs : List ℕ) : Type 0 where
  pub elders : Elders procs (procs par).cptr xs
  pub youngers : Youngers procs none xs
  pub parents : Parents procs par xs
  pub once : (x : ℕ) → count x xs ≤ 1

-- What the predicates read.
pub Elders-same :
    (procs procs' : ℕ → Proc) (c c' : Option ℕ) (xs : List ℕ)
    → Elders procs c xs
    → c' ≡ c
    → ((x : ℕ) → 0 < count x xs → (procs' x).optr ≡ (procs x).optr)
    → Elders procs' c' xs
Elders-same procs procs' c c' [] v e f = e ∙ v
Elders-same procs procs' c c' (x ∷ xs) v e f = (
  e ∙ v.0,
  Elders-same procs procs' (procs x).optr (procs' x).optr xs v.1 (f x (ground arith))
      (λ z m. f z (ground arith)),
)

pub Youngers-same :
    (procs procs' : ℕ → Proc) (y : Option ℕ) (xs : List ℕ)
    → Youngers procs y xs
    → ((x : ℕ) → 0 < count x xs → (procs' x).yptr ≡ (procs x).yptr)
    → Youngers procs' y xs
Youngers-same procs procs' y [] v f = tt
Youngers-same procs procs' y (x ∷ xs) v f = (
  f x (ground arith) ∙ v.0,
  Youngers-same procs procs' (some x) xs v.1 (λ z m. f z (ground arith)),
)

pub Parents-same :
    (procs procs' : ℕ → Proc) (par : ℕ) (xs : List ℕ)
    → Parents procs par xs
    → ((x : ℕ) → 0 < count x xs → (procs' x).parent ≡ (procs x).parent)
    → Parents procs' par xs
Parents-same procs procs' par [] v f = tt
Parents-same procs procs' par (x ∷ xs) v f =
    (f x (ground arith) ∙ v.0, Parents-same procs procs' par xs v.1 (λ z m. f z (ground arith)))

-- A listed child has the parent that the list is of.
pub Parents-count :
    (procs : ℕ → Proc) (par x : ℕ) (xs : List ℕ)
    → Parents procs par xs
    → 0 < count x xs
    → (procs x).parent ≡ some par
Parents-count procs par x [] v m = absurd (omega arith)
Parents-count procs par x (y ∷ ys) v m = elim (Bool-cases (y == x)) [
  | inl e ↦ subst (λ z. (procs z).parent ≡ some par) ((==_iff y x).0 e) v.0
  | inr e ↦ Parents-count procs par x ys v.1 (ground arith)
]

-- The tree: `kids` gives the children of each process, none of which is its own parent.
pub record IsFamily (procs : ℕ → Proc) (kids : ℕ → List ℕ) : Type 0 where
  pub children : (q : ℕ) → Children procs q (kids q)
  pub not_own : (q : ℕ) → count q (kids q) ≡ 0
