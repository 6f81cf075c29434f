-- ===== src/Ring/Linked.antt =====
-- libs/list.h: what it means that entries are linked.
use a_smart_mlfq_project_bas.Common.{count, ℕ, ◌≤◌, ◌<◌, ◌≡◌, ◌∙◌, List, [], ◌∷◌, ◌++◌, arith}
use a_smart_mlfq_project_bas.Ring.{Entries}

-- From the entry a on, the pointers lead through the list to the entry b, and back.
abbrev pub Linked : Entries → ℕ → List ℕ → ℕ → Type 0
Linked s a [] b = (s.next a ≡ b) × (s.prev b ≡ a)
Linked s a (x ∷ xs) b = (s.next a ≡ x) × (s.prev x ≡ a) × Linked s x xs b

-- The head h is linked to the entries of a list, which are different from each other and from it.
pub record IsRing (s : Entries) (h : ℕ) (xs : List ℕ) : Type 0 where
  pub linked : Linked s h xs h
  pub once : (x : ℕ) → count x (h ∷ xs) ≤ 1

-- what a segment reads of the store
pub frame :
    (s t : Entries) (a : ℕ) (xs : List ℕ) (b : ℕ)
    → Linked s a xs b
    → ((x : ℕ) → 0 < count x (a ∷ xs) → t.next x ≡ s.next x)
    → ((x : ℕ) → 0 < count x (b ∷ xs) → t.prev x ≡ s.prev x)
    → Linked t a xs b
frame s t a [] b v f g = (f a (ground arith) ∙ v.0, g b (ground arith) ∙ v.1)
frame s t a (x ∷ xs) b v f g = (
  f a (ground arith) ∙ v.0,
  g x (ground arith) ∙ v.1,
  frame s t x xs b v.2 (λ y m. f y (ground arith)) (λ y m. g y (ground arith)),
)

-- The entry before the end of a segment is its last one, or its begin.
pub before_end :
    (s : Entries) (a : ℕ) (xs : List ℕ) (b : ℕ) → Linked s a xs b → 0 < count (s.prev b) (a ∷ xs)
before_end s a [] b v = let e = v.1 in ground arith
before_end s a (x ∷ xs) b v = let i = before_end s x xs b v.2 in ground arith

-- The entry after the begin of a segment is its first one, or its end.
pub after_begin :
    (s : Entries) (a : ℕ) (xs : List ℕ) (b : ℕ)
    → Linked s a xs b
    → 0 < count (s.next a) (xs ++ (b ∷ []))
after_begin s a [] b v = let e = v.0 in ground arith
after_begin s a (x ∷ xs) b v = let e = v.0 in ground arith

-- A segment through an entry is two segments.
pub cut :
    (s : Entries) (a : ℕ) (xs : List ℕ) (e : ℕ) (ys : List ℕ) (b : ℕ)
    → Linked s a (xs ++ e ∷ ys) b
    → Linked s a xs e × Linked s e ys b
cut s a [] e ys b v = ((v.0, v.1), v.2)
cut s a (x ∷ xs) e ys b v = let r = cut s x xs e ys b v.2 in ((v.0, v.1, r.0), r.1)

pub join :
    (s : Entries) (a : ℕ) (xs : List ℕ) (e : ℕ) (ys : List ℕ) (b : ℕ)
    → Linked s a xs e
    → Linked s e ys b
    → Linked s a (xs ++ e ∷ ys) b
join s a [] e ys b v w = (v.0, v.1, w)
join s a (x ∷ xs) e ys b v w = (v.0, v.1, join s x xs e ys b v.2 w)
