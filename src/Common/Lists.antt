-- ===== src/Common/Lists.antt =====
-- Lists measured and indexed by native numbers, and occurrences counted, for lists of addresses.
use Prim.Native.Nat.{ℕ, zero, suc, ◌+◌, ◌-◌, ◌≤◌, min}
use Prim.Native.Nat.add
use mathlib.Core.Path.{◌≡◌, refl, sym}
use mathlib.Core.Logic.{◌≢◌}
use mathlib.Core.List.{List, [], ◌∷◌, ◌++◌}
use mathlib.Core.Option.{Option, none, some}
use native.Mathlib.Omega.{arith}
use a_smart_mlfq_project_bas.Common.Tests.{◌==◌, if◌then◌else◌}

module _ {ℓ} {A : Type ℓ} where
  abbrev pub length : List A → ℕ
  length [] = 0
  length (x ∷ xs) = suc (length xs)

  abbrev pub get_elem? : List A → ℕ → Option A
  get_elem? [] i = none
  get_elem? (x ∷ xs) zero = some x
  get_elem? (x ∷ xs) (suc i) = get_elem? xs i

  abbrev pub get_or : List A → ℕ → A → A
  get_or [] i d = d
  get_or (x ∷ xs) zero d = x
  get_or (x ∷ xs) (suc i) d = get_or xs i d

  abbrev pub take : ℕ → List A → List A
  take zero xs = []
  take (suc n) [] = []
  take (suc n) (x ∷ xs) = x ∷ take n xs

  abbrev pub drop : ℕ → List A → List A
  drop zero xs = xs
  drop (suc n) [] = []
  drop (suc n) (x ∷ xs) = drop n xs

  pub length-append : (xs ys : List A) → length (xs ++ ys) ≡ length xs + length ys
  length-append [] ys = omega arith
  length-append (x ∷ xs) ys = omega (arith, length-append xs ys)

-- how often an address stands in a list
abbrev pub count : (addr : ℕ) (list : List ℕ) → ℕ
count p [] = 0
count p (q ∷ qs) = if q == p then suc (count p qs) else count p qs

-- the list without the first occurrence of an address
abbrev pub erase : List ℕ → ℕ → List ℕ
erase [] a = []
erase (x ∷ xs) a = if x == a then xs else x ∷ erase xs a

pub count_cons :
    (p q : ℕ) (qs : List ℕ) → count p (q ∷ qs) ≡ (if q == p then suc (count p qs) else count p qs)
count_cons p q qs = refl

pub count-append : (p : ℕ) (qs rs : List ℕ) → count p (qs ++ rs) ≡ count p qs + count p rs
count-append p [] rs = sym (add.zero (count p rs))
count-append p (q ∷ qs) rs = ground (arith, count-append p qs rs)

pub erase-absent : (a : ℕ) (xs : List ℕ) → count a xs ≡ 0 → erase xs a ≡ xs
erase-absent a [] h = refl
erase-absent a (x ∷ xs) h = ground (arith, erase-absent a xs)

pub count-erase_le : (a b : ℕ) (xs : List ℕ) → count a (erase xs b) ≤ count a xs
count-erase_le a b [] = omega arith
count-erase_le a b (x ∷ xs) = ground (arith, count-erase_le a b xs)

pub count-erase_self : (a : ℕ) (xs : List ℕ) → count a (erase xs a) ≡ count a xs - 1
count-erase_self a [] = omega arith
count-erase_self a (x ∷ xs) = ground (arith, count-erase_self a xs)

pub count-erase_of_ne : (a b : ℕ) (xs : List ℕ) → a ≢ b → count a (erase xs b) ≡ count a xs
count-erase_of_ne a b [] h = refl
count-erase_of_ne a b (x ∷ xs) h = ground (arith, count-erase_of_ne a b xs h)

pub length-erase_add : (a : ℕ) (xs : List ℕ) → length (erase xs a) + min 1 (count a xs) ≡ length xs
length-erase_add a [] = omega arith
length-erase_add a (x ∷ xs) = ground (arith, length-erase_add a xs)
