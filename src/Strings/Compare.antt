-- ===== src/Strings/Compare.antt =====
-- libs/string.c: strncmp and memcmp as three-way comparisons.
use Prim.Native.Nat.{Ordering, compare}
use a_smart_mlfq_project_bas.Common.{
  length, take, ℕ, zero, suc, ◌≤◌, ◌≡◌, refl, Option, none, some, List, [], ◌∷◌, ◌++◌, arith,
}
use a_smart_mlfq_project_bas.Common.Int.{ℤ, pos, negsuc}
use a_smart_mlfq_project_bas.Strings.{strncmp, memcmp}
use a_smart_mlfq_project_bas.Strings.Length.{NoNul}

-- the sign that a comparison reports
unfoldable pub sign : ℤ → Ordering
sign (pos zero) = Ordering.eq
sign (pos (suc n)) = Ordering.gt
sign (negsuc n) = Ordering.lt

-- the order of dictionaries
unfoldable pub dict_order : List ℕ → List ℕ → Ordering
dict_order [] [] = Ordering.eq
dict_order [] (b ∷ bs) = Ordering.lt
dict_order (a ∷ s) [] = Ordering.gt
dict_order (a ∷ s) (b ∷ t) = elim (compare a b) [
  | Ordering.lt ↦ Ordering.lt
  | Ordering.gt ↦ Ordering.gt
  | Ordering.eq ↦ dict_order s t
]

-- what a comparison of at most n bytes reports
abbrev pub Reports : Option ℤ → Ordering → Type 0
Reports none o = ⊥
Reports (some z) o = sign z ≡ o

-- memcmp compares the first n bytes of two areas in the order of dictionaries.
pub memcmp_lem :
    (v w : List ℕ) (n : ℕ)
    → n ≤ length v
    → n ≤ length w
    → Reports (memcmp v w n) (dict_order (take n v) (take n w))
unfolding memcmp sign dict_order
memcmp_lem v w zero hv hw = refl
memcmp_lem [] w (suc n) hv hw = absurd (omega arith)
memcmp_lem (a ∷ v) [] (suc n) hv hw = absurd (omega arith)
memcmp_lem (a ∷ v) (b ∷ w) (suc n) hv hw =
    ground (arith, memcmp_lem v w n (omega arith) (omega arith))

-- strncmp compares the first n bytes of two strings in the order of dictionaries.
pub strncmp_lem :
    (s t p q : List ℕ) (n : ℕ)
    → NoNul s
    → NoNul t
    → Reports (strncmp (s ++ 0 ∷ p) (t ++ 0 ∷ q) n) (dict_order (take n s) (take n t))
unfolding strncmp sign dict_order
strncmp_lem s t p q zero hs ht = refl
strncmp_lem [] [] p q (suc n) hs ht = refl
strncmp_lem [] (b ∷ t) p q (suc n) hs ht = ground arith
strncmp_lem (a ∷ s) [] p q (suc n) hs ht = ground arith
strncmp_lem (a ∷ s) (b ∷ t) p q (suc n) hs ht = ground (arith, strncmp_lem s t p q n hs.1 ht.1)
