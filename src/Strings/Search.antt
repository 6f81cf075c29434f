-- ===== src/Strings/Search.antt =====
-- libs/string.c: strchr and strfind.
use a_smart_mlfq_project_bas.Common.{
  ltb, ◌==◌, if◌then◌else◌, Bool-cases, length, drop, ℕ, suc, ◌≡◌, refl, inl, inr, none, some, List,
  [], ◌∷◌, ◌++◌, arith,
}
use a_smart_mlfq_project_bas.Strings.{strchr, strfind}
use a_smart_mlfq_project_bas.Strings.Length.{NoNul}

-- the index of the first byte with the value c, and the length where there is none
abbrev pub find_index : ℕ → List ℕ → ℕ
find_index c [] = 0
find_index c (b ∷ t) = if b == c then 0 else suc (find_index c t)

-- On a string with its terminator strfind returns the string from the first occurrence of c on, and
-- from the terminator on where c does not occur.
pub strfind_lem :
    (t rest : List ℕ) (c : ℕ)
    → NoNul t
    → strfind (t ++ 0 ∷ rest) c ≡ some (drop (find_index c t) t ++ 0 ∷ rest)
unfolding strfind
strfind_lem [] rest c h = refl
strfind_lem (b ∷ t) rest c h = ground (arith, strfind_lem t rest c h.1)

-- On a string with its terminator strchr returns the string from the first occurrence of c on, and
-- NULL exactly where c does not occur before the terminator.
pub strchr_lem :
    (t rest : List ℕ) (c : ℕ)
    → NoNul t
    → strchr (t ++ 0 ∷ rest) c
      ≡ some (
          if ltb (find_index c t) (length t)
          then some (drop (find_index c t) t ++ 0 ∷ rest)
          else none)
unfolding strchr
strchr_lem [] rest c h = refl
strchr_lem (b ∷ t) rest c h = elim (Bool-cases (b == c)) [
  | inl e ↦ ground (arith, e, h.0)
  | inr e ↦ elim (Bool-cases (ltb (find_index c t) (length t))) [
    | inl l ↦ ground (arith, strchr_lem t rest c h.1, e, l, h.0)
    | inr l ↦ ground (arith, strchr_lem t rest c h.1, e, l, h.0)
  ]
]
