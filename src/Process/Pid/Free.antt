-- ===== src/Process/Pid/Free.antt =====
-- Fewer processes than pids leave a free pid.
use a_smart_mlfq_project_bas.Common.{
  ◌==◌, Bool-cases, length, count, erase, count-erase_of_ne, length-erase_add, ℕ, zero, suc, ◌≤◌,
  ◌<◌, ◌≡◌, ◌⊎◌, inl, inr, List, arith,
}

-- Where all pids from 1 to n are in use, at least n processes are listed.
all_used : (n : ℕ) (pids : List ℕ) → ((q : ℕ) → 0 < q → q ≤ n → 0 < count q pids) → n ≤ length pids
all_used zero pids h = omega arith
all_used (suc n) pids h =
    let rest = all_used n (erase pids (suc n)) (λ q l m.
      let e = count-erase_of_ne q (suc n) pids (omega arith) in
      let u = h q l (omega arith) in omega arith) in
    let u = h (suc n) (omega arith) (omega arith) in
    let e = length-erase_add (suc n) pids in omega arith

-- a search for a free pid from n downwards
free_below :
    (n : ℕ) (pids : List ℕ)
    → ((f : ℕ) × (0 < f) × (f ≤ n) × (count f pids ≡ 0))
      ⊎ ((q : ℕ) → 0 < q → q ≤ n → 0 < count q pids)
free_below zero pids = inr (λ q l m. absurd (omega arith))
free_below (suc n) pids = elim (free_below n pids) [
  | inl (f, l, m, z) ↦ inl (f, l, omega arith, z)
  | inr h ↦ elim (Bool-cases (count (suc n) pids == 0)) [
    | inl e ↦ inl (suc n, omega arith, omega arith, ground arith)
    | inr e ↦ inr (λ q l m. elim (Bool-cases (q == suc n)) [
      | inl d ↦ let d' : q ≡ suc n = ground arith in rw d' (ground arith)
      | inr d ↦ h q l (ground arith)
    ])
  ]
]

pub free_pid :
    (n : ℕ) (pids : List ℕ) → length pids < n → (f : ℕ) × (0 < f) × (f ≤ n) × (count f pids ≡ 0)
free_pid n pids h = elim (free_below n pids) [
  | inl r ↦ r
  | inr u ↦ let l = all_used n pids u in absurd (omega arith)
]
