-- ===== src/Process/Life/Zombie.antt =====
-- kern/process/proc.c: the walk of `do_wait` along the children.
use a_smart_mlfq_project_bas.Common.{
  if◌then◌else◌, Bool-cases, length, ℕ, zero, suc, ◌≤◌, ◌≡◌, refl, ap, subst, inl, inr, Bool, true,
  false, Option, none, some, List, [], ◌∷◌, ◌++◌, arith,
}
use a_smart_mlfq_project_bas.Process.Family.Children.{Elders}
use a_smart_mlfq_project_bas.Process.Life.{first_zombie}
use a_smart_mlfq_project_bas.Sched.Framework.{is_zombie}
use a_smart_mlfq_project_bas.Sched.Proc.{Proc}

-- the first process of a list that has ended
abbrev pub first_dead : (ℕ → Proc) → List ℕ → Option ℕ
first_dead procs [] = none
first_dead procs (x ∷ xs) = if is_zombie (procs x).state then some x else first_dead procs xs

abbrev pub is_cons : List ℕ → Bool
is_cons [] = false
is_cons (x ∷ xs) = true

-- With as much fuel as there are children, the walk says whether there is one, and which is the first
-- one that has ended.
pub first_zombie_lem :
    (procs : ℕ → Proc) (fuel : ℕ) (c : Option ℕ) (xs : List ℕ)
    → Elders procs c xs
    → length xs ≤ fuel
    → first_zombie procs fuel c ≡ some (is_cons xs, first_dead procs xs)
unfolding first_zombie
first_zombie_lem procs fuel c [] e h = rw e refl
first_zombie_lem procs zero c (x ∷ xs) e h = absurd (omega arith)
first_zombie_lem procs (suc fuel) c (x ∷ xs) e h =
    let r = first_zombie_lem procs fuel (procs x).optr xs e.1 (omega arith) in
    rw e.0 (ground (arith, r))

-- Where one has ended, it splits the list.
pub first_dead_split :
    (procs : ℕ → Proc) (p : ℕ) (xs : List ℕ)
    → first_dead procs xs ≡ some p
    → (ys zs : List ℕ) × (xs ≡ ys ++ p ∷ zs)
      × (is_zombie (procs p).state ≡ true)
      × (first_dead procs ys ≡ none)
first_dead_split procs p [] h = absurd (cc)
first_dead_split procs p (x ∷ xs) h = elim (Bool-cases (is_zombie (procs x).state)) [
  | inl e ↦
      let q : x ≡ p = ground (arith, e, h) in
      ([], xs, ap (λ t. t ∷ xs) q, subst (λ t. is_zombie (procs t).state ≡ true) q e, refl)
  | inr e ↦
      let (ys, zs, q, d, n) = first_dead_split procs p xs (ground (arith, e, h)) in
      (x ∷ ys, zs, ap (λ t. x ∷ t) q, d, rw e n)
]
