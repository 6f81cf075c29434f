-- ===== src/Process/Pid/Search.antt =====
-- kern/process/proc.c: the walk of `get_pid` along the list of processes, and its repetition.
use a_smart_mlfq_project_bas.Common.{
  ltb, leb, ◌==◌, if◌then◌else◌, Bool-cases, count, count_cons, ℕ, zero, suc, ◌+◌, ◌-◌, ◌≤◌, ◌<◌,
  ◌≡◌, refl, sym, ◌∙◌, subst, ◌≢◌, ◌⊎◌, inl, inr, true, false, ◌&&◌, some, List, [], ◌∷◌, arith,
}
use a_smart_mlfq_project_bas.Process.Pid.{max_pid, PidState, Walk, settled, again, walk, repeat}

abbrev pub NoneBetween : List ℕ → ℕ → ℕ → Type 0
NoneBetween pids low high = (q : ℕ) → low < q → q < high → count q pids ≡ 0

-- What a walk from `last` and `safe` finds: a free pid with none in use from it to the new bound;
-- or a pid such that all from `last` to it are in use.
abbrev pub Walked : List ℕ → ℕ → ℕ → Walk → Type 0
Walked pids last safe (settled l s) =
    (last ≤ l) × (l < s) × (s ≤ safe) × (count l pids ≡ 0) × NoneBetween pids l s
Walked pids last safe (again l) =
    (last < l) × (l ≤ safe) × ((f : ℕ) → count f pids ≡ 0 → last ≤ f → l ≤ f)

step_used :
    (pid : ℕ) (pids : List ℕ) (last safe : ℕ) (w : Walk)
    → pid ≡ last
    → Walked pids (suc last) safe w
    → Walked (pid ∷ pids) last safe w
step_used pid pids last safe (settled l s) e (a, b, c, d, n) = (
  omega arith,
  b,
  c,
  ground (arith, count_cons l pid pids),
  λ q m k. let r = n q m k in let t = count_cons q pid pids in ground arith,
)
step_used pid pids last safe (again l) e (a, b, c) = (
  omega arith,
  b,
  λ f z m.
      let t = count_cons f pid pids in
      let u : (count f pids ≡ 0) × (last < f) = ground arith in c f u.0 (omega arith),
)

step_skip :
    (pid : ℕ) (pids : List ℕ) (last safe bound : ℕ) (w : Walk)
    → pid ≢ last
    → bound ≤ safe
    → (last < pid → bound ≤ pid)
    → Walked pids last bound w
    → Walked (pid ∷ pids) last safe w
step_skip pid pids last safe bound (settled l s) e h k (a, b, c, d, n) = (
  a,
  b,
  omega arith,
  ground (arith, count_cons l pid pids),
  λ q m j. let r = n q m j in let t = count_cons q pid pids in ground arith,
)
step_skip pid pids last safe bound (again l) e h k (a, b, c) = (
  a,
  omega arith,
  λ f z m. let t = count_cons f pid pids in let u : count f pids ≡ 0 = ground arith in c f u m,
)

step_again :
    (pid : ℕ) (pids : List ℕ) (last safe : ℕ)
    → pid ≡ last
    → last < safe
    → Walked (pid ∷ pids) last safe (again (suc last))
step_again pid pids last safe e h =
    (omega arith, omega arith, λ f z m. let t = count_cons f pid pids in ground arith)

walk_used :
    (pid : ℕ) (pids : List ℕ) (last safe : ℕ)
    → (pid == last) ≡ true
    → leb safe (suc last) ≡ false
    → walk (pid ∷ pids) last safe ≡ walk pids (suc last) safe
unfolding walk
walk_used pid pids last safe e l = ground (arith, e, l)

walk_again :
    (pid : ℕ) (pids : List ℕ) (last safe : ℕ)
    → (pid == last) ≡ true
    → leb safe (suc last) ≡ true
    → walk (pid ∷ pids) last safe ≡ again (suc last)
unfolding walk
walk_again pid pids last safe e l = ground (arith, e, l)

-- the new bound behind a pid in use
abbrev narrow : ℕ → ℕ → ℕ → ℕ
narrow pid last safe = if ltb last pid && ltb pid safe then pid else safe

walk_skip :
    (pid : ℕ) (pids : List ℕ) (last safe : ℕ)
    → (pid == last) ≡ false
    → walk (pid ∷ pids) last safe ≡ walk pids last (narrow pid last safe)
unfolding walk
walk_skip pid pids last safe e = ground (arith, e)

pub walk-Walked :
    (pids : List ℕ) (last safe : ℕ) → last < safe → Walked pids last safe (walk pids last safe)
unfolding walk
walk-Walked [] last safe h = (omega arith, h, omega arith, refl, λ q a b. refl)
walk-Walked (pid ∷ pids) last safe h = elim (Bool-cases (pid == last)) [
  | inl e ↦ elim (Bool-cases (leb safe (suc last))) [
    | inl l ↦
        subst (Walked (pid ∷ pids) last safe) (sym (walk_again pid pids last safe e l))
          (step_again pid pids last safe (ground arith) h)
    | inr l ↦ subst (Walked (pid ∷ pids) last safe) (sym (walk_used pid pids last safe e l)) (
        step_used pid pids last safe (walk pids (suc last) safe) (ground arith)
          (walk-Walked pids (suc last) safe (ground arith)))
  ]
  | inr e ↦
      let bound = narrow pid last safe in
      subst (Walked (pid ∷ pids) last safe) (sym (walk_skip pid pids last safe e)) (
        step_skip pid pids last safe bound (walk pids last bound) (ground arith) (ground arith)
          (ground arith) (walk-Walked pids last bound (ground arith)))
]

-- how far a pid is from the free one, on the circle of pids from 1 to max_pid - 1
abbrev pub distance : ℕ → ℕ → ℕ
distance last f = if leb last f then f - last else f + max_pid - last

-- what the search leaves
pub record Found (pids : List ℕ) (s : PidState) : Type 0 where
  pub positive : 0 < s.last_pid
  pub below : s.last_pid < s.next_safe
  pub bound : s.next_safe ≤ max_pid
  pub free : count s.last_pid pids ≡ 0
  pub none_between : NoneBetween pids s.last_pid s.next_safe

repeat_settled :
    (fuel : ℕ) (pids : List ℕ) (last l s : ℕ)
    → walk pids last max_pid ≡ settled l s
    → repeat (suc fuel) pids last ≡ some (record { next_safe = s; last_pid = l })
unfolding repeat
repeat_settled fuel pids last l s e = ground (arith, e)

repeat_again :
    (fuel : ℕ) (pids : List ℕ) (last l : ℕ)
    → walk pids last max_pid ≡ again l
    → repeat (suc fuel) pids last ≡ repeat fuel pids (if leb max_pid l then 1 else l)
unfolding repeat
repeat_again fuel pids last l e = ground (arith, e)

Walk-cases : (w : Walk) → ((l s : ℕ) × (w ≡ settled l s)) ⊎ ((l : ℕ) × (w ≡ again l))
Walk-cases (settled l s) = inl (l, s, refl)
Walk-cases (again l) = inr (l, refl)

pub repeat-Found :
    (fuel : ℕ) (pids : List ℕ) (last f : ℕ)
    → 0 < last
    → last < max_pid
    → 0 < f
    → f < max_pid
    → count f pids ≡ 0
    → distance last f < fuel
    → (s : PidState) × (repeat fuel pids last ≡ some s) × Found pids s
repeat-Found zero pids last f a b c d e h = absurd (omega arith)
repeat-Found (suc fuel) pids last f a b c d e h =
    let w = walk-Walked pids last max_pid b in
    elim (Walk-cases (walk pids last max_pid)) [
      | inl (l, s, q) ↦
          let v = subst (Walked pids last max_pid) q w in
          (
            record { next_safe = s; last_pid = l },
            repeat_settled fuel pids last l s q,
            record {
              positive = omega arith;
              below = v.1;
              bound = v.2;
              free = v.3;
              none_between = v.4;
            },
          )
      | inr (l, q) ↦
          let v = subst (Walked pids last max_pid) q w in
          let pass = v.2 f e in
          let (s, r, g) =
            repeat-Found fuel pids (if leb max_pid l then 1 else l) f (ground arith) (ground arith)
              c d e (ground arith) in
          (s, repeat_again fuel pids last l q ∙ r, g)
    ]
