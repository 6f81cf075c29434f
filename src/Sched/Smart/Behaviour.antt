-- ===== src/Sched/Smart/Behaviour.antt =====
-- What the smart level update (mlfq_sched.c) does over one slice and over several.
use a_smart_mlfq_project_bas.Common.{
  ◌==◌, if◌then◌else◌, ◌>>=◌, ℕ, zero, suc, ◌+◌, ◌≤◌, ◌<◌, min, max, ◌≡◌, refl, ap, ◌∙◌, ◌≢◌, ◌⊎◌,
  inl, inr, Option, some, arith,
}
use a_smart_mlfq_project_bas.Common.Int.{pos}
use a_smart_mlfq_project_bas.Sched.Mlfq.Policy.{slice, slice_small, InRange}
use a_smart_mlfq_project_bas.Sched.Proc.{Proc}
use a_smart_mlfq_project_bas.Sched.Smart.{is_expired, mlfq_predict_and_level_update}
use a_smart_mlfq_project_bas.Sched.Smart.Range.{
  used, ratio, new_score, new_level, mlfq_predict_and_level_update-eq, ratio-le, new_score-le,
  new_level-lt,
}

averaged :
    (c r : ℕ)
    → ((c ≡ 0) × (new_score c r ≡ r))
      ⊎ ((c ≢ 0) × (min c r ≤ new_score c r) × (new_score c r ≤ max c r))
averaged zero r = inl (refl, refl)
averaged (suc c) r = inr (omega arith, ground arith, ground arith)

-- The update returns for every process in range. The new level is 0 to 3, the new score at most 1000,
-- the burst at most the old level's slice. The new score is the share of the slice that was used if
-- the old score was 0, and else lies between the old score and that share.
pub mlfq_predict_and_level_update_total :
    (p : Proc) (v : InRange p)
    → let r = ratio p.current_slice_ticks v.level in
      (l b c : ℕ) × (mlfq_predict_and_level_update p
        ≡ some (record p { mlfq_level = pos l; last_burst = b; cpu_score = pos c }))
      × (l ≤ 3)
      × (b ≤ slice v.level)
      × (c ≤ 1000)
      × (((v.score ≡ 0) × (c ≡ r)) ⊎ ((v.score ≢ 0) × (min v.score r ≤ c) × (c ≤ max v.score r)))
mlfq_predict_and_level_update_total p v =
    let r = ratio p.current_slice_ticks v.level in
    let c = new_score v.score r in
    let r_le =
      ratio-le (used p.current_slice_ticks v.level) (slice v.level) (omega arith)
        (slice_small v.level v.level_lt).0 in
    (
      new_level (is_expired p) c v.level,
      used p.current_slice_ticks v.level,
      c,
      mlfq_predict_and_level_update-eq p v,
      omega (arith, new_level-lt (is_expired p) c v.level v.level_lt),
      omega arith,
      new_score-le v.score r v.score_le r_le,
      averaged v.score r,
    )

-- one more slice that the process uses up
abbrev pub use_up : Proc → Option Proc
use_up p = mlfq_predict_and_level_update (record p { current_slice_ticks = pos 0 })

-- a process after such a slice
abbrev pub spent : Proc → ℕ → ℕ → ℕ → Proc
spent p l b c = record p {
  current_slice_ticks = pos 0;
  mlfq_level = pos l;
  last_burst = b;
  cpu_score = pos c;
}

full_ratio : (l : ℕ) → l < 4 → ratio (pos 0) l ≡ 1000
full_ratio zero h = refl
full_ratio (suc zero) h = refl
full_ratio (suc (suc zero)) h = refl
full_ratio (suc (suc (suc zero))) h = refl
full_ratio (suc (suc (suc (suc l)))) h = absurd (omega arith)

spent-InRange : (p : Proc) (l b c : ℕ) → l < 4 → c ≤ 1000 → InRange (spent p l b c)
spent-InRange p l b c hl hc = record {
  level = l;
  score = c;
  level_lt = hl;
  level_eq = refl;
  score_le = hc;
  score_eq = refl;
  ticks_le = omega arith;
}

full_use : (l : ℕ) → used (pos 0) l ≡ slice l
full_use l = omega arith

abbrev down : ℕ → ℕ
down l = if l == 3 then 3 else l + 1

use_up-spent :
    (p : Proc) (l b c : ℕ)
    → l < 4
    → c ≤ 1000
    → use_up (spent p l b c) ≡ some (spent p (down l) (slice l) (new_score c 1000))
unfolding is_expired spent-InRange
use_up-spent p l b c hl hc =
    mlfq_predict_and_level_update-eq (spent p l b c) (spent-InRange p l b c hl hc)
    ∙ cc (full_ratio l hl, full_use l)

down_lt : (l : ℕ) → l < 4 → down l < 4
down_lt l h = ground arith

-- A process that uses up three slices in a row is at the lowest level with a score of at least 700,
-- wherever it started.
pub cpu_bound_sinks :
    (p : Proc)
    → InRange p
    → (b c : ℕ) × ((use_up p >>= use_up >>= use_up) ≡ some (spent p 3 b c)) × (700 ≤ c) × (c ≤ 1000)
cpu_bound_sinks p v =
    let c₁ = new_score v.score 1000 in
    let c₂ = new_score c₁ 1000 in
    let l₁ = down v.level in
    let h₁ = new_score-le v.score 1000 v.score_le (omega arith) in
    let h₂ = new_score-le c₁ 1000 h₁ (omega arith) in
    let d₁ = down_lt v.level v.level_lt in
    let d₂ = down_lt l₁ d₁ in
    (
      slice (down l₁),
      new_score c₂ 1000,
      rw
          (
            same p v,
            use_up-spent p v.level p.last_burst v.score v.level_lt v.score_le,
            use_up-spent p l₁ (slice v.level) c₁ d₁ h₁,
            use_up-spent p (down l₁) (slice l₁) c₂ d₂ h₂,
          )
          (ap (λ l. some (spent p l (slice (down l₁)) (new_score c₂ 1000)))
            (sunk v.level v.level_lt)),
      risen v.score,
      new_score-le c₂ 1000 h₂ (omega arith),
    )
  where
    same : (q : Proc) (w : InRange q) → use_up q ≡ use_up (spent q w.level q.last_burst w.score)
    same q w = cc (w.level_eq, w.score_eq)

    sunk : (l : ℕ) → l < 4 → down (down (down l)) ≡ 3
    sunk l h = ground arith

    risen : (c : ℕ) → 700 ≤ new_score (new_score (new_score c 1000) 1000) 1000
    risen c = ground arith
