-- ===== src/Sched/Mlfq/Policy.antt =====
-- What the functions that set a process's level have to keep, whichever class they belong to.
use a_smart_mlfq_project_bas.Common.{
  get_or, ℕ, zero, suc, ◌≤◌, ◌<◌, ◌≡◌, refl, Option, some, [], ◌∷◌, arith,
}
use a_smart_mlfq_project_bas.Common.Int.{pos, ◌≤ℤ◌}
use a_smart_mlfq_project_bas.Sched.Mlfq.{level_slice}
use a_smart_mlfq_project_bas.Sched.Proc.{Proc}

-- the slice of a level in bounds, in ticks
abbrev pub slice : ℕ → ℕ
slice l = get_or (2 ∷ 4 ∷ 8 ∷ 16 ∷ []) l 0

pub level_slice-eq : (l : ℕ) → l < 4 → level_slice (pos l) ≡ some (pos (slice l))
unfolding level_slice
level_slice-eq zero h = refl
level_slice-eq (suc zero) h = refl
level_slice-eq (suc (suc zero)) h = refl
level_slice-eq (suc (suc (suc zero))) h = refl
level_slice-eq (suc (suc (suc (suc l)))) h = absurd (omega arith)

pub slice_small : (l : ℕ) → l < 4 → (0 < slice l) × (slice l ≤ 16)
slice_small zero h = omega arith
slice_small (suc zero) h = omega arith
slice_small (suc (suc zero)) h = omega arith
slice_small (suc (suc (suc zero))) h = omega arith
slice_small (suc (suc (suc (suc l)))) h = absurd (omega arith)

-- The ranges that proc.h documents for the extended fields: a level from 0 to 3, a score from 0 to
-- 1000, and no more ticks left than the level's slice.
pub record InRange (p : Proc) : Type 0 where
  pub level : ℕ
  pub score : ℕ
  pub level_lt : level < 4
  pub level_eq : p.mlfq_level ≡ pos level
  pub score_le : score ≤ 1000
  pub score_eq : p.cpu_score ≡ pos score
  pub ticks_le : p.current_slice_ticks ≤ℤ pos (slice level)

-- A policy changes the level, the burst and the score, and keeps the first and the last in range.
pub record Policy : Type 0 where
  pub update_level : Proc → Option Proc
  pub total :
      (p : Proc)
      → InRange p
      → (l b c : ℕ) × (update_level p
          ≡ some (record p { mlfq_level = pos l; last_burst = b; cpu_score = pos c }))
        × (l < 4)
        × (c ≤ 1000)
