-- ===== src/Sched/Smart/Range.antt =====
-- `mlfq_predict_and_level_update` (mlfq_sched.c): the ranges of what it computes.
use a_smart_mlfq_project_bas.Common.{
  leb, ◌==◌, if◌then◌else◌, ℕ, ◌+◌, ◌-◌, ◌*◌, ◌/◌, ◌≤◌, ◌<◌, ◌≡◌, ap, Bool, some, arith,
}
use a_smart_mlfq_project_bas.Common.Int.{ℤ, pos, pos_part, u32}
use a_smart_mlfq_project_bas.Sched.Mlfq.{level_slice}
use a_smart_mlfq_project_bas.Sched.Mlfq.Policy.{slice, level_slice-eq, slice_small, InRange}
use a_smart_mlfq_project_bas.Sched.Mlfq.Tick.{ticks}
use a_smart_mlfq_project_bas.Sched.Proc.{Proc}
use a_smart_mlfq_project_bas.Sched.Smart.{
  check_level, is_expired, used_of, ratio_of, ewma, next_level, mlfq_predict_and_level_update,
}

-- The same over numbers: ticks used, share of 1000, score, level.
abbrev pub used : ℤ → ℕ → ℕ
used ticks l = slice l - pos_part ticks

abbrev pub ratio : ℤ → ℕ → ℕ
ratio ticks l = used ticks l * 1000 / slice l

abbrev pub new_score : ℕ → ℕ → ℕ
new_score c r = if c == 0 then r else (6 * c + 4 * r) / 10

ewma-eq : (c r : ℕ) → ewma (pos c) (pos r) ≡ pos (new_score c r)
unfolding ewma
ewma-eq c r = ground arith

abbrev pub new_level : Bool → ℕ → ℕ → ℕ
new_level expired c l =
    if expired then if l == 3 then 3 else l + 1 else if leb 300 c then l - 1 else 0

next_level-eq : (e : Bool) (c l : ℕ) → l < 4 → next_level e (pos c) (pos l) ≡ pos (new_level e c l)
unfolding next_level
next_level-eq e c l h = ground arith

check_level-eq : (p : Proc) → InRange p → check_level p ≡ p
unfolding check_level
check_level-eq p v = ground arith

used_of-eq :
    (p : Proc) (v : InRange p)
    → used_of p (pos (slice v.level)) ≡ pos (used p.current_slice_ticks v.level)
unfolding used_of
used_of-eq p v = ground arith

ratio_of-eq : (u m : ℕ) → ratio_of (pos u) (pos m) ≡ pos (u * 1000 / m)
unfolding ratio_of
ratio_of-eq u m = ground arith

u32-used :
    (p : Proc) (v : InRange p)
    → u32 (used p.current_slice_ticks v.level) ≡ used p.current_slice_ticks v.level
u32-used p v = omega (arith, slice_small v.level v.level_lt)

score-eq :
    (p : Proc) (v : InRange p)
    → ewma p.cpu_score (ratio_of (pos (used p.current_slice_ticks v.level)) (pos (slice v.level)))
      ≡ pos (new_score v.score (ratio p.current_slice_ticks v.level))
score-eq p v = rw (v.score_eq, ratio_of-eq, ewma-eq)

-- For a process in range the function returns, and computes this.
pub mlfq_predict_and_level_update-eq :
    (p : Proc) (v : InRange p)
    → let c = new_score v.score (ratio p.current_slice_ticks v.level) in
      mlfq_predict_and_level_update p
      ≡ some (record p {
        mlfq_level = pos (new_level (is_expired p) c v.level);
        last_burst = used p.current_slice_ticks v.level;
        cpu_score = pos c;
      })
unfolding mlfq_predict_and_level_update
mlfq_predict_and_level_update-eq p v =
    rw
      (
        check_level-eq p v,
        ap level_slice v.level_eq,
        level_slice-eq v.level v.level_lt,
        used_of-eq p v,
      )
      (cc (
        score-eq p v,
        v.level_eq,
        next_level-eq (is_expired p) (new_score v.score (ratio p.current_slice_ticks v.level))
            v.level v.level_lt,
        u32-used p v,
      ))

pub ratio-le : (u m : ℕ) → u ≤ m → 0 < m → u * 1000 / m ≤ 1000
ratio-le u m h pos_m = grind arith

pub new_score-le : (c r : ℕ) → c ≤ 1000 → r ≤ 1000 → new_score c r ≤ 1000
new_score-le c r hc hr = ground arith

pub new_level-lt : (e : Bool) (c l : ℕ) → l < 4 → new_level e c l < 4
new_level-lt e c l h = ground arith
