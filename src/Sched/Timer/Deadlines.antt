-- ===== src/Sched/Timer/Deadlines.antt =====
-- What the timer list stands for: the time at which each timer runs out. `add_timer` and `del_timer`
-- (kern/schedule/sched.c) against insertion and removal in that table.
use a_smart_mlfq_project_bas.Common.{
  ltb, ◌==◌, if◌then◌else◌, lt→ltb, Bool-cases, ℕ, ◌+◌, ◌-◌, ◌^◌, ◌<◌, ◌≡◌, refl, ap, ◌∙◌, inl, inr,
  true, false, some, List, [], ◌∷◌, arith,
}
use a_smart_mlfq_project_bas.Common.Int.{u32}
use a_smart_mlfq_project_bas.Sched.Timer.{
  Timer, is_some, is_pending, insert_timer, add_timer, pass_on, del_timer,
}

-- address and time of each timer, counted from `b`
abbrev pub deadlines : ℕ → List Timer → List (ℕ × ℕ)
deadlines b [] = []
deadlines b (t ∷ ts) = (t.addr, b + t.expires) ∷ deadlines (b + t.expires) ts

-- behind all that run out at the same time or before
abbrev pub insert_deadline : ℕ → ℕ → List (ℕ × ℕ) → List (ℕ × ℕ)
insert_deadline a d [] = (a, d) ∷ []
insert_deadline a d ((b, e) ∷ r) =
    if ltb d e then (a, d) ∷ (b, e) ∷ r else (b, e) ∷ insert_deadline a d r

abbrev pub remove_deadline : ℕ → List (ℕ × ℕ) → List (ℕ × ℕ)
remove_deadline a [] = []
remove_deadline a ((b, e) ∷ r) = if b == a then r else (b, e) ∷ remove_deadline a r

deadlines-insert_timer :
    (b : ℕ) (ts : List Timer) (t : Timer)
    → deadlines b (insert_timer ts t) ≡ insert_deadline t.addr (b + t.expires) (deadlines b ts)
unfolding insert_timer
deadlines-insert_timer b [] t = refl
deadlines-insert_timer b (n ∷ ts) t = elim (Bool-cases (ltb t.expires n.expires)) [
  | inl before ↦
      let sum : b + t.expires + (n.expires - t.expires) ≡ b + n.expires = ground arith in
      let shifted : ltb (b + t.expires) (b + n.expires) ≡ true = ground arith in
      rw (before, shifted, sum)
  | inr behind ↦
      let sum : b + n.expires + (t.expires - n.expires) ≡ b + t.expires = ground arith in
      let shifted : ltb (b + t.expires) (b + n.expires) ≡ false = ground arith in
      rw (behind, shifted)
        (ap (λ r. (n.addr, b + n.expires) ∷ r)
          (deadlines-insert_timer (b + n.expires) ts (record t { expires = t.expires - n.expires })
            ∙ ap (λ d. insert_deadline t.addr d (deadlines (b + n.expires) ts)) sum))
]

-- `add_timer` accepts a timer with a positive expiry and a process that stands in no list. In the
-- table of deadlines it is entered behind all that run out before or at the same time, and every
-- other deadline is as it was.
pub add_timer_lem :
    (b : ℕ) (ts : List Timer) (t : Timer)
    → 0 < t.expires
    → is_some t.proc ≡ true
    → is_pending ts t.addr ≡ false
    → (r : List Timer) × (add_timer ts t ≡ some r)
      × (deadlines b r ≡ insert_deadline t.addr (b + t.expires) (deadlines b ts))
unfolding add_timer
add_timer_lem b ts t h p free =
    (insert_timer ts t, rw (lt→ltb 0 t.expires h, p, free) refl, deadlines-insert_timer b ts t)

-- The time of the last timer is a 32-bit number, so no sum of expiries wraps.
abbrev pub FitsWord : ℕ → List Timer → Type 0
FitsWord b [] = b < 2 ^ 32
FitsWord b (t ∷ ts) = FitsWord (b + t.expires) ts

FitsWord-lt : (b : ℕ) (ts : List Timer) → FitsWord b ts → b < 2 ^ 32
FitsWord-lt b [] h = h
FitsWord-lt b (t ∷ ts) h = omega (arith, FitsWord-lt (b + t.expires) ts h)

deadlines-pass_on :
    (b e : ℕ) (ts : List Timer)
    → FitsWord (b + e) ts
    → deadlines b (pass_on e ts) ≡ deadlines (b + e) ts
unfolding pass_on
deadlines-pass_on b e [] h = refl
deadlines-pass_on b e (n ∷ ts) h =
    let small = FitsWord-lt (b + e + n.expires) ts h in
    elim (Bool-cases (e == 0)) [
      | inl zero_left ↦
          let same : b ≡ b + e = ground arith in rw zero_left (ap (λ d. deadlines d (n ∷ ts)) same)
      | inr some_left ↦
          let sum : b + u32 (n.expires + e) ≡ b + e + n.expires = omega arith in rw (some_left, sum)
    ]

-- Deleting a timer takes its deadline out of the table and leaves every other one as it was.
pub del_timer_lem :
    (b : ℕ) (ts : List Timer) (a : ℕ)
    → FitsWord b ts
    → deadlines b (del_timer ts a) ≡ remove_deadline a (deadlines b ts)
unfolding del_timer
del_timer_lem b [] a h = refl
del_timer_lem b (t ∷ ts) a h = elim (Bool-cases (t.addr == a)) [
  | inl here ↦ rw here (deadlines-pass_on b t.expires ts h)
  | inr next ↦
      rw next (ap (λ r. (t.addr, b + t.expires) ∷ r) (del_timer_lem (b + t.expires) ts a h))
]
