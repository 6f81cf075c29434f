-- ===== src/Sched/Timer.antt =====
-- The timers of kern/schedule/sched.h and sched.c. The list keeps each expiry relative to the one
-- before it, so that a clock tick counts down only the first.
pub mod Deadlines
use a_smart_mlfq_project_bas.Common.{
  ltb, ◌==◌, if◌then◌else◌, ◌>>=◌, ◌>>◌, assert, ℕ, ◌+◌, ◌-◌, ◌/◌, ◌%◌, ◌^◌, Bool, true, false,
  ◌&&◌, ◌||◌, not, Option, none, some, List, [], ◌∷◌,
}
use a_smart_mlfq_project_bas.Common.Int.{ℤ, u32, to_u32}
use a_smart_mlfq_project_bas.Sched.Framework.{Kernel, proc_at, sched_class_proc_tick, wakeup_proc}
use a_smart_mlfq_project_bas.Sched.State.{SchedClass}

-- `timer_t`, with its address. It is linked when its address stands in the list.
pub record Timer : Type 0 where
  pub addr : ℕ
  pub expires : ℕ  -- unsigned int
  pub proc : Option ℕ  -- `NULL` is `none`

-- `timer_init`: the link points to itself, so the timer stands in no list. C converts the `int`.
unfoldable pub timer_init : ℕ → Option ℕ → ℤ → Timer
timer_init addr proc expires = record { addr = addr; expires = to_u32 expires; proc = proc }

abbrev pub is_some {ℓ} : {A : Type ℓ} → Option A → Bool
is_some none = false
is_some (some _) = true

-- `!list_empty(&(timer->timer_link))`
unfoldable pub is_pending : List Timer → ℕ → Bool
is_pending [] a = false
is_pending (t ∷ ts) a = (t.addr == a) || is_pending ts a

-- The loop of `add_timer`: both subtractions are of the smaller from the larger.
unfoldable pub insert_timer : List Timer → Timer → List Timer
insert_timer [] t = t ∷ []
insert_timer (n ∷ ts) t =
    if ltb t.expires n.expires
    then t ∷ record n { expires = n.expires - t.expires } ∷ ts
    else n ∷ insert_timer ts (record t { expires = t.expires - n.expires })

unfoldable pub add_timer : List Timer → Timer → Option (List Timer)
add_timer ts t = do
  assert (ltb 0 t.expires && is_some t.proc)
  assert (not (is_pending ts t.addr))
  some (insert_timer ts t)

-- What is left of a deleted timer's expiry goes to the one behind it.
unfoldable pub pass_on : ℕ → List Timer → List Timer
pass_on e [] = []
pass_on e (n ∷ ts) = if e == 0 then n ∷ ts else record n { expires = u32 (n.expires + e) } ∷ ts

unfoldable pub del_timer : List Timer → ℕ → List Timer
del_timer [] a = []
del_timer (t ∷ ts) a = if t.addr == a then pass_on t.expires ts else t ∷ del_timer ts a

-- `wait_state & WT_INTERRUPTED`, the top bit of 32
unfoldable pub is_interruptible : ℕ → Bool
is_interruptible w = (w / 2 ^ 31) % 2 == 1

pub record Clocked : Type 0 where
  pub kernel : Kernel
  pub timer_list : List Timer

module _ (c : SchedClass) where
  -- One round of the loop: the timer has run down. (A wait state of 0 is only warned about.)
  unfoldable pub expire : Clocked → Timer → Option Clocked
  expire w t = do
    p ← t.proc
    assert
        ((proc_at w.kernel p).wait_state == 0 || is_interruptible (proc_at w.kernel p).wait_state)
    k ← wakeup_proc c w.kernel p
    some (record { kernel = k; timer_list = del_timer w.timer_list t.addr })

  -- The `while` loop, over the timers that stand in the list when it starts.
  unfoldable pub expire_due : Clocked → List Timer → Option Clocked
  expire_due w [] = some w
  expire_due w (t ∷ ts) = elim (t.expires == 0) [
    | true ↦ expire w t >>= λ w'. expire_due w' ts
    | false ↦ some w
  ]

  unfoldable pub count_down : Kernel → List Timer → Option Clocked
  count_down k [] = some (record { kernel = k; timer_list = [] })
  count_down k (t ∷ ts) = do
    assert (not (t.expires == 0))
    let left = record t { expires = t.expires - 1 } ∷ ts
    expire_due (record { kernel = k; timer_list = left }) left

  unfoldable pub run_timer_list : Clocked → Option Clocked
  run_timer_list w = do
    w' ← count_down w.kernel w.timer_list
    some (record w' { kernel = sched_class_proc_tick c w'.kernel w'.kernel.current })
