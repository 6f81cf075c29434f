-- ===== src/Process/Pid.antt =====
-- kern/process/proc.c: `get_pid` over the pids of the processes in `proc_list`, in its order.
pub mod Free
pub mod Search
pub mod Unique
use a_smart_mlfq_project_bas.Common.{
  ltb, leb, ◌==◌, if◌then◌else◌, ℕ, zero, suc, ◌*◌, true, false, ◌&&◌, Option, none, some, List, [],
  ◌∷◌,
}

abbrev pub max_process : ℕ
max_process = 4096

abbrev pub max_pid : ℕ
max_pid = max_process * 2

-- the static variables of `get_pid`
pub record PidState : Type 0 where
  pub next_safe : ℕ
  pub last_pid : ℕ

abbrev pub pid_init : PidState
pid_init = record { next_safe = max_pid; last_pid = max_pid }

-- One walk along the list ends with `last_pid` and `next_safe`, or goes back to `repeat` with
-- `last_pid`.
pub data Walk : Type 0 where
  settled : ℕ → ℕ → Walk
  again : ℕ → Walk

unfoldable pub walk : List ℕ → ℕ → ℕ → Walk
walk [] last safe = settled last safe
walk (pid ∷ pids) last safe = elim (pid == last) [
  | true ↦ elim (leb safe (suc last)) [
    | true ↦ again (suc last)
    | false ↦ walk pids (suc last) safe
  ]
  | false ↦ walk pids last (if ltb last pid && ltb pid safe then pid else safe)
]

-- from the label `repeat` on, with fuel for the jumps to it
unfoldable pub repeat : ℕ → List ℕ → ℕ → Option PidState
repeat zero pids last = none
repeat (suc fuel) pids last = elim (walk pids last max_pid) [
  | settled l s ↦ some (record { next_safe = s; last_pid = l })
  | again l ↦ repeat fuel pids (if leb max_pid l then 1 else l)
]

-- The pid is the new `last_pid`. Each jump has one pid less to pass before a free one, so that
-- `max_pid` of them are enough.
unfoldable pub get_pid : PidState → List ℕ → Option PidState
get_pid s pids =
    let last = suc s.last_pid in
    if leb max_pid last
    then repeat max_pid pids 1
    else if leb s.next_safe last
    then repeat max_pid pids last
    else some (record s { last_pid = last })
