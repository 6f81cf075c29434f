-- ===== src/Process/Tests.antt =====
-- get_pid and the hash lists at concrete processes.
use a_smart_mlfq_project_bas.Common.{
  ◌==◌, if◌then◌else◌, count, ℕ, ◌<◌, ◌≡◌, refl, none, some, [], ◌∷◌, arith,
}
use a_smart_mlfq_project_bas.Process.Pid.{PidState, pid_init, walk, repeat, get_pid}
use a_smart_mlfq_project_bas.Process.Pid.Unique.{IsPidState, IsFresh, get_pid-IsFresh}
use a_smart_mlfq_project_bas.Process.Table.{
  hash32, pid_hashfn, HashTable, hash_proc, unhash_proc, find_proc,
}
use a_smart_mlfq_project_bas.Process.Table.Find.{
  IsTable, find_proc-hash_proc, find_proc-unhash_proc, hash_proc-IsTable,
}

-- after pid 3 was given out and processes 1 and 2 have ended
abbrev later : PidState
later = record { next_safe = 8192; last_pid = 3 }

first_pid : get_pid pid_init [] ≡ some (record { next_safe = 8192; last_pid = 1 })
unfolding get_pid repeat walk
first_pid = refl

-- the last pid is given out, and 1 to 3 are in use: the search starts again and passes them
wrapped_pid : get_pid pid_init (3 ∷ 1 ∷ 2 ∷ 9 ∷ []) ≡ some (record { next_safe = 9; last_pid = 4 })
unfolding get_pid repeat walk
wrapped_pid = refl

later-IsPidState : IsPidState (3 ∷ []) later
later-IsPidState = record {
  positive = omega arith;
  bound = omega arith;
  none_between = λ q a b. ground arith;
}

get_pid-IsFresh_example : (t : PidState) × (get_pid later (3 ∷ []) ≡ some t) × IsFresh (3 ∷ []) t
get_pid-IsFresh_example = get_pid-IsFresh (3 ∷ []) later-IsPidState (omega arith)

-- processes at 100 and 200 with the pids 1 and 2
abbrev table_pids : ℕ → ℕ
table_pids p = if p == 100 then 1 else if p == 200 then 2 else 3

abbrev no_table : HashTable
no_table = record { pid_of = table_pids; hash_list = λ b. [] }

no_table-IsTable : IsTable no_table
no_table-IsTable = record {
  placed = λ b p l. absurd (omega arith);
  once = λ b p. omega arith;
  distinct = λ b p q l m e. absurd (omega arith);
}

abbrev one_table : HashTable
one_table = hash_proc no_table 100

one_table-IsTable : IsTable one_table
one_table-IsTable = hash_proc-IsTable 100 no_table-IsTable (λ b q l. absurd (omega arith))

find_proc-hash_proc_example : find_proc (hash_proc one_table 200) 2 ≡ some 200
unfolding hash_proc
find_proc-hash_proc_example = find_proc-hash_proc one_table 200 2 (omega arith)

listed_100 : 0 < count 100 (one_table.hash_list (pid_hashfn 1))
unfolding hash_proc pid_hashfn hash32
listed_100 = omega arith

find_proc-unhash_proc_example : find_proc (unhash_proc one_table 100) 1 ≡ none
unfolding hash_proc
find_proc-unhash_proc_example =
    find_proc-unhash_proc 100 1 one_table-IsTable listed_100 (omega arith)
