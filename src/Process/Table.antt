-- ===== src/Process/Table.antt =====
-- kern/process/proc.c: the hash lists of processes by pid; libs/hash.c.
pub mod Find
use a_smart_mlfq_project_bas.Common.{
  ltb, ◌==◌, if◌then◌else◌, erase, ℕ, ◌-◌, ◌*◌, ◌/◌, ◌^◌, ◌&&◌, Option, none, some, List, [], ◌∷◌,
}
use a_smart_mlfq_project_bas.Common.Int.{u32}
use a_smart_mlfq_project_bas.Common.Store.{update}
use a_smart_mlfq_project_bas.Process.Pid.{max_pid}

-- (val * 0x9e370001UL) >> (32 - bits), in 32 bits
unfoldable pub hash32 : ℕ → ℕ → ℕ
hash32 val bits = u32 (val * 2654404609) / 2 ^ (32 - bits)

abbrev pub hash_shift : ℕ
hash_shift = 10

unfoldable pub pid_hashfn : ℕ → ℕ
pid_hashfn x = hash32 x hash_shift

-- `hash_list`, and the pid of the process at each address
pub record HashTable : Type 0 where
  pub pid_of : ℕ → ℕ
  pub hash_list : ℕ → List ℕ

-- at the head of its list
unfoldable pub hash_proc : HashTable → ℕ → HashTable
hash_proc t p =
    let b = pid_hashfn (t.pid_of p) in
    record t { hash_list = update t.hash_list b (p ∷ t.hash_list b) }

-- out of the list that it stands in
unfoldable pub unhash_proc : HashTable → ℕ → HashTable
unhash_proc t p = record t { hash_list = λ b. erase (t.hash_list b) p }

unfoldable pub find_in : (ℕ → ℕ) → ℕ → List ℕ → Option ℕ
find_in pid_of pid [] = none
find_in pid_of pid (p ∷ ps) = if pid_of p == pid then some p else find_in pid_of pid ps

-- A pid that is not positive is 0 here: no pid below 1 is looked up.
unfoldable pub find_proc : HashTable → ℕ → Option ℕ
find_proc t pid =
    if ltb 0 pid && ltb pid max_pid
    then find_in t.pid_of pid (t.hash_list (pid_hashfn pid))
    else none
