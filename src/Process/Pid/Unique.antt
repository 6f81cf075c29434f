-- ===== src/Process/Pid/Unique.antt =====
-- kern/process/proc.c: `get_pid` from call to call.
use a_smart_mlfq_project_bas.Common.{
  leb, ◌==◌, Bool-cases, length, count, erase, count_cons, count-erase_self, count-erase_of_ne, ℕ,
  suc, ◌-◌, ◌≤◌, ◌<◌, ◌≡◌, refl, ◌∙◌, inl, inr, true, false, some, List, [], ◌∷◌, arith,
}
use a_smart_mlfq_project_bas.Process.Pid.{max_pid, PidState, pid_init, repeat, get_pid}
use a_smart_mlfq_project_bas.Process.Pid.Free.{free_pid}
use a_smart_mlfq_project_bas.Process.Pid.Search.{NoneBetween, repeat-Found}

-- Between two calls: no process has a pid between `last_pid` and `next_safe`.
pub record IsPidState (pids : List ℕ) (s : PidState) : Type 0 where
  pub positive : 0 < s.last_pid
  pub bound : s.last_pid ≤ max_pid
  pub none_between : NoneBetween pids s.last_pid s.next_safe

pub pid_init-IsPidState : IsPidState [] pid_init
pid_init-IsPidState = record {
  positive = omega arith;
  bound = omega arith;
  none_between = λ q a b. refl;
}

-- A process that leaves the list keeps the state valid.
pub exit-IsPidState :
    {s : PidState} (pids : List ℕ) (pid : ℕ) → IsPidState pids s → IsPidState (erase pids pid) s
exit-IsPidState pids pid v = record {
  positive = v.positive;
  bound = v.bound;
  none_between = λ q a b.
      let z = v.none_between q a b in
      let d = count-erase_self pid pids in
      elim (Bool-cases (q == pid)) [
        | inl e ↦ let e' : q ≡ pid = ground arith in ground (arith, e')
        | inr e ↦ count-erase_of_ne q pid pids (ground arith) ∙ z
      ];
}

-- what a caller gets: a pid in range that no process has, and a valid state once it is given out
pub record IsFresh (pids : List ℕ) (t : PidState) : Type 0 where
  pub positive : 0 < t.last_pid
  pub below : t.last_pid < max_pid
  pub unused : count t.last_pid pids ≡ 0
  pub known : IsPidState (t.last_pid ∷ pids) t

fresh :
    {t : PidState} (pids : List ℕ)
    → 0 < t.last_pid
    → t.last_pid < max_pid
    → count t.last_pid pids ≡ 0
    → NoneBetween pids t.last_pid t.next_safe
    → IsFresh pids t
fresh {t} pids a b c n = record {
  positive = a;
  below = b;
  unused = c;
  known = record {
    positive = a;
    bound = omega arith;
    none_between = λ q l m. let z = n q l m in let e = count_cons q t.last_pid pids in ground arith;
  };
}

search-IsFresh :
    (pids : List ℕ) (last : ℕ)
    → suc (length pids) < max_pid
    → 0 < last
    → last < max_pid
    → (t : PidState) × (repeat max_pid pids last ≡ some t) × IsFresh pids t
search-IsFresh pids last h a b =
    let (f, f₀, f₁, z) = free_pid (max_pid - 1) pids (omega arith) in
    let (t, r, g) =
      repeat-Found max_pid pids last f a b f₀ (omega arith) z (ground (arith, f₀, f₁, a, b)) in
    (
      t,
      r,
      fresh pids g.positive (let l = g.below in let m = g.bound in omega arith) g.free
          g.none_between,
    )

get_pid_wrap :
    (s : PidState) (pids : List ℕ)
    → leb max_pid (suc s.last_pid) ≡ true
    → get_pid s pids ≡ repeat max_pid pids 1
unfolding get_pid
get_pid_wrap s pids e = rw e refl

get_pid_search :
    (s : PidState) (pids : List ℕ)
    → leb max_pid (suc s.last_pid) ≡ false
    → leb s.next_safe (suc s.last_pid) ≡ true
    → get_pid s pids ≡ repeat max_pid pids (suc s.last_pid)
unfolding get_pid
get_pid_search s pids e l = rw (e, l) refl

get_pid_next :
    (s : PidState) (pids : List ℕ)
    → leb max_pid (suc s.last_pid) ≡ false
    → leb s.next_safe (suc s.last_pid) ≡ false
    → get_pid s pids ≡ some (record s { last_pid = suc s.last_pid })
unfolding get_pid
get_pid_next s pids e l = rw (e, l) refl

-- If fewer processes are listed than there are pids, get_pid returns from a valid state. The pid is
-- positive and below max_pid, no listed process has it, and the state is valid for the list with the
-- new process.
pub get_pid-IsFresh :
    {s : PidState} (pids : List ℕ)
    → IsPidState pids s
    → suc (length pids) < max_pid
    → (t : PidState) × (get_pid s pids ≡ some t) × IsFresh pids t
get_pid-IsFresh {s} pids v h = elim (Bool-cases (leb max_pid (suc s.last_pid))) [
  | inl e ↦
      let (t, r, g) = search-IsFresh pids 1 h (omega arith) (omega arith) in
      (t, get_pid_wrap s pids e ∙ r, g)
  | inr e ↦ elim (Bool-cases (leb s.next_safe (suc s.last_pid))) [
    | inl l ↦
        let (t, r, g) = search-IsFresh pids (suc s.last_pid) h (omega arith) (ground arith) in
        (t, get_pid_search s pids e l ∙ r, g)
    | inr l ↦ (
      record s { last_pid = suc s.last_pid },
      get_pid_next s pids e l,
      fresh pids (omega arith) (ground arith)
          (v.none_between (suc s.last_pid) (omega arith) (ground arith))
          (λ q a b. v.none_between q (omega arith) b),
    )
  ]
]
