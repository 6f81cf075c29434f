-- ===== src/Process/Table/Find.antt =====
-- kern/process/proc.c: what `find_proc` finds after processes come and go.
use a_smart_mlfq_project_bas.Common.{
  ◌==◌, if◌then◌else◌, ne-==, Bool-cases, count, erase, erase-absent, count-erase_le, ℕ, ◌≤◌, ◌<◌,
  ◌≡◌, refl, sym, ap, ◌∙◌, subst, ◌≢◌, ◌↔◌, ◌⊎◌, inl, inr, false, none, some, List, [], ◌∷◌, arith,
}
use a_smart_mlfq_project_bas.Common.Store.{update_cases}
use a_smart_mlfq_project_bas.Process.Pid.{max_pid}
use a_smart_mlfq_project_bas.Process.Table.{
  hash32, pid_hashfn, HashTable, hash_proc, unhash_proc, find_in, find_proc,
}

abbrev pub InRange : ℕ → Type 0
InRange pid = (0 < pid) × (pid < max_pid)

-- Every process stands in the list of its pid, and no two in one list share a pid.
pub record IsTable (t : HashTable) : Type 0 where
  pub placed : (b p : ℕ) → 0 < count p (t.hash_list b) → b ≡ pid_hashfn (t.pid_of p)
  pub once : (b p : ℕ) → count p (t.hash_list b) ≤ 1
  pub distinct :
      (b p q : ℕ)
      → 0 < count p (t.hash_list b)
      → 0 < count q (t.hash_list b)
      → t.pid_of p ≡ t.pid_of q
      → p ≡ q

-- The hash of a pid is an index of the array.
pub pid_hashfn_bound : (pid : ℕ) → pid_hashfn pid < 1024
unfolding pid_hashfn hash32
pid_hashfn_bound pid = omega arith

find_in-none :
    (pid_of : ℕ → ℕ) (pid : ℕ) (ps : List ℕ)
    → ((q : ℕ) → 0 < count q ps → pid_of q ≢ pid)
    → find_in pid_of pid ps ≡ none
unfolding find_in
find_in-none pid_of pid [] h = refl
find_in-none pid_of pid (p ∷ ps) h =
    let n = h p (ground arith) in
    let r = find_in-none pid_of pid ps (λ q l. h q (ground arith)) in ground (arith, n, r)

find_in-some :
    (pid_of : ℕ → ℕ) (p : ℕ) (ps : List ℕ)
    → 0 < count p ps
    → ((q : ℕ) → 0 < count q ps → pid_of q ≡ pid_of p → q ≡ p)
    → find_in pid_of (pid_of p) ps ≡ some p
unfolding find_in
find_in-some pid_of p [] l h = absurd (omega arith)
find_in-some pid_of p (q ∷ ps) l h = elim (Bool-cases (pid_of q == pid_of p)) [
  | inl e ↦ let d = h q (ground arith) (ground arith) in ground (arith, e, d)
  | inr e ↦
      let r = find_in-some pid_of p ps (ground arith) (λ q' m. h q' (ground arith)) in
      ground (arith, e, r)
]

find_in-listed :
    (pid_of : ℕ → ℕ) (pid p : ℕ) (ps : List ℕ) → find_in pid_of pid ps ≡ some p → 0 < count p ps
unfolding find_in
find_in-listed pid_of pid p [] e = absurd (cc)
find_in-listed pid_of pid p (q ∷ ps) e = elim (Bool-cases (pid_of q == pid)) [
  | inl d ↦ ground (arith, d)
  | inr d ↦
      let f : find_in pid_of pid ps ≡ some p = ground (arith, d) in
      let l = find_in-listed pid_of pid p ps f in ground (arith, l)
]

in_range :
    (t : HashTable) (pid : ℕ)
    → InRange pid
    → find_proc t pid ≡ find_in t.pid_of pid (t.hash_list (pid_hashfn pid))
unfolding find_proc
in_range t pid h = ground (arith, h.0, h.1)

-- In a valid table a process with a pid in range is found by its pid exactly when it is listed.
pub find_proc_iff :
    {t : HashTable} (p : ℕ)
    → IsTable t
    → InRange (t.pid_of p)
    → (find_proc t (t.pid_of p) ≡ some p) ↔ (0 < count p (t.hash_list (pid_hashfn (t.pid_of p))))
find_proc_iff {t} p v h = (
  λ e.
      find_in-listed t.pid_of (t.pid_of p) p (t.hash_list (pid_hashfn (t.pid_of p)))
        (sym (in_range t (t.pid_of p) h) ∙ e),
  λ l.
      in_range t (t.pid_of p) h
      ∙ find_in-some t.pid_of p (t.hash_list (pid_hashfn (t.pid_of p))) l
          (λ q m e. v.distinct (pid_hashfn (t.pid_of p)) q p m l e),
)

-- Once a process is hashed, its pid, if in range, finds it, and every other pid in range finds what
-- it found before.
pub find_proc-hash_proc :
    (t : HashTable) (p pid : ℕ)
    → InRange pid
    → find_proc (hash_proc t p) pid ≡ (if t.pid_of p == pid then some p else find_proc t pid)
unfolding hash_proc find_in
find_proc-hash_proc t p pid h =
    let a = pid_hashfn (t.pid_of p) in
    let b = pid_hashfn pid in
    rw (in_range t pid h, in_range (hash_proc t p) pid h)
      (update_cases
        (λ ps.
          find_in t.pid_of pid ps
          ≡ (if t.pid_of p == pid then some p else find_in t.pid_of pid (t.hash_list b)))
        t.hash_list a (p ∷ t.hash_list a) b (λ e. rw e refl)
        (λ n.
          let other : (t.pid_of p == pid) ≡ false =
            ne-== (t.pid_of p) pid (λ e. n (ap pid_hashfn (sym e))) in
          rw other refl))

find_in-erase :
    (pid_of : ℕ → ℕ) (pid p : ℕ) (ps : List ℕ)
    → ((q : ℕ) → 0 < count q ps → pid_of q ≡ pid_of p → q ≡ p)
    → count p ps ≤ 1
    → find_in pid_of pid (erase ps p) ≡ (if (pid_of p == pid) then none else find_in pid_of pid ps)
unfolding find_in
find_in-erase pid_of pid p [] h l = ground arith
find_in-erase pid_of pid p (q ∷ ps) h l = elim (Bool-cases (q == p)) [
  | inl e ↦
      let e' : q ≡ p = ground arith in
      let gone : pid_of p ≡ pid → find_in pid_of pid ps ≡ none = λ d.
        find_in-none pid_of pid ps
          (λ q' m n. let c = h q' (ground arith) (n ∙ sym d) in ground (arith, c, e')) in
      elim (Bool-cases (pid_of p == pid)) [
        | inl d ↦ let g = gone (ground arith) in ground (arith, e, d, g, e')
        | inr d ↦ ground (arith, e, d, e')
      ]
  | inr e ↦
      let r = find_in-erase pid_of pid p ps (λ q' m. h q' (ground arith)) (ground arith) in
      let same = h q (ground arith) in
      elim (Bool-cases (pid_of p == pid)) [
        | inl d ↦ elim (Bool-cases (pid_of q == pid)) [
          | inl f ↦ let c = same (ground arith) in ground arith
          | inr f ↦ ground (arith, e, d, r, f)
        ]
        | inr d ↦ ground (arith, e, d, r)
      ]
]

-- Once a listed process is taken out of a valid table, its pid finds nothing, and every other pid in
-- range finds what it found before.
pub find_proc-unhash_proc :
    {t : HashTable} (p pid : ℕ)
    → IsTable t
    → 0 < count p (t.hash_list (pid_hashfn (t.pid_of p)))
    → InRange pid
    → find_proc (unhash_proc t p) pid ≡ (if t.pid_of p == pid then none else find_proc t pid)
unfolding unhash_proc
find_proc-unhash_proc {t} p pid v l h =
    let b = pid_hashfn pid in
    rw (in_range t pid h, in_range (unhash_proc t p) pid h)
      (elim (Bool-cases (count p (t.hash_list b) == 0)) [
        | inl e ↦
            let other : (t.pid_of p == pid) ≡ false = ne-== (t.pid_of p) pid (λ d.
              let m : 0 < count p (t.hash_list b) =
                subst (λ x. 0 < count p (t.hash_list (pid_hashfn x))) d l in
              ground (arith, e, m)) in
            rw (other, erase-absent p (t.hash_list b) (ground arith)) refl
        | inr e ↦
            find_in-erase t.pid_of pid p (t.hash_list b) (λ q m. v.distinct b q p m (ground arith))
              (v.once b p)
      ])

-- A process whose pid no listed one has can be hashed: the table stays valid.
pub hash_proc-IsTable :
    {t : HashTable} (p : ℕ)
    → IsTable t
    → ((b q : ℕ) → 0 < count q (t.hash_list b) → t.pid_of q ≢ t.pid_of p)
    → IsTable (hash_proc t p)
unfolding hash_proc
hash_proc-IsTable {t} p v alone =
    let a = pid_hashfn (t.pid_of p) in
    let members : (b q : ℕ)
        → 0 < count q ((hash_proc t p).hash_list b)
        → ((q ≡ p) × (b ≡ a)) ⊎ (0 < count q (t.hash_list b)) =
      λ b q.
        update_cases (λ ps. 0 < count q ps → ((q ≡ p) × (b ≡ a)) ⊎ (0 < count q (t.hash_list b)))
          t.hash_list a (p ∷ t.hash_list a) b
          (λ e l. elim (Bool-cases (p == q)) [
            | inl f ↦ inl (ground arith, e)
            | inr f ↦ inr (rw e (ground (arith, f, l)))
          ])
          (λ n l. inr l) in
    record {
      placed =
          λ b q l. elim (members b q l) [ inl (e, f) ↦ rw (e, f) refl | inr m ↦ v.placed b q m ];
      once = λ b q.
          update_cases (λ ps. count q ps ≤ 1) t.hash_list a (p ∷ t.hash_list a) b
            (λ e.
              let w = v.once a q in
              let n = alone a q in
              elim (Bool-cases (p == q)) [
                | inl f ↦
                    let f' : p ≡ q = ground arith in
                    elim (Bool-cases (count q (t.hash_list a) == 0)) [
                      | inl z ↦ ground (arith, z, f)
                      | inr z ↦ absurd (n (ground arith) (ap t.pid_of (sym f')))
                    ]
                | inr f ↦ ground (arith, f, w)
              ])
            (λ n. v.once b q);
      distinct = λ b q r l m e. elim (members b q l) [
        | inl (f, g) ↦ elim (members b r m) [
          | inl (f', g') ↦ f ∙ sym f'
          | inr m' ↦ absurd (alone b r m' (sym e ∙ ap t.pid_of f))
        ]
        | inr l' ↦ elim (members b r m) [
          | inl (f', g') ↦ absurd (alone b q l' (e ∙ ap t.pid_of f'))
          | inr m' ↦ v.distinct b q r l' m' e
        ]
      ];
    }

-- A process can be taken out: the table stays valid.
pub unhash_proc-IsTable : {t : HashTable} (p : ℕ) → IsTable t → IsTable (unhash_proc t p)
unfolding unhash_proc
unhash_proc-IsTable {t} p v =
    let less = λ (b q : ℕ). count-erase_le q p (t.hash_list b) in
    record {
      placed = λ b q l. let c = less b q in v.placed b q (omega arith);
      once = λ b q. let c = less b q in let w = v.once b q in omega arith;
      distinct = λ b q r l m.
          let c = less b q in let d = less b r in v.distinct b q r (omega arith) (omega arith);
    }
