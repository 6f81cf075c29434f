-- ===== src/Sched/RoundRobin/Rotation.antt =====
-- Turns of the round-robin class (kern/schedule/rr_sched.c under sched.c): every process in the queue
-- runs for its slice before any runs again.
use mathlib.Core.List.{append-nil, append_assoc}
use a_smart_mlfq_project_bas.Common.{
  ◌==◌, ==_iff, Bool-cases, ◌>>=◌, length, count, count-append, ℕ, zero, suc, ◌<◌, ◌≡◌, refl, sym,
  ap, ◌∙◌, subst, ◌≢◌, inl, inr, false, Option, some, List, [], ◌∷◌, ◌++◌, map, arith,
}
use a_smart_mlfq_project_bas.Common.Int.{ℤ, pos, negsuc, pos_part, ◌<ℤ◌}
use a_smart_mlfq_project_bas.Sched.Framework.{Kernel, proc_at, schedule}
use a_smart_mlfq_project_bas.Sched.RoundRobin.{rr_sched_class}
use a_smart_mlfq_project_bas.Sched.RoundRobin.Switch.{
  ring, IsRunning, put_back, put_back_self, put_back_other, put_back_max, switched_to, schedule-eq,
  switched_to_slice, switched_to-IsRunning,
}
use a_smart_mlfq_project_bas.Sched.RoundRobin.Ticks.{run_until, run_until_lem}
use a_smart_mlfq_project_bas.Sched.State.{is_linked}

-- One turn without a wake-up: the current process runs until it has to give the processor up, and
-- `schedule` switches to the next one. It ends with the process that ran and its ticks.
abbrev pub turn : Kernel → Option (Kernel × ℕ × ℕ)
turn k = do
  ran ← run_until (pos_part k.sched.rq.max_time_slice) k
  k' ← schedule rr_sched_class ran.0
  some (k', k.current, ran.1)

abbrev pub turns : ℕ → Kernel → Option (Kernel × List (ℕ × ℕ))
turns zero k = some (k, [])
turns (suc n) k = turn k >>= λ r. turns n r.0 >>= λ q. some (q.0, (r.1, r.2) ∷ q.1)

-- the ticks that a process has left
abbrev pub ticks_left : Kernel → ℕ → ℕ
ticks_left k p = pos_part (proc_at k p).time_slice

-- What a turn leaves: the process that ran is the last one with a full slice, and the others have
-- the slices they had.
record HasTurned (k k' : Kernel) : Type 0 where
  running : IsRunning k'
  rotated : ring k' ≡ k.sched.rq.run_list ++ (k.current ∷ [])
  max_slice : k'.sched.rq.max_time_slice ≡ k.sched.rq.max_time_slice
  refilled : (proc_at k' k.current).time_slice ≡ k.sched.rq.max_time_slice
  others : (a : ℕ) → a ≢ k.current → (proc_at k' a).time_slice ≡ (proc_at k a).time_slice

positive-suc : (z : ℤ) → pos 0 <ℤ z → (n : ℕ) × (z ≡ pos (suc n))
positive-suc (pos zero) h = absurd (omega arith)
positive-suc (pos (suc n)) h = (n, refl)
positive-suc (negsuc n) h = absurd (omega arith)

snoc_cons : (xs : List ℕ) (c : ℕ) → (x : ℕ) × (rest : List ℕ) × (xs ++ (c ∷ []) ≡ x ∷ rest)
snoc_cons [] c = (c, [], refl)
snoc_cons (x ∷ xs) c = (x, xs ++ (c ∷ []), refl)

turn-eq :
    (k k₁ k' : Kernel) (n : ℕ)
    → run_until (pos_part k.sched.rq.max_time_slice) k ≡ some (k₁, n)
    → schedule rr_sched_class k₁ ≡ some k'
    → turn k ≡ some (k', k.current, n)
turn-eq k k₁ k' n ran sch = rw (ran, sch) refl

turn_lem :
    (k : Kernel)
    → IsRunning k
    → (k' : Kernel) × (turn k ≡ some (k', k.current, ticks_left k k.current)) × HasTurned k k'
turn_lem k v =
    let c = k.current in
    let (n, left) = positive-suc _ v.some_left in
    let enough : n < pos_part k.sched.rq.max_time_slice = ground (arith, rw left at v.not_long) in
    let alone : 0 < count c (ring k) = ground arith in
    let (t, ran, h) = run_until_lem n _ k v.valid v.free v.not_idle left (v.calm c alone) enough in
    let k₁ = record k { sched = t } in
    let (x, rest, e) = snoc_cons k.sched.rq.run_list c in
    let e₁ : t.rq.run_list ++ (c ∷ []) ≡ x ∷ rest = rw h.rq e in
    let (sch, w, l, on) = schedule-eq k₁ x h.valid (h.state ∙ v.ready) h.free v.not_idle rest e₁ in
    let s = put_back t c in
    let ic : k.idleproc ≢ c = λ q. v.not_idle (sym q) in
    let idle : is_linked (s.procs k.idleproc).run_link ≡ false =
      ap (λ q. is_linked q.run_link) (put_back_other t c k.idleproc ic ∙ h.others k.idleproc ic)
      ∙ v.idle_free in
    let back : (a : ℕ) → 0 < count a (x ∷ rest) → 0 < count a (ring k) = λ a m.
      let m' = subst (λ ys. 0 < count a ys) (sym e) m in
      let o = count-append a k.sched.rq.run_list (c ∷ []) in ground (arith, m', o) in
    let quiet : (a : ℕ) → 0 < count a (x ∷ rest) → (s.procs a).need_resched ≡ false = λ a m.
      elim (Bool-cases (a == c)) [
        | inl same ↦ let d : a ≡ c = ground arith in rw d (put_back_self t c h.used).1
        | inr other ↦
            let ne : a ≢ c = ground arith in
            ap (λ q. q.need_resched) (put_back_other t c a ne ∙ h.others a ne) ∙ v.calm a (back a m)
      ] in
    let (r, g) = switched_to-IsRunning k₁ s x rest w l on idle quiet in
    (
      switched_to k₁ s x,
      turn-eq k k₁ _ _ ran sch ∙ ap (λ m. some (switched_to k₁ s x, c, m)) (sym (ap pos_part left)),
      record {
        running = r;
        rotated = g ∙ sym e;
        max_slice = put_back_max t c ∙ ap (λ q. q.max_time_slice) h.rq;
        refilled =
            switched_to_slice k₁ s x c
            ∙ (put_back_self t c h.used).0
            ∙ ap (λ q. q.max_time_slice) h.rq;
        others = λ a ne.
            switched_to_slice k₁ s x a
            ∙ ap (λ q. q.time_slice) (put_back_other t c a ne ∙ h.others a ne);
      },
    )

map_same {ℓ} :
    {A : Type ℓ} (f g : ℕ → A) (xs : List ℕ)
    → ((a : ℕ) → 0 < count a xs → f a ≡ g a)
    → map f xs ≡ map g xs
map_same f g [] h = refl
map_same f g (x ∷ xs) h =
    let e = h x (ground arith) in
    let r = map_same f g xs (λ a m. h a (ground arith)) in rw (e, r) refl

turns-step :
    (k k₁ k' : Kernel) (n p m : ℕ) (l : List (ℕ × ℕ))
    → turn k ≡ some (k₁, p, m)
    → turns n k₁ ≡ some (k', l)
    → turns (suc n) k ≡ some (k', (p, m) ∷ l)
turns-step k k₁ k' n p m l t r = rw (t, r) refl

once_in_front :
    (k : Kernel) (x : ℕ) (xs ys : List ℕ)
    → IsRunning k
    → k.current ≡ x
    → k.sched.rq.run_list ≡ xs ++ ys
    → count x xs ≡ 0
once_in_front k x xs ys v same tail =
    let none_there : count k.current k.sched.rq.run_list ≡ 0 =
      ground (arith, v.valid.once k.current, v.free) in
    let here : count x (xs ++ ys) ≡ 0 =
      ap (λ l. count x l) (sym tail)
      ∙ ap (λ c. count c k.sched.rq.run_list) (sym same)
      ∙ none_there in
    let o = count-append x xs ys in omega arith

apart : (a x : ℕ) (xs : List ℕ) → 0 < count a xs → count x xs ≡ 0 → a ≢ x
apart a x xs m z q = let m' = subst (λ y. 0 < count y xs) q m in omega arith

head_counts : (a x : ℕ) (xs : List ℕ) → count a (x ∷ xs) ≡ 0 → a ≢ x
head_counts a x xs m q = let e = (==_iff a x).1 q in absurd (ground arith)

-- Where the processes that take turns are `xs` in front of `ys`, as many turns as `xs` is long run the
-- processes of `xs`, in their order, each for exactly the ticks that its slice had left. Then they
-- stand behind `ys`, each with a full slice, and the processes outside `xs` have the slices they had.
pub rr_rotates :
    {k : Kernel} (xs ys : List ℕ)
    → IsRunning k
    → ring k ≡ xs ++ ys
    → (k' : Kernel) × (turns (length xs) k ≡ some (k', map (λ p. (p, ticks_left k p)) xs))
      × IsRunning k'
      × (ring k' ≡ ys ++ xs)
      × ((a : ℕ) → 0 < count a xs → (proc_at k' a).time_slice ≡ k.sched.rq.max_time_slice)
      × ((a : ℕ) → count a xs ≡ 0 → (proc_at k' a).time_slice ≡ (proc_at k a).time_slice)
rr_rotates {k} [] ys v e =
    (k, refl, v, e ∙ sym (append-nil ys), λ a m. absurd (omega arith), λ a m. refl)
rr_rotates {k} (x ∷ xs) ys v e =
    let same : k.current ≡ x = ground arith in
    let tail : k.sched.rq.run_list ≡ xs ++ ys = ground arith in
    let (k₁, t, h) = turn_lem k v in
    let (k', r, v', g, full, kept) = rr_rotates {k = k₁} xs (ys ++ (x ∷ [])) h.running (
      h.rotated
      ∙ ap (λ l. l ++ (k.current ∷ [])) tail
      ∙ ap (λ (c : ℕ). (xs ++ ys) ++ (c ∷ [])) same
      ∙ append_assoc xs ys (x ∷ [])) in
    let alone : count x xs ≡ 0 = once_in_front k x xs ys v same tail in
    let others : (a : ℕ) → a ≢ x → (proc_at k₁ a).time_slice ≡ (proc_at k a).time_slice =
      λ a ne. h.others a (λ q. ne (q ∙ same)) in
    let log : map (λ p. (p, ticks_left k₁ p)) xs ≡ map (λ p. (p, ticks_left k p)) xs =
      map_same _ _ xs (λ a m. ap (λ z. (a, pos_part z)) (others a (λ q. apart a x xs m alone q))) in
    let mine : (proc_at k' x).time_slice ≡ k.sched.rq.max_time_slice =
      kept x alone ∙ ap (λ a. (proc_at k₁ a).time_slice) (sym same) ∙ h.refilled in
    (
      k',
      turns-step k k₁ k' (length xs) _ _ _ t r
          ∙ ap (λ l. some (k', (k.current, ticks_left k k.current) ∷ l)) log
          ∙ ap (λ c. some (k', (c, ticks_left k c) ∷ map (λ p. (p, ticks_left k p)) xs)) same,
      v',
      g ∙ append_assoc ys (x ∷ []) xs,
      λ a m. elim (Bool-cases (a == x)) [
        | inl q ↦ let d : a ≡ x = ground arith in rw d mine
        | inr q ↦ full a (ground arith) ∙ h.max_slice
      ],
      λ a m. let ne : a ≢ x = λ q. head_counts a x xs m q in kept a (ground arith) ∙ others a ne,
    )
