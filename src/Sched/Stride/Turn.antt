-- ===== src/Sched/Stride/Turn.antt =====
-- kern/schedule/default_sched.c: a whole turn of the stride scheduler.
use a_smart_mlfq_project_bas.Common.{
  ◌==◌, if◌then◌else◌, ne-==, ℕ, zero, suc, ◌+◌, ◌-◌, ◌/◌, ◌%◌, ◌^◌, ◌≤◌, ◌<◌, ◌≡◌, refl, ap, ◌∙◌,
  subst, ◌≢◌, true, some, arith,
}
use a_smart_mlfq_project_bas.Common.Int.{u32}
use a_smart_mlfq_project_bas.Common.Store.{update, update_cases, update_self}
use a_smart_mlfq_project_bas.Heap.{Heap, node, skew_heap_merge, skew_heap_insert, skew_heap_remove}
use a_smart_mlfq_project_bas.Heap.Members.{
  occurs, occurs-merge, occurs-insert, occurs-remove, remove_top,
}
use a_smart_mlfq_project_bas.Heap.Order.{
  AllFrom, IsHeap, AllFrom-occurs, IsHeap-merge, IsHeap-insert, IsHeap-remove, IsHeap-and,
  IsHeap-map,
}
use a_smart_mlfq_project_bas.Sched.Proc.{Proc}
use a_smart_mlfq_project_bas.Sched.RoundRobin.{refill}
use a_smart_mlfq_project_bas.Sched.Stride.{
  StrideState, big_stride, proc_stride_comp_f, stride_enqueue, stride_dequeue, pass, advance,
  pick_top, stride_pick_next,
}
use a_smart_mlfq_project_bas.Sched.Stride.Window.{ahead, InWindow, comp-Compares}

-- The pool is a heap without repetitions, all of whose strides lie in the window of `base`.
pub record IsPool (base : ℕ) (s : StrideState) : Type 0 where
  pub base_u32 : base < 2 ^ 32
  pub ordered : IsHeap (ahead s.procs base) (InWindow s.procs base) s.lab6_run_pool
  pub once : (p : ℕ) → occurs p s.lab6_run_pool ≤ 1

-- The order depends on nothing but the strides.
same_strides :
    (base : ℕ) (procs procs' : ℕ → Proc) (h : Heap)
    → ((x : ℕ) → (procs' x).lab6_stride ≡ (procs x).lab6_stride)
    → IsHeap (ahead procs base) (InWindow procs base) h
    → IsHeap (ahead procs' base) (InWindow procs' base) h
same_strides base procs procs' h e v =
    IsHeap-map (ahead procs base) (ahead procs' base) (InWindow procs base) (InWindow procs' base)
      (λ a w. let f = e a in (omega arith, ground (arith, w.1, f)))
      (λ a b p q l. let f = e a in let g = e b in ground (arith, f, g, l)) h v

-- the distances from a new base within the window
rebase :
    (a b base : ℕ)
    → a < 2 ^ 32
    → b < 2 ^ 32
    → base < 2 ^ 32
    → u32 (b + 2 ^ 32 - base) ≤ u32 (a + 2 ^ 32 - base)
    → u32 (a + 2 ^ 32 - b) ≡ u32 (a + 2 ^ 32 - base) - u32 (b + 2 ^ 32 - base)
rebase a b base ha hb hc l = omega arith

pass_bound : (priority : ℕ) → pass priority ≤ big_stride
unfolding pass
pass_bound priority = grind arith

module _ (base : ℕ) {s : StrideState} (v : IsPool base s) where
  -- A process in the window of the base that is not in a valid pool is added once, the others are as
  -- before, and the pool stays valid.
  pub stride_enqueue-IsPool :
      (p : ℕ)
      → occurs p s.lab6_run_pool ≡ 0
      → InWindow s.procs base p
      → IsPool base (stride_enqueue s p)
        × ((x : ℕ)
            → occurs x (stride_enqueue s p).lab6_run_pool
              ≡ (if p == x then 1 else 0) + occurs x s.lab6_run_pool)
  unfolding stride_enqueue
  stride_enqueue-IsPool p new w =
      let comp = proc_stride_comp_f s.procs in
      let h =
        IsHeap-insert comp (ahead s.procs base) (InWindow s.procs base)
          (comp-Compares s.procs base v.base_u32) s.lab6_run_pool p v.ordered w in
      (
        record {
          base_u32 = v.base_u32;
          ordered =
              same_strides base s.procs
                (update s.procs p (record (s.procs p) {
                  time_slice = refill (s.procs p).time_slice s.rq.max_time_slice;
                  on_rq = true;
                }))
                (skew_heap_insert comp s.lab6_run_pool p)
                (λ x.
                  update_cases (λ q. q.lab6_stride ≡ (s.procs x).lab6_stride) s.procs p
                    (record (s.procs p) {
                      time_slice = refill (s.procs p).time_slice s.rq.max_time_slice;
                      on_rq = true;
                    })
                    x (λ e. rw e refl) (λ n. refl))
                h;
          once = λ x.
              let e = occurs-insert comp x s.lab6_run_pool p in
              let o = v.once x in ground (arith, o, e, new);
        },
        λ x. occurs-insert comp x s.lab6_run_pool p,
      )

  pub stride_dequeue-IsPool :
      (p : ℕ)
      → IsPool base (stride_dequeue s p)
        × ((x : ℕ)
            → occurs x (stride_dequeue s p).lab6_run_pool
              ≡ (if p == x then 0 else occurs x s.lab6_run_pool))
  unfolding stride_dequeue
  stride_dequeue-IsPool p =
      let comp = proc_stride_comp_f s.procs in
      (
        record {
          base_u32 = v.base_u32;
          ordered =
              IsHeap-remove comp (ahead s.procs base) (InWindow s.procs base)
                (comp-Compares s.procs base v.base_u32) s.lab6_run_pool p v.ordered;
          once = λ x.
              let e = occurs-remove comp x s.lab6_run_pool p (v.once p) in
              let o = v.once x in ground arith;
        },
        λ x. occurs-remove comp x s.lab6_run_pool p (v.once p),
      )

  -- A part of the pool that does not hold p and stands behind it, seen from the stride of p, once that
  -- of p is another.
  rebase_part :
      (p : ℕ) (q : Proc) (h : Heap)
      → InWindow s.procs base p
      → IsHeap (ahead s.procs base) (InWindow s.procs base) h
      → AllFrom (ahead s.procs base) (ahead s.procs base p) h
      → occurs p h ≡ 0
      → IsHeap
          (ahead (update s.procs p q) (s.procs p).lab6_stride)
          (InWindow (update s.procs p q) (s.procs p).lab6_stride)
          h
  rebase_part p q h w g f z =
      let K = ahead s.procs base in
      let base' = (s.procs p).lab6_stride in
      let Q = λ (x : ℕ). (x ≢ p) × (K p ≤ K x) in
      let stays : (x : ℕ) → x ≢ p → update s.procs p q x ≡ s.procs x =
        λ x n. rw (ne-== x p n) refl in
      let new : (x : ℕ)
          → InWindow s.procs base x × Q x
          → ahead (update s.procs p q) base' x ≡ K x - K p =
        λ x m.
          ap (λ r. u32 (r.lab6_stride + 2 ^ 32 - base')) (stays x m.1.0)
          ∙ rebase (s.procs x).lab6_stride base' base m.0.0 w.0 v.base_u32 m.1.1 in
      IsHeap-map K (ahead (update s.procs p q) base') (λ x. InWindow s.procs base x × Q x)
        (InWindow (update s.procs p q) base')
        (λ x m. let e = new x m in let o = m.0.1 in (rw (stays x m.1.0) m.0.0, omega arith))
        (λ x y m n l. let e = new x m in let f = new y n in omega arith) h
        (IsHeap-and K (InWindow s.procs base) Q h g (λ x o. (
          λ e. let t = subst (λ y. 0 < occurs y h) e o in omega arith,
          AllFrom-occurs K (K p) x h f o,
        )))

-- The stride of a process after its choice, seen from its stride before.
advance_InWindow :
    (q : Proc)
    → q.lab6_stride < 2 ^ 32
    → ((advance q).lab6_stride < 2 ^ 32)
      × (u32 ((advance q).lab6_stride + 2 ^ 32 - q.lab6_stride) ≤ big_stride)
unfolding advance
advance_InWindow q h = let b = pass_bound q.lab6_priority in (omega arith, omega arith)

-- the stride after a turn of a process with a priority: a step of 0x7FFFFFFF divided by it, on 32 bits
abbrev pub stepped : ℕ → ℕ → ℕ
stepped stride zero = (stride + 2147483647) % 4294967296
stepped stride (suc n) = (stride + 2147483647 / suc n) % 4294967296

pass-stepped : (stride priority : ℕ) → u32 (stride + pass priority) ≡ stepped stride priority
unfolding pass
pass-stepped stride zero = refl
pass-stepped stride (suc n) = ground arith

advance-stepped : (q : Proc) → (advance q).lab6_stride ≡ stepped q.lab6_stride q.lab6_priority
unfolding advance
advance-stepped q = pass-stepped q.lab6_stride q.lab6_priority

-- A turn of the stride scheduler from a valid pool with the process p on top. It chooses p, which is
-- ahead of the base by no more than any other process of the pool; once p is taken out, the pool is
-- valid for the old stride of p as the base, holds the others as before, and p with its new stride is
-- in the window of that base, so that it can be put back. The new stride is the old one and 0x7FFFFFFF
-- divided by the priority (as a whole for priority 0), on 32 bits, and the others keep theirs.
pub stride_turn :
    (base : ℕ) {s : StrideState} (l r : Heap) (p : ℕ)
    → IsPool base s
    → s.lab6_run_pool ≡ node l p r
    → (t : StrideState) × (stride_pick_next s ≡ (t, some p))
      × ((x : ℕ) → 0 < occurs x s.lab6_run_pool → ahead s.procs base p ≤ ahead s.procs base x)
      × IsPool (s.procs p).lab6_stride (stride_dequeue t p)
      × InWindow (stride_dequeue t p).procs (s.procs p).lab6_stride p
      × ((x : ℕ)
          → occurs x (stride_dequeue t p).lab6_run_pool
            ≡ (if p == x then 0 else occurs x s.lab6_run_pool))
      × ((t.procs p).lab6_stride ≡ stepped (s.procs p).lab6_stride (s.procs p).lab6_priority)
      × ((x : ℕ) → x ≢ p → t.procs x ≡ s.procs x)
unfolding stride_pick_next pick_top stride_dequeue
stride_turn base {s} l r p v e =
    let K = ahead s.procs base in
    let W = InWindow s.procs base in
    let base' = (s.procs p).lab6_stride in
    let q = advance (s.procs p) in
    let procs' = update s.procs p q in
    let comp = proc_stride_comp_f procs' in
    let o = subst (λ h. IsHeap K W h) e v.ordered in
    let c = subst (λ h. (x : ℕ) → occurs x h ≤ 1) e v.once in
    let cp = c p in
    let left = rebase_part base v p q l o.0 o.3 o.1 (ground arith) in
    let right = rebase_part base v p q r o.0 o.4 o.2 (ground arith) in
    let removed : skew_heap_remove comp s.lab6_run_pool p ≡ skew_heap_merge comp l r =
      ap (λ h. skew_heap_remove comp h p) e ∙ remove_top comp l p r in
    (
      record s { procs = procs' },
      ap (pick_top s) e,
      λ x m.
          AllFrom-occurs K (K p) x (node l p r) (omega arith, o.1, o.2)
            (subst (λ h. 0 < occurs x h) e m),
      record {
        base_u32 = o.0.0;
        ordered = rw removed (
            IsHeap-merge comp (ahead procs' base') (InWindow procs' base')
              (comp-Compares procs' base' o.0.0) l r left right);
        once = λ x. let u = occurs-merge comp x l r in let d = c x in rw removed (ground arith);
      },
      rw (update_self s.procs p q) (advance_InWindow (s.procs p) o.0.0),
      λ x. occurs-remove comp x s.lab6_run_pool p (v.once p),
      ap (λ a. a.lab6_stride) (update_self s.procs p q) ∙ advance-stepped (s.procs p),
      λ x n. rw (ne-== x p n) refl,
    )
