-- ===== src/Heap/Members.antt =====
-- libs/skew_heap.h: what the heaps hold.
use a_smart_mlfq_project_bas.Common.{◌==◌, if◌then◌else◌, ℕ, ◌+◌, ◌≤◌, ◌≡◌, arith}
use a_smart_mlfq_project_bas.Common.Int.{ℤ}
use a_smart_mlfq_project_bas.Heap.{
  Heap, leaf, node, merge_into, skew_heap_merge, skew_heap_insert, skew_heap_remove,
}

-- how often an entry stands in a heap
abbrev pub occurs : ℕ → Heap → ℕ
occurs x leaf = 0
occurs x (node l a r) = (if a == x then 1 else 0) + occurs x l + occurs x r

occurs-merge_into :
    (comp : ℕ → ℕ → ℤ) (x : ℕ) (l : Heap) (a : ℕ) (r : Heap) (sub : Heap → Heap) (h : Heap)
    → ((g : Heap) → occurs x (sub g) ≡ occurs x r + occurs x g)
    → occurs x (merge_into comp l a r sub h) ≡ occurs x (node l a r) + occurs x h
unfolding merge_into
occurs-merge_into comp x l a r sub leaf e = omega arith
occurs-merge_into comp x l a r sub (node l' b r') e =
    let u = e (node l' b r') in
    let v = occurs-merge_into comp x l a r sub r' e in ground (arith, u, v)

-- A merge holds what the two heaps held.
pub occurs-merge :
    (comp : ℕ → ℕ → ℤ) (x : ℕ) (g h : Heap)
    → occurs x (skew_heap_merge comp g h) ≡ occurs x g + occurs x h
unfolding skew_heap_merge
occurs-merge comp x leaf h = omega arith
occurs-merge comp x (node l a r) h =
    occurs-merge_into comp x l a r (skew_heap_merge comp r) h (λ g. occurs-merge comp x r g)

-- The entry that is inserted is added once, and the others are as before.
pub occurs-insert :
    (comp : ℕ → ℕ → ℤ) (x : ℕ) (h : Heap) (b : ℕ)
    → occurs x (skew_heap_insert comp h b) ≡ (if b == x then 1 else 0) + occurs x h
unfolding skew_heap_insert
occurs-insert comp x h b = let e = occurs-merge comp x h (node leaf b leaf) in ground arith

-- From a heap without repetitions the entry is taken out, and the others are as before.
pub occurs-remove :
    (comp : ℕ → ℕ → ℤ) (x : ℕ) (h : Heap) (b : ℕ)
    → occurs b h ≤ 1
    → occurs x (skew_heap_remove comp h b) ≡ (if b == x then 0 else occurs x h)
unfolding skew_heap_remove
occurs-remove comp x leaf b o = ground arith
occurs-remove comp x (node l a r) b o =
    let e = occurs-merge comp x l r in
    let u = occurs-remove comp x l b (ground arith) in
    let v = occurs-remove comp x r b (ground arith) in ground (arith, u, v, e)

-- To remove the entry on top is to merge what stands under it.
pub remove_top :
    (comp : ℕ → ℕ → ℤ) (l : Heap) (a : ℕ) (r : Heap)
    → skew_heap_remove comp (node l a r) a ≡ skew_heap_merge comp l r
unfolding skew_heap_remove
remove_top comp l a r = ground arith
