-- ===== src/Heap/Tests.antt =====
-- The skew heap with the addresses as keys.
use a_smart_mlfq_project_bas.Common.{
  ltb, ◌==◌, if◌then◌else◌, Bool-cases, ℕ, ◌+◌, ◌≡◌, refl, inl, inr, arith,
}
use a_smart_mlfq_project_bas.Common.Int.{ℤ, pos, negsuc}
use a_smart_mlfq_project_bas.Heap.{Heap, leaf, node, merge_into, skew_heap_merge, skew_heap_insert}
use a_smart_mlfq_project_bas.Heap.Contents.{skew_heap_insert_lem}
use a_smart_mlfq_project_bas.Heap.Members.{occurs}
use a_smart_mlfq_project_bas.Heap.Order.{Compares, IsHeap}

abbrev by_address : ℕ → ℕ → ℤ
by_address a b = if ltb a b then negsuc 0 else pos 0

abbrev Anything : ℕ → Type 0
Anything a = a ≡ a

by_address-Compares : Compares by_address (λ a. a) Anything
by_address-Compares a b p q = elim (Bool-cases (ltb a b)) [
  | inl e ↦ (λ f. ground arith, λ l. rw e refl)
  | inr e ↦ (λ f. absurd (ground (arith, e, f)), λ l. ground arith)
]

abbrev three : Heap
three = node (node leaf 5 leaf) 2 (node leaf 3 leaf)

three-IsHeap : IsHeap (λ a. a) Anything three
three-IsHeap = (refl, omega arith, omega arith, (refl, tt, tt, tt, tt), (refl, tt, tt, tt, tt))

insert_4 :
    skew_heap_insert by_address three 4 ≡ node (node (node leaf 4 leaf) 3 leaf) 2 (node leaf 5 leaf)
unfolding skew_heap_insert skew_heap_merge merge_into
insert_4 = refl

skew_heap_insert_lem_example :
    IsHeap (λ a. a) Anything (skew_heap_insert by_address three 4)
    × ((x : ℕ)
        → occurs x (skew_heap_insert by_address three 4)
          ≡ (if 4 == x then 1 else 0) + occurs x three)
skew_heap_insert_lem_example =
    skew_heap_insert_lem by_address (λ a. a) Anything by_address-Compares three 4 three-IsHeap refl
