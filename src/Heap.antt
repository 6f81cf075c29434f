-- ===== src/Heap.antt =====
-- libs/skew_heap.h: the skew heap under the stride scheduler.
--
-- An entry is named by its address. The tree under an entry is a value; its `parent` pointers are
-- where the entry stands in the tree, and `skew_heap_remove` uses them only to find that place.
pub mod Order
pub mod Contents
pub mod Members
mod Tests
use a_smart_mlfq_project_bas.Common.{◌==◌, if◌then◌else◌, ℕ, true, false}
use a_smart_mlfq_project_bas.Common.Int.{ℤ, negsuc, eqb_ℤ}

pub data Heap : Type 0 where
  leaf : Heap
  node : (left : Heap) → (entry : ℕ) → (right : Heap) → Heap

-- `skew_heap_merge` with a first heap that is not empty: `sub` merges with its right part
unfoldable pub merge_into : (ℕ → ℕ → ℤ) → Heap → ℕ → Heap → (Heap → Heap) → Heap → Heap
merge_into comp l a r sub leaf = node l a r
merge_into comp l a r sub (node l' b r') = elim (eqb_ℤ (comp a b) (negsuc 0)) [
  | true ↦ node (sub (node l' b r')) a l
  | false ↦ node (merge_into comp l a r sub r') b l'
]

unfoldable pub skew_heap_merge : (ℕ → ℕ → ℤ) → Heap → Heap → Heap
skew_heap_merge comp leaf h = h
skew_heap_merge comp (node l a r) h = merge_into comp l a r (skew_heap_merge comp r) h

unfoldable pub skew_heap_insert : (ℕ → ℕ → ℤ) → Heap → ℕ → Heap
skew_heap_insert comp h b = skew_heap_merge comp h (node leaf b leaf)

-- The entry is replaced by the merge of what stands under it.
unfoldable pub skew_heap_remove : (ℕ → ℕ → ℤ) → Heap → ℕ → Heap
skew_heap_remove comp leaf b = leaf
skew_heap_remove comp (node l a r) b =
    if a == b
    then skew_heap_merge comp l r
    else node (skew_heap_remove comp l b) a (skew_heap_remove comp r b)
