-- ===== src/Heap/Contents.antt =====
-- libs/skew_heap.h: insertion and removal, the order and the contents together.
use a_smart_mlfq_project_bas.Common.{◌==◌, if◌then◌else◌, ℕ, ◌+◌, ◌≡◌}
use a_smart_mlfq_project_bas.Common.Int.{ℤ}
use a_smart_mlfq_project_bas.Heap.{Heap, skew_heap_insert}
use a_smart_mlfq_project_bas.Heap.Members.{occurs, occurs-insert}
use a_smart_mlfq_project_bas.Heap.Order.{Compares, IsHeap, IsHeap-insert}

module _ (comp : ℕ → ℕ → ℤ) (key : ℕ → ℕ) (P : ℕ → Type 0) (c : Compares comp key P) where
  -- Where the comparison is that of a key, inserting an entry with the property of the entries leaves a
  -- heap that holds this entry once more than before and each other entry as often as before.
  pub skew_heap_insert_lem :
      (h : Heap) (b : ℕ)
      → IsHeap key P h
      → P b
      → IsHeap key P (skew_heap_insert comp h b)
        × ((x : ℕ) → occurs x (skew_heap_insert comp h b) ≡ (if b == x then 1 else 0) + occurs x h)
  skew_heap_insert_lem h b v p = (IsHeap-insert comp key P c h b v p, λ x. occurs-insert comp x h b)
