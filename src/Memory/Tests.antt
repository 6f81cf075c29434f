-- ===== src/Memory/Tests.antt =====
-- Areas at concrete addresses.
use a_smart_mlfq_project_bas.Common.{
  ◌==◌, if◌then◌else◌, count, ℕ, ◌≤◌, ◌<◌, ◌≡◌, ◌⊎◌, inl, inr, Bool, true, false, Option, some, [],
  ◌∷◌, arith,
}
use a_smart_mlfq_project_bas.Memory.{
  Vma, Mm, vma_create, find_listed, find_vma, insert_vma_struct, check_from,
}
use a_smart_mlfq_project_bas.Memory.Access.{IsAllowed, check_from_lem}
use a_smart_mlfq_project_bas.Memory.Find.{IsCache, Answers, find_vma_lem}
use a_smart_mlfq_project_bas.Memory.Insert.{Apart, insert_vma_struct_lem}

-- three areas: from 10 to 20, from 30 to 40, and a new one from 20 to 30
abbrev areas : ℕ → Vma
areas m =
    if m == 1 then vma_create 10 20 0 else if m == 2 then vma_create 30 40 0 else vma_create 20 30 0

abbrev space : Mm
space = record { mmap_list = 1 ∷ 2 ∷ []; mmap_cache = some 2; map_count = 2 }

insert_vma_struct_example :
    (t : Mm) × (insert_vma_struct areas space 3 ≡ some t)
    × Apart areas 0 t.mmap_list
    × ((x : ℕ) → count x t.mmap_list ≡ count x (3 ∷ 1 ∷ 2 ∷ []))
    × (t.map_count ≡ 3)
unfolding vma_create
insert_vma_struct_example =
    insert_vma_struct_lem areas space 3 (omega arith) (omega arith)
      (inr (omega arith), (inl (omega arith), tt))

find_vma_example :
    (t : Mm) × (r : Option ℕ) × (find_vma areas space 15 ≡ (t, r))
    × (r ≡ find_listed areas 15 (1 ∷ 2 ∷ []))
    × Answers areas space 15 r
    × (t.mmap_list ≡ 1 ∷ 2 ∷ [])
    × IsCache space t.mmap_cache
unfolding vma_create
find_vma_example = find_vma_lem areas space 15 (omega arith) (omega arith)

-- two areas that may be read and written, from 10 to 20 and from 20 to 30
abbrev open_areas : ℕ → Vma
open_areas m = if m == 1 then vma_create 10 20 3 else vma_create 20 30 3

check_from_example :
    (t : Mm) × (b : Bool) × (check_from 16 true open_areas space 12 28 ≡ some (t, b))
    × (((b ≡ true) × ((a : ℕ) → 12 ≤ a → a < 28 → IsAllowed true open_areas (1 ∷ 2 ∷ []) a))
        ⊎ ((b ≡ false)
            × ((a : ℕ) × (12 ≤ a) × (a < 28) × ¬ IsAllowed true open_areas (1 ∷ 2 ∷ []) a)))
unfolding vma_create
check_from_example =
    check_from_lem 16 true open_areas space 12 28 (omega arith) (omega arith) (omega arith)
