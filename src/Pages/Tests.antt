-- ===== src/Pages/Tests.antt =====
-- kern/mm/default_pmm.c at concrete areas.
use a_smart_mlfq_project_bas.Common.{
  ◌==◌, if◌then◌else◌, ℕ, ◌≤◌, ◌<◌, ◌≡◌, refl, true, ◌||◌, not, none, some, [], ◌∷◌, arith,
}
use a_smart_mlfq_project_bas.Pages.{Page, FreeArea, default_alloc_pages, default_free_pages}
use a_smart_mlfq_project_bas.Pages.Alloc.{default_alloc_pages-some, default_alloc_pages-none}
use a_smart_mlfq_project_bas.Pages.Blocks.{IsArea}
use a_smart_mlfq_project_bas.Pages.Coalesce.{default_free_pages_lem}

-- pages 2 to 4 and 8 to 9 are free; 5 to 7 are taken
abbrev some_pages : ℕ → Page
some_pages p = record {
  ref = 0;
  reserved = not ((p == 2) || (p == 8));
  is_head = (p == 2) || (p == 8);
  property = if p == 2 then 3 else (if p == 8 then 2 else 0);
}

abbrev some_area : FreeArea
some_area = record { pages = some_pages; free_list = 2 ∷ 3 ∷ 4 ∷ 8 ∷ 9 ∷ []; nr_free = 5 }

some_area-IsArea : IsArea some_area ((2, 3) ∷ (8, 2) ∷ [])
some_area-IsArea = record {
  listed = refl;
  blocks = (
    omega arith,
    omega arith,
    refl,
    λ i g l. ground arith,
    (omega arith, omega arith, refl, λ i g l. ground arith, tt),
  );
  counted = refl;
}

alloc_some_example :
    (t : FreeArea) × (default_alloc_pages some_area 2 ≡ some (t, some 2))
    × IsArea t ((4, 1) ∷ (8, 2) ∷ [])
    × ((i : ℕ) → 2 ≤ i → i < 4 → (t.pages i).reserved ≡ true)
alloc_some_example =
    default_alloc_pages-some some_area 2 2 3 [] ((8, 2) ∷ []) some_area-IsArea (omega arith) tt
      (omega arith)

alloc_none_example : default_alloc_pages some_area 4 ≡ some (some_area, none)
alloc_none_example =
    default_alloc_pages-none some_area 4 ((2, 3) ∷ (8, 2) ∷ []) some_area-IsArea (omega arith)
      (omega arith, (omega arith, tt))

-- the pages between the two blocks join them
free_example : (t : FreeArea) × (default_free_pages some_area 5 3 ≡ some t) × IsArea t ((2, 8) ∷ [])
free_example =
    default_free_pages_lem some_area 5 3 ((2, 3) ∷ []) ((8, 2) ∷ []) some_area-IsArea (omega arith)
      (omega arith, tt) (omega arith, omega arith, refl, λ i g l. ground arith, tt) refl
      (λ i g l. ground arith) (omega arith)
