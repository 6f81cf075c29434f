-- ===== src/Pages.antt =====
-- kern/mm/default_pmm.c: the page allocator. A page descriptor is named by its index, so the next one
-- in memory has the next number. The free list is the list of the indices, without its head; the page
-- that the code would make of that head is no page.
pub mod Blocks
pub mod Fit
pub mod Alloc
pub mod Join
pub mod Free
pub mod Coalesce
mod Tests
use a_smart_mlfq_project_bas.Common.{
  ltb, leb, ◌==◌, if◌then◌else◌, ◌>>=◌, ◌>>◌, assert, ℕ, zero, suc, ◌+◌, ◌-◌, Bool, true, false,
  Option, none, some, List, [], ◌∷◌, ◌++◌,
}
use a_smart_mlfq_project_bas.Common.Int.{u32}
use a_smart_mlfq_project_bas.Common.Store.{update}

-- `struct Page`, but for the links and what the page replacement uses
pub record Page : Type 0 where
  pub ref : ℕ
  pub reserved : Bool  -- PG_reserved
  pub is_head : Bool  -- PG_property
  pub property : ℕ

pub record FreeArea : Type 0 where
  pub pages : ℕ → Page
  pub free_list : List ℕ
  pub nr_free : ℕ  -- unsigned int

unfoldable pub default_init : FreeArea → FreeArea
default_init s = record s { free_list = []; nr_free = 0 }

-- one round of the loop of `default_init_memmap`
unfoldable pub init_page : FreeArea → ℕ → Option FreeArea
init_page s p = do
  assert (s.pages p).reserved
  some (record s {
    pages = update s.pages p (record { ref = 0; reserved = false; is_head = true; property = 0 });
    free_list = s.free_list ++ p ∷ [];
  })

unfoldable pub init_pages : ℕ → FreeArea → ℕ → Option FreeArea
init_pages zero s p = some s
init_pages (suc n) s p = init_page s p >>= λ t. init_pages n t (suc p)

abbrev pub set_property : (ℕ → Page) → ℕ → ℕ → (ℕ → Page)
set_property pages p n = update pages p (record (pages p) { property = n })

unfoldable pub default_init_memmap : FreeArea → ℕ → ℕ → Option FreeArea
default_init_memmap s base n = do
  assert (ltb 0 n)
  t ← init_pages n s base
  some (record t { pages = set_property t.pages base n; nr_free = u32 (t.nr_free + n) })

-- The walk to the first page whose block is long enough: what stands before it, the page, and what
-- stands behind it.
unfoldable pub find_fit : (ℕ → Page) → ℕ → List ℕ → Option (List ℕ × ℕ × List ℕ)
find_fit pages n [] = none
find_fit pages n (p ∷ ps) =
    let rest = find_fit pages n ps >>= λ r. some (p ∷ r.0, r.1, r.2) in
    if leb n (pages p).property then some ([], p, ps) else rest

-- The loop that takes pages out of the list, from an entry on. Behind the last entry there is none.
unfoldable pub take_pages : ℕ → (ℕ → Page) → List ℕ → Option ((ℕ → Page) × List ℕ)
take_pages zero pages ps = some (pages, ps)
take_pages (suc n) pages [] = none
take_pages (suc n) pages (p ∷ ps) =
    take_pages n (update pages p (record (pages p) { reserved = true; is_head = false })) ps

-- `if (p->property > n)`: the page behind those taken begins what is left of the block
unfoldable pub split_block : (ℕ → Page) → ℕ → ℕ → List ℕ → Option (ℕ → Page)
split_block pages p n [] = if ltb n (pages p).property then none else some pages
split_block pages p n (q ∷ qs) =
    some (if ltb n (pages p).property then set_property pages q ((pages p).property - n) else pages)

unfoldable pub take_run : FreeArea → ℕ → List ℕ × ℕ × List ℕ → Option (FreeArea × Option ℕ)
take_run s n (before, p, behind) = do
  taken ← take_pages n s.pages (p ∷ behind)
  pages ← split_block taken.0 p n taken.1
  some (
    record {
      pages = update pages p (record (pages p) { reserved = true; is_head = false });
      free_list = before ++ taken.1;
      nr_free = s.nr_free - n;
    },
    some p,
  )

unfoldable pub take_fit : FreeArea → ℕ → Option (List ℕ × ℕ × List ℕ) → Option (FreeArea × Option ℕ)
take_fit s n none = some (s, none)
take_fit s n (some r) = take_run s n r

-- The page at the head of the block, or NULL.
unfoldable pub default_alloc_pages : FreeArea → ℕ → Option (FreeArea × Option ℕ)
default_alloc_pages s n = do
  assert (ltb 0 n)
  if ltb s.nr_free n then some (s, none) else take_fit s n (find_fit s.pages n s.free_list)

abbrev pub range : ℕ → ℕ → List ℕ
range p zero = []
range p (suc n) = p ∷ range (suc p) n

-- The walk to the first page behind `base`: what stands before it, the last one first, and from it on.
unfoldable pub split_at : ℕ → List ℕ → List ℕ → List ℕ × List ℕ
split_at base before [] = (before, [])
split_at base before (p ∷ ps) =
    let rest = split_at base (p ∷ before) ps in if ltb base p then (before, p ∷ ps) else rest

-- `if( base+n == p )`: the block behind is joined
unfoldable pub join_behind : (ℕ → Page) → ℕ → ℕ → List ℕ → (ℕ → Page)
join_behind pages base n [] = pages
join_behind pages base n (p ∷ ps) =
    if base + n == p
    then set_property (set_property pages base ((pages base).property + (pages p).property)) p 0
    else pages

-- The walk back to the head of the block before, which `base` joins.
unfoldable pub walk_back : (ℕ → Page) → ℕ → List ℕ → (ℕ → Page)
walk_back pages base [] = pages
walk_back pages base (p ∷ ps) =
    let rest = walk_back pages base ps in
    if (pages p).property == 0
    then rest
    else set_property (set_property pages p ((pages p).property + (pages base).property)) base 0

unfoldable pub join_before : (ℕ → Page) → ℕ → List ℕ → (ℕ → Page)
join_before pages base [] = pages
join_before pages base (p ∷ ps) = if suc p == base then walk_back pages base (p ∷ ps) else pages

abbrev pub reversed_onto : List ℕ → List ℕ → List ℕ
reversed_onto [] ys = ys
reversed_onto (x ∷ xs) ys = reversed_onto xs (x ∷ ys)

unfoldable pub default_free_pages : FreeArea → ℕ → ℕ → Option FreeArea
default_free_pages s base n = do
  assert (ltb 0 n)
  assert (s.pages base).reserved
  let parts = split_at base [] s.free_list
  let head : Page = record { ref = 0; reserved = false; is_head = true; property = n }
  let joined = join_behind (update s.pages base head) base n parts.1
  some (record {
    pages = join_before joined base parts.0;
    free_list = reversed_onto parts.0 (range base n ++ parts.1);
    nr_free = u32 (s.nr_free + n);
  })
