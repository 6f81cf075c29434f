-- ===== src/Pages/Blocks.antt =====
-- kern/mm/default_pmm.c: the free list as a list of blocks, each one a first page and a length.
use a_smart_mlfq_project_bas.Common.{ℕ, ◌+◌, ◌≤◌, ◌<◌, ◌≡◌, ◌∙◌, List, [], ◌∷◌, ◌++◌, arith}
use a_smart_mlfq_project_bas.Pages.{Page, FreeArea, range}

abbrev pub pages_of : List (ℕ × ℕ) → List ℕ
pages_of [] = []
pages_of ((b, k) ∷ bs) = range b k ++ pages_of bs

abbrev pub total : List (ℕ × ℕ) → ℕ
total [] = 0
total ((b, k) ∷ bs) = k + total bs

-- From the page `lo` on the blocks ascend without overlap; the first page of each one holds its
-- length, and its other pages hold 0.
abbrev pub IsBlocks : (ℕ → Page) → ℕ → List (ℕ × ℕ) → Type 0
IsBlocks pages lo [] = Unit {0}
IsBlocks pages lo ((b, k) ∷ bs) =
    (lo ≤ b)
    × (0 < k)
    × ((pages b).property ≡ k)
    × ((i : ℕ) → b < i → i < b + k → (pages i).property ≡ 0)
    × IsBlocks pages (b + k) bs

pub record IsArea (s : FreeArea) (bs : List (ℕ × ℕ)) : Type 0 where
  pub listed : s.free_list ≡ pages_of bs
  pub blocks : IsBlocks s.pages 0 bs
  pub counted : s.nr_free ≡ total bs

-- Blocks from a page on depend on the pages from there on.
pub IsBlocks-same :
    (pages pages' : ℕ → Page) (lo lo' : ℕ) (bs : List (ℕ × ℕ))
    → IsBlocks pages lo bs
    → lo' ≤ lo
    → ((i : ℕ) → lo ≤ i → (pages' i).property ≡ (pages i).property)
    → IsBlocks pages' lo' bs
IsBlocks-same pages pages' lo lo' [] v h f = tt
IsBlocks-same pages pages' lo lo' ((b, k) ∷ bs) v h f =
    let low = v.0 in
    (
      omega arith,
      v.1,
      f b low ∙ v.2,
      λ i g l. f i (omega arith) ∙ v.3 i g l,
      IsBlocks-same pages pages' (b + k) (b + k) bs v.4 (omega arith) (λ i g. f i (omega arith)),
    )

-- A block behind others lies above where those begin.
pub head_above :
    (pages : ℕ → Page) (lo b k : ℕ) (xs ys : List (ℕ × ℕ))
    → IsBlocks pages lo (xs ++ (b, k) ∷ ys)
    → lo ≤ b
head_above pages lo b k [] ys v = v.0
head_above pages lo b k ((c, j) ∷ xs) ys v =
    let h = head_above pages (c + j) b k xs ys v.4 in omega (arith, v.0)

-- What stands behind some blocks may be replaced.
pub IsBlocks-replace :
    (pages pages' : ℕ → Page) (lo b k : ℕ) (xs ys zs : List (ℕ × ℕ))
    → IsBlocks pages lo (xs ++ (b, k) ∷ ys)
    → ((i : ℕ) → i < b → (pages' i).property ≡ (pages i).property)
    → ((lo' : ℕ) → lo' ≤ b → IsBlocks pages' lo' zs)
    → IsBlocks pages' lo (xs ++ zs)
IsBlocks-replace pages pages' lo b k [] ys zs v f g = g lo v.0
IsBlocks-replace pages pages' lo b k ((c, j) ∷ xs) ys zs v f g =
    let below = head_above pages (c + j) b k xs ys v.4 in
    (
      v.0,
      v.1,
      f c (omega (arith, v.1)) ∙ v.2,
      λ i h l. f i (omega arith) ∙ v.3 i h l,
      IsBlocks-replace pages pages' (c + j) b k xs ys zs v.4 f g,
    )

pub total-append : (xs ys : List (ℕ × ℕ)) → total (xs ++ ys) ≡ total xs + total ys
total-append [] ys = omega arith
total-append ((b, k) ∷ xs) ys = omega (arith, total-append xs ys)
