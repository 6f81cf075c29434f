-- ===== src/Pages/Free.antt =====
-- kern/mm/default_pmm.c: what `default_free_pages` does to the blocks.

use a_smart_mlfq_project_bas.Common.{
  ltb, ◌==◌, ==_iff, ne-==, Bool-cases, ℕ, zero, suc, ◌+◌, ◌≤◌, ◌<◌, ◌≡◌, refl, sym, ap, ◌∙◌, inl,
  inr, true, false, List, [], ◌∷◌, ◌++◌, arith,
}
use a_smart_mlfq_project_bas.Common.Store.{update, update_self, update_read}
use a_smart_mlfq_project_bas.Pages.{Page, range, split_at, join_behind, reversed_onto}
use a_smart_mlfq_project_bas.Pages.Blocks.{pages_of, total, IsBlocks, IsBlocks-same}
use a_smart_mlfq_project_bas.Pages.Join.{
  merge_behind, merge_before, reversed_onto-append, joined, joined-IsBlocks,
}

-- The freed pages in front of the blocks behind them, before the block in front is looked at.
abbrev pub freed : (ℕ → Page) → ℕ → ℕ → (ℕ → Page)
freed pages base n =
    update pages base (record { ref = 0; reserved = false; is_head = true; property = n })

freed_below :
    (pages : ℕ → Page) (base n i : ℕ)
    → i < base
    → (freed pages base n i).property ≡ (pages i).property
freed_below pages base n i l =
    update_read (λ q. q.property) pages base _ i ∙ rw (ne-== i base (λ e. omega (arith, e, l))) refl

freed-IsBlocks :
    (pages : ℕ → Page) (base n : ℕ) (ys : List (ℕ × ℕ))
    → 0 < n
    → IsBlocks pages (base + n) ys
    → ((i : ℕ) → base < i → i < base + n → (pages i).property ≡ 0)
    → IsBlocks (freed pages base n) base ((base, n) ∷ ys)
freed-IsBlocks pages base n ys h v f =
    let elsewhere : (i : ℕ) → base < i → (freed pages base n i).property ≡ (pages i).property =
      λ i l.
        update_read (λ q. q.property) pages base _ i
        ∙ rw (ne-== i base (λ e. omega (arith, e, l))) refl in
    (
      omega arith,
      h,
      ap (λ q. q.property) (update_self pages base _),
      λ i g l. elsewhere i g ∙ f i g l,
      IsBlocks-same pages (freed pages base n) (base + n) (base + n) ys v (omega arith)
          (λ i g. elsewhere i (omega arith)),
    )

pub range-append :
    (b n m : ℕ) (qs : List ℕ) → range b (n + m) ++ qs ≡ range b n ++ (range (b + n) m ++ qs)
range-append b zero m qs =
    ap (λ k. range b k ++ qs) (let e : 0 + m ≡ m = omega arith in e)
    ∙ ap (λ a. range a m ++ qs) (let e : b ≡ b + 0 = omega arith in e)
range-append b (suc n) m qs =
    ap (λ k. range b k ++ qs) (let e : suc n + m ≡ suc (n + m) = omega arith in e)
    ∙ ap (λ q. b ∷ q)
        (range-append (suc b) n m qs
          ∙ ap (λ a. range (suc b) n ++ (range a m ++ qs))
              (let e : suc b + n ≡ b + suc n = omega arith in e))

-- What the pages are when the block behind has been looked at.
pub record IsJoined (pages : ℕ → Page) (base n : ℕ) (ys : List (ℕ × ℕ)) (p : ℕ → Page)
    (m : (ℕ × ℕ) × List (ℕ × ℕ)) : Type 0 where
  pub joined_blocks : IsBlocks p base (m.0 ∷ m.1)
  pub first : m.0.0 ≡ base
  pub below : (i : ℕ) → i < base → (p i).property ≡ (pages i).property
  pub listed : pages_of (m.0 ∷ m.1) ≡ range base n ++ pages_of ys
  pub counted : total (m.0 ∷ m.1) ≡ n + total ys

freed-IsJoined :
    (pages : ℕ → Page) (base n : ℕ) (ys : List (ℕ × ℕ))
    → 0 < n
    → IsBlocks pages (base + n) ys
    → ((i : ℕ) → base < i → i < base + n → (pages i).property ≡ 0)
    → IsJoined pages base n ys (freed pages base n) ((base, n), ys)
freed-IsJoined pages base n ys h v f = record {
  joined_blocks = freed-IsBlocks pages base n ys h v f;
  first = refl;
  below = freed_below pages base n;
  listed = refl;
  counted = refl;
}

merged-IsJoined :
    (pages : ℕ → Page) (base n c k : ℕ) (ys : List (ℕ × ℕ))
    → 0 < n
    → IsBlocks pages (base + n) ((c, k) ∷ ys)
    → ((i : ℕ) → base < i → i < base + n → (pages i).property ≡ 0)
    → base + n ≡ c
    → IsJoined pages base n ((c, k) ∷ ys) (joined (freed pages base n) base c) ((base, n + k), ys)
merged-IsJoined pages base n c k ys h v f meet =
    let (x, y) =
      joined-IsBlocks (freed pages base n) c k base base n ys
        (freed-IsBlocks pages base n ((c, k) ∷ ys) h v f) meet in
    record {
      joined_blocks = x;
      first = refl;
      below = λ i l. y i l ∙ freed_below pages base n i l;
      listed =
          range-append base n k (pages_of ys)
          ∙ ap (λ b. range base n ++ (range b k ++ pages_of ys)) meet;
      counted = omega arith;
    }

pub join_behind-IsJoined :
    (pages : ℕ → Page) (base n : ℕ) (ys : List (ℕ × ℕ))
    → 0 < n
    → IsBlocks pages (base + n) ys
    → ((i : ℕ) → base < i → i < base + n → (pages i).property ≡ 0)
    → IsJoined pages base n ys
        (join_behind (freed pages base n) base n (pages_of ys))
        (merge_behind base n ys)
unfolding join_behind
join_behind-IsJoined pages base n [] h v f = freed-IsJoined pages base n [] h v f
join_behind-IsJoined pages base n ((c, zero) ∷ ys) h v f = absurd (omega (arith, v.1))
join_behind-IsJoined pages base n ((c, suc k) ∷ ys) h v f = elim (Bool-cases (base + n == c)) [
  | inl q ↦ rw q (merged-IsJoined pages base n c (suc k) ys h v f ((==_iff (base + n) c).0 q))
  | inr q ↦ rw q (freed-IsJoined pages base n ((c, suc k) ∷ ys) h v f)
]

-- the blocks with the freed one
abbrev pub with_freed : List (ℕ × ℕ) → ℕ → ℕ → List (ℕ × ℕ) → List (ℕ × ℕ)
with_freed xs base n ys = let m = merge_behind base n ys in merge_before xs m.0.0 m.0.1 m.1

-- all blocks end at a page or before it
abbrev pub AllEnd : ℕ → List (ℕ × ℕ) → Type 0
AllEnd base [] = Unit {0}
AllEnd base ((b, k) ∷ bs) = (b + k ≤ base) × AllEnd base bs

split_past :
    (base c j : ℕ) (before ps : List ℕ)
    → c + j ≤ base
    → split_at base before (range c j ++ ps) ≡ split_at base (reversed_onto (range c j) before) ps
unfolding split_at
split_past base c zero before ps h = refl
split_past base c (suc j) before ps h =
    let low : ltb base c ≡ false = ground arith in
    rw low (split_past base (suc c) j (c ∷ before) ps (omega arith))

split_here :
    (base n : ℕ) (pages : ℕ → Page) (before : List ℕ) (ys : List (ℕ × ℕ))
    → 0 < n
    → IsBlocks pages (base + n) ys
    → split_at base before (pages_of ys) ≡ (before, pages_of ys)
unfolding split_at
split_here base n pages before [] h v = refl
split_here base n pages before ((c, zero) ∷ ys) h v = absurd (omega (arith, v.1))
split_here base n pages before ((c, suc k) ∷ ys) h v =
    let high : ltb base c ≡ true = ground (arith, v.0, h) in rw high refl

pub split_at_lem :
    (base n : ℕ) (pages : ℕ → Page) (before : List ℕ) (xs ys : List (ℕ × ℕ))
    → AllEnd base xs
    → 0 < n
    → IsBlocks pages (base + n) ys
    → split_at base before (pages_of (xs ++ ys)) ≡ (reversed_onto (pages_of xs) before, pages_of ys)
split_at_lem base n pages before [] ys e h v = split_here base n pages before ys h v
split_at_lem base n pages before ((c, j) ∷ xs) ys e h v =
    split_past base c j before (pages_of (xs ++ ys)) e.0
    ∙ split_at_lem base n pages (reversed_onto (range c j) before) xs ys e.1 h v
    ∙ ap (λ q. (q, pages_of ys)) (sym (reversed_onto-append (range c j) (pages_of xs) before))

-- The blocks in front, and one behind them.
pub with_new-IsBlocks :
    (pages pages' : ℕ → Page) (lo base : ℕ) (xs ys zs : List (ℕ × ℕ))
    → IsBlocks pages lo (xs ++ ys)
    → AllEnd base xs
    → lo ≤ base
    → ((i : ℕ) → i < base → (pages' i).property ≡ (pages i).property)
    → ((lo' : ℕ) → lo' ≤ base → IsBlocks pages' lo' zs)
    → IsBlocks pages' lo (xs ++ zs)
with_new-IsBlocks pages pages' lo base [] ys zs v e le f g = g lo le
with_new-IsBlocks pages pages' lo base ((c, j) ∷ xs) ys zs v e le f g = (
  v.0,
  v.1,
  f c (omega (arith, v.1, e.0)) ∙ v.2,
  λ i h l. f i (omega (arith, e.0)) ∙ v.3 i h l,
  with_new-IsBlocks pages pages' (c + j) base xs ys zs v.4 e.1 e.0 f g,
)
