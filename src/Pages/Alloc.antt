-- ===== src/Pages/Alloc.antt =====
-- kern/mm/default_pmm.c: what an allocation takes.

use mathlib.Core.List.{append_assoc}
use a_smart_mlfq_project_bas.Common.{
  ltb, ◌==◌, ==_iff, ==-ne, Bool-cases, ℕ, suc, ◌+◌, ◌-◌, ◌≤◌, ◌<◌, ◌≡◌, refl, sym, ap, ◌∙◌, subst,
  ◌≢◌, inl, inr, true, false, none, some, List, [], ◌∷◌, ◌++◌, arith,
}
use a_smart_mlfq_project_bas.Common.Store.{update, update_all, update_keeps}
use a_smart_mlfq_project_bas.Pages.{
  Page, FreeArea, take_pages, take_run, take_fit, default_alloc_pages, range,
}
use a_smart_mlfq_project_bas.Pages.Blocks.{
  pages_of, total, IsBlocks, IsArea, IsBlocks-same, IsBlocks-replace, total-append,
}
use a_smart_mlfq_project_bas.Pages.Fit.{
  AllShorter, remainder, find_fit_lem, find_fit_lem_none, range_same, take_pages_lem,
  split_block_lem,
}

pub ltb_positive : (n : ℕ) → 0 < n → ltb 0 n ≡ true
ltb_positive n h = ground arith

-- the blocks from one on
block_at :
    (pages : ℕ → Page) (lo b k : ℕ) (xs ys : List (ℕ × ℕ))
    → IsBlocks pages lo (xs ++ (b, k) ∷ ys)
    → IsBlocks pages b ((b, k) ∷ ys)
block_at pages lo b k [] ys v = (omega arith, v.1, v.2, v.3, v.4)
block_at pages lo b k ((c, j) ∷ xs) ys v = block_at pages (c + j) b k xs ys v.4

pages_of-append : (xs ys : List (ℕ × ℕ)) → pages_of (xs ++ ys) ≡ pages_of xs ++ pages_of ys
pages_of-append [] ys = refl
pages_of-append ((b, k) ∷ xs) ys =
    ap (λ q. range b k ++ q) (pages_of-append xs ys)
    ∙ sym (append_assoc (range b k) (pages_of xs) (pages_of ys))

pages_of_rest :
    (b k n : ℕ) (ys : List (ℕ × ℕ))
    → n ≤ k
    → pages_of (remainder b k n ++ ys) ≡ range (b + n) (k - n) ++ pages_of ys
pages_of_rest b k n ys h = elim (Bool-cases (ltb n k)) [
  | inl l ↦ rw l refl
  | inr l ↦
      let e : k - n ≡ 0 = ground (arith, l) in
      rw l (sym (ap (λ q. q ++ pages_of ys) (range_same {a' = b + n} {k' = 0} refl e)))
]

total_rest :
    (b k n : ℕ) (ys : List (ℕ × ℕ)) → n ≤ k → total (remainder b k n ++ ys) ≡ (k - n) + total ys
total_rest b k n ys h = elim (Bool-cases (ltb n k)) [
  | inl l ↦ rw l refl
  | inr l ↦ rw l (ground (arith, l))
]

rest-IsBlocks :
    (pages pages' : ℕ → Page) (b k n lo : ℕ) (ys : List (ℕ × ℕ))
    → IsBlocks pages b ((b, k) ∷ ys)
    → 0 < n
    → n ≤ k
    → ((i : ℕ) → i ≢ b + n → (pages' i).property ≡ (pages i).property)
    → (n < k → (pages' (b + n)).property ≡ k - n)
    → (n ≡ k → (pages' (b + n)).property ≡ (pages (b + n)).property)
    → lo ≤ b
    → IsBlocks pages' lo (remainder b k n ++ ys)
rest-IsBlocks pages pages' b k n lo ys v p h f g e le = elim (Bool-cases (ltb n k)) [
  | inl l ↦
      let less : n < k = ground (arith, l) in
      rw l (
        omega arith,
        omega arith,
        g less,
        λ i a c. f i (λ q. omega (arith, q, a)) ∙ v.3 i (omega arith) (omega arith),
        IsBlocks-same pages pages' (b + k) (b + n + (k - n)) ys v.4 (omega arith)
            (λ i a. f i (λ q. omega (arith, q, a, less))),
      )
  | inr l ↦
      let all : n ≡ k = ground (arith, l) in
      rw l (
        IsBlocks-same pages pages' (b + k) lo ys v.4 (omega arith) (λ i a.
          elim (Bool-cases (i == b + n)) [
            | inl q ↦
                let s = (==_iff i (b + n)).0 q in
                subst (λ z. (pages' z).property ≡ (pages z).property) (sym s) (e all)
            | inr q ↦ f i (==-ne i (b + n) q)
          ]))
]

-- In an area of blocks n pages, n positive, are taken from the first block that is long enough. They
-- are reserved; what is left of the block stands in its place, and the other blocks stay.
pub default_alloc_pages-some :
    (s : FreeArea) (n b k : ℕ) (xs ys : List (ℕ × ℕ))
    → IsArea s (xs ++ (b, k) ∷ ys)
    → 0 < n
    → AllShorter n xs
    → n ≤ k
    → (t : FreeArea) × (default_alloc_pages s n ≡ some (t, some b))
      × IsArea t (xs ++ (remainder b k n ++ ys))
      × ((i : ℕ) → b ≤ i → i < b + n → (t.pages i).reserved ≡ true)
unfolding default_alloc_pages take_fit take_run
default_alloc_pages-some s n b k xs ys v h short fits =
    let here = block_at s.pages 0 b k xs ys v.blocks in
    let (t₁, e₁, same₁, taken, kept) = take_pages_lem n b k s.pages (pages_of ys) fits in
    let (t₂, e₂, kept₂, same₂, rest₂, last₂) =
      split_block_lem t₁ b k n (pages_of ys) fits (same₁ b ∙ here.2) in
    let enough : ltb s.nr_free n ≡ false =
      ground (arith, v.counted, total-append xs ((b, k) ∷ ys)) in
    let run : range b k ≡ range b (suc (k - 1)) =
      range_same {k' = suc (k - 1)} refl (omega (arith, here.1)) in
    let e₃ : take_pages n s.pages (b ∷ (range (suc b) (k - 1) ++ pages_of ys))
        ≡ some (t₁, range (b + n) (k - n) ++ pages_of ys) =
      ap (λ q. take_pages n s.pages (q ++ pages_of ys)) (sym run) ∙ e₁ in
    let t₃ = update t₂ b (record (t₂ b) { reserved = true; is_head = false }) in
    let same : (i : ℕ) → (t₃ i).property ≡ (t₂ i).property =
      λ i. update_keeps (λ q. q.property) t₂ b _ i refl in
    (
      record {
        pages = t₃;
        free_list = pages_of xs ++ (range (b + n) (k - n) ++ pages_of ys);
        nr_free = s.nr_free - n;
      },
      rw
          (
            ltb_positive n h,
            enough,
            v.listed,
            find_fit_lem s.pages n 0 b k xs ys v.blocks short fits,
            e₃,
            e₂,
          )
          refl,
      record {
        listed = sym (
            pages_of-append xs (remainder b k n ++ ys)
            ∙ ap (λ q. pages_of xs ++ q) (pages_of_rest b k n ys fits));
        blocks =
            IsBlocks-replace s.pages t₃ 0 b k xs ys (remainder b k n ++ ys) v.blocks
              (λ i l. same i ∙ same₂ i (λ q. omega (arith, q, l)) ∙ same₁ i)
              (λ lo le.
                rest-IsBlocks s.pages t₃ b k n lo ys here h fits
                  (λ i ne. same i ∙ same₂ i ne ∙ same₁ i) (λ l. same (b + n) ∙ rest₂ l)
                  (λ l. same (b + n) ∙ last₂ l ∙ same₁ (b + n)) le);
        counted =
            let c = v.counted in
            let d = total-append xs ((b, k) ∷ ys) in
            let e = total-append xs (remainder b k n ++ ys) in
            let g = total_rest b k n ys fits in omega arith;
      },
      λ i lo hi. update_all (λ q. q.reserved ≡ true) t₂ b _ i refl (kept₂ i ∙ taken i lo hi),
    )

-- Where all blocks are shorter, the answer is NULL and the area stays as it is.
pub default_alloc_pages-none :
    (s : FreeArea) (n : ℕ) (bs : List (ℕ × ℕ))
    → IsArea s bs
    → 0 < n
    → AllShorter n bs
    → default_alloc_pages s n ≡ some (s, none)
unfolding default_alloc_pages take_fit
default_alloc_pages-none s n bs v h short =
    let p : ltb 0 n ≡ true = ground arith in
    elim (Bool-cases (ltb s.nr_free n)) [
      | inl few ↦ rw (p, few) refl
      | inr many ↦ rw (p, many, v.listed, find_fit_lem_none s.pages n 0 bs v.blocks short) refl
    ]
