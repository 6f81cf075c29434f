-- ===== src/Pages/Coalesce.antt =====
-- kern/mm/default_pmm.c: `default_free_pages` joins the freed pages to the blocks around them.

use mathlib.Core.List.{append_assoc, append-nil}
use a_smart_mlfq_project_bas.Common.{
  ◌==◌, ==_iff, Bool-cases, ℕ, ◌+◌, ◌^◌, ◌<◌, ◌≡◌, refl, sym, ap, ◌∙◌, subst, inl, inr, true, some,
  List, [], ◌∷◌, ◌++◌, arith,
}
use a_smart_mlfq_project_bas.Common.Int.{u32}
use a_smart_mlfq_project_bas.Pages.{
  Page, FreeArea, range, join_behind, join_before, reversed_onto, default_free_pages,
}
use a_smart_mlfq_project_bas.Pages.Alloc.{ltb_positive}
use a_smart_mlfq_project_bas.Pages.Blocks.{
  pages_of, total, IsBlocks, IsArea, IsBlocks-same, total-append,
}
use a_smart_mlfq_project_bas.Pages.Free.{
  freed, range-append, join_behind-IsJoined, with_freed, AllEnd, split_at_lem, with_new-IsBlocks,
}
use a_smart_mlfq_project_bas.Pages.Join.{merge_behind, merge_before, join_before-IsBlocks}

pages_of-merge_before :
    (xs : List (ℕ × ℕ)) (b n : ℕ) (zs : List (ℕ × ℕ))
    → pages_of (merge_before xs b n zs) ≡ pages_of xs ++ (range b n ++ pages_of zs)
pages_of-merge_before [] b n zs = refl
pages_of-merge_before ((c, j) ∷ []) b n zs = elim (Bool-cases (c + j == b)) [
  | inl q ↦
      let meet = (==_iff (c + j) b).0 q in
      rw q (
        range-append c j n (pages_of zs)
        ∙ ap (λ a. range c j ++ (range a n ++ pages_of zs)) meet
        ∙ ap (λ l. l ++ (range b n ++ pages_of zs)) (sym (append-nil (range c j))))
  | inr q ↦ rw q (ap (λ l. l ++ (range b n ++ pages_of zs)) (sym (append-nil (range c j))))
]
pages_of-merge_before ((c, j) ∷ y ∷ xs) b n zs =
    ap (λ l. range c j ++ l) (pages_of-merge_before (y ∷ xs) b n zs)
    ∙ sym (append_assoc (range c j) (pages_of (y ∷ xs)) (range b n ++ pages_of zs))

total-merge_before :
    (xs : List (ℕ × ℕ)) (b n : ℕ) (zs : List (ℕ × ℕ))
    → total (merge_before xs b n zs) ≡ total xs + (n + total zs)
total-merge_before [] b n zs = omega arith
total-merge_before ((c, j) ∷ []) b n zs = elim (Bool-cases (c + j == b)) [
  | inl q ↦ rw q (omega arith)
  | inr q ↦ rw q (omega arith)
]
total-merge_before ((c, j) ∷ y ∷ xs) b n zs = omega (arith, total-merge_before (y ∷ xs) b n zs)

reversed_back :
    (xs ys qs : List ℕ) → reversed_onto (reversed_onto xs ys) qs ≡ reversed_onto ys (xs ++ qs)
reversed_back [] ys qs = refl
reversed_back (x ∷ xs) ys qs = reversed_back xs (x ∷ ys) qs

-- The block in front is looked at, where there is one.
all_joined :
    (pages : ℕ → Page) (base n : ℕ) (xs zs : List (ℕ × ℕ))
    → IsBlocks pages 0 (xs ++ (base, n) ∷ zs)
    → IsBlocks
        (join_before pages base (reversed_onto (pages_of xs) []))
        0
        (merge_before xs base n zs)
unfolding join_before
all_joined pages base n [] zs v = v
all_joined pages base n ((c, j) ∷ xs) zs v = (join_before-IsBlocks pages base n 0 c j xs zs [] v).0

-- In an area of blocks the reserved pages from base on, n of them, n positive, are freed, where the
-- blocks xs end at them or before and the blocks ys begin behind them, only the first one may hold a
-- length, and the count of free pages does not wrap. They are a block, joined to the one in front and
-- to the one behind where these touch it, and the area is one of blocks again.
pub default_free_pages_lem :
    (s : FreeArea) (base n : ℕ) (xs ys : List (ℕ × ℕ))
    → IsArea s (xs ++ ys)
    → 0 < n
    → AllEnd base xs
    → IsBlocks s.pages (base + n) ys
    → (s.pages base).reserved ≡ true
    → ((i : ℕ) → base < i → i < base + n → (s.pages i).property ≡ 0)
    → s.nr_free + n < 2 ^ 32
    → (t : FreeArea) × (default_free_pages s base n ≡ some t) × IsArea t (with_freed xs base n ys)
unfolding default_free_pages
default_free_pages_lem s base n xs ys v h e w r f small =
    let m = merge_behind base n ys in
    let p = join_behind (freed s.pages base n) base n (pages_of ys) in
    let j = join_behind-IsJoined s.pages base n ys h w f in
    let split = split_at_lem base n s.pages [] xs ys e h w in
    let q = join_before p base (reversed_onto (pages_of xs) []) in
    (
      record {
        pages = q;
        free_list = reversed_onto (reversed_onto (pages_of xs) []) (range base n ++ pages_of ys);
        nr_free = u32 (s.nr_free + n);
      },
      rw (ltb_positive n h, r, v.listed, split) refl,
      record {
        listed =
            reversed_back (pages_of xs) [] (range base n ++ pages_of ys)
            ∙ ap (λ l. pages_of xs ++ l) (sym j.listed)
            ∙ sym (pages_of-merge_before xs m.0.0 m.0.1 m.1);
        blocks =
            subst
              (λ a.
                IsBlocks (join_before p a (reversed_onto (pages_of xs) [])) 0
                  (with_freed xs base n ys))
              j.first
              (all_joined p m.0.0 m.0.1 xs m.1 (
                with_new-IsBlocks s.pages p 0 base xs ys (m.0 ∷ m.1) v.blocks e (omega arith)
                  j.below
                  (λ lo le.
                    IsBlocks-same p p base lo (m.0 ∷ m.1) j.joined_blocks le (λ i l. refl))));
        counted =
            let c = v.counted in
            let d = total-append xs ys in
            let g = total-merge_before xs m.0.0 m.0.1 m.1 in
            let k = j.counted in
            let x : u32 (s.nr_free + n) ≡ s.nr_free + n = omega arith in
            x ∙ omega (arith, c, d, g, k);
      },
    )
