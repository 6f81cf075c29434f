-- ===== src/Pages/Fit.antt =====
-- kern/mm/default_pmm.c: the steps of an allocation.

use a_smart_mlfq_project_bas.Common.{
  ltb, leb, ◌==◌, if◌then◌else◌, ==_iff, ne-==, ==-ne, Bool-cases, ℕ, zero, suc, ◌+◌, ◌-◌, ◌≤◌, ◌<◌,
  ◌≡◌, refl, sym, ap, ◌∙◌, subst, ◌≢◌, inl, inr, true, false, none, some, List, [], ◌∷◌, ◌++◌,
  arith,
}
use a_smart_mlfq_project_bas.Common.Store.{
  update, update_all, update_self, update_read, update_keeps,
}
use a_smart_mlfq_project_bas.Pages.{Page, set_property, find_fit, take_pages, split_block, range}
use a_smart_mlfq_project_bas.Pages.Blocks.{pages_of, IsBlocks}

-- all blocks are shorter than a length
abbrev pub AllShorter : ℕ → List (ℕ × ℕ) → Type 0
AllShorter n [] = Unit {0}
AllShorter n ((b, k) ∷ bs) = (k < n) × AllShorter n bs

-- what is left of a block from which pages are taken
abbrev pub remainder : ℕ → ℕ → ℕ → List (ℕ × ℕ)
remainder b k n = if ltb n k then (b + n, k - n) ∷ [] else []

-- The walk goes through pages whose length is shorter.
pub find_fit_past :
    (pages : ℕ → Page) (n i j : ℕ) (ps rest : List ℕ) (p : ℕ) (behind : List ℕ) (before : List ℕ)
    → ((x : ℕ) → i ≤ x → x < i + j → (pages x).property < n)
    → find_fit pages n ps ≡ some (before, p, behind)
    → find_fit pages n (range i j ++ ps) ≡ some (range i j ++ before, p, behind)
unfolding find_fit
find_fit_past pages n i zero ps rest p behind before f e = e
find_fit_past pages n i (suc j) ps rest p behind before f e =
    let short : leb n (pages i).property ≡ false =
      ground (arith, f i (omega arith) (omega arith)) in
    rw
      (
        short,
        find_fit_past pages n (suc i) j ps rest p behind before
            (λ x g l. f x (omega arith) (omega arith)) e,
      )
      refl

pub find_fit-none :
    (pages : ℕ → Page) (n i j : ℕ) (ps : List ℕ)
    → ((x : ℕ) → i ≤ x → x < i + j → (pages x).property < n)
    → find_fit pages n ps ≡ none
    → find_fit pages n (range i j ++ ps) ≡ none
unfolding find_fit
find_fit-none pages n i zero ps f e = e
find_fit-none pages n i (suc j) ps f e =
    let short : leb n (pages i).property ≡ false =
      ground (arith, f i (omega arith) (omega arith)) in
    rw (short, find_fit-none pages n (suc i) j ps (λ x g l. f x (omega arith) (omega arith)) e) refl

-- No page of a block that is too short is taken.
pub short_pages :
    (pages : ℕ → Page) (n b k : ℕ)
    → k < n
    → (pages b).property ≡ k
    → ((i : ℕ) → b < i → i < b + k → (pages i).property ≡ 0)
    → (x : ℕ) → b ≤ x
    → x < b + k
    → (pages x).property < n
short_pages pages n b k h e f x g l = elim (Bool-cases (x == b)) [
  | inl s ↦
      let q = (==_iff x b).0 s in subst (λ z. (pages z).property < n) (sym q) (omega (arith, e))
  | inr s ↦ let q = ==-ne x b s in let z = f x (ground arith) l in omega (arith, z)
]

pub find_fit_lem :
    (pages : ℕ → Page) (n lo b k : ℕ) (xs ys : List (ℕ × ℕ))
    → IsBlocks pages lo (xs ++ (b, k) ∷ ys)
    → AllShorter n xs
    → n ≤ k
    → find_fit pages n (pages_of (xs ++ (b, k) ∷ ys))
      ≡ some (pages_of xs, b, range (suc b) (k - 1) ++ pages_of ys)
unfolding find_fit
find_fit_lem pages n lo b zero [] ys v s h = absurd (omega (arith, v.1))
find_fit_lem pages n lo b (suc m) [] ys v s h =
    let long : leb n (pages b).property ≡ true = ground (arith, v.2) in
    let less : m ≡ suc m - 1 = omega arith in
    rw long (ap (λ j. some ([], b, range (suc b) j ++ pages_of ys)) less)
find_fit_lem pages n lo b k ((c, j) ∷ xs) ys v s h =
    find_fit_past pages n c j (pages_of (xs ++ (b, k) ∷ ys)) [] b
      (range (suc b) (k - 1) ++ pages_of ys) (pages_of xs) (short_pages pages n c j s.0 v.2 v.3)
      (find_fit_lem pages n (c + j) b k xs ys v.4 s.1 h)

pub find_fit_lem_none :
    (pages : ℕ → Page) (n lo : ℕ) (bs : List (ℕ × ℕ))
    → IsBlocks pages lo bs
    → AllShorter n bs
    → find_fit pages n (pages_of bs) ≡ none
unfolding find_fit
find_fit_lem_none pages n lo [] v s = refl
find_fit_lem_none pages n lo ((b, k) ∷ bs) v s =
    find_fit-none pages n b k (pages_of bs) (short_pages pages n b k s.0 v.2 v.3)
      (find_fit_lem_none pages n (b + k) bs v.4 s.1)

pub range_same : {a a' k k' : ℕ} → a ≡ a' → k ≡ k' → range a k ≡ range a' k'
range_same e f = cc (e, f)

-- The pages of a run that is taken out are reserved, and keep their lengths.
pub take_pages_lem :
    (n b k : ℕ) (pages : ℕ → Page) (ps : List ℕ)
    → n ≤ k
    → (pages' : ℕ → Page) × (take_pages n pages (range b k ++ ps)
        ≡ some (pages', range (b + n) (k - n) ++ ps))
      × ((i : ℕ) → (pages' i).property ≡ (pages i).property)
      × ((i : ℕ) → b ≤ i → i < b + n → (pages' i).reserved ≡ true)
      × ((i : ℕ) → (pages i).reserved ≡ true → (pages' i).reserved ≡ true)
unfolding take_pages
take_pages_lem zero b k pages ps h = (
  pages,
  ap (λ q. some (pages, q ++ ps)) (range_same (omega arith) (omega arith)),
  λ i. refl,
  λ i g l. absurd (omega arith),
  λ i g. g,
)
take_pages_lem (suc n) b zero pages ps h = absurd (omega arith)
take_pages_lem (suc n) b (suc k) pages ps h =
    let taken = update pages b (record (pages b) { reserved = true; is_head = false }) in
    let (pages', e, f, g, r) = take_pages_lem n (suc b) k taken ps (omega arith) in
    (
      pages',
      e ∙ ap (λ q. some (pages', q ++ ps)) (range_same (omega arith) (omega arith)),
      λ i. f i ∙ update_keeps (λ q. q.property) pages b _ i refl,
      λ i lo hi. elim (Bool-cases (i == b)) [
        | inl same ↦ r i (rw same refl)
        | inr other ↦ let ne = ==-ne i b other in g i (ground arith) (omega arith)
      ],
      λ i q. r i (update_all (λ x. x.reserved ≡ true) pages b _ i refl q),
    )

pub split_nothing :
    (pages : ℕ → Page) (b n : ℕ) (ps : List ℕ)
    → ltb n (pages b).property ≡ false
    → split_block pages b n ps ≡ some pages
unfolding split_block
split_nothing pages b n [] h = rw h refl
split_nothing pages b n (q ∷ qs) h = rw h refl

-- The first page behind a run begins what is left of its block.
pub split_block_lem :
    (pages : ℕ → Page) (b k n : ℕ) (ps : List ℕ)
    → n ≤ k
    → (pages b).property ≡ k
    → (pages' : ℕ → Page) × (split_block pages b n (range (b + n) (k - n) ++ ps) ≡ some pages')
      × ((i : ℕ) → (pages' i).reserved ≡ (pages i).reserved)
      × ((i : ℕ) → i ≢ b + n → (pages' i).property ≡ (pages i).property)
      × (n < k → (pages' (b + n)).property ≡ k - n)
      × (n ≡ k → (pages' (b + n)).property ≡ (pages (b + n)).property)
unfolding split_block
split_block_lem pages b k n ps h e = elim (Bool-cases (ltb n k)) [
  | inl l ↦
      let s : range (b + n) (k - n) ≡ range (b + n) (suc (k - n - 1)) =
        range_same refl (let q : k - n ≡ suc (k - n - 1) = ground (arith, l) in q) in
      (
        set_property pages (b + n) (k - n),
        rw (s, e, l) refl,
        λ i. update_keeps (λ q. q.reserved) pages (b + n) _ i refl,
        λ i ne. update_read (λ q. q.property) pages (b + n) _ i ∙ rw (ne-== i (b + n) ne) refl,
        λ _. ap (λ q. q.property) (update_self pages (b + n) _),
        λ q. absurd (ground (arith, q, l)),
      )
  | inr l ↦ (
    pages,
    split_nothing pages b n (range (b + n) (k - n) ++ ps) (rw e l),
    λ i. refl,
    λ i ne. refl,
    λ q. absurd (ground (arith, q, l)),
    λ q. refl,
  )
]
