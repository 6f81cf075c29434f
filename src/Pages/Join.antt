-- ===== src/Pages/Join.antt =====
-- kern/mm/default_pmm.c: a block is joined to the one in front of it.

use mathlib.Core.List.{append-nil}
use a_smart_mlfq_project_bas.Common.{
  ltb, ◌==◌, if◌then◌else◌, ==_iff, ne-==, ==-ne, Bool-cases, ℕ, zero, suc, ◌+◌, ◌≤◌, ◌<◌, ◌≡◌,
  refl, sym, ap, ◌∙◌, subst, ◌≢◌, inl, inr, false, List, [], ◌∷◌, ◌++◌, arith,
}
use a_smart_mlfq_project_bas.Common.Store.{update_read}
use a_smart_mlfq_project_bas.Pages.{
  Page, set_property, range, walk_back, join_before, reversed_onto,
}
use a_smart_mlfq_project_bas.Pages.Blocks.{pages_of, IsBlocks, IsBlocks-same}

-- The freed block in front of the others, joined to one that begins where it ends.
abbrev pub merge_behind : ℕ → ℕ → List (ℕ × ℕ) → (ℕ × ℕ) × List (ℕ × ℕ)
merge_behind b n [] = ((b, n), [])
merge_behind b n ((c, k) ∷ ys) = if b + n == c then ((b, n + k), ys) else ((b, n), (c, k) ∷ ys)

-- A block behind others, joined to the last one where that ends at it.
abbrev pub merge_before : List (ℕ × ℕ) → ℕ → ℕ → List (ℕ × ℕ) → List (ℕ × ℕ)
merge_before [] b n zs = (b, n) ∷ zs
merge_before ((c, j) ∷ []) b n zs = if c + j == b then (c, j + n) ∷ zs else (c, j) ∷ (b, n) ∷ zs
merge_before ((c, j) ∷ y ∷ xs) b n zs = (c, j) ∷ merge_before (y ∷ xs) b n zs

pub reversed_onto_snoc :
    (a m : ℕ) (qs : List ℕ)
    → reversed_onto (range a (suc m)) qs ≡ (a + m) ∷ reversed_onto (range a m) qs
reversed_onto_snoc a zero qs = ap (λ p. p ∷ qs) (omega arith)
reversed_onto_snoc a (suc m) qs =
    reversed_onto_snoc (suc a) m (a ∷ qs)
    ∙ ap (λ p. p ∷ reversed_onto (range (suc a) m) (a ∷ qs)) (omega arith)

pub reversed_onto-append :
    (xs ys qs : List ℕ) → reversed_onto (xs ++ ys) qs ≡ reversed_onto ys (reversed_onto xs qs)
reversed_onto-append [] ys qs = refl
reversed_onto-append (x ∷ xs) ys qs = reversed_onto-append xs ys (x ∷ qs)

-- The walk back passes the pages that are not the first of a block.
pub walk_back_past :
    (pages : ℕ → Page) (base a m : ℕ) (qs : List ℕ)
    → ((i : ℕ) → a ≤ i → i < a + m → (pages i).property ≡ 0)
    → walk_back pages base (reversed_onto (range a m) qs) ≡ walk_back pages base qs
unfolding walk_back
walk_back_past pages base a zero qs f = refl
walk_back_past pages base a (suc m) qs f =
    walk_back_past pages base (suc a) m (a ∷ qs) (λ i g l. f i (omega arith) (omega arith))
    ∙ rw (f a (omega arith) (omega arith)) refl

-- the two writes of a join
abbrev pub joined : (ℕ → Page) → ℕ → ℕ → (ℕ → Page)
joined pages p base =
    set_property (set_property pages p ((pages p).property + (pages base).property)) base 0

pub joined_read :
    (pages : ℕ → Page) (p base i : ℕ)
    → (joined pages p base i).property ≡ (
        if i == base
        then 0
        else (if i == p then (pages p).property + (pages base).property else (pages i).property))
joined_read pages p base i =
    update_read (λ q. q.property) (set_property pages p _) base _ i
    ∙ ap (λ x. if i == base then 0 else x) (update_read (λ q. q.property) pages p _ i)

-- A block whose last page is looked at first: it is joined exactly where it ends at the base.
pub join_before_block :
    (pages : ℕ → Page) (base c j : ℕ) (qs : List ℕ)
    → 0 < j
    → (pages c).property ≡ j
    → ((i : ℕ) → c < i → i < c + j → (pages i).property ≡ 0)
    → join_before pages base (reversed_onto (range c j) qs)
      ≡ (if c + j == base then joined pages c base else pages)
unfolding join_before walk_back
join_before_block pages base c zero qs h e f = absurd (omega arith)
join_before_block pages base c (suc m) qs h e f =
    let nz : ((pages c).property == 0) ≡ false = ground (arith, e) in
    let walk : walk_back pages base (reversed_onto (range c (suc m)) qs) ≡ joined pages c base =
      walk_back_past pages base (suc c) m (c ∷ qs) (λ i g l. f i (omega arith) (omega arith))
      ∙ rw nz refl in
    let snoc = reversed_onto_snoc c m qs in
    let last : c + suc m ≡ suc (c + m) = omega arith in
    ap (join_before pages base) snoc
    ∙ ap (λ w. if suc (c + m) == base then w else pages)
        (ap (walk_back pages base) (sym snoc) ∙ walk)
    ∙ ap (λ z. if z == base then joined pages c base else pages) (sym last)

pub own_sum : (c j n x y : ℕ) → x ≡ j → y ≡ n → (if c == c then x + y else x) ≡ j + n
own_sum c j n x y e f = ground (arith, e, f)

pub joined_elsewhere :
    (pages : ℕ → Page) (c base i : ℕ)
    → i ≢ base
    → i ≢ c
    → (joined pages c base i).property ≡ (pages i).property
joined_elsewhere pages c base i nb nc =
    joined_read pages c base i ∙ rw (ne-== i base nb, ne-== i c nc) refl

pub joined-IsBlocks :
    (pages : ℕ → Page) (base n lo c j : ℕ) (zs : List (ℕ × ℕ))
    → IsBlocks pages lo ((c, j) ∷ (base, n) ∷ zs)
    → c + j ≡ base
    → IsBlocks (joined pages c base) lo ((c, j + n) ∷ zs)
      × ((i : ℕ) → i < c → (joined pages c base i).property ≡ (pages i).property)
joined-IsBlocks pages base n lo c j zs v meet =
    let (a, b, e, f, w) = v in
    let elsewhere = joined_elsewhere pages c base in
    let first : (joined pages c base c).property ≡ j + n =
      joined_read pages c base c
      ∙ rw (ne-== c base (λ q. omega (arith, q, b, meet)))
          (own_sum c j n (pages c).property (pages base).property e w.2) in
    (
      (
        a,
        omega (arith, b),
        first,
        λ i g l. elim (Bool-cases (i == base)) [
          | inl q ↦ joined_read pages c base i ∙ rw q refl
          | inr q ↦
              let nb = ==-ne i base q in
              elsewhere i nb (λ z. omega (arith, z, g)) ∙ (elim (Bool-cases (ltb i base)) [
                | inl below ↦ f i g (ground (arith, below, meet))
                | inr above ↦ w.3 i (ground (arith, above, nb)) (omega (arith, meet, l))
              ])
        ],
        IsBlocks-same pages (joined pages c base) (base + n) (c + (j + n)) zs w.4
            (omega (arith, meet))
            (λ i g.
              elsewhere i (λ z. omega (arith, z, g, w.1)) (λ z. omega (arith, z, g, b, meet))),
      ),
      λ i l. elsewhere i (λ z. omega (arith, z, l, meet)) (λ z. omega (arith, z, l)),
    )

-- The last of some blocks is joined to the block behind them where it ends there.
pub join_before-IsBlocks :
    (pages : ℕ → Page) (base n lo c j : ℕ) (xs zs : List (ℕ × ℕ)) (qs : List ℕ)
    → IsBlocks pages lo (((c, j) ∷ xs) ++ (base, n) ∷ zs)
    → IsBlocks
        (join_before pages base (reversed_onto (pages_of ((c, j) ∷ xs)) qs))
        lo
        (merge_before ((c, j) ∷ xs) base n zs)
      × ((i : ℕ)
          → i < c
          → (join_before pages base (reversed_onto (pages_of ((c, j) ∷ xs)) qs) i).property
            ≡ (pages i).property)
join_before-IsBlocks pages base n lo c j [] zs qs v =
    let (a, b, e, f, w) = v in
    subst
      (λ p.
        IsBlocks p lo (merge_before ((c, j) ∷ []) base n zs)
        × ((i : ℕ) → i < c → (p i).property ≡ (pages i).property))
      (sym (
        ap (λ q. join_before pages base (reversed_onto q qs)) (append-nil (range c j))
        ∙ join_before_block pages base c j qs b e f))
      (elim (Bool-cases (c + j == base)) [
        | inl q ↦ rw q (joined-IsBlocks pages base n lo c j zs v ((==_iff (c + j) base).0 q))
        | inr q ↦ rw q (v, λ i l. refl)
      ])
join_before-IsBlocks pages base n lo c j ((d, k) ∷ xs) zs qs v =
    let (a, b, e, f, w) = v in
    let (x, y) =
      join_before-IsBlocks pages base n (c + j) d k xs zs (reversed_onto (range c j) qs) w in
    subst
      (λ rs.
        IsBlocks (join_before pages base rs) lo (merge_before ((c, j) ∷ (d, k) ∷ xs) base n zs)
        × ((i : ℕ) → i < c → (join_before pages base rs i).property ≡ (pages i).property))
      (sym (reversed_onto-append (range c j) (pages_of ((d, k) ∷ xs)) qs))
      (
        (a, b, y c (omega (arith, w.0, b)) ∙ e, λ i g l. y i (omega (arith, w.0)) ∙ f i g l, x),
        λ i l. y i (omega (arith, w.0)),
      )
