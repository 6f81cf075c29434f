-- ===== src/Heap/Order.antt =====
-- libs/skew_heap.h: the entry on top is a least one.
use a_smart_mlfq_project_bas.Common.{
  ltb, ◌==◌, if◌then◌else◌, Bool-cases, ℕ, zero, suc, ◌≤◌, ◌<◌, ◌≡◌, refl, sym, subst, ◌↔◌, inl,
  inr, true, false, arith,
}
use a_smart_mlfq_project_bas.Common.Int.{ℤ, pos, negsuc, eqb_ℤ}
use a_smart_mlfq_project_bas.Heap.{
  Heap, leaf, node, merge_into, skew_heap_merge, skew_heap_insert, skew_heap_remove,
}
use a_smart_mlfq_project_bas.Heap.Members.{occurs}

-- On the entries with a property the comparison is that of a key: it says -1 exactly where the
-- first key is the smaller one.
abbrev pub Compares : (ℕ → ℕ → ℤ) → (ℕ → ℕ) → (ℕ → Type 0) → Type 0
Compares comp key P = (a b : ℕ) → P a → P b → (comp a b ≡ negsuc 0) ↔ (key a < key b)

-- no entry has a key below the bound
abbrev pub AllFrom : (ℕ → ℕ) → ℕ → Heap → Type 0
AllFrom key n leaf = Unit {0}
AllFrom key n (node l a r) = (n ≤ key a) × AllFrom key n l × AllFrom key n r

-- every entry has the property and stands above greater or equal ones
abbrev pub IsHeap : (ℕ → ℕ) → (ℕ → Type 0) → Heap → Type 0
IsHeap key P leaf = Unit {0}
IsHeap key P (node l a r) =
    P a × AllFrom key (key a) l × AllFrom key (key a) r × IsHeap key P l × IsHeap key P r

AllFrom-le : (key : ℕ → ℕ) (n m : ℕ) (h : Heap) → n ≤ m → AllFrom key m h → AllFrom key n h
AllFrom-le key n m leaf e v = tt
AllFrom-le key n m (node l a r) e v =
    (omega arith, AllFrom-le key n m l e v.1, AllFrom-le key n m r e v.2)

pub AllFrom-occurs :
    (key : ℕ → ℕ) (n x : ℕ) (h : Heap) → AllFrom key n h → 0 < occurs x h → n ≤ key x
AllFrom-occurs key n x leaf v o = absurd (omega arith)
AllFrom-occurs key n x (node l a r) v o = elim (Bool-cases (a == x)) [
  | inl e ↦ let d : a ≡ x = ground arith in rw (sym d) v.0
  | inr e ↦ elim (Bool-cases (occurs x l == 0)) [
    | inl z ↦ AllFrom-occurs key n x r v.2 (ground arith)
    | inr z ↦ AllFrom-occurs key n x l v.1 (ground arith)
  ]
]

eqb_ℤ→eq : (z : ℤ) → eqb_ℤ z (negsuc 0) ≡ true → z ≡ negsuc 0
eqb_ℤ→eq (pos n) e = absurd (ground arith)
eqb_ℤ→eq (negsuc zero) e = refl
eqb_ℤ→eq (negsuc (suc n)) e = absurd (ground arith)

not_below : (z : ℤ) (m n : ℕ) → (m < n → z ≡ negsuc 0) → eqb_ℤ z (negsuc 0) ≡ false → n ≤ m
not_below z m n d e = elim (Bool-cases (ltb m n)) [
  | inl l ↦ let z' = d (ground arith) in absurd (ground (arith, z', e))
  | inr l ↦ ground arith
]

module _ (comp : ℕ → ℕ → ℤ) (key : ℕ → ℕ) (P : ℕ → Type 0) (c : Compares comp key P) where
  AllFrom-merge_into :
      (n : ℕ) (l : Heap) (a : ℕ) (r : Heap) (sub : Heap → Heap) (h : Heap)
      → ((g : Heap) → AllFrom key n g → AllFrom key n (sub g))
      → AllFrom key n (node l a r)
      → AllFrom key n h
      → AllFrom key n (merge_into comp l a r sub h)
  unfolding merge_into
  AllFrom-merge_into n l a r sub leaf f v w = v
  AllFrom-merge_into n l a r sub (node l' b r') f v w =
      elim (eqb_ℤ (comp a b) (negsuc 0))
        as (λ t. AllFrom key n (elim t [
          | true ↦ node (sub (node l' b r')) a l
          | false ↦ node (merge_into comp l a r sub r') b l'
        ])) [
          | true ↦ (v.0, f (node l' b r') w, v.1)
          | false ↦ (w.0, AllFrom-merge_into n l a r sub r' f v w.2, w.1)
        ]

  pub AllFrom-merge :
      (n : ℕ) (g h : Heap)
      → AllFrom key n g
      → AllFrom key n h
      → AllFrom key n (skew_heap_merge comp g h)
  unfolding skew_heap_merge
  AllFrom-merge n leaf h v w = w
  AllFrom-merge n (node l a r) h v w =
      AllFrom-merge_into n l a r (skew_heap_merge comp r) h (λ g u. AllFrom-merge n r g v.2 u) v w

  merge_true :
      (l : Heap) (a : ℕ) (r : Heap) (sub : Heap → Heap) (l' : Heap) (b : ℕ) (r' : Heap)
      → ((n : ℕ) (g : Heap) → AllFrom key n r → AllFrom key n g → AllFrom key n (sub g))
      → ((g : Heap) → IsHeap key P g → IsHeap key P (sub g))
      → IsHeap key P (node l a r)
      → IsHeap key P (node l' b r')
      → key a ≤ key b
      → IsHeap key P (node (sub (node l' b r')) a l)
  merge_true l a r sub l' b r' f k v w e = (
    v.0,
    f (key a) (node l' b r') v.2
        (e, AllFrom-le key (key a) (key b) l' e w.1, AllFrom-le key (key a) (key b) r' e w.2),
    v.1,
    k (node l' b r') w,
    v.3,
  )

  IsHeap-merge_into :
      (l : Heap) (a : ℕ) (r : Heap) (sub : Heap → Heap) (h : Heap)
      → ((n : ℕ) (g : Heap) → AllFrom key n r → AllFrom key n g → AllFrom key n (sub g))
      → ((g : Heap) → IsHeap key P g → IsHeap key P (sub g))
      → IsHeap key P (node l a r)
      → IsHeap key P h
      → IsHeap key P (merge_into comp l a r sub h)
  unfolding merge_into
  IsHeap-merge_into l a r sub leaf f k v w = v
  IsHeap-merge_into l a r sub (node l' b r') f k v w =
      let d = c a b v.0 w.0 in
      elim (Bool-cases (eqb_ℤ (comp a b) (negsuc 0))) [
        | inl e ↦
            let e' : comp a b ≡ negsuc 0 = eqb_ℤ→eq (comp a b) e in
            let lt = d.0 e' in
            subst
              (λ t. IsHeap key P (elim t [
                | true ↦ node (sub (node l' b r')) a l
                | false ↦ node (merge_into comp l a r sub r') b l'
              ]))
              (sym e) (merge_true l a r sub l' b r' f k v w (omega arith))
        | inr e ↦
            let ge : key b ≤ key a = not_below (comp a b) (key a) (key b) d.1 e in
            subst
              (λ t. IsHeap key P (elim t [
                | true ↦ node (sub (node l' b r')) a l
                | false ↦ node (merge_into comp l a r sub r') b l'
              ]))
              (sym e)
              (
                w.0,
                AllFrom-merge_into (key b) l a r sub r'
                    (λ g u. f (key b) g (AllFrom-le key (key b) (key a) r ge v.2) u)
                    (
                      ge,
                      AllFrom-le key (key b) (key a) l ge v.1,
                      AllFrom-le key (key b) (key a) r ge v.2,
                    )
                    w.2,
                w.1,
                IsHeap-merge_into l a r sub r' f k v w.4,
                w.3,
              )
      ]

  -- The merge of two heaps is a heap.
  pub IsHeap-merge :
      (g h : Heap) → IsHeap key P g → IsHeap key P h → IsHeap key P (skew_heap_merge comp g h)
  unfolding skew_heap_merge
  IsHeap-merge leaf h v w = w
  IsHeap-merge (node l a r) h v w =
      IsHeap-merge_into l a r (skew_heap_merge comp r) h (λ n g. AllFrom-merge n r g)
        (λ g. IsHeap-merge r g v.4) v w

  -- Where the comparison is that of a key, a heap stays one when an entry is inserted that has the
  -- property of the entries.
  pub IsHeap-insert :
      (h : Heap) (b : ℕ) → IsHeap key P h → P b → IsHeap key P (skew_heap_insert comp h b)
  unfolding skew_heap_insert
  IsHeap-insert h b v p = IsHeap-merge h (node leaf b leaf) v (p, tt, tt, tt, tt)

  AllFrom-remove :
      (n : ℕ) (h : Heap) (b : ℕ) → AllFrom key n h → AllFrom key n (skew_heap_remove comp h b)
  unfolding skew_heap_remove
  AllFrom-remove n leaf b v = tt
  AllFrom-remove n (node l a r) b v =
      elim (a == b)
        as (λ t. AllFrom key n (
          if t
          then skew_heap_merge comp l r
          else node (skew_heap_remove comp l b) a (skew_heap_remove comp r b))) [
            | true ↦ AllFrom-merge n l r v.1 v.2
            | false ↦ (v.0, AllFrom-remove n l b v.1, AllFrom-remove n r b v.2)
          ]

  -- Where the comparison is that of a key, a heap stays one when an entry is removed.
  pub IsHeap-remove : (h : Heap) (b : ℕ) → IsHeap key P h → IsHeap key P (skew_heap_remove comp h b)
  unfolding skew_heap_remove
  IsHeap-remove leaf b v = tt
  IsHeap-remove (node l a r) b v =
      elim (a == b)
        as (λ t. IsHeap key P (
          if t
          then skew_heap_merge comp l r
          else node (skew_heap_remove comp l b) a (skew_heap_remove comp r b))) [
            | true ↦ IsHeap-merge l r v.3 v.4
            | false ↦ (
              v.0,
              AllFrom-remove (key a) l b v.1,
              AllFrom-remove (key a) r b v.2,
              IsHeap-remove l b v.3,
              IsHeap-remove r b v.4,
            )
          ]

-- What holds of every entry can be read off the heap, and added to it.
pub IsHeap-and :
    (key : ℕ → ℕ) (P Q : ℕ → Type 0) (h : Heap)
    → IsHeap key P h
    → ((x : ℕ) → 0 < occurs x h → Q x)
    → IsHeap key (λ x. P x × Q x) h
IsHeap-and key P Q leaf v q = tt
IsHeap-and key P Q (node l a r) v q = (
  (v.0, q a (ground arith)),
  v.1,
  v.2,
  IsHeap-and key P Q l v.3 (λ x o. q x (omega arith)),
  IsHeap-and key P Q r v.4 (λ x o. q x (omega arith)),
)

-- From one key to another that keeps the order.
module _ (key key' : ℕ → ℕ) (P P' : ℕ → Type 0) (weaken : (a : ℕ) → P a → P' a)
    (keep : (a b : ℕ) → P a → P b → key a ≤ key b → key' a ≤ key' b) where
  AllFrom-map :
      (a : ℕ) (h : Heap) → P a → AllFrom key (key a) h → IsHeap key P h → AllFrom key' (key' a) h
  AllFrom-map a leaf p v w = tt
  AllFrom-map a (node l b r) p v w =
      (keep a b p w.0 v.0, AllFrom-map a l p v.1 w.3, AllFrom-map a r p v.2 w.4)

  pub IsHeap-map : (h : Heap) → IsHeap key P h → IsHeap key' P' h
  IsHeap-map leaf v = tt
  IsHeap-map (node l a r) v = (
    weaken a v.0,
    AllFrom-map a l v.0 v.1 v.3,
    AllFrom-map a r v.0 v.2 v.4,
    IsHeap-map l v.3,
    IsHeap-map r v.4,
  )
