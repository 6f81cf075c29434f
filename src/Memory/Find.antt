-- ===== src/Memory/Find.antt =====
-- kern/mm/vmm.c: an address is found in its area.
use a_smart_mlfq_project_bas.Common.{
  ◌==◌, ==_iff, Bool-cases, Option-cases, count, ℕ, ◌≤◌, ◌<◌, ◌≡◌, refl, sym, ap, ◌∙◌, subst, ◌⊎◌,
  inl, inr, true, false, Option, none, some, List, [], ◌∷◌, arith,
}
use a_smart_mlfq_project_bas.Memory.{Vma, Mm, contains, find_listed, cache_hit, find_vma}
use a_smart_mlfq_project_bas.Memory.Insert.{Apart}

-- the cached area, if any, is one of the list
abbrev pub IsCache : Mm → Option ℕ → Type 0
IsCache mm none = Unit {0}
IsCache mm (some m) = 0 < count m mm.mmap_list

-- what a search for an address may say
abbrev pub Answers : (ℕ → Vma) → Mm → ℕ → Option ℕ → Type 0
Answers vmas mm addr none = (m : ℕ) → 0 < count m mm.mmap_list → contains (vmas m) addr ≡ false
Answers vmas mm addr (some m) = (0 < count m mm.mmap_list) × (contains (vmas m) addr ≡ true)

start_above :
    (vmas : ℕ → Vma) (low m : ℕ) (ms : List ℕ)
    → Apart vmas low ms
    → 0 < count m ms
    → low ≤ (vmas m).vm_start
start_above vmas low m [] a l = absurd (omega arith)
start_above vmas low m (x ∷ ms) a l = elim (Bool-cases (x == m)) [
  | inl e ↦ let f = (==_iff x m).0 e in subst (λ y. low ≤ (vmas y).vm_start) f a.0
  | inr e ↦
      let r = start_above vmas (vmas x).vm_end m ms a.2 (ground arith) in
      let p = a.0 in let q = a.1 in omega arith
]

not_both :
    (p q : Vma) (addr : ℕ)
    → p.vm_end ≤ q.vm_start
    → contains q addr ≡ true
    → contains p addr ≡ false
unfolding contains
not_both p q addr h c = ground (arith, h, c)

pub find_listed_unique :
    (vmas : ℕ → Vma) (addr low m : ℕ) (ms : List ℕ)
    → Apart vmas low ms
    → 0 < count m ms
    → contains (vmas m) addr ≡ true
    → find_listed vmas addr ms ≡ some m
unfolding find_listed
find_listed_unique vmas addr low m [] a l c = absurd (omega arith)
find_listed_unique vmas addr low m (x ∷ ms) a l c = elim (Bool-cases (x == m)) [
  | inl e ↦
      let f = (==_iff x m).0 e in
      let cx = subst (λ y. contains (vmas y) addr ≡ true) (sym f) c in rw cx (ap (λ y. some y) f)
  | inr e ↦
      let i : 0 < count m ms = ground arith in
      let r = find_listed_unique vmas addr (vmas x).vm_end m ms a.2 i c in
      let u = start_above vmas (vmas x).vm_end m ms a.2 i in
      rw (not_both (vmas x) (vmas m) addr u c) r
]

find_listed-Answers :
    (vmas : ℕ → Vma) (addr : ℕ) (ms : List ℕ)
    → ((m : ℕ) × (find_listed vmas addr ms ≡ some m)
        × (0 < count m ms)
        × (contains (vmas m) addr ≡ true))
      ⊎ ((find_listed vmas addr ms ≡ none)
          × ((m : ℕ) → 0 < count m ms → contains (vmas m) addr ≡ false))
unfolding find_listed
find_listed-Answers vmas addr [] = inr (refl, λ m l. absurd (omega arith))
find_listed-Answers vmas addr (x ∷ ms) = elim (Bool-cases (contains (vmas x) addr)) [
  | inl e ↦ inl (x, rw e refl, ground arith, e)
  | inr e ↦ elim (find_listed-Answers vmas addr ms) [
    | inl (m, f, l, c) ↦ inl (m, rw e f, ground arith, c)
    | inr (f, n) ↦ inr (
      rw e f,
      λ m l. elim (Bool-cases (x == m)) [
        | inl q ↦ let g = (==_iff x m).0 q in subst (λ y. contains (vmas y) addr ≡ false) g e
        | inr q ↦ n m (ground arith)
      ],
    )
  ]
]

find_vma_hit :
    (vmas : ℕ → Vma) (mm : Mm) (addr : ℕ) (o : Option ℕ)
    → mm.mmap_cache ≡ o
    → cache_hit vmas addr o ≡ true
    → find_vma vmas mm addr ≡ (mm, o)
unfolding find_vma
find_vma_hit vmas mm addr o e h =
    let f : cache_hit vmas addr mm.mmap_cache ≡ true = ap (cache_hit vmas addr) e ∙ h in
    rw f (ap (λ (c : Option ℕ). (mm, c)) e)

find_vma-none :
    (vmas : ℕ → Vma) (mm : Mm) (addr : ℕ)
    → cache_hit vmas addr mm.mmap_cache ≡ false
    → find_listed vmas addr mm.mmap_list ≡ none
    → find_vma vmas mm addr ≡ (mm, none)
unfolding find_vma
find_vma-none vmas mm addr h e = ground (arith, h, e)

find_vma-some :
    (vmas : ℕ → Vma) (mm : Mm) (addr m : ℕ)
    → cache_hit vmas addr mm.mmap_cache ≡ false
    → find_listed vmas addr mm.mmap_list ≡ some m
    → find_vma vmas mm addr ≡ (record mm { mmap_cache = some m }, some m)
unfolding find_vma
find_vma-some vmas mm addr m h e = ground (arith, h, e)

-- find_vma answers rightly, whatever listed area is cached: the answer is that of a search without a
-- cache, an area is listed and contains the address, and for none no listed area contains it. The list
-- stays as it is, and the cache stays one of its areas.
pub find_vma_lem :
    (vmas : ℕ → Vma) (mm : Mm) (addr : ℕ)
    → Apart vmas 0 mm.mmap_list
    → IsCache mm mm.mmap_cache
    → (t : Mm) × (r : Option ℕ) × (find_vma vmas mm addr ≡ (t, r))
      × (r ≡ find_listed vmas addr mm.mmap_list)
      × Answers vmas mm addr r
      × (t.mmap_list ≡ mm.mmap_list)
      × IsCache mm t.mmap_cache
unfolding cache_hit
find_vma_lem vmas mm addr a h = elim (Bool-cases (cache_hit vmas addr mm.mmap_cache)) [
  | inl e ↦ elim (Option-cases mm.mmap_cache) [
    | inl c ↦ absurd (ground (arith, c, e))
    | inr (m, c) ↦
        let hit = sym (ap (cache_hit vmas addr) c) ∙ e in
        let l = subst (IsCache mm) c h in
        (
          mm,
          some m,
          find_vma_hit vmas mm addr (some m) c hit,
          sym (find_listed_unique vmas addr 0 m mm.mmap_list a l hit),
          (l, hit),
          refl,
          h,
        )
  ]
  | inr e ↦ elim (find_listed-Answers vmas addr mm.mmap_list) [
    | inl (m, f, l, c) ↦ (
      record mm { mmap_cache = some m },
      some m,
      find_vma-some vmas mm addr m e f,
      sym f,
      (l, c),
      refl,
      l,
    )
    | inr (f, n) ↦ (mm, none, find_vma-none vmas mm addr e f, sym f, n, refl, h)
  ]
]
