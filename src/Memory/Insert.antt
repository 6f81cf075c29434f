-- ===== src/Memory/Insert.antt =====
-- kern/mm/vmm.c: areas stay sorted and apart.
use a_smart_mlfq_project_bas.Common.{
  ltb, lt→ltb, Bool-cases, count, ℕ, ◌+◌, ◌≤◌, ◌<◌, ◌≡◌, refl, ◌⊎◌, inl, inr, Option, none, some,
  List, [], ◌∷◌, arith,
}
use a_smart_mlfq_project_bas.Memory.{
  Vma, Mm, check_vma_overlap, check_prev, insert_behind, insert_vma_struct,
}

-- the areas of a list, from an address on: each is not empty, and begins behind the one before
abbrev pub Apart : (ℕ → Vma) → ℕ → List ℕ → Type 0
Apart vmas low [] = Unit {0}
Apart vmas low (m ∷ ms) =
    (low ≤ (vmas m).vm_start)
    × ((vmas m).vm_start < (vmas m).vm_end)
    × Apart vmas (vmas m).vm_end ms

abbrev pub Disjoint : (ℕ → Vma) → ℕ → List ℕ → Type 0
Disjoint vmas v [] = Unit {0}
Disjoint vmas v (m ∷ ms) =
    (((vmas v).vm_end ≤ (vmas m).vm_start) ⊎ ((vmas m).vm_end ≤ (vmas v).vm_start))
    × Disjoint vmas v ms

abbrev pub end_of : (ℕ → Vma) → Option ℕ → ℕ
end_of vmas none = 0
end_of vmas (some m) = (vmas m).vm_end

abbrev pub NotEmpty : (ℕ → Vma) → Option ℕ → Type 0
NotEmpty vmas none = Unit {0}
NotEmpty vmas (some m) = (vmas m).vm_start < (vmas m).vm_end

prev_ok :
    (vmas : ℕ → Vma) (prev : Option ℕ) (v : ℕ)
    → NotEmpty vmas prev
    → end_of vmas prev ≤ (vmas v).vm_start
    → (vmas v).vm_start < (vmas v).vm_end
    → check_prev vmas prev v ≡ some tt
unfolding check_prev check_vma_overlap
prev_ok vmas none v n e k = refl
prev_ok vmas (some m) v n e k = rw (lt→ltb _ _ n, lt→ltb _ _ k) (ground (arith, e))

next_ok :
    (vmas : ℕ → Vma) (v m : ℕ)
    → (vmas v).vm_start < (vmas v).vm_end
    → (vmas v).vm_end ≤ (vmas m).vm_start
    → (vmas m).vm_start < (vmas m).vm_end
    → check_vma_overlap (vmas v) (vmas m) ≡ some tt
unfolding check_vma_overlap
next_ok vmas v m n e k = rw (lt→ltb _ _ n, lt→ltb _ _ k) (ground (arith, e))

insert_behind-Apart :
    (vmas : ℕ → Vma) (v : ℕ) (prev : Option ℕ) (ms : List ℕ)
    → NotEmpty vmas prev
    → end_of vmas prev ≤ (vmas v).vm_start
    → (vmas v).vm_start < (vmas v).vm_end
    → Apart vmas (end_of vmas prev) ms
    → Disjoint vmas v ms
    → (r : List ℕ) × (insert_behind vmas v prev ms ≡ some r)
      × Apart vmas (end_of vmas prev) r
      × ((x : ℕ) → count x r ≡ count x (v ∷ ms))
unfolding insert_behind
insert_behind-Apart vmas v prev [] n e k a d =
    (v ∷ [], rw (prev_ok vmas prev v n e k) refl, (e, k, tt), λ x. refl)
insert_behind-Apart vmas v prev (m ∷ ms) n e k a d =
    elim (Bool-cases (ltb (vmas v).vm_start (vmas m).vm_start)) [
      | inl t ↦
          let w = d.0 in
          let before : (vmas v).vm_end ≤ (vmas m).vm_start = ground arith in
          (
            v ∷ m ∷ ms,
            rw (t, prev_ok vmas prev v n e k, next_ok vmas v m k before a.1) refl,
            (e, k, (before, a.1, a.2)),
            λ x. refl,
          )
      | inr t ↦
          let w = d.0 in
          let behind : (vmas m).vm_end ≤ (vmas v).vm_start = ground arith in
          let (r, q, b, c) = insert_behind-Apart vmas v (some m) ms a.1 behind k a.2 d.1 in
          (m ∷ r, rw (t, q) refl, (a.0, a.1, b), λ x. let cx = c x in ground arith)
    ]

-- An area that is not empty and overlaps none of an address space is inserted: the areas are sorted
-- and apart again, they are those from before and the new one, and they are counted.
pub insert_vma_struct_lem :
    (vmas : ℕ → Vma) (mm : Mm) (v : ℕ)
    → Apart vmas 0 mm.mmap_list
    → (vmas v).vm_start < (vmas v).vm_end
    → Disjoint vmas v mm.mmap_list
    → (t : Mm) × (insert_vma_struct vmas mm v ≡ some t)
      × Apart vmas 0 t.mmap_list
      × ((x : ℕ) → count x t.mmap_list ≡ count x (v ∷ mm.mmap_list))
      × (t.map_count ≡ mm.map_count + 1)
unfolding insert_vma_struct
insert_vma_struct_lem vmas mm v a k d =
    let (r, q, b, c) = insert_behind-Apart vmas v none mm.mmap_list tt (omega arith) k a d in
    (
      record mm { mmap_list = r; map_count = mm.map_count + 1 },
      rw (lt→ltb _ _ k, q) refl,
      b,
      c,
      refl,
    )
