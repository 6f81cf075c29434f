-- ===== src/Memory/Access.antt =====
-- kern/mm/vmm.c: user_mem_check against the areas of an address space.
use a_smart_mlfq_project_bas.Common.{
  ltb, Bool-cases, Option-cases, count, ℕ, zero, suc, ◌+◌, ◌≤◌, ◌<◌, ◌≡◌, refl, sym, ◌∙◌, subst,
  ◌⊎◌, inl, inr, Bool, true, false, Option, none, some, List, arith,
}
use a_smart_mlfq_project_bas.Memory.{Vma, Mm, contains, allows, check_area, check_from}
use a_smart_mlfq_project_bas.Memory.Find.{IsCache, Answers, find_listed_unique, find_vma_lem}
use a_smart_mlfq_project_bas.Memory.Insert.{Apart}

-- An address of an area that may be accessed: not on the first page of a stack that is written.
abbrev pub IsAllowed : Bool → (ℕ → Vma) → List ℕ → ℕ → Type 0
IsAllowed write vmas ms a =
    (m : ℕ) × (0 < count m ms) × (contains (vmas m) a ≡ true) × (allows write a (vmas m) ≡ true)

contains_start : (v : Vma) (a : ℕ) → contains v a ≡ true → (v.vm_start ≤ a) × (a < v.vm_end)
unfolding contains
contains_start v a h = ground (arith, h)

-- Behind an allowed address its area is allowed.
allows_on :
    (write : Bool) (v : Vma) (start a : ℕ)
    → start ≤ a
    → allows write start v ≡ true
    → allows write a v ≡ true
unfolding allows
allows_on false v start a h e = ground (arith, e)
allows_on true v start a h e = ground (arith, e)

contains_on :
    (v : Vma) (start a : ℕ)
    → contains v start ≡ true
    → start ≤ a
    → a < v.vm_end
    → contains v a ≡ true
unfolding contains
contains_on v start a h l k = ground (arith, h)

some_eq : {m n : ℕ} → some m ≡ some n → m ≡ n
some_eq e = cc (e)

IsCache-same : (mm t : Mm) (o : Option ℕ) → t.mmap_list ≡ mm.mmap_list → IsCache mm o → IsCache t o
IsCache-same mm t none e h = tt
IsCache-same mm t (some m) e h = subst (λ ms. 0 < count m ms) (sym e) h

-- The area of the first address is not allowed.
refused :
    (write : Bool) (vmas : ℕ → Vma) (ms : List ℕ) (start m : ℕ)
    → Apart vmas 0 ms
    → 0 < count m ms
    → contains (vmas m) start ≡ true
    → allows write start (vmas m) ≡ false
    → ¬ IsAllowed write vmas ms start
refused write vmas ms start m apart l c bad (x, k, d, good) =
    let e = find_listed_unique vmas start 0 m ms apart l c in
    let f = find_listed_unique vmas start 0 x ms apart k d in
    let same : m ≡ x = some_eq (sym e ∙ f) in
    let g = subst (λ y. allows write start (vmas y) ≡ true) (sym same) good in cc (g, bad)

-- From a sound cache and areas apart, with fuel for the addresses, the loop returns. It answers true
-- where all addresses are allowed, and else false.
pub check_from_lem :
    (fuel : ℕ) (write : Bool) (vmas : ℕ → Vma) (mm : Mm) (start end : ℕ)
    → Apart vmas 0 mm.mmap_list
    → IsCache mm mm.mmap_cache
    → end ≤ start + fuel
    → (t : Mm) × (b : Bool) × (check_from fuel write vmas mm start end ≡ some (t, b))
      × (((b ≡ true) × ((a : ℕ) → start ≤ a → a < end → IsAllowed write vmas mm.mmap_list a))
          ⊎ ((b ≡ false)
              × ((a : ℕ) × (start ≤ a) × (a < end) × ¬ IsAllowed write vmas mm.mmap_list a)))
unfolding check_from check_area
check_from_lem zero write vmas mm start end apart cache enough =
    let over : ltb start end ≡ false = ground arith in
    (mm, true, rw over refl, inl (refl, λ a l k. absurd (omega arith)))
check_from_lem (suc fuel) write vmas mm start end apart cache enough =
    elim (Bool-cases (ltb start end)) [
      | inr over ↦ (mm, true, rw over refl, inl (refl, λ a l k. absurd (ground (arith, over))))
      | inl more ↦
          let (t, r, e, _, answer, same, still) = find_vma_lem vmas mm start apart cache in
          elim (Option-cases r) [
            | inl z ↦
                let none_at = subst (Answers vmas mm start) z answer in
                (
                  t,
                  false,
                  rw (more, e, z) refl,
                  inr (
                    refl,
                    (
                      start,
                      omega arith,
                      ground (arith, more),
                      λ y. let n = none_at y.0 y.1 in let c = y.2 in cc (n, c),
                    ),
                  ),
                )
            | inr (m, z) ↦
                let here = subst (Answers vmas mm start) z answer in
                let (low, high) = contains_start (vmas m) start here.1 in
                let inside : ltb start (vmas m).vm_start ≡ false = ground arith in
                elim (Bool-cases (allows write start (vmas m))) [
                  | inr bad ↦ (
                    t,
                    false,
                    rw (more, e, z, inside, bad) refl,
                    inr (
                      refl,
                      (
                        start,
                        omega arith,
                        ground (arith, more),
                        refused write vmas mm.mmap_list start m apart here.0 here.1 bad,
                      ),
                    ),
                  )
                  | inl good ↦
                      let (u, b, f, parts) =
                        check_from_lem fuel write vmas t (vmas m).vm_end end
                          (subst (Apart vmas 0) (sym same) apart)
                          (IsCache-same mm t t.mmap_cache same still) (omega arith) in
                      (
                        u,
                        b,
                        rw (more, e, z, inside, good) f,
                        elim parts [
                          | inl (yes_, all) ↦ inl (
                            yes_,
                            λ a l k. elim (Bool-cases (ltb a (vmas m).vm_end)) [
                              | inl near ↦ (
                                m,
                                here.0,
                                contains_on (vmas m) start a here.1 l (ground (arith, near)),
                                allows_on write (vmas m) start a l good,
                              )
                              | inr far ↦
                                  subst (λ ms. IsAllowed write vmas ms a) same
                                    (all a (ground (arith, far)) k)
                            ],
                          )
                          | inr (no_, (a, l, k, g)) ↦ inr (
                            no_,
                            (
                              a,
                              omega arith,
                              k,
                              λ y. g (subst (λ ms. IsAllowed write vmas ms a) (sym same) y),
                            ),
                          )
                        ],
                      )
                ]
          ]
    ]
