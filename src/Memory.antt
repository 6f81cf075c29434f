-- ===== src/Memory.antt =====
-- kern/mm/vmm.c: the areas of an address space. An area lies at an address; `Mm` is the part of
-- `struct mm_struct` that these functions read.
pub mod Insert
pub mod Find
pub mod Access
mod Tests
use a_smart_mlfq_project_bas.Common.{
  ltb, leb, ◌==◌, if◌then◌else◌, ◌>>=◌, ◌>>◌, assert, ℕ, zero, suc, ◌+◌, ◌/◌, ◌%◌, Bool, true,
  false, ◌&&◌, ◌||◌, not, Option, none, some, List, [], ◌∷◌,
}
use a_smart_mlfq_project_bas.Common.Int.{u32}

pub record Vma : Type 0 where
  pub vm_start : ℕ
  pub vm_end : ℕ
  pub vm_flags : ℕ

pub record Mm : Type 0 where
  pub mmap_list : List ℕ
  pub mmap_cache : Option ℕ
  pub map_count : ℕ

unfoldable pub vma_create : ℕ → ℕ → ℕ → Vma
vma_create start end access = record { vm_start = start; vm_end = end; vm_flags = access }

-- what mm_create sets in these fields
abbrev pub mm_create : Mm
mm_create = record { mmap_list = []; mmap_cache = none; map_count = 0 }

unfoldable pub contains : Vma → ℕ → Bool
contains v addr = leb v.vm_start addr && ltb addr v.vm_end

-- the loop of find_vma
unfoldable pub find_listed : (ℕ → Vma) → ℕ → List ℕ → Option ℕ
find_listed vmas addr [] = none
find_listed vmas addr (m ∷ ms) = if contains (vmas m) addr then some m else find_listed vmas addr ms

-- the cached area, if it contains the address
unfoldable pub cache_hit : (ℕ → Vma) → ℕ → Option ℕ → Bool
cache_hit vmas addr none = false
cache_hit vmas addr (some m) = contains (vmas m) addr

unfoldable pub find_vma : (ℕ → Vma) → Mm → ℕ → Mm × Option ℕ
find_vma vmas mm addr =
    if cache_hit vmas addr mm.mmap_cache
    then (mm, mm.mmap_cache)
    else elim (find_listed vmas addr mm.mmap_list) [
      | none ↦ (mm, none)
      | some m ↦ (record mm { mmap_cache = some m }, some m)
    ]

unfoldable pub check_vma_overlap : Vma → Vma → Option (Unit {0})
check_vma_overlap prev next = do
  assert (ltb prev.vm_start prev.vm_end)
  assert (leb prev.vm_end next.vm_start)
  assert (ltb next.vm_start next.vm_end)

-- the check against the area in front, if there is one
unfoldable pub check_prev : (ℕ → Vma) → Option ℕ → ℕ → Option (Unit {0})
check_prev vmas none v = some tt
check_prev vmas (some m) v = check_vma_overlap (vmas m) (vmas v)

-- The loop of insert_vma_struct and what follows it; `prev` is the last area that was passed.
unfoldable pub insert_behind : (ℕ → Vma) → ℕ → Option ℕ → List ℕ → Option (List ℕ)
insert_behind vmas v prev [] = check_prev vmas prev v >> some (v ∷ [])
insert_behind vmas v prev (m ∷ ms) =
    let rest = insert_behind vmas v (some m) ms >>= (λ r. some (m ∷ r)) in
    if ltb (vmas v).vm_start (vmas m).vm_start
    then check_prev vmas prev v >> (check_vma_overlap (vmas v) (vmas m) >> some (v ∷ m ∷ ms))
    else rest

unfoldable pub insert_vma_struct : (ℕ → Vma) → Mm → ℕ → Option Mm
insert_vma_struct vmas mm v = do
  assert (ltb (vmas v).vm_start (vmas v).vm_end)
  list ← insert_behind vmas v none mm.mmap_list
  some (record mm { mmap_list = list; map_count = mm.map_count + 1 })

abbrev pub pgsize : ℕ
pgsize = 4096

abbrev pub user_access : ℕ → ℕ → Bool
user_access start end = leb 2097152 start && (ltb start end && leb end 2952790016)

abbrev pub kern_access : ℕ → ℕ → Bool
kern_access start end = leb 3221225472 start && (ltb start end && leb end 4160749568)

-- the flags VM_READ, VM_WRITE and VM_STACK of an area
unfoldable pub may_access : Bool → Vma → Bool
may_access write v = if write then (v.vm_flags / 2) % 2 == 1 else v.vm_flags % 2 == 1

abbrev pub is_stack : Vma → Bool
is_stack v = (v.vm_flags / 8) % 2 == 1

-- A write stays off the first page of a stack.
unfoldable pub allows : Bool → ℕ → Vma → Bool
allows write start v =
    may_access write v && not (write && (is_stack v && ltb start (v.vm_start + pgsize)))

-- One round of the loop of user_mem_check, over what goes on behind the area that was found.
unfoldable pub check_area :
    Bool → (ℕ → Vma) → ℕ → Mm × Option ℕ → (Mm → ℕ → Option (Mm × Bool)) → Option (Mm × Bool)
check_area write vmas start (mm, none) go = some (mm, false)
check_area write vmas start (mm, some m) go =
    let rest = go mm (vmas m).vm_end in
    if ltb start (vmas m).vm_start || not (allows write start (vmas m))
    then some (mm, false)
    else rest

-- The loop, with fuel for the addresses left; find_vma may set the cache.
unfoldable pub check_from : ℕ → Bool → (ℕ → Vma) → Mm → ℕ → ℕ → Option (Mm × Bool)
check_from zero write vmas mm start end = if ltb start end then none else some (mm, true)
check_from (suc fuel) write vmas mm start end =
    let next =
      check_area write vmas start (find_vma vmas mm start)
        (λ t from. check_from fuel write vmas t from end) in
    if ltb start end then next else some (mm, true)

unfoldable pub user_mem_check : ℕ → (ℕ → Vma) → Option Mm → ℕ → ℕ → Bool → Option (Option Mm × Bool)
user_mem_check fuel vmas none addr len write = some (none, kern_access addr (u32 (addr + len)))
user_mem_check fuel vmas (some mm) addr len write =
    if not (user_access addr (u32 (addr + len)))
    then some (some mm, false)
    else check_from fuel write vmas mm addr (u32 (addr + len)) >>= λ r. some (some r.0, r.1)
