-- ===== src/Ring/Tests.antt =====
-- Linked lists at concrete addresses.
use a_smart_mlfq_project_bas.Common.{◌==◌, if◌then◌else◌, ◌≡◌, refl, true, [], ◌∷◌, arith}
use a_smart_mlfq_project_bas.Ring.{Entries, list_del_init, list_is_empty}
use a_smart_mlfq_project_bas.Ring.Delete.{list_del_init_lem}
use a_smart_mlfq_project_bas.Ring.Linked.{IsRing}

-- the head 1 with the entries 2 and 3
abbrev two : Entries
two = record {
  prev = λ x. if x == 1 then 3 else if x == 2 then 1 else 2;
  next = λ x. if x == 1 then 2 else if x == 2 then 3 else 1;
}

two-IsRing : IsRing two 1 (2 ∷ 3 ∷ [])
two-IsRing = record { linked = (refl, refl, (refl, refl, (refl, refl))); once = λ x. ground arith }

list_del_init_example :
    IsRing (list_del_init two 2) 1 (3 ∷ [])
    × IsRing (list_del_init two 2) 2 []
    × (list_is_empty (list_del_init two 2) 2 ≡ true)
list_del_init_example = list_del_init_lem 1 2 [] (3 ∷ []) two-IsRing
