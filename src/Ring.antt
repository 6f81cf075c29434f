-- ===== src/Ring.antt =====
-- libs/list.h: circular doubly linked lists on a store of entries. The other modules take such a
-- list as the list of its entries; the theorems here justify that.
pub mod Linked
pub mod Insert
pub mod Delete
mod Tests
use a_smart_mlfq_project_bas.Common.{◌==◌, ℕ, Bool}
use a_smart_mlfq_project_bas.Common.Store.{update}

-- the pointers of each entry
pub record Entries : Type 0 where
  pub prev : ℕ → ℕ
  pub next : ℕ → ℕ

unfoldable pub list_init : Entries → ℕ → Entries
list_init s elm = record { prev = update s.prev elm elm; next = update s.next elm elm }

-- __list_add: `prev->next = next->prev = elm`, then the pointers of the new entry
unfoldable pub link_between : Entries → ℕ → ℕ → ℕ → Entries
link_between s elm p n = record {
  prev = update (update s.prev n elm) elm p;
  next = update (update s.next p elm) elm n;
}

unfoldable pub list_add_before : Entries → ℕ → ℕ → Entries
list_add_before s listelm elm = link_between s elm (s.prev listelm) listelm

unfoldable pub list_add_after : Entries → ℕ → ℕ → Entries
list_add_after s listelm elm = link_between s elm listelm (s.next listelm)

unfoldable pub list_add : Entries → ℕ → ℕ → Entries
list_add = list_add_after

-- __list_del
unfoldable pub bridge : Entries → ℕ → ℕ → Entries
bridge s p n = record { prev = update s.prev n p; next = update s.next p n }

unfoldable pub list_del : Entries → ℕ → Entries
list_del s listelm = bridge s (s.prev listelm) (s.next listelm)

unfoldable pub list_del_init : Entries → ℕ → Entries
list_del_init s listelm = list_init (list_del s listelm) listelm

unfoldable pub list_is_empty : Entries → ℕ → Bool
list_is_empty s list = s.next list == list
