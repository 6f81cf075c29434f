-- ===== src/Ring/Delete.antt =====
-- libs/list.h: deletion, and the test for an empty list.
use a_smart_mlfq_project_bas.Common.{
  ◌==◌, ne-==, count, count-append, ℕ, ◌≤◌, ◌<◌, ◌≡◌, refl, sym, ap, ◌∙◌, subst, ◌≢◌, ◌↔◌, true,
  List, [], ◌∷◌, ◌++◌, arith,
}
use a_smart_mlfq_project_bas.Common.Store.{update_self}
use a_smart_mlfq_project_bas.Ring.{
  Entries, list_init, bridge, list_del, list_del_init, list_is_empty,
}
use a_smart_mlfq_project_bas.Ring.Linked.{Linked, IsRing, frame, before_end, after_begin, cut}

delete_segment :
    (s : Entries) (a : ℕ) (xs : List ℕ) (e : ℕ) (ys : List ℕ) (b : ℕ)
    → Linked s a (xs ++ e ∷ ys) b
    → ((x : ℕ) → count x (a ∷ (xs ++ e ∷ ys)) ≤ 1)
    → count b (xs ++ e ∷ ys) ≡ 0
    → Linked (list_del s e) a (xs ++ ys) b
unfolding list_del bridge
delete_segment s a [] e [] b v d m = let (f, g, (h, k)) = v in (ground arith, ground arith)
delete_segment s a [] e (y ∷ ys) b v d m =
    let (f, g, (h, k, w)) = v in
    let da = d a in
    let dy = d y in
    (
      ground arith,
      ground arith,
      frame s (list_del s e) y ys b w (λ z l. let dz = d z in ground arith)
          (λ z l. let dz = d z in ground arith),
    )
delete_segment s a (x ∷ xs) e ys b v d m =
    let c = cut s x xs e ys b v.2 in
    let p = before_end s x xs e c.0 in
    let n = after_begin s e ys b c.1 in
    let da = d a in
    let dx = d x in
    let ap' : a ≢ s.prev e = λ q.
      let j = subst (λ y. 0 < count y (x ∷ xs)) (sym q) p in
      let k = count-append a xs (e ∷ ys) in ground arith in
    let xn : x ≢ s.next e = λ q.
      let j = subst (λ y. 0 < count y (ys ++ (b ∷ []))) (sym q) n in
      let k = count-append x xs (e ∷ ys) in let l = count-append x ys (b ∷ []) in ground arith in
    (
      ground (arith, ap', v.0),
      ground (arith, xn, v.1),
      delete_segment s x xs e ys b v.2 (λ y. let dy = d y in ground arith) (ground arith),
    )

-- list_del_init takes an entry out of its list, wherever it stands in it: the others stay a ring in
-- their order. It leaves the entry alone in a ring of its own, with both of its pointers to itself, for
-- which list_empty is true.
pub list_del_init_lem :
    {s : Entries} (h e : ℕ) (xs ys : List ℕ)
    → IsRing s h (xs ++ e ∷ ys)
    → IsRing (list_del_init s e) h (xs ++ ys)
      × IsRing (list_del_init s e) e []
      × (list_is_empty (list_del_init s e) e ≡ true)
unfolding list_del_init list_init list_is_empty
list_del_init_lem {s} h e xs ys v =
    let split = λ (x : ℕ). count-append x xs (e ∷ ys) in
    let less = λ (x : ℕ). count-append x xs ys in
    let oh = v.once h in
    let d = delete_segment s h xs e ys h v.linked v.once (ground arith) in
    let fresh : count e (h ∷ (xs ++ ys)) ≡ 0 =
      let o = v.once e in let k = split e in let l = less e in ground arith in
    let other : (x : ℕ) → 0 < count x (h ∷ (xs ++ ys)) → x ≢ e =
      λ x m q. let z = subst (λ y. 0 < count y (h ∷ (xs ++ ys))) q m in omega arith in
    (
      record {
        linked =
            frame (list_del s e) (list_init (list_del s e) e) h (xs ++ ys) h d
              (λ x m. rw (ne-== x e (other x m)) refl) (λ x m. rw (ne-== x e (other x m)) refl);
        once = λ x. let o = v.once x in let k = split x in let l = less x in ground arith;
      },
      record {
        linked = (update_self (list_del s e).next e e, update_self (list_del s e).prev e e);
        once = λ x. ground arith;
      },
      ap (λ y. y == e) (update_self (list_del s e).next e e) ∙ ground arith,
    )

-- list_empty says whether a list has no entry behind its head.
pub list_is_empty_lem :
    {s : Entries} (h : ℕ) (xs : List ℕ) → IsRing s h xs → (list_is_empty s h ≡ true) ↔ (xs ≡ [])
unfolding list_is_empty
list_is_empty_lem {s} h [] v = let l = v.linked.0 in (λ e. refl, λ e. ground arith)
list_is_empty_lem {s} h (x ∷ xs) v =
    let l = v.linked.0 in let o = v.once h in (λ e. absurd (ground arith), λ e. absurd (cc))
