-- ===== src/Ring/Insert.antt =====
-- libs/list.h: insertion at the two ends of a list.
use a_smart_mlfq_project_bas.Common.{
  ◌==◌, ==_iff, Bool-cases, count, count-append, ℕ, ◌≤◌, ◌<◌, ◌≡◌, sym, subst, ◌≢◌, inl, inr, List,
  [], ◌∷◌, ◌++◌, arith,
}
use a_smart_mlfq_project_bas.Ring.{Entries, link_between, list_add_before, list_add_after, list_add}
use a_smart_mlfq_project_bas.Ring.Linked.{Linked, IsRing, frame, before_end}

append_end :
    (s : Entries) (e a : ℕ) (xs : List ℕ) (b : ℕ)
    → Linked s a xs b
    → ((x : ℕ) → count x (a ∷ xs) ≤ 1)
    → count b xs ≡ 0
    → count e (a ∷ xs) ≡ 0
    → e ≢ b
    → Linked (link_between s e (s.prev b) b) a (xs ++ (e ∷ [])) b
unfolding link_between
append_end s e a [] b v d m n k =
    let f = v.1 in (ground arith, ground arith, (ground arith, ground arith))
append_end s e a (x ∷ xs) b v d m n k =
    let i = before_end s x xs b v.2 in
    let f = v.0 in
    let g = v.1 in
    let da = d a in
    let ap' : a ≢ s.prev b =
      λ q. let j = subst (λ y. 0 < count y (x ∷ xs)) (sym q) i in ground arith in
    (
      ground (arith, ap'),
      ground arith,
      append_end s e x xs b v.2 (λ y. let dy = d y in ground arith) (ground arith) (ground arith) k,
    )

prepend :
    (s : Entries) (e a : ℕ) (xs : List ℕ) (b : ℕ)
    → Linked s a xs b
    → ((x : ℕ) → count x (a ∷ xs) ≤ 1)
    → count b xs ≡ 0
    → count e (a ∷ xs) ≡ 0
    → e ≢ b
    → Linked (link_between s e a (s.next a)) a (e ∷ xs) b
unfolding link_between
prepend s e a [] b v d m n k =
    let f = v.0 in (ground arith, ground arith, (ground arith, ground arith))
prepend s e a (x ∷ xs) b v d m n k =
    let f = v.0 in
    let da = d a in
    let dx = d x in
    (
      ground arith,
      ground arith,
      (
        ground arith,
        ground arith,
        frame s (link_between s e a (s.next a)) x xs b v.2 (λ y l. let dy = d y in ground arith)
            (λ y l. let dy = d y in ground arith),
      ),
    )

new_once :
    (h e x : ℕ) (xs : List ℕ)
    → count x (h ∷ xs) ≤ 1
    → count e (h ∷ xs) ≡ 0
    → count x (h ∷ e ∷ xs) ≤ 1
new_once h e x xs o n = elim (Bool-cases (e == x)) [
  | inl q ↦ let z = subst (λ y. count y (h ∷ xs) ≡ 0) ((==_iff e x).0 q) n in ground (arith, z, q)
  | inr q ↦ ground (arith, o, q)
]

-- list_add_before at the head of a list appends an entry that is not in it.
pub list_add_before_lem :
    {s : Entries} (h e : ℕ) (xs : List ℕ)
    → IsRing s h xs
    → count e (h ∷ xs) ≡ 0
    → IsRing (list_add_before s h e) h (xs ++ (e ∷ []))
unfolding list_add_before
list_add_before_lem {s} h e xs v n = record {
  linked =
      let o = v.once h in append_end s e h xs h v.linked v.once (ground arith) n (ground arith);
  once = λ x.
      let o = v.once x in
      let c = count-append x xs (e ∷ []) in let w = new_once h e x xs o n in ground (arith, c, w);
}

-- list_add at the head of a list puts an entry that is not in it in front.
pub list_add_lem :
    {s : Entries} (h e : ℕ) (xs : List ℕ)
    → IsRing s h xs
    → count e (h ∷ xs) ≡ 0
    → IsRing (list_add s h e) h (e ∷ xs)
unfolding list_add list_add_after
list_add_lem {s} h e xs v n = record {
  linked = let o = v.once h in prepend s e h xs h v.linked v.once (ground arith) n (ground arith);
  once = λ x. let o = v.once x in new_once h e x xs o n;
}
