-- ===== src/Format/Fuel.antt =====
-- libs/printfmt.c: the loop over a format ends.
use a_smart_mlfq_project_bas.Common.{
  ltb, ◌==◌, if◌then◌else◌, Bool-cases, ◌>>=◌, length, ℕ, zero, suc, ◌+◌, ◌-◌, ◌*◌, ◌^◌, ◌≤◌, ◌<◌,
  ◌≡◌, refl, sym, ap, ◌∙◌, ◌⊎◌, inl, inr, Bool, true, false, Option, none, some, List, [], ◌∷◌,
  ◌++◌, arith,
}
use a_smart_mlfq_project_bas.Common.Bytes.{codes}
use a_smart_mlfq_project_bas.Common.Int.{ℤ, pos, pos_part, neg_part, ltb_ℤ}
use a_smart_mlfq_project_bas.Format.{
  Arg, word, text, Spec, plain_spec, signed32, getint, get_text, is_digit, set_number, number,
  flags, conversion, missing, directive, scan, max_error, error_string, put_string, put_signed,
  put_error, convert, escape, vprintfmt, rounds,
}

some_eq : {m n : ℕ} → some m ≡ some n → m ≡ n
some_eq e = cc (e)

taken :
    (sp : Spec) (b : ℕ) (bs : List ℕ) (args : List Arg) (e : Spec × ℕ × List ℕ × List Arg)
    → some (sp, b, bs, args) ≡ some e
    → length e.2 < suc (length bs)
taken sp b bs args e h =
    let k : ◌≡◌ {A = Option ℕ} (some (length bs)) (some (length e.2)) =
      ap (λ o. o >>= λ z. some (length z.2)) h in
    omega (arith, some_eq k)

-- An escape sequence takes at least the byte of its conversion.
scan_shorter :
    (digits : Option ℕ) (sp : Spec) (args : List Arg) (bs : List ℕ)
    (e : Spec × ℕ × List ℕ × List Arg)
    → scan digits sp args bs ≡ some e
    → length e.2 < length bs
unfolding scan
scan_shorter none sp args [] e h = absurd (cc)
scan_shorter (some n) sp args [] e h = absurd (cc)
scan_shorter none sp args (b ∷ bs) e h =
    (elim (directive sp args b)
        as (λ x.
          (elim x [
            | number n ↦ scan (some n) sp args bs
            | flags sp' args' ↦ scan none sp' args' bs
            | conversion ↦ some (sp, b, bs, args)
            | missing ↦ none
          ])
            ≡ some e
          → length e.2 < suc (length bs)) [
            | number n ↦ λ k. let l = scan_shorter (some n) sp args bs e k in omega arith
            | flags sp' args' ↦ λ k. let l = scan_shorter none sp' args' bs e k in omega arith
            | conversion ↦ λ k. taken sp b bs args e k
            | missing ↦ λ k. absurd (cc)
          ])
      h
scan_shorter (some n) sp args (b ∷ bs) e h =
    (elim (is_digit b)
        as (λ y.
          (elim y [
            | true ↦ scan (some (n * 10 + (b - b'0'))) sp args bs
            | false ↦ elim (directive (set_number sp (pos n)) args b) [
              | number m ↦ none
              | flags sp' args' ↦ scan none sp' args' bs
              | conversion ↦ some (set_number sp (pos n), b, bs, args)
              | missing ↦ none
            ]
          ])
            ≡ some e
          → length e.2 < suc (length bs)) [
            | true ↦
                λ k. let l = scan_shorter (some (n * 10 + (b - b'0'))) sp args bs e k in omega arith
            | false ↦
                (elim (directive (set_number sp (pos n)) args b)
                  as (λ x.
                    (elim x [
                      | number m ↦ none
                      | flags sp' args' ↦ scan none sp' args' bs
                      | conversion ↦ some (set_number sp (pos n), b, bs, args)
                      | missing ↦ none
                    ])
                      ≡ some e
                    → length e.2 < suc (length bs)) [
                      | number m ↦ λ k. absurd (cc)
                      | flags sp' args' ↦
                          λ k. let l = scan_shorter none sp' args' bs e k in omega arith
                      | conversion ↦ λ k. taken (set_number sp (pos n)) b bs args e k
                      | missing ↦ λ k. absurd (cc)
                    ])
          ])
      h

option_cases : {A : Type 0} (x : Option A) → (x ≡ none) ⊎ ((a : A) × (x ≡ some a))
option_cases none = inl refl
option_cases (some a) = inr (a, refl)

if_same :
    {A : Type 0} (b : Bool) {x x' y y' : A}
    → x ≡ x'
    → y ≡ y'
    → (if b then x else y) ≡ (if b then x' else y')
if_same true e f = e
if_same false e f = f

module _ {S : Type 0} (put : ℕ → S → S) where
  -- the round of a conversion, over what it prints
  abbrev round_of : Option S → S × List ℕ × List Arg → Option (S × List ℕ × List Arg)
  round_of x w = x >>= (λ t. some (some (t, []))) >>= λ (r : Option (S × List Arg)).
      some (elim r [ none ↦ w | some q ↦ (q.0, 0 ∷ [], q.1) ])

  last_round :
      (m : ℕ) (x : Option S) (w : S × List ℕ × List Arg)
      → (round_of x w >>= λ r. vprintfmt put (suc m) r.0 r.1 r.2)
        ≡ (round_of x w >>= λ r. vprintfmt put 1 r.0 r.1 r.2)
  unfolding vprintfmt
  last_round m none w = refl
  last_round m (some t) w = refl

  -- The printing of an error number does not go deeper than its own format.
  error_rounds :
      (m n : ℕ) (s : S)
      → vprintfmt put
          (suc (suc (suc (suc (suc (suc (suc (suc m))))))))
          s
          (codes "error %d" ++ 0 ∷ [])
          (word n ∷ [])
        ≡ vprintfmt put 8 s (codes "error %d" ++ 0 ∷ []) (word n ∷ [])
  unfolding vprintfmt escape scan directive convert getint
  error_rounds m n s =
      last_round m
        (put_signed put plain_spec (signed32 n)
          (put 32 (put 114 (put 111 (put 114 (put 114 (put 101 s)))))))
        _

  text_rounds :
      (m : ℕ) (p : List ℕ) (s : S)
      → vprintfmt put (suc (suc m)) s (codes "%s" ++ 0 ∷ []) (text (some p) ∷ [])
        ≡ vprintfmt put 2 s (codes "%s" ++ 0 ∷ []) (text (some p) ∷ [])
  unfolding vprintfmt escape scan directive convert get_text
  text_rounds m p s = last_round m (put_string put plain_spec p s) _

  -- The formats that an error number is printed with.
  record SameNested (print print' : S → List ℕ → List Arg → Option S) : Type 0 where
    errors :
        (n : ℕ) (s : S)
        → print s (codes "error %d" ++ 0 ∷ []) (word n ∷ [])
          ≡ print' s (codes "error %d" ++ 0 ∷ []) (word n ∷ [])
    texts :
        (p : List ℕ) (s : S)
        → print s (codes "%s" ++ 0 ∷ []) (text (some p) ∷ [])
          ≡ print' s (codes "%s" ++ 0 ∷ []) (text (some p) ∷ [])

  named_same :
      (print print' : S → List ℕ → List Arg → Option S)
      → SameNested print print'
      → (s : S) (n : ℕ) (e : Option (List ℕ))
      → (elim e [
        | none ↦ print s (codes "error %d" ++ 0 ∷ []) (word n ∷ [])
        | some p ↦ print s (codes "%s" ++ 0 ∷ []) (text (some p) ∷ [])
      ])
        ≡ (elim e [
          | none ↦ print' s (codes "error %d" ++ 0 ∷ []) (word n ∷ [])
          | some p ↦ print' s (codes "%s" ++ 0 ∷ []) (text (some p) ∷ [])
        ])
  named_same print print' w s n none = w.errors n s
  named_same print print' w s n (some p) = w.texts p s

  put_error_same :
      (print print' : S → List ℕ → List Arg → Option S) (err : ℤ) (s : S)
      → SameNested print print'
      → put_error put print err s ≡ put_error put print' err s
  unfolding put_error
  put_error_same print print' err s w =
      let n = if ltb_ℤ err (pos 0) then neg_part err else pos_part err in
      ap (λ x. if n == 2 ^ 31 then none else x)
        (named_same print print' w s n (if ltb max_error n then none else error_string n))

  bind_ext :
      {A B : Type 0} (x : Option A) (f g : A → Option B)
      → ((a : A) → x ≡ some a → f a ≡ g a)
      → (x >>= f) ≡ (x >>= g)
  bind_ext none f g h = refl
  bind_ext (some a) f g h = h a refl

  convert_same :
      (print print' : S → List ℕ → List Arg → Option S) (sp : Spec) (c : ℕ) (args : List Arg)
      (s : S)
      → SameNested print print'
      → convert put print sp c args s ≡ convert put print' sp c args s
  unfolding convert
  convert_same print print' sp c args s w = elim (Bool-cases (c == b'c')) [
    | inl e ↦ rw e refl
    | inr e ↦ elim (Bool-cases (c == b'e')) [
      | inl f ↦
          rw (e, f)
            (bind_ext (getint args 0) _ _ (λ a _.
              ap (λ x. x >>= λ t. some (some (t, a.1))) (put_error_same print print' a.0 s w)))
      | inr f ↦ rw (e, f) refl
    ]
  ]

  escape_same :
      (print print' : S → List ℕ → List Arg → Option S) (s : S) (start : List ℕ) (args : List Arg)
      → SameNested print print'
      → escape put print s start args ≡ escape put print' s start args
  unfolding escape
  escape_same print print' s start args w = bind_ext (scan none plain_spec args start) _ _ (λ e _.
      ap
        (λ x.
          x >>= λ r. some (elim r [ none ↦ (put b'%' s, start, e.3) | some q ↦ (q.0, e.2, q.1) ]))
        (convert_same print print' e.0 e.1 e.3 s w))

  going_on :
      (start rest : List ℕ) (s : S) (args : List Arg) (r : S × List ℕ × List Arg)
      (o : Option (S × List Arg))
      → some (elim o [ none ↦ (put b'%' s, start, args) | some q ↦ (q.0, rest, q.1) ]) ≡ some r
      → length rest < length start
      → length r.1 ≤ length start
  going_on start rest s args r none h l =
      let k : ◌≡◌ {A = Option ℕ} (some (length start)) (some (length r.1)) =
        ap (λ x. x >>= λ z. some (length z.1)) h in
      omega (arith, some_eq k)
  going_on start rest s args r (some q) h l =
      let k : ◌≡◌ {A = Option ℕ} (some (length rest)) (some (length r.1)) =
        ap (λ x. x >>= λ z. some (length z.1)) h in
      omega (arith, some_eq k)

  -- An escape sequence does not lengthen what is left of the format.
  escape_shorter :
      (print : S → List ℕ → List Arg → Option S) (s : S) (start : List ℕ) (args : List Arg)
      (r : S × List ℕ × List Arg)
      → escape put print s start args ≡ some r
      → length r.1 ≤ length start
  unfolding escape
  escape_shorter print s start args r h = elim (option_cases (scan none plain_spec args start)) [
    | inl z ↦ let k = rw z at h in absurd (cc (k))
    | inr (e, z) ↦
        let l = scan_shorter none plain_spec args start e z in
        let k = rw z at h in
        elim (option_cases (convert put print e.0 e.1 e.3 s)) [
          | inl y ↦ let j = rw y at k in absurd (cc (j))
          | inr (o, y) ↦ let j = rw y at k in going_on start e.2 s e.3 r o j l
        ]
  ]

  nested_same : (m k : ℕ) → 8 ≤ m → SameNested (vprintfmt put (m + k)) (vprintfmt put m)
  nested_same m k h = record {
    errors = λ n s.
        ap (λ z. vprintfmt put z s (codes "error %d" ++ 0 ∷ []) (word n ∷ []))
          (let e : m + k ≡ suc (suc (suc (suc (suc (suc (suc (suc (m - 8 + k)))))))) =
              omega arith in
            e)
        ∙ error_rounds (m - 8 + k) n s
        ∙ sym (error_rounds (m - 8) n s)
        ∙ ap (λ z. vprintfmt put z s (codes "error %d" ++ 0 ∷ []) (word n ∷ []))
            (let e : suc (suc (suc (suc (suc (suc (suc (suc (m - 8)))))))) ≡ m = omega arith in e);
    texts = λ p s.
        ap (λ z. vprintfmt put z s (codes "%s" ++ 0 ∷ []) (text (some p) ∷ []))
          (let e : m + k ≡ suc (suc (m - 2 + k)) = omega arith in e)
        ∙ text_rounds (m - 2 + k) p s
        ∙ sym (text_rounds (m - 2) p s)
        ∙ ap (λ z. vprintfmt put z s (codes "%s" ++ 0 ∷ []) (text (some p) ∷ []))
            (let e : suc (suc (m - 2)) ≡ m = omega arith in e);
  }

  -- More fuel than the rounds of a format changes nothing: it ends before the fuel does.
  pub vprintfmt_ends :
      (n k : ℕ) (s : S) (fmt : List ℕ) (args : List Arg)
      → rounds fmt ≤ n
      → vprintfmt put (n + k) s fmt args ≡ vprintfmt put n s fmt args
  unfolding vprintfmt
  vprintfmt_ends zero k s fmt args h = absurd (omega arith)
  vprintfmt_ends (suc n) k s [] args h =
      ap (λ z. vprintfmt put z s [] args) (let e : suc n + k ≡ suc (n + k) = omega arith in e)
  vprintfmt_ends (suc n) k s (b ∷ bs) args h =
      ap (λ z. vprintfmt put z s (b ∷ bs) args) (let e : suc n + k ≡ suc (n + k) = omega arith in e)
      ∙ if_same (b == b'%')
          (ap (λ x. x >>= λ r. vprintfmt put (n + k) r.0 r.1 r.2)
              (escape_same (vprintfmt put (n + k)) (vprintfmt put n) s bs args
                (nested_same n k (omega arith)))
            ∙ bind_ext (escape put (vprintfmt put n) s bs args) _ _ (λ r e.
              let l = escape_shorter (vprintfmt put n) s bs args r e in
              vprintfmt_ends n k r.0 r.1 r.2 (omega arith)))
          (if_same (b == 0) refl (vprintfmt_ends n k (put b s) bs args (omega arith)))
