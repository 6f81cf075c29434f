-- ===== src/Format/Transport.antt =====
-- libs/printfmt.c: what is printed does not depend on what `putch` does with it.
use a_smart_mlfq_project_bas.Common.{
  ltb, leb, ◌==◌, if◌then◌else◌, Bool-cases, ◌>>=◌, ℕ, zero, suc, ◌/◌, ◌%◌, ◌^◌, ◌≡◌, refl, sym, ap,
  ◌∙◌, inl, inr, Bool, true, false, ◌&&◌, ◌||◌, not, Option, none, some, List, [], ◌∷◌, ◌++◌,
}
use a_smart_mlfq_project_bas.Common.Bytes.{codes}
use a_smart_mlfq_project_bas.Common.Int.{ℤ, pos, negsuc, pos_part, neg_part, ◌-ℤ◌, ltb_ℤ, to_u32}
use a_smart_mlfq_project_bas.Format.{
  Arg, word, text, Spec, plain_spec, getuint, getint, get_text, or_else, scan, max_error,
  error_string, hex_digit, is_spent, next_precision, pad, printnum, put_text, put_string,
  put_number, put_signed, put_error, convert, escape, vprintfmt,
}
use a_smart_mlfq_project_bas.Strings.{strnlen}

abbrev pub map_opt : {S T : Type 0} → (S → T) → Option S → Option T
map_opt h none = none
map_opt h (some s) = some (h s)

-- The same for a computation that goes on.
pub bind_carried :
    {S S' T T' : Type 0} (h : S → T) (h' : S' → T') (k : S → Option S') (k' : T → Option T')
    → ((s : S) → k' (h s) ≡ map_opt h' (k s))
    → (x : Option S) → (map_opt h x >>= k') ≡ map_opt h' (x >>= k)
bind_carried h h' k k' e none = refl
bind_carried h h' k k' e (some s) = e s

-- The same where the value is not carried.
pub bind_same :
    {A S T : Type 0} (f : S → T) (k : A → Option S) (k' : A → Option T)
    → ((a : A) → k' a ≡ map_opt f (k a))
    → (x : Option A) → (x >>= k') ≡ map_opt f (x >>= k)
bind_same f k k' e none = refl
bind_same f k k' e (some a) = e a

pub if_carried :
    {A B : Type 0} (f : A → B) (b : Bool) {x y : A} {x' y' : B}
    → x' ≡ f x
    → y' ≡ f y
    → (if b then x' else y') ≡ f (if b then x else y)
if_carried f true e g = e
if_carried f false e g = g

-- A function that carries one `putch` to another.
module _ {S T : Type 0} (put : ℕ → S → S) (put' : ℕ → T → T) (h : S → T)
    (carry : (c : ℕ) (s : S) → h (put c s) ≡ put' c (h s)) where
  pad_carried : (n c : ℕ) (s : S) → h (pad put n c s) ≡ pad put' n c (h s)
  unfolding pad
  pad_carried zero c s = refl
  pad_carried (suc n) c s = pad_carried n c (put c s) ∙ ap (pad put' n c) (carry c s)

  printnum_carried :
      (fuel num base : ℕ) (width : ℤ) (padc : ℕ) (s : S)
      → printnum put' fuel num base width padc (h s)
        ≡ map_opt h (printnum put fuel num base width padc s)
  unfolding printnum
  printnum_carried zero num base width padc s = refl
  printnum_carried (suc fuel) num base width padc s = elim (Bool-cases (leb base num)) [
    | inl e ↦
        rw (e, printnum_carried fuel (num / base) base (width -ℤ pos 1) padc s)
          (bind_carried h h _ _ (λ t. ap some (sym (carry (hex_digit (num % base)) t)))
            (printnum put fuel (num / base) base (width -ℤ pos 1) padc s))
    | inr e ↦ rw e (
        ap some (
          sym (
            carry (hex_digit (num % base)) _
            ∙ ap (put' (hex_digit (num % base))) (pad_carried (pos_part (width -ℤ pos 1)) padc s))))
  ]

  put_text_carried :
      (bs : List ℕ) (width precision : ℤ) (alt : Bool) (s : S)
      → put_text put' bs width precision alt (h s)
        ≡ map_opt (λ r. (h r.0, r.1)) (put_text put bs width precision alt s)
  unfolding put_text
  put_text_carried [] width precision alt s = refl
  put_text_carried (b ∷ bs) width precision alt s =
      elim (Bool-cases ((b == 0) || is_spent precision)) [
        | inl e ↦ rw e refl
        | inr e ↦ rw e (
            ap (λ z. put_text put' bs (width -ℤ pos 1) (next_precision precision) alt z)
              (sym (carry _ s))
            ∙ put_text_carried bs (width -ℤ pos 1) (next_precision precision) alt _)
      ]

  -- the text of a string and the bytes behind it
  shown :
      (width : ℤ) (sp : Spec) (p : List ℕ) (s : S)
      → (put_text put' p width sp.precision sp.altflag (h s) >>= λ r.
          some (pad put' (pos_part r.1) 32 r.0))
        ≡ map_opt h (
            put_text put p width sp.precision sp.altflag s >>= λ r.
            some (pad put (pos_part r.1) 32 r.0))
  shown width sp p s =
      ap (λ x. x >>= λ r. some (pad put' (pos_part r.1) 32 r.0))
        (put_text_carried p width sp.precision sp.altflag s)
      ∙ bind_carried (λ r. (h r.0, r.1)) h (λ r. some (pad put (pos_part r.1) 32 r.0))
          (λ r. some (pad put' (pos_part r.1) 32 r.0))
          (λ r. ap some (sym (pad_carried (pos_part r.1) 32 r.0)))
          (put_text put p width sp.precision sp.altflag s)

  padded :
      (left : ℤ) (sp : Spec) (p : List ℕ) (s : S)
      → let width = if ltb_ℤ (pos 0) left then pos 0 else left in
        (put_text put' p width sp.precision sp.altflag (pad put' (pos_part left) sp.padc (h s))
          >>= λ r. some (pad put' (pos_part r.1) 32 r.0))
        ≡ map_opt h (
            put_text put p width sp.precision sp.altflag (pad put (pos_part left) sp.padc s)
            >>= λ r. some (pad put (pos_part r.1) 32 r.0))
  padded left sp p s =
      let width = if ltb_ℤ (pos 0) left then pos 0 else left in
      ap
        (λ z. put_text put' p width sp.precision sp.altflag z >>= λ r.
          some (pad put' (pos_part r.1) 32 r.0))
        (sym (pad_carried (pos_part left) sp.padc s))
      ∙ shown width sp p (pad put (pos_part left) sp.padc s)

  put_string_carried :
      (sp : Spec) (p : List ℕ) (s : S)
      → put_string put' sp p (h s) ≡ map_opt h (put_string put sp p s)
  unfolding put_string
  put_string_carried sp p s =
      if_carried (map_opt h) (ltb_ℤ (pos 0) sp.width && not (sp.padc == b'-'))
        (bind_same h _ _ (λ n. padded (sp.width -ℤ pos n) sp p s) (strnlen p (to_u32 sp.precision)))
        (shown sp.width sp p s)

  put_number_carried :
      (sp : Spec) (base n : ℕ) (s : S)
      → put_number put' sp base n (h s) ≡ map_opt h (put_number put sp base n s)
  unfolding put_number
  put_number_carried sp base n s = printnum_carried 64 n base sp.width sp.padc s

  put_signed_carried :
      (sp : Spec) (n : ℤ) (s : S) → put_signed put' sp n (h s) ≡ map_opt h (put_signed put sp n s)
  unfolding put_signed put_number
  put_signed_carried sp (pos n) s = printnum_carried 64 n 10 sp.width sp.padc s
  put_signed_carried sp (negsuc n) s =
      ap (λ z. printnum put' 64 (suc n) 10 sp.width sp.padc z) (sym (carry b'-' s))
      ∙ printnum_carried 64 (suc n) 10 sp.width sp.padc (put b'-' s)

  -- what is left of a round
  abbrev left : S × List ℕ × List Arg → T × List ℕ × List Arg
  left r = (h r.0, r.1, r.2)

  module _ (print : S → List ℕ → List Arg → Option S) (print' : T → List ℕ → List Arg → Option T)
      (same : (s : S) (fmt : List ℕ) (args : List Arg)
        → print' (h s) fmt args ≡ map_opt h (print s fmt args)) where
    named :
        (n : ℕ) (e : Option (List ℕ)) (s : S)
        → (elim e [
          | none ↦ print' (h s) (codes "error %d" ++ 0 ∷ []) (word n ∷ [])
          | some p ↦ print' (h s) (codes "%s" ++ 0 ∷ []) (text (some p) ∷ [])
        ])
          ≡ map_opt h (elim e [
            | none ↦ print s (codes "error %d" ++ 0 ∷ []) (word n ∷ [])
            | some p ↦ print s (codes "%s" ++ 0 ∷ []) (text (some p) ∷ [])
          ])
    named n none s = same s _ _
    named n (some p) s = same s _ _

    put_error_carried :
        (err : ℤ) (s : S) → put_error put' print' err (h s) ≡ map_opt h (put_error put print err s)
    unfolding put_error
    put_error_carried err s =
        let n = if ltb_ℤ err (pos 0) then neg_part err else pos_part err in
        if_carried (map_opt h) (n == 2 ^ 31) refl
          (named n (if ltb max_error n then none else error_string n) s)

    abbrev carried_pair : Option (S × List Arg) → Option (T × List Arg)
    carried_pair = map_opt (λ r. (h r.0, r.1))

    abbrev f : Option (Option (S × List Arg)) → Option (Option (T × List Arg))
    f = map_opt carried_pair

    answered :
        (rest : List Arg) (x : Option S) (x' : Option T)
        → x' ≡ map_opt h x
        → (x' >>= λ t. some (some (t, rest))) ≡ f (x >>= λ t. some (some (t, rest)))
    answered rest none x' e = rw e refl
    answered rest (some t) x' e = rw e refl

    convert_carried :
        (sp : Spec) (c : ℕ) (args : List Arg) (s : S)
        → convert put' print' sp c args (h s) ≡ map_opt carried_pair (convert put print sp c args s)
    unfolding convert
    convert_carried sp c args s =
        if_carried f (c == b'c')
          (bind_same carried_pair _ _
            (λ a. ap (λ t. some (some (t, a.1))) (sym (carry (to_u32 a.0) s))) (getint args 0))
          (if_carried f (c == b'e')
            (bind_same carried_pair _ _
              (λ a. answered a.1 (put_error put print a.0 s) _ (put_error_carried a.0 s))
              (getint args 0))
            (if_carried f (c == b's')
              (bind_same carried_pair _ _
                (λ a.
                  answered a.1 (put_string put sp (or_else a.0 (codes "(null)" ++ 0 ∷ [])) s) _
                    (put_string_carried sp (or_else a.0 (codes "(null)" ++ 0 ∷ [])) s))
                (get_text args))
              (if_carried f (c == b'd')
                (bind_same carried_pair _ _
                  (λ a. answered a.1 (put_signed put sp a.0 s) _ (put_signed_carried sp a.0 s))
                  (getint args sp.lflag))
                (if_carried f (c == b'u')
                  (bind_same carried_pair _ _
                    (λ a.
                      answered a.1 (put_number put sp 10 a.0 s) _ (put_number_carried sp 10 a.0 s))
                    (getuint args sp.lflag))
                  (if_carried f (c == b'o')
                    (bind_same carried_pair _ _
                      (λ a.
                        answered a.1 (put_number put sp 8 a.0 s) _ (put_number_carried sp 8 a.0 s))
                      (getuint args sp.lflag))
                    (if_carried f (c == b'p')
                      (bind_same carried_pair _ _
                        (λ a. answered a.1 (put_number put sp 16 a.0 (put b'x' (put b'0' s))) _ (
                          ap (put_number put' sp 16 a.0)
                            (sym (carry b'x' (put b'0' s) ∙ ap (put' b'x') (carry b'0' s)))
                          ∙ put_number_carried sp 16 a.0 (put b'x' (put b'0' s))))
                        (getuint args 0))
                      (if_carried f (c == b'x')
                        (bind_same carried_pair _ _
                          (λ a.
                            answered a.1 (put_number put sp 16 a.0 s) _
                              (put_number_carried sp 16 a.0 s))
                          (getuint args sp.lflag))
                        (if_carried f (c == b'%')
                          (ap (λ t. some (some (t, args))) (sym (carry b'%' s))) refl))))))))

    next_carried :
        (start rest : List ℕ) (args : List Arg) (s : S) (r : Option (S × List Arg))
        → some (elim (carried_pair r) [
          | none ↦ (put' b'%' (h s), start, args)
          | some q ↦ (q.0, rest, q.1)
        ])
          ≡ map_opt left
              (some (elim r [ none ↦ (put b'%' s, start, args) | some q ↦ (q.0, rest, q.1) ]))
    next_carried start rest args s none = ap (λ t. some (t, start, args)) (sym (carry b'%' s))
    next_carried start rest args s (some q) = refl

    escape_carried :
        (s : S) (start : List ℕ) (args : List Arg)
        → escape put' print' (h s) start args ≡ map_opt left (escape put print s start args)
    unfolding escape
    escape_carried s start args =
        bind_same left _ _
          (λ e.
            ap
              (λ x. x >>= λ r.
                some (elim r [ none ↦ (put' b'%' (h s), start, e.3) | some q ↦ (q.0, e.2, q.1) ]))
              (convert_carried e.0 e.1 e.3 s)
            ∙ bind_carried carried_pair left _ _ (next_carried start e.2 e.3 s)
                (convert put print e.0 e.1 e.3 s))
          (scan none plain_spec args start)

  -- A function that carries one `putch` to another carries the printing with the one to the printing
  -- with the other: a format prints the same bytes whatever `putch` does with them.
  pub vprintfmt_carried :
      (fuel : ℕ) (s : S) (fmt : List ℕ) (args : List Arg)
      → vprintfmt put' fuel (h s) fmt args ≡ map_opt h (vprintfmt put fuel s fmt args)
  unfolding vprintfmt
  vprintfmt_carried zero s fmt args = refl
  vprintfmt_carried (suc fuel) s [] args = refl
  vprintfmt_carried (suc fuel) s (b ∷ bs) args =
      if_carried (map_opt h) (b == b'%')
        (ap (λ x. x >>= λ r. vprintfmt put' fuel r.0 r.1 r.2)
            (escape_carried (vprintfmt put fuel) (vprintfmt put' fuel) (vprintfmt_carried fuel) s bs
              args)
          ∙ bind_carried left h _ _ (λ r. vprintfmt_carried fuel r.0 r.1 r.2)
              (escape put (vprintfmt put fuel) s bs args))
        (if_carried (map_opt h) (b == 0) refl (
          ap (λ t. vprintfmt put' fuel t bs args) (sym (carry b s))
          ∙ vprintfmt_carried fuel (put b s) bs args))
