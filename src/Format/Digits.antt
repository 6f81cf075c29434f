-- ===== src/Format/Digits.antt =====
-- libs/printfmt.c: the digits that `printnum` prints.
use mathlib.Core.List.{append_assoc, append-nil, map-append}
use native.Mathlib.Nat.{
  div-lt_iff_lt-mul, le-div_iff_mul-le, div-add-mod, mod-lt, mod-eq_of_lt, mul_comm,
  mul-le-mul_left, pow-suc,
}
use a_smart_mlfq_project_bas.Common.{
  leb, Bool-cases, length, length-append, ℕ, zero, suc, ◌+◌, ◌*◌, ◌/◌, ◌%◌, ◌^◌, ◌≤◌, ◌<◌, ◌≡◌,
  refl, sym, ap, ◌∙◌, ◌≢◌, inl, inr, some, List, [], ◌∷◌, ◌++◌, map, arith,
}
use a_smart_mlfq_project_bas.Common.Int.{ℤ, pos, negsuc, pos_part, ◌-ℤ◌}
use a_smart_mlfq_project_bas.Format.{hex_digit, pad, printnum}
use a_smart_mlfq_project_bas.Strings.Number.{to_byte, AllBelow, value_of}

abbrev pub repeated : ℕ → ℕ → List ℕ
repeated zero c = []
repeated (suc n) c = c ∷ repeated n c

abbrev pub append_byte : ℕ → List ℕ → List ℕ
append_byte b out = out ++ b ∷ []

pad_lem : (n c : ℕ) (out : List ℕ) → pad append_byte n c out ≡ out ++ repeated n c
unfolding pad
pad_lem zero c out = sym (append-nil out)
pad_lem (suc n) c out = pad_lem n c (append_byte c out) ∙ append_assoc out (c ∷ []) (repeated n c)

hex_digit-eq : (d : ℕ) → hex_digit d ≡ to_byte d
unfolding hex_digit to_byte
hex_digit-eq d = refl

value_of-append :
    (base v d : ℕ) (ds : List ℕ) → value_of base v (ds ++ d ∷ []) ≡ value_of base v ds * base + d
value_of-append base v d [] = refl
value_of-append base v d (e ∷ ds) = value_of-append base (v * base + e) d ds

AllBelow-append :
    (base d : ℕ) (ds : List ℕ) → AllBelow base ds → d < base → AllBelow base (ds ++ d ∷ [])
AllBelow-append base d [] w h = (h, tt)
AllBelow-append base d (e ∷ ds) w h = (w.0, AllBelow-append base d ds w.1 h)

narrower :
    (width : ℤ) (n : ℕ) → pos_part ((width -ℤ pos 1) -ℤ pos n) ≡ pos_part (width -ℤ pos (suc n))
unfolding ◌-ℤ◌
narrower (pos w) n = ground arith
narrower (negsuc w) n = ground arith

-- the output of `printnum`: pad bytes and digits
abbrev pub number_text : ℤ → ℕ → List ℕ → List ℕ
number_text width padc ds = repeated (pos_part (width -ℤ pos (length ds))) padc ++ map to_byte ds

number_text_add :
    (out ds : List ℕ) (width : ℤ) (padc m : ℕ)
    → append_byte (hex_digit m) (out ++ number_text (width -ℤ pos 1) padc ds)
      ≡ out ++ number_text width padc (ds ++ m ∷ [])
number_text_add out ds width padc m =
    append_assoc out (number_text (width -ℤ pos 1) padc ds) (hex_digit m ∷ [])
    ∙ ap (λ t. out ++ t)
        (append_assoc (repeated (pos_part ((width -ℤ pos 1) -ℤ pos (length ds))) padc)
            (map to_byte ds) (hex_digit m ∷ [])
          ∙ ap (λ n. repeated n padc ++ (map to_byte ds ++ hex_digit m ∷ []))
              (narrower width (length ds)
                ∙ ap (λ n. pos_part (width -ℤ pos n)) (omega (arith, length-append ds (m ∷ []))))
          ∙ ap (λ t. repeated (pos_part (width -ℤ pos (length (ds ++ m ∷ [])))) padc ++ t)
              (ap (λ b. map to_byte ds ++ b ∷ []) (hex_digit-eq m)
                ∙ sym (map-append to_byte ds (m ∷ []))))

last_digit :
    (out : List ℕ) (num base : ℕ) (width : ℤ) (padc : ℕ)
    → num < base
    → append_byte (hex_digit (num % base)) (pad append_byte (pos_part (width -ℤ pos 1)) padc out)
      ≡ out ++ number_text width padc (num ∷ [])
last_digit out num base width padc h =
    ap (λ m. append_byte (hex_digit m) (pad append_byte (pos_part (width -ℤ pos 1)) padc out))
      (mod-eq_of_lt h)
    ∙ ap (append_byte (hex_digit num)) (pad_lem (pos_part (width -ℤ pos 1)) padc out)
    ∙ append_assoc out (repeated (pos_part (width -ℤ pos 1)) padc) (hex_digit num ∷ [])
    ∙ ap (λ b. out ++ (repeated (pos_part (width -ℤ pos 1)) padc ++ b ∷ [])) (hex_digit-eq num)

positive : (fuel num : ℕ) → num < 2 ^ suc fuel → 2 ≤ num → 0 < fuel
positive zero num h k = absurd (omega arith)
positive (suc fuel) num h k = omega arith

small_quotient : (fuel num base : ℕ) → 2 ≤ base → num < 2 ^ suc fuel → num / base < 2 ^ fuel
small_quotient fuel num base lo h =
    let k = mul-le-mul_left (2 ^ fuel) lo in
    let e = pow-suc 2 fuel in (div-lt_iff_lt-mul (omega arith)).1 (omega arith)

positive_quotient : (num base : ℕ) → 0 < base → base ≤ num → 0 < num / base
positive_quotient num base h l = (le-div_iff_mul-le h).1 (omega arith)

-- In a base from 2 on a number that fits in the fuel is printed: its digits, each one below the
-- base, whose value is the number and the first one of which is 0 only for 0 itself, behind as many pad bytes
-- as the width leaves.
pub printnum_lem :
    (fuel num base : ℕ) (width : ℤ) (padc : ℕ) (out : List ℕ)
    → 2 ≤ base
    → num < 2 ^ fuel
    → 0 < fuel
    → (d : ℕ) × (ds : List ℕ) × (printnum append_byte fuel num base width padc out
        ≡ some (out ++ number_text width padc (d ∷ ds)))
      × AllBelow base (d ∷ ds)
      × (value_of base 0 (d ∷ ds) ≡ num)
      × ((0 < num → d ≢ 0) × (num ≡ 0 → ds ≡ []))
unfolding printnum
printnum_lem zero num base width padc out lo h f = absurd (omega arith)
printnum_lem (suc fuel) num base width padc out lo h f = elim (Bool-cases (leb base num)) [
  | inl e ↦
      let small = small_quotient fuel num base lo h in
      let (d, ds, eq, w, v, c) =
        printnum_lem fuel (num / base) base (width -ℤ pos 1) padc out lo small
          (positive fuel num h (ground (arith, e))) in
      (
        d,
        ds ++ num % base ∷ [],
        rw (e, eq) (ap some (number_text_add out (d ∷ ds) width padc (num % base))),
        AllBelow-append base (num % base) (d ∷ ds) w (mod-lt num (omega arith)),
        value_of-append base 0 (num % base) (d ∷ ds)
            ∙ ap (λ q. q * base + num % base) v
            ∙ ap (λ q. q + num % base) (mul_comm (num / base) base)
            ∙ div-add-mod num base,
        (
          λ _. c.0 (positive_quotient num base (omega arith) (ground (arith, e))),
          λ z. absurd (ground (arith, e, z)),
        ),
      )
  | inr e ↦
      let small : num < base = ground (arith, e) in
      (
        num,
        [],
        rw e (ap some (last_digit out num base width padc small)),
        (small, tt),
        omega arith,
        (λ h e. omega arith, λ z. refl),
      )
]
