-- ===== src/Format/RoundTrip.antt =====
-- libs/printfmt.c and libs/string.c: `strtol` reads back what the formats print.
use mathlib.Core.List.{append_assoc}
use a_smart_mlfq_project_bas.Common.{
  length, ℕ, zero, suc, ◌+◌, ◌^◌, ◌≤◌, ◌<◌, ◌≡◌, refl, ap, ◌∙◌, inl, true, false, none, some, List,
  [], ◌∷◌, ◌++◌, map, arith,
}
use a_smart_mlfq_project_bas.Common.Int.{ℤ, pos, negsuc, pos_part, neg_part, sub_ℕ, ◌-ℤ◌}
use a_smart_mlfq_project_bas.Format.{Spec, put_number, put_signed}
use a_smart_mlfq_project_bas.Format.Digits.{repeated, append_byte, number_text, printnum_lem}
use a_smart_mlfq_project_bas.Strings.{digit_of, in_base, strtol}
use a_smart_mlfq_project_bas.Strings.Number.{to_byte, IsBlank, strtol_lem}

no_pad : (n : ℕ) → pos_part (negsuc 0 -ℤ pos n) ≡ 0
unfolding ◌-ℤ◌
no_pad n = ground arith

negative : (n : ℕ) → sub_ℕ 0 (suc n) ≡ negsuc n
negative n = ground arith

repeated-IsBlank : (n : ℕ) → IsBlank (repeated n 32)
repeated-IsBlank zero = tt
repeated-IsBlank (suc n) = (inl refl, repeated-IsBlank n)

abbrev pad_count : Spec → List ℕ → ℕ
pad_count sp ds = pos_part (sp.width -ℤ pos (length ds))

pub plain_text :
    (sp : Spec) (ds : List ℕ)
    → sp.width ≡ negsuc 0
    → number_text sp.width sp.padc ds ≡ map to_byte ds
plain_text sp ds e =
    ap (λ n. repeated n sp.padc ++ map to_byte ds)
      (ap (λ w. pos_part (w -ℤ pos (length ds))) e ∙ no_pad (length ds))

-- A number below 2^31 that is printed in a base from 2 to 15, in a field of any width with blanks, is read
-- back by strtol up to the first byte behind it that is no digit of the base.
pub strtol-put_number :
    (sp : Spec) (base num stop : ℕ) (rest : List ℕ)
    → sp.padc ≡ 32
    → 2 ≤ base
    → base < 16
    → num < 2 ^ 31
    → in_base base (digit_of stop) ≡ none
    → (out : List ℕ) × (put_number append_byte sp base num [] ≡ some out)
      × (strtol (out ++ stop ∷ rest) base ≡ some (pos num, stop ∷ rest))
unfolding put_number
strtol-put_number sp base num stop rest blank lo hi h hs =
    let (d, ds, e, w, v, _) =
      printnum_lem 64 num base sp.width sp.padc [] lo (omega arith) (omega arith) in
    (
      number_text sp.width sp.padc (d ∷ ds),
      e,
      ap
            (λ c.
              strtol ((repeated (pad_count sp (d ∷ ds)) c ++ map to_byte (d ∷ ds)) ++ stop ∷ rest)
                base)
            blank
          ∙ ap (λ t. strtol t base)
              (append_assoc (repeated (pad_count sp (d ∷ ds)) 32) (map to_byte (d ∷ ds))
                (stop ∷ rest))
          ∙ strtol_lem (repeated (pad_count sp (d ∷ ds)) 32) ds rest false base d stop
              (repeated-IsBlank (pad_count sp (d ∷ ds))) (omega arith) (λ q. omega arith)
              (λ q. omega arith) w (omega arith) hs
          ∙ ap (λ n. some (pos n, stop ∷ rest)) v,
    )

-- A signed number of at most 31 bits beside its sign that is printed without a field width in base 10 is
-- read back by strtol with its sign, up to the first byte behind it that is no digit.
pub strtol-put_signed :
    (sp : Spec) (n : ℤ) (stop : ℕ) (rest : List ℕ)
    → sp.width ≡ negsuc 0
    → pos_part n + neg_part n < 2 ^ 31
    → in_base 10 (digit_of stop) ≡ none
    → (out : List ℕ) × (put_signed append_byte sp n [] ≡ some out)
      × (strtol (out ++ stop ∷ rest) 10 ≡ some (n, stop ∷ rest))
unfolding put_signed put_number
strtol-put_signed sp (pos n) stop rest plain h hs =
    let (d, ds, e, w, v, _) =
      printnum_lem 64 n 10 sp.width sp.padc [] (omega arith) (omega arith) (omega arith) in
    (
      number_text sp.width sp.padc (d ∷ ds),
      e,
      ap (λ t. strtol (t ++ stop ∷ rest) 10) (plain_text sp (d ∷ ds) plain)
          ∙ strtol_lem [] ds rest false 10 d stop tt (omega arith) (λ q. omega arith)
              (λ q. omega arith) w (omega arith) hs
          ∙ ap (λ n. some (pos n, stop ∷ rest)) v,
    )
strtol-put_signed sp (negsuc n) stop rest plain h hs =
    let (d, ds, e, w, v, _) =
      printnum_lem 64 (suc n) 10 sp.width sp.padc (b'-' ∷ []) (omega arith) (omega arith)
        (omega arith) in
    (
      b'-' ∷ number_text sp.width sp.padc (d ∷ ds),
      e,
      ap (λ t. strtol (b'-' ∷ (t ++ stop ∷ rest)) 10) (plain_text sp (d ∷ ds) plain)
          ∙ strtol_lem [] ds rest true 10 d stop tt (omega arith) (λ q. omega arith)
              (λ q. omega arith) w (omega arith) hs
          ∙ ap (λ n. some (sub_ℕ 0 n, stop ∷ rest)) v
          ∙ ap (λ z. some (z, stop ∷ rest)) (negative n),
    )
