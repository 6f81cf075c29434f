-- ===== src/Strings/Number.antt =====
-- libs/string.c: strtol reads back a number that is written in its base.
use native.Mathlib.Nat.{mul-le-mul_left}
use a_smart_mlfq_project_bas.Common.{
  ltb, leb, if◌then◌else◌, ne-==, ℕ, ◌+◌, ◌-◌, ◌*◌, ◌^◌, ◌≤◌, ◌<◌, ◌≡◌, refl, ◌≢◌, ◌⊎◌, Bool, true,
  false, none, some, List, [], ◌∷◌, ◌++◌, map, arith,
}
use a_smart_mlfq_project_bas.Common.Int.{ℤ, pos, sub_ℕ}
use a_smart_mlfq_project_bas.Strings.{
  skip_space, take_sign, behind_zero, take_prefix, digit_of, in_base, long_max, take_digits, strtol,
}

-- digits as bytes: 0 to 9, then a to z
unfoldable pub to_byte : ℕ → ℕ
to_byte d = if ltb d 10 then b'0' + d else b'a' + (d - 10)

abbrev pub AllBelow : ℕ → List ℕ → Type 0
AllBelow base [] = Unit {0}
AllBelow base (d ∷ ds) = (d < base) × AllBelow base ds

-- the value of a sequence of digits, the first one being the highest, behind a prefix with value v
abbrev pub value_of : ℕ → ℕ → List ℕ → ℕ
value_of base v [] = v
value_of base v (d ∷ ds) = value_of base (v * base + d) ds

digit_of-to_byte : (d : ℕ) → d < 36 → digit_of (to_byte d) ≡ some d
unfolding digit_of to_byte
digit_of-to_byte d h = ground arith

le-value_of : (base v : ℕ) (ds : List ℕ) → base ≢ 0 → v ≤ value_of base v ds
le-value_of base v [] n = omega arith
le-value_of base v (d ∷ ds) n =
    let h = le-value_of base (v * base + d) ds n in
    let g : v * 1 ≤ v * base = mul-le-mul_left v (omega arith) in omega arith

-- Digits in the base whose value fits in 31 bits, and a byte that is none in it, are read up to that
-- byte.
pub take_digits_lem :
    (base v stop : ℕ) (ds rest : List ℕ)
    → base ≤ 36
    → base ≢ 0
    → AllBelow base ds
    → value_of base v ds < 2 ^ 31
    → in_base base (digit_of stop) ≡ none
    → take_digits (map to_byte ds ++ stop ∷ rest) base v ≡ some (value_of base v ds, stop ∷ rest)
unfolding take_digits
take_digits_lem base v stop [] rest hb h₀ hd hv hs = ground (arith, hs)
take_digits_lem base v stop (d ∷ ds) rest hb h₀ hd hv hs =
    let digit = digit_of-to_byte d (omega arith) in
    let small : leb base d ≡ false = ground (arith, hd.0) in
    let grows = le-value_of base (v * base + d) ds h₀ in
    let fits : leb (v * base + d) long_max ≡ true = ground (arith, grows, hv) in
    let deeper = take_digits_lem base (v * base + d) stop ds rest hb h₀ hd.1 hv hs in
    ground (arith, digit, small, fits, deeper)

-- what may stand before the number
abbrev pub IsBlank : List ℕ → Type 0
IsBlank [] = Unit {0}
IsBlank (b ∷ bs) = ((b ≡ 32) ⊎ (b ≡ 9)) × IsBlank bs

abbrev pub sign_bytes : Bool → List ℕ
sign_bytes false = []
sign_bytes true = b'-' ∷ []

abbrev pub signed : Bool → ℕ → ℤ
signed false n = pos n
signed true n = sub_ℕ 0 n

skip_space_lem :
    (blanks s : List ℕ) (b : ℕ)
    → IsBlank blanks
    → b ≢ 32
    → b ≢ 9
    → skip_space (blanks ++ b ∷ s) ≡ some (b ∷ s)
unfolding skip_space
skip_space_lem [] s b h h₁ h₂ = ground arith
skip_space_lem (c ∷ blanks) s b h h₁ h₂ = ground (arith, skip_space_lem blanks s b h.1 h₁ h₂, h.0)

to_byte_plain : (d : ℕ) → (to_byte d ≢ 32) × (to_byte d ≢ 9) × (to_byte d ≢ 43) × (to_byte d ≢ 45)
unfolding to_byte
to_byte_plain d = ground arith

skip_space-sign_bytes :
    (blanks s : List ℕ) (neg : Bool) (b : ℕ)
    → IsBlank blanks
    → b ≢ 32
    → b ≢ 9
    → skip_space (blanks ++ (sign_bytes neg ++ b ∷ s)) ≡ some (sign_bytes neg ++ b ∷ s)
skip_space-sign_bytes blanks s false b h h₁ h₂ = skip_space_lem blanks s b h h₁ h₂
skip_space-sign_bytes blanks s true b h h₁ h₂ =
    skip_space_lem blanks (b ∷ s) b'-' h (omega arith) (omega arith)

take_sign_lem :
    (s : List ℕ) (neg : Bool) (b : ℕ)
    → b ≢ 43
    → b ≢ 45
    → take_sign (sign_bytes neg ++ b ∷ s) ≡ some (neg, b ∷ s)
unfolding take_sign
take_sign_lem s false b h₁ h₂ = ground (arith, ne-== b 43 h₁, ne-== b 45 h₂)
take_sign_lem s true b h₁ h₂ = ground arith

-- strtol behind its first two steps
strtol_of_parts :
    (blanks rest s end : List ℕ) (neg : Bool) (base base' b v : ℕ)
    → IsBlank blanks
    → (b ≢ 32) × (b ≢ 9) × (b ≢ 43) × (b ≢ 45)
    → take_prefix (b ∷ s) base ≡ some (rest, base')
    → take_digits rest base' 0 ≡ some (v, end)
    → strtol (blanks ++ (sign_bytes neg ++ b ∷ s)) base ≡ some (signed neg v, end)
unfolding strtol
strtol_of_parts blanks rest s end false base base' b v h hb hp hd =
    rw
      (
        skip_space-sign_bytes blanks s false b h hb.0 hb.1,
        take_sign_lem s false b hb.2 hb.3,
        hp,
        hd,
      )
      refl
strtol_of_parts blanks rest s end true base base' b v h hb hp hd =
    rw (skip_space-sign_bytes blanks s true b h hb.0 hb.1, take_sign_lem s true b hb.2 hb.3, hp, hd)
      refl

-- In a base from 1 to 36 but 16, and for digits whose value is below 2^31, strtol passes over blanks and
-- the sign, returns the value of the digits with that sign, and stores a pointer to the byte behind them.
pub strtol_lem :
    (blanks ds rest : List ℕ) (neg : Bool) (base d stop : ℕ)
    → IsBlank blanks
    → base ≤ 36
    → base ≢ 0
    → base ≢ 16
    → AllBelow base (d ∷ ds)
    → value_of base 0 (d ∷ ds) < 2 ^ 31
    → in_base base (digit_of stop) ≡ none
    → strtol (blanks ++ (sign_bytes neg ++ (map to_byte (d ∷ ds) ++ stop ∷ rest))) base
      ≡ some (signed neg (value_of base 0 (d ∷ ds)), stop ∷ rest)
unfolding take_prefix
strtol_lem blanks ds rest neg base d stop h hb h₀ h₁₆ hd hv hs =
    strtol_of_parts blanks (map to_byte (d ∷ ds) ++ stop ∷ rest) (map to_byte ds ++ stop ∷ rest)
      (stop ∷ rest) neg base base (to_byte d) (value_of base 0 (d ∷ ds)) h (to_byte_plain d)
      (ground (arith, ne-== base 0 h₀, ne-== base 16 h₁₆))
      (take_digits_lem base 0 stop (d ∷ ds) rest hb h₀ hd hv hs)

-- A number below 2^31 that 0x begins is read in base 16, for base 16 and for base 0.
pub strtol_hex :
    (blanks ds rest : List ℕ) (neg : Bool) (base stop : ℕ)
    → IsBlank blanks
    → (base ≡ 0) ⊎ (base ≡ 16)
    → AllBelow 16 ds
    → value_of 16 0 ds < 2 ^ 31
    → in_base 16 (digit_of stop) ≡ none
    → strtol (blanks ++ (sign_bytes neg ++ b'0' ∷ b'x' ∷ (map to_byte ds ++ stop ∷ rest))) base
      ≡ some (signed neg (value_of 16 0 ds), stop ∷ rest)
unfolding take_prefix behind_zero
strtol_hex blanks ds rest neg base stop h hb hd hv hs =
    strtol_of_parts blanks (map to_byte ds ++ stop ∷ rest) (b'x' ∷ (map to_byte ds ++ stop ∷ rest))
      (stop ∷ rest) neg base 16 b'0' (value_of 16 0 ds) h (omega arith) (ground (arith, hb))
      (take_digits_lem 16 0 stop ds rest (omega arith) (λ e. omega arith) hd hv hs)
