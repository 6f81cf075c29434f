-- ===== src/Strings.antt =====
-- libs/string.c: the functions that are compiled for this machine. (x86.h replaces strcpy, strcmp,
-- memset, memmove and memcpy by assembly.)
--
-- A `const char *` is the list of the bytes from where it points to the end of its object, so a
-- pointer into it is a suffix, and reading behind the end is `none`. A byte is a number below 256.
pub mod Length
pub mod Search
pub mod Compare
pub mod Number
mod Tests
use a_smart_mlfq_project_bas.Common.{
  leb, ◌==◌, if◌then◌else◌, ◌>>=◌, ◌>>◌, drop, ℕ, zero, suc, ◌+◌, ◌-◌, ◌*◌, Bool, true, false, ◌&&◌,
  ◌||◌, not, Option, none, some, List, [], ◌∷◌,
}
use a_smart_mlfq_project_bas.Common.Int.{ℤ, pos, sub_ℕ}

unfoldable pub strlen : List ℕ → Option ℕ
strlen [] = none
strlen (b ∷ bs) = let rest = strlen bs >>= λ n. some (suc n) in if b == 0 then some 0 else rest

unfoldable pub strnlen : List ℕ → ℕ → Option ℕ
strnlen bs zero = some 0
strnlen [] (suc n) = none
strnlen (b ∷ bs) (suc n) =
    let rest = strnlen bs n >>= λ m. some (suc m) in if b == 0 then some 0 else rest

-- The source stays at its end once that is reached. The result is what `dst` holds then.
unfoldable pub strncpy : List ℕ → List ℕ → ℕ → Option (List ℕ)
strncpy dst src zero = some dst
strncpy [] src (suc n) = none
strncpy (d ∷ dst) [] (suc n) = none
strncpy (d ∷ dst) (b ∷ src) (suc n) =
    strncpy dst (if b == 0 then b ∷ src else src) n >>= λ r. some (b ∷ r)

-- (int)((unsigned char)*s1 - (unsigned char)*s2)
abbrev pub byte_diff : ℕ → ℕ → ℤ
byte_diff a b = sub_ℕ a b

unfoldable pub strncmp : List ℕ → List ℕ → ℕ → Option ℤ
strncmp s₁ s₂ zero = some (pos 0)
strncmp [] s₂ (suc n) = none
strncmp (a ∷ s₁) [] (suc n) = none
strncmp (a ∷ s₁) (b ∷ s₂) (suc n) =
    let rest = strncmp s₁ s₂ n in if not (a == 0) && (a == b) then rest else some (byte_diff a b)

-- `NULL` is the inner `none`.
unfoldable pub strchr : List ℕ → ℕ → Option (Option (List ℕ))
strchr [] c = none
strchr (b ∷ bs) c =
    let rest = strchr bs c in
    if b == 0 then some none else if b == c then some (some (b ∷ bs)) else rest

unfoldable pub strfind : List ℕ → ℕ → Option (List ℕ)
strfind [] c = none
strfind (b ∷ bs) c = let rest = strfind bs c in if (b == 0) || (b == c) then some (b ∷ bs) else rest

unfoldable pub memcmp : List ℕ → List ℕ → ℕ → Option ℤ
memcmp v₁ v₂ zero = some (pos 0)
memcmp [] v₂ (suc n) = none
memcmp (a ∷ v₁) [] (suc n) = none
memcmp (a ∷ v₁) (b ∷ v₂) (suc n) =
    let rest = memcmp v₁ v₂ n in if a == b then rest else some (byte_diff a b)

-- strtol: the whitespace
unfoldable pub skip_space : List ℕ → Option (List ℕ)
skip_space [] = none
skip_space (b ∷ bs) =
    let rest = skip_space bs in if (b == b' ') || (b == 9) then rest else some (b ∷ bs)

-- strtol: the sign
unfoldable pub take_sign : List ℕ → Option (Bool × List ℕ)
take_sign [] = none
take_sign (b ∷ bs) =
    some (if b == b'+' then (false, bs) else if b == b'-' then (true, bs) else (false, b ∷ bs))

-- strtol: `s[1]` is read only behind a '0'
abbrev pub has_x : List ℕ → Option Bool
has_x [] = none
has_x (b ∷ bs) = some (b == b'x')

-- the string and the base behind a leading '0' that may begin a prefix
unfoldable pub behind_zero : ℕ → List ℕ → ℕ → Bool → List ℕ × ℕ
behind_zero b bs base true = (drop 1 bs, 16)
behind_zero b bs base false = if base == 0 then (bs, 8) else (b ∷ bs, base)

unfoldable pub take_prefix : List ℕ → ℕ → Option (List ℕ × ℕ)
take_prefix [] base = none
take_prefix (b ∷ bs) base =
    if ((base == 0) || (base == 16)) && (b == b'0')
    then has_x bs >>= (λ x. some (behind_zero b bs base x))
    else some (b ∷ bs, if base == 0 then 10 else base)

unfoldable pub digit_of : ℕ → Option ℕ
digit_of b =
    if leb b'0' b && leb b b'9'
    then some (b - b'0')
    else if leb b'a' b && leb b b'z'
    then some (b - b'a' + 10)
    else if leb b'A' b && leb b b'Z'
    then some (b - b'A' + 10)
    else none

-- whether a byte goes on with a number in the base
abbrev pub in_base : ℕ → Option ℕ → Option ℕ
in_base base none = none
in_base base (some d) = if leb base d then none else some d

-- the greatest `long`, which has 32 bits on the machine the kernel is built for
abbrev pub long_max : ℕ
long_max = 2147483647

-- The loop over the digits. A value that does not fit in `long` is `none`: the code does not test for
-- it, and C leaves the overflow undefined.
unfoldable pub take_digits : List ℕ → ℕ → ℕ → Option (ℕ × List ℕ)
take_digits [] base val = none
take_digits (b ∷ bs) base val = elim (in_base base (digit_of b)) [
  | none ↦ some (val, b ∷ bs)
  | some d ↦
      let rest = take_digits bs base (val * base + d) in
      if leb (val * base + d) long_max then rest else none
]

-- The value and the pointer that is stored in `*endptr`.
unfoldable pub strtol : List ℕ → ℕ → Option (ℤ × List ℕ)
strtol s base = do
  s₁ ← skip_space s
  signed ← take_sign s₁
  prefixed ← take_prefix signed.1 base
  digits ← take_digits prefixed.0 prefixed.1 0
  some (if signed.0 then sub_ℕ 0 digits.0 else pos digits.0, digits.1)
