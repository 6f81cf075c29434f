-- ===== src/Format/Items.antt =====
-- libs/printfmt.c: what `vprintfmt` prints for a format that is made of plain bytes and conversions
-- without flags, a width or a precision.
use a_smart_mlfq_project_bas.Common.{
  count, ℕ, suc, ◌^◌, ◌<◌, ◌≡◌, ◌≢◌, some, List, [], ◌∷◌, ◌++◌, map,
}
use a_smart_mlfq_project_bas.Common.Int.{ℤ, pos, negsuc}
use a_smart_mlfq_project_bas.Format.{Arg, word, text, signed32}
use a_smart_mlfq_project_bas.Strings.Number.{to_byte, AllBelow, value_of}

pub data Item : Type 0 where
  literal : ℕ → Item
  percent : Item
  character : ℕ → Item
  decimal : ℕ → Item
  natural : ℕ → Item
  octal : ℕ → Item
  hexadecimal : ℕ → Item
  string : List ℕ → Item

abbrev pub item_format : Item → List ℕ
item_format (literal b) = b ∷ []
item_format percent = b'%' ∷ b'%' ∷ []
item_format (character n) = b'%' ∷ b'c' ∷ []
item_format (decimal n) = b'%' ∷ b'd' ∷ []
item_format (natural n) = b'%' ∷ b'u' ∷ []
item_format (octal n) = b'%' ∷ b'o' ∷ []
item_format (hexadecimal n) = b'%' ∷ b'x' ∷ []
item_format (string s) = b'%' ∷ b's' ∷ []

abbrev pub item_args : Item → List Arg
item_args (literal b) = []
item_args percent = []
item_args (character n) = word n ∷ []
item_args (decimal n) = word n ∷ []
item_args (natural n) = word n ∷ []
item_args (octal n) = word n ∷ []
item_args (hexadecimal n) = word n ∷ []
item_args (string s) = text (some (s ++ 0 ∷ [])) ∷ []

-- the format of some items, with the NUL at its end, and their arguments
abbrev pub format_of : List Item → List ℕ
format_of [] = 0 ∷ []
format_of (i ∷ is) = item_format i ++ format_of is

abbrev pub args_of : List Item → List Arg
args_of [] = []
args_of (i ∷ is) = item_args i ++ args_of is

-- A plain byte is not '%' or NUL, a number is a 32-bit word, and a string has no NUL within it.
abbrev pub IsItem : Item → Type 0
IsItem (literal b) = (b ≢ b'%') × (b ≢ 0)
IsItem percent = Unit {0}
IsItem (character n) = n < 2 ^ 32
IsItem (decimal n) = n < 2 ^ 32
IsItem (natural n) = n < 2 ^ 32
IsItem (octal n) = n < 2 ^ 32
IsItem (hexadecimal n) = n < 2 ^ 32
IsItem (string s) = count 0 s ≡ 0

abbrev pub AllItems : List Item → Type 0
AllItems [] = Unit {0}
AllItems (i ∷ is) = IsItem i × AllItems is

-- digits of the base, at least one, whose value is the number, without a 0 in front of other digits
abbrev pub IsNumeral : ℕ → ℕ → List ℕ → Type 0
IsNumeral base n t =
    (d : ℕ) × (ds : List ℕ) × (t ≡ map to_byte (d ∷ ds))
    × AllBelow base (d ∷ ds)
    × (value_of base 0 (d ∷ ds) ≡ n)
    × ((0 < n → d ≢ 0) × (n ≡ 0 → ds ≡ []))

-- the digits behind a '-' just where the number is negative
abbrev pub IsSigned : ℤ → List ℕ → Type 0
IsSigned (pos n) t = IsNumeral 10 n t
IsSigned (negsuc n) t = (u : List ℕ) × (t ≡ b'-' ∷ u) × IsNumeral 10 (suc n) u

-- the text of an item
abbrev pub Shows : Item → List ℕ → Type 0
Shows (literal b) t = t ≡ b ∷ []
Shows percent t = t ≡ b'%' ∷ []
Shows (character n) t = t ≡ n ∷ []
Shows (decimal n) t = IsSigned (signed32 n) t
Shows (natural n) t = IsNumeral 10 n t
Shows (octal n) t = IsNumeral 8 n t
Shows (hexadecimal n) t = IsNumeral 16 n t
Shows (string s) t = t ≡ s

-- a text that is the texts of the items, one behind the other
abbrev pub Prints : List Item → List ℕ → Type 0
Prints [] out = out ≡ []
Prints (i ∷ is) out = (t : List ℕ) × (u : List ℕ) × (out ≡ t ++ u) × Shows i t × Prints is u
