-- ===== src/Format/Tests.antt =====
-- libs/printfmt.c at concrete formats.
use a_smart_mlfq_project_bas.Common.{
  get_or, ℕ, ◌+◌, ◌%◌, ◌≤◌, ◌<◌, ◌≡◌, refl, ◌⊎◌, Option, none, some, List, [], ◌∷◌, ◌++◌, arith,
}
use a_smart_mlfq_project_bas.Common.Bytes.{codes}
use a_smart_mlfq_project_bas.Common.Int.{pos, negsuc, ◌-ℤ◌}
use a_smart_mlfq_project_bas.Format.{
  Arg, word, text, plain_spec, getuint, getint, get_text, set_number, directive, scan, error_string,
  hex_digit, pad, printnum, put_text, put_string, put_number, put_signed, put_error, convert,
  escape, vprintfmt, rounds, vsnprintf,
}
use a_smart_mlfq_project_bas.Format.Buffer.{vsnprintf_lem}
use a_smart_mlfq_project_bas.Format.Digits.{append_byte}
use a_smart_mlfq_project_bas.Format.Items.{
  Item, literal, percent, character, decimal, hexadecimal, string,
}
use a_smart_mlfq_project_bas.Format.RoundTrip.{strtol-put_number, strtol-put_signed}
use a_smart_mlfq_project_bas.Strings.{strnlen, digit_of, in_base, strtol}

abbrev shown : List ℕ → List Arg → Option (List ℕ)
shown fmt args = vprintfmt (λ b out. out ++ b ∷ []) 40 [] (fmt ++ 0 ∷ []) args

decimals : shown (codes "a%5d|%x") (word 4294967254 ∷ word 255 ∷ []) ≡ some (codes "a-   42|ff")
unfolding vprintfmt escape scan directive convert put_signed put_number printnum pad getint getuint
    hex_digit ◌-ℤ◌ set_number
decimals = refl

strings :
    shown
      (codes "%-5s|%5.2s|%e%q")
      (text (some (codes "ab" ++ 0 ∷ [])) ∷ text (some (codes "xyz" ++ 0 ∷ [])) ∷ word 4 ∷ [])
    ≡ some (codes "ab   |   xy|out of memory%q")
unfolding vprintfmt escape scan directive convert put_string put_text pad getint get_text put_error
    error_string set_number strnlen ◌-ℤ◌
strings = refl

abbrev decimal_format : List ℕ
decimal_format = codes "%d" ++ 0 ∷ []

prints_42 :
    vprintfmt append_byte (rounds decimal_format) [] decimal_format (word 42 ∷ [])
    ≡ some (codes "42")
unfolding vprintfmt escape scan directive convert put_signed put_number printnum pad getint
    hex_digit ◌-ℤ◌
prints_42 = refl

-- two digits in a buffer of three bytes at 100
vsnprintf_example :
    (bytes' : ℕ → ℕ) × (vsnprintf (λ a. 7) 100 3 decimal_format (word 42 ∷ [])
      ≡ some (bytes', pos 2))
    × ((i : ℕ) → i < 2 → i + 1 < 3 → bytes' (100 + i) ≡ get_or (codes "42") i 0 % 256)
    × (bytes' 102 ≡ 0)
    × ((a : ℕ) → (a < 100) ⊎ (103 ≤ a) → bytes' a ≡ 7)
vsnprintf_example =
    vsnprintf_lem (λ a. 7) 100 3 decimal_format (word 42 ∷ []) (codes "42") (λ e. omega arith)
      (omega arith) (omega arith) prints_42

no_digit : in_base 10 (digit_of 0) ≡ none
unfolding digit_of
no_digit = refl

strtol-put_number_example :
    (out : List ℕ) × (put_number append_byte (record plain_spec { width = pos 6 }) 10 1250 []
      ≡ some out)
    × (strtol (out ++ 0 ∷ []) 10 ≡ some (pos 1250, 0 ∷ []))
strtol-put_number_example =
    strtol-put_number (record plain_spec { width = pos 6 }) 10 1250 0 [] refl (omega arith)
      (omega arith) (omega arith) no_digit

strtol-put_signed_example :
    (out : List ℕ) × (put_signed append_byte plain_spec (negsuc 41) [] ≡ some out)
    × (strtol (out ++ 0 ∷ []) 10 ≡ some (negsuc 41, 0 ∷ []))
strtol-put_signed_example =
    strtol-put_signed plain_spec (negsuc 41) 0 [] refl (omega arith) no_digit

-- "n=%d%%%x%s%c" for -7, 255, "ok" and '!'
abbrev mixed : List Item
mixed =
    literal b'n'
    ∷ literal b'='
    ∷ decimal 4294967289
    ∷ percent
    ∷ hexadecimal 255
    ∷ string (codes "ok")
    ∷ character b'!'
    ∷ []
