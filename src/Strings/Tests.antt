-- ===== src/Strings/Tests.antt =====
-- The functions of libs/string.c on concrete bytes.
use a_smart_mlfq_project_bas.Common.{ℕ, ◌≡◌, refl, true, some, List, [], ◌∷◌, ◌++◌, arith}
use a_smart_mlfq_project_bas.Common.Int.{negsuc}
use a_smart_mlfq_project_bas.Strings.{strlen, strnlen, digit_of, strtol}
use a_smart_mlfq_project_bas.Strings.Length.{strlen_lem, strnlen_lem}
use a_smart_mlfq_project_bas.Strings.Number.{to_byte, strtol_lem}

abbrev cat : List ℕ
cat = b'c' ∷ b'a' ∷ b't' ∷ []

abbrev car : List ℕ
car = b'c' ∷ b'a' ∷ b'r' ∷ []

strlen_example : strlen (cat ++ 0 ∷ car) ≡ some 3
strlen_example = strlen_lem cat car (omega arith)

strnlen_example : strnlen (cat ++ 0 ∷ car) 2 ≡ some 2
strnlen_example = strnlen_lem cat car 2 (omega arith)

-- " \t-1z9 " in base 36 and "0xff" in base 0
strtol_example :
    strtol (32 ∷ 9 ∷ b'-' ∷ b'1' ∷ b'z' ∷ b'9' ∷ 32 ∷ 0 ∷ []) 36 ≡ some (negsuc 2564, 32 ∷ 0 ∷ [])
unfolding digit_of to_byte
strtol_example =
    strtol_lem (32 ∷ 9 ∷ []) (35 ∷ 9 ∷ []) (0 ∷ []) true 36 1 32 (omega arith) (omega arith)
      (λ e. omega arith) (λ e. omega arith) (omega arith) (omega arith) refl
