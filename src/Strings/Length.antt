-- ===== src/Strings/Length.antt =====
-- libs/string.c: strlen, strnlen and strncpy against the string that the bytes hold.
use a_smart_mlfq_project_bas.Common.{
  ne-==, length, take, drop, ℕ, zero, suc, ◌≤◌, min, ◌≡◌, refl, ◌≢◌, some, List, [], ◌∷◌, ◌++◌,
  arith,
}
use a_smart_mlfq_project_bas.Strings.{strlen, strnlen, strncpy}

-- no byte of the string is the terminating one
abbrev pub NoNul : List ℕ → Type 0
NoNul [] = Unit {0}
NoNul (b ∷ bs) = (b ≢ 0) × NoNul bs

abbrev pub zeros : ℕ → List ℕ
zeros zero = []
zeros (suc n) = 0 ∷ zeros n

-- On a string with its terminator, whatever follows it, strlen returns the number of bytes before the
-- terminator.
pub strlen_lem : (t rest : List ℕ) → NoNul t → strlen (t ++ 0 ∷ rest) ≡ some (length t)
unfolding strlen
strlen_lem [] rest h = refl
strlen_lem (b ∷ bs) rest h = ground (arith, strlen_lem bs rest h.1)

-- On a string with its terminator strnlen returns the smaller one of its length and the limit.
pub strnlen_lem :
    (t rest : List ℕ) (n : ℕ) → NoNul t → strnlen (t ++ 0 ∷ rest) n ≡ some (min n (length t))
unfolding strnlen
strnlen_lem t rest zero h = ground arith
strnlen_lem [] rest (suc n) h = ground arith
strnlen_lem (b ∷ bs) rest (suc n) h = ground (arith, strnlen_lem bs rest n h.1)

strncpy-zeros :
    (dst t rest : List ℕ) (n m : ℕ)
    → NoNul t
    → n ≤ length dst
    → n ≤ m
    → strncpy dst (t ++ 0 ∷ rest) n ≡ some (take n (t ++ zeros m) ++ drop n dst)
unfolding strncpy
strncpy-zeros dst t rest zero m h l w = refl
strncpy-zeros [] t rest (suc n) m h l w = absurd (omega arith)
strncpy-zeros (d ∷ dst) t rest (suc n) zero h l w = absurd (omega arith)
strncpy-zeros (d ∷ dst) [] rest (suc n) (suc m) h l w =
    ground (arith, strncpy-zeros dst [] rest n m tt (omega arith) (omega arith))
strncpy-zeros (d ∷ dst) (b ∷ t) rest (suc n) m h l w =
    ground (arith, strncpy-zeros dst t rest n m h.1 (omega arith) (omega arith), ne-== b 0 h.0)

-- For an array of at least n bytes strncpy writes the first n bytes of the string that zeros continue,
-- and leaves what lies behind them.
pub strncpy_lem :
    (dst t rest : List ℕ) (n : ℕ)
    → NoNul t
    → n ≤ length dst
    → strncpy dst (t ++ 0 ∷ rest) n ≡ some (take n (t ++ zeros n) ++ drop n dst)
strncpy_lem dst t rest n h l = strncpy-zeros dst t rest n n h l (omega arith)
