-- ===== src/Format.antt =====
-- libs/printfmt.c. A format is a list of bytes that ends with NUL; reading behind its end is `none`.
-- `putch` and what `putdat` points to are arguments: a function on a state. The arguments of a call
-- are a list of 32-bit words (`int`, `long`, `void *`), 64-bit ones (`long long`) and strings; to read
-- one of another kind, or one too many, is `none`.
pub mod Transport
pub mod Digits
pub mod Buffer
pub mod RoundTrip
pub mod Fuel
pub mod Items
mod Tests
use a_smart_mlfq_project_bas.Common.{
  ltb, leb, ◌==◌, if◌then◌else◌, ◌>>=◌, length, ℕ, zero, suc, ◌+◌, ◌-◌, ◌*◌, ◌/◌, ◌%◌, ◌^◌, Bool,
  true, false, ◌&&◌, ◌||◌, not, Option, none, some, List, [], ◌∷◌, ◌++◌,
}
use a_smart_mlfq_project_bas.Common.Bytes.{codes}
use a_smart_mlfq_project_bas.Common.Errors.{e_inval}
use a_smart_mlfq_project_bas.Common.Int.{
  ℤ, pos, negsuc, pos_part, neg_part, sub_ℕ, ◌-ℤ◌, ltb_ℤ, eqb_ℤ, u32, to_u32,
}
use a_smart_mlfq_project_bas.Common.Store.{update}
use a_smart_mlfq_project_bas.Sched.Proc.{null}
use a_smart_mlfq_project_bas.Strings.{strnlen}

pub data Arg : Type 0 where
  word : ℕ → Arg
  wide : ℕ → Arg
  text : Option (List ℕ) → Arg

-- the variables of one escape sequence
pub record Spec : Type 0 where
  pub padc : ℕ
  pub width : ℤ
  pub precision : ℤ
  pub lflag : ℕ
  pub altflag : Bool

abbrev pub plain_spec : Spec
plain_spec = record {
  padc = 32;
  width = negsuc 0;
  precision = negsuc 0;
  lflag = 0;
  altflag = false;
}

abbrev pub signed32 : ℕ → ℤ
signed32 n = if ltb n (2 ^ 31) then pos n else sub_ℕ n (2 ^ 32)

abbrev pub signed64 : ℕ → ℤ
signed64 n = if ltb n (2 ^ 63) then pos n else sub_ℕ n (2 ^ 64)

unfoldable pub getuint : List Arg → ℕ → Option (ℕ × List Arg)
getuint (word n ∷ args) lflag = if leb 2 lflag then none else some (n, args)
getuint (wide n ∷ args) lflag = if leb 2 lflag then some (n, args) else none
getuint (text s ∷ args) lflag = none
getuint [] lflag = none

unfoldable pub getint : List Arg → ℕ → Option (ℤ × List Arg)
getint (word n ∷ args) lflag = if leb 2 lflag then none else some (signed32 n, args)
getint (wide n ∷ args) lflag = if leb 2 lflag then some (signed64 n, args) else none
getint (text s ∷ args) lflag = none
getint [] lflag = none

unfoldable pub get_text : List Arg → Option (Option (List ℕ) × List Arg)
get_text (text s ∷ args) = some (s, args)
get_text (word n ∷ args) = none
get_text (wide n ∷ args) = none
get_text [] = none

abbrev pub is_digit : ℕ → Bool
is_digit b = leb b'0' b && leb b b'9'

-- `process_precision`
unfoldable pub set_number : Spec → ℤ → Spec
set_number sp n =
    if ltb_ℤ sp.width (pos 0)
    then record sp { width = n; precision = negsuc 0 }
    else record sp { precision = n }

-- What a byte behind '%' does: it changes the variables, begins or goes on with a number, or is the
-- conversion.
pub data Directive : Type 0 where
  number : ℕ → Directive
  flags : Spec → List Arg → Directive
  conversion : Directive
  missing : Directive

-- what stands in an option, or a default
abbrev pub or_else : Option (List ℕ) → List ℕ → List ℕ
or_else none d = d
or_else (some p) d = p

-- The cases of the switch that go on with `reswitch`.
unfoldable pub directive : Spec → List Arg → ℕ → Directive
directive sp args b =
    if b == b'-'
    then flags (record sp { padc = b'-' }) args
    else if b == b'0'
    then flags (record sp { padc = b'0' }) args
    else if is_digit b
    then number (b - b'0')
    else if b == b'*'
    then elim (getint args 0) [ none ↦ missing | some (n, rest) ↦ flags (set_number sp n) rest ]
    else if b == b'.'
    then flags (if ltb_ℤ sp.width (pos 0) then record sp { width = pos 0 } else sp) args
    else if b == b'#'
    then flags (record sp { altflag = true }) args
    else if b == b'l'
    then flags (record sp { lflag = sp.lflag + 1 }) args
    else conversion

-- The escape sequence up to its conversion: `digits` holds the number that is being read.
unfoldable pub scan : Option ℕ → Spec → List Arg → List ℕ → Option (Spec × ℕ × List ℕ × List Arg)
scan digits sp args [] = none
scan none sp args (b ∷ bs) = elim (directive sp args b) [
  | number n ↦ scan (some n) sp args bs
  | flags sp' args' ↦ scan none sp' args' bs
  | conversion ↦ some (sp, b, bs, args)
  | missing ↦ none
]
scan (some n) sp args (b ∷ bs) = elim (is_digit b) [
  | true ↦ scan (some (n * 10 + (b - b'0'))) sp args bs
  | false ↦ elim (directive (set_number sp (pos n)) args b) [
    | number m ↦ none
    | flags sp' args' ↦ scan none sp' args' bs
    | conversion ↦ some (set_number sp (pos n), b, bs, args)
    | missing ↦ none
  ]
]

-- The names of the errors, and `MAXERROR`.
abbrev pub max_error : ℕ
max_error = 24

unfoldable pub error_string : ℕ → Option (List ℕ)
error_string n =
    if n == 1
    then some (codes "unspecified error" ++ 0 ∷ [])
    else if n == 2
    then some (codes "bad process" ++ 0 ∷ [])
    else if n == 3
    then some (codes "invalid parameter" ++ 0 ∷ [])
    else if n == 4
    then some (codes "out of memory" ++ 0 ∷ [])
    else if n == 5
    then some (codes "out of processes" ++ 0 ∷ [])
    else if n == 6
    then some (codes "segmentation fault" ++ 0 ∷ [])
    else if n == 8
    then some (codes "invalid elf file" ++ 0 ∷ [])
    else if n == 9
    then some (codes "process is killed" ++ 0 ∷ [])
    else if n == 10
    then some (codes "panic failure" ++ 0 ∷ [])
    else none

-- `"0123456789abcdef"[mod]`
unfoldable pub hex_digit : ℕ → ℕ
hex_digit d = if ltb d 10 then b'0' + d else b'a' + (d - 10)

-- `--precision < 0`, for a precision that is not negative
abbrev pub is_spent : ℤ → Bool
is_spent precision = eqb_ℤ precision (pos 0)

abbrev pub next_precision : ℤ → ℤ
next_precision precision = if ltb_ℤ precision (pos 0) then precision else precision -ℤ pos 1

module _ {S : Type 0} (putch : ℕ → S → S) where
  unfoldable pub pad : ℕ → ℕ → S → S
  pad zero c s = s
  pad (suc n) c s = pad n c (putch c s)

  -- The recursion takes fuel for the digits.
  unfoldable pub printnum : ℕ → ℕ → ℕ → ℤ → ℕ → S → Option S
  printnum zero num base width padc s = none
  printnum (suc fuel) num base width padc s =
      let rest = printnum fuel (num / base) base (width -ℤ pos 1) padc s in
      let digit = hex_digit (num % base) in
      if leb base num
      then (rest >>= λ t. some (putch digit t))
      else some (putch digit (pad (pos_part (width -ℤ pos 1)) padc s))

  -- The loop over the string; the second part of the result is the width that is left.
  unfoldable pub put_text : List ℕ → ℤ → ℤ → Bool → S → Option (S × ℤ)
  put_text [] width precision alt s = none
  put_text (b ∷ bs) width precision alt s =
      let shown = if alt && (ltb b 32 || ltb 126 b) then b'?' else b in
      let rest = put_text bs (width -ℤ pos 1) (next_precision precision) alt (putch shown s) in
      if (b == 0) || is_spent precision then some (s, width) else rest

  -- The case of a string that stands at `p`.
  unfoldable pub put_string : Spec → List ℕ → S → Option S
  put_string sp p s =
      if ltb_ℤ (pos 0) sp.width && not (sp.padc == b'-')
      then (strnlen p (to_u32 sp.precision) >>= λ n.
          let left = sp.width -ℤ pos n in
          put_text p (if ltb_ℤ (pos 0) left then pos 0 else left) sp.precision sp.altflag
            (pad (pos_part left) sp.padc s)
          >>= λ r. some (pad (pos_part r.1) 32 r.0))
      else put_text p sp.width sp.precision sp.altflag s >>= λ r. some (pad (pos_part r.1) 32 r.0)

  -- 64 digits, which is enough for a number below 2^64 in a base from 2 on
  unfoldable pub put_number : Spec → ℕ → ℕ → S → Option S
  put_number sp base num s = printnum 64 num base sp.width sp.padc s

  unfoldable pub put_signed : Spec → ℤ → S → Option S
  put_signed sp (pos n) s = put_number sp 10 n s
  put_signed sp (negsuc n) s = put_number sp 10 (suc n) (putch b'-' s)

  -- The case of an error number, over `printfmt`. (The number without a negation is left to C.)
  unfoldable pub put_error : (S → List ℕ → List Arg → Option S) → ℤ → S → Option S
  put_error print err s =
      let n = if ltb_ℤ err (pos 0) then neg_part err else pos_part err in
      if n == 2 ^ 31 then none else elim (if ltb max_error n then none else error_string n) [
        | none ↦ print s (codes "error %d" ++ 0 ∷ []) (word n ∷ [])
        | some p ↦ print s (codes "%s" ++ 0 ∷ []) (text (some p) ∷ [])
      ]

  -- What a conversion prints, with the arguments that are left. `none` where no case fits.
  unfoldable pub convert :
      (S → List ℕ → List Arg → Option S) → Spec → ℕ → List Arg → S → Option (Option (S × List Arg))
  convert print sp c args s =
      if c == b'c'
      then (getint args 0 >>= λ a. some (some (putch (to_u32 a.0) s, a.1)))
      else if c == b'e'
      then (getint args 0 >>= λ a. put_error print a.0 s >>= λ t. some (some (t, a.1)))
      else if c == b's'
      then (get_text args >>= λ a.
          put_string sp (or_else a.0 (codes "(null)" ++ 0 ∷ [])) s >>= λ t. some (some (t, a.1)))
      else if c == b'd'
      then (getint args sp.lflag >>= λ a. put_signed sp a.0 s >>= λ t. some (some (t, a.1)))
      else if c == b'u'
      then (getuint args sp.lflag >>= λ a. put_number sp 10 a.0 s >>= λ t. some (some (t, a.1)))
      else if c == b'o'
      then (getuint args sp.lflag >>= λ a. put_number sp 8 a.0 s >>= λ t. some (some (t, a.1)))
      else if c == b'p'
      then (getuint args 0 >>= λ a.
          put_number sp 16 a.0 (putch b'x' (putch b'0' s)) >>= λ t. some (some (t, a.1)))
      else if c == b'x'
      then (getuint args sp.lflag >>= λ a. put_number sp 16 a.0 s >>= λ t. some (some (t, a.1)))
      else if c == b'%'
      then some (some (putch b'%' s, args))
      else some none

  -- One escape sequence: the state, the format that is left, and the arguments. An unknown conversion
  -- prints the '%' and goes back to the byte behind it.
  unfoldable pub escape :
      (S → List ℕ → List Arg → Option S) → S → List ℕ → List Arg → Option (S × List ℕ × List Arg)
  escape print s start args = scan none plain_spec args start >>= λ e.
      convert print e.0 e.1 e.3 s >>= λ r.
      some (elim r [ none ↦ (putch b'%' s, start, e.3) | some q ↦ (q.0, e.2, q.1) ])

  -- With fuel for the rounds.
  unfoldable pub vprintfmt : ℕ → S → List ℕ → List Arg → Option S
  vprintfmt zero s fmt args = none
  vprintfmt (suc fuel) s [] args = none
  vprintfmt (suc fuel) s (b ∷ bs) args =
      let rest = vprintfmt fuel (putch b s) bs args in
      let escaped = escape (vprintfmt fuel) s bs args >>= λ r. vprintfmt fuel r.0 r.1 r.2 in
      if b == b'%' then escaped else if b == 0 then some s else rest

-- `struct sprintbuf`, over the bytes of memory
pub record SprintBuf : Type 0 where
  pub bytes : ℕ → ℕ
  pub buf : ℕ
  pub ebuf : ℕ
  pub cnt : ℕ

-- A character is an int, of which `*b->buf` keeps the low byte.
unfoldable pub sprintputch : ℕ → SprintBuf → SprintBuf
sprintputch ch b =
    if ltb b.buf b.ebuf
    then record b { bytes = update b.bytes b.buf (ch % 256); buf = b.buf + 1; cnt = b.cnt + 1 }
    else record b { cnt = b.cnt + 1 }

-- The format takes a round for each of its bytes, and one that "%e" begins takes no more than 10.
abbrev pub rounds : List ℕ → ℕ
rounds fmt = length fmt + 10

unfoldable pub vsnprintf : (ℕ → ℕ) → ℕ → ℕ → List ℕ → List Arg → Option ((ℕ → ℕ) × ℤ)
vsnprintf bytes str size fmt args =
    let b : SprintBuf = record { bytes = bytes; buf = str; ebuf = u32 (str + size - 1); cnt = 0 } in
    if (str == 0) || ltb b.ebuf b.buf
    then some (bytes, e_inval)
    else (vprintfmt sprintputch (rounds fmt) b fmt args >>= λ d.
        some (update d.bytes d.buf 0, pos d.cnt))
