-- ===== src/Format/Buffer.antt =====
-- libs/printfmt.c: the buffer that `vsnprintf` fills.
use a_smart_mlfq_project_bas.Common.{
  ltb, ◌==◌, if◌then◌else◌, Bool-cases, length, get_or, ℕ, zero, suc, ◌+◌, ◌-◌, ◌%◌, ◌^◌, ◌≤◌, ◌<◌,
  min, ◌≡◌, refl, sym, ap, ◌∙◌, ◌≢◌, ◌⊎◌, inl, inr, false, ◌&&◌, ◌||◌, some, List, [], ◌∷◌, ◌++◌,
  arith,
}
use a_smart_mlfq_project_bas.Common.Int.{pos, u32}
use a_smart_mlfq_project_bas.Common.Store.{update, update_cases, update_self}
use a_smart_mlfq_project_bas.Format.{Arg, vprintfmt, SprintBuf, sprintputch, rounds, vsnprintf}
use a_smart_mlfq_project_bas.Format.Digits.{append_byte}
use a_smart_mlfq_project_bas.Format.Transport.{map_opt, vprintfmt_carried}

-- the state behind some bytes of output
fed : SprintBuf → List ℕ → SprintBuf
fed b [] = b
fed b (c ∷ cs) = fed (sprintputch c b) cs

fed-append : (b : SprintBuf) (cs : List ℕ) (c : ℕ) → fed b (cs ++ c ∷ []) ≡ sprintputch c (fed b cs)
unfolding fed
fed-append b [] c = refl
fed-append b (d ∷ cs) c = fed-append (sprintputch d b) cs c

sprintputch-cnt : (c : ℕ) (b : SprintBuf) → (sprintputch c b).cnt ≡ b.cnt + 1
unfolding sprintputch
sprintputch-cnt c b = elim (Bool-cases (ltb b.buf b.ebuf)) [ inl e ↦ rw e refl | inr e ↦ rw e refl ]

sprintputch-ebuf : (c : ℕ) (b : SprintBuf) → (sprintputch c b).ebuf ≡ b.ebuf
unfolding sprintputch
sprintputch-ebuf c b = elim (Bool-cases (ltb b.buf b.ebuf)) [
  | inl e ↦ rw e refl
  | inr e ↦ rw e refl
]

sprintputch-buf :
    (c : ℕ) (b : SprintBuf) → b.buf ≤ b.ebuf → (sprintputch c b).buf ≡ min (b.buf + 1) b.ebuf
unfolding sprintputch
sprintputch-buf c b h = elim (Bool-cases (ltb b.buf b.ebuf)) [
  | inl e ↦ rw e (ground arith)
  | inr e ↦ rw e (ground arith)
]

sprintputch-bytes :
    (c : ℕ) (b : SprintBuf) (a : ℕ)
    → (sprintputch c b).bytes a ≡ (if ltb b.buf b.ebuf && (a == b.buf) then c % 256 else b.bytes a)
unfolding sprintputch
sprintputch-bytes c b a = elim (Bool-cases (ltb b.buf b.ebuf)) [
  | inl e ↦ rw e refl
  | inr e ↦ rw e refl
]

fed-cnt : (b : SprintBuf) (cs : List ℕ) → (fed b cs).cnt ≡ b.cnt + length cs
unfolding fed
fed-cnt b [] = omega arith
fed-cnt b (c ∷ cs) = omega (arith, fed-cnt (sprintputch c b) cs, sprintputch-cnt c b)

fed-buf :
    (b : SprintBuf) (cs : List ℕ) → b.buf ≤ b.ebuf → (fed b cs).buf ≡ min (b.buf + length cs) b.ebuf
unfolding fed
fed-buf b [] h = ground arith
fed-buf b (c ∷ cs) h =
    let e = sprintputch-buf c b h in
    let f = sprintputch-ebuf c b in
    let g = fed-buf (sprintputch c b) cs (ground (arith, e, f)) in ground (arith, e, f, g)

-- Only the bytes from `buf` on and before `ebuf` are written.
fed_outside :
    (b : SprintBuf) (cs : List ℕ) (a : ℕ)
    → b.buf ≤ b.ebuf
    → (a < b.buf) ⊎ (b.ebuf ≤ a)
    → (fed b cs).bytes a ≡ b.bytes a
unfolding fed
fed_outside b [] a h o = refl
fed_outside b (c ∷ cs) a h o =
    let e = sprintputch-buf c b h in
    let f = sprintputch-ebuf c b in
    let g = sprintputch-bytes c b a in
    fed_outside (sprintputch c b) cs a (ground (arith, e, f))
      (elim o [ inl x ↦ inl (omega (arith, e, x, h)) | inr x ↦ inr (omega (arith, f, x)) ])
    ∙ ground (arith, g)

fed_inside :
    (b : SprintBuf) (cs : List ℕ) (i : ℕ)
    → b.buf ≤ b.ebuf
    → i < length cs
    → b.buf + i < b.ebuf
    → (fed b cs).bytes (b.buf + i) ≡ get_or cs i 0 % 256
unfolding fed
fed_inside b [] i h l k = absurd (omega arith)
fed_inside b (c ∷ cs) zero h l k =
    let e = sprintputch-buf c b h in
    let f = sprintputch-ebuf c b in
    let g = sprintputch-bytes c b (b.buf + 0) in
    fed_outside (sprintputch c b) cs (b.buf + 0) (omega (arith, e, f)) (inl (omega (arith, e, k)))
    ∙ ground (arith, g, k)
fed_inside b (c ∷ cs) (suc i) h l k =
    let e = sprintputch-buf c b h in
    let f = sprintputch-ebuf c b in
    let place : (sprintputch c b).buf + i ≡ b.buf + suc i = omega (arith, e, k) in
    ap (fed (sprintputch c b) cs).bytes (sym place)
    ∙ fed_inside (sprintputch c b) cs i (omega (arith, e, f)) (omega arith) (omega (arith, e, f, k))

abbrev pub start_buf : (ℕ → ℕ) → ℕ → ℕ → SprintBuf
start_buf bytes str size = record { bytes = bytes; buf = str; ebuf = u32 (str + size - 1); cnt = 0 }

-- A format that prints the characters `out` fills a buffer with the low bytes of as many of them as fit
-- in front of a NUL, writes nothing outside of the buffer, and returns the number of all of them.
pub vsnprintf_lem :
    (bytes : ℕ → ℕ) (str size : ℕ) (fmt : List ℕ) (args : List Arg) (out : List ℕ)
    → str ≢ 0
    → 0 < size
    → str + size ≤ 2 ^ 32
    → vprintfmt append_byte (rounds fmt) [] fmt args ≡ some out
    → (bytes' : ℕ → ℕ) × (vsnprintf bytes str size fmt args ≡ some (bytes', pos (length out)))
      × ((i : ℕ) → i < length out → i + 1 < size → bytes' (str + i) ≡ get_or out i 0 % 256)
      × (bytes' (str + min (length out) (size - 1)) ≡ 0)
      × ((a : ℕ) → (a < str) ⊎ (str + size ≤ a) → bytes' a ≡ bytes a)
unfolding vsnprintf fed
vsnprintf_lem bytes str size fmt args out ne pos_size fits e =
    let b = start_buf bytes str size in
    let last : b.ebuf ≡ str + size - 1 = omega arith in
    let fine : ((str == 0) || ltb b.ebuf b.buf) ≡ false = ground (arith, last, ne) in
    let eq : vprintfmt sprintputch (rounds fmt) b fmt args ≡ some (fed b out) =
      vprintfmt_carried append_byte sprintputch (fed b) (λ c cs. fed-append b cs c) (rounds fmt) []
        fmt args
      ∙ ap (map_opt (fed b)) e in
    let cnt : (fed b out).cnt ≡ length out = omega (arith, fed-cnt b out) in
    let end = fed-buf b out (omega (arith, last)) in
    let at_end : (fed b out).buf ≡ str + min (length out) (size - 1) = omega (arith, end, last) in
    (
      update (fed b out).bytes (fed b out).buf 0,
      rw (fine, eq) (ap (λ n. some (update (fed b out).bytes (fed b out).buf 0, pos n)) cnt),
      λ i l k.
          update_cases (λ x. x ≡ get_or out i 0 % 256) (fed b out).bytes (fed b out).buf 0 (str + i)
            (λ same. absurd (omega (arith, same, at_end, l, k)))
            (λ _. fed_inside b out i (omega (arith, last)) l (omega (arith, last, k))),
      ap (update (fed b out).bytes (fed b out).buf 0) (sym at_end)
          ∙ update_self (fed b out).bytes (fed b out).buf 0,
      λ a o.
          update_cases (λ x. x ≡ bytes a) (fed b out).bytes (fed b out).buf 0 a
            (λ same. absurd (ground (arith, same, at_end, o)))
            (λ _.
              fed_outside b out a (omega (arith, last))
                (elim o [ inl x ↦ inl x | inr x ↦ inr (omega (arith, last, x)) ])),
    )
