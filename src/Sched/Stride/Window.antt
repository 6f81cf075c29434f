-- ===== src/Sched/Stride/Window.antt =====
-- kern/schedule/default_sched.c: strides are compared modulo 2^32, and that is an order as long as
-- they lie in a window of the length BIG_STRIDE.
use a_smart_mlfq_project_bas.Common.{
  ltb, if◌then◌else◌, Bool-cases, ℕ, zero, suc, ◌+◌, ◌-◌, ◌^◌, ◌≤◌, ◌<◌, ◌≡◌, sym, ap, ◌∙◌, ◌≢◌,
  ◌↔◌, inl, inr, false, arith,
}
use a_smart_mlfq_project_bas.Common.Int.{ℤ, pos, negsuc, ltb_ℤ, eqb_ℤ, u32}
use a_smart_mlfq_project_bas.Heap.Order.{Compares}
use a_smart_mlfq_project_bas.Sched.Proc.{Proc}
use a_smart_mlfq_project_bas.Sched.Stride.{big_stride, to_i32, proc_stride_comp_f}

-- how far a process is ahead of a base
abbrev pub ahead : (ℕ → Proc) → ℕ → ℕ → ℕ
ahead procs base p = u32 ((procs p).lab6_stride + 2 ^ 32 - base)

-- a stride of 32 bits in the window of a base
abbrev pub InWindow : (ℕ → Proc) → ℕ → ℕ → Type 0
InWindow procs base p = ((procs p).lab6_stride < 2 ^ 32) × (ahead procs base p ≤ big_stride)

le_of_not : (a b : ℕ) → ltb a b ≡ false → b ≤ a
le_of_not a b h = ground arith

compare_strides :
    (a b base : ℕ)
    → a < 2 ^ 32
    → b < 2 ^ 32
    → base < 2 ^ 32
    → u32 (a + 2 ^ 32 - base) ≤ big_stride
    → u32 (b + 2 ^ 32 - base) ≤ big_stride
    → (ltb (u32 (a + 2 ^ 32 - b)) (2 ^ 31) ≡ false)
      ↔ (u32 (a + 2 ^ 32 - base) < u32 (b + 2 ^ 32 - base))
compare_strides a b base ha hb hc wa wb = (
  λ e. let f = le_of_not (u32 (a + 2 ^ 32 - b)) (2 ^ 31) e in omega arith,
  λ l. let f : 2 ^ 31 ≤ u32 (a + 2 ^ 32 - b) = omega arith in ground arith,
)

-- the result of the comparison for a difference
abbrev pub three_way : ℤ → ℤ
three_way c = if ltb_ℤ (pos 0) c then pos 1 else if eqb_ℤ c (pos 0) then pos 0 else negsuc 0

three_way_pos : (n : ℕ) → three_way (pos n) ≢ negsuc 0
three_way_pos zero e = absurd (cc)
three_way_pos (suc n) e = ground (arith, e)

three_way_negsuc : (n : ℕ) → three_way (negsuc n) ≡ negsuc 0
three_way_negsuc n = ground arith

is_negative : (d : ℕ) → d < 2 ^ 32 → (three_way (to_i32 d) ≡ negsuc 0) ↔ (ltb d (2 ^ 31) ≡ false)
is_negative d h = elim (Bool-cases (ltb d (2 ^ 31))) [
  | inl e ↦
      let low : to_i32 d ≡ pos d = ground (arith, e) in
      (λ f. absurd (three_way_pos d (ap three_way (sym low) ∙ f)), λ f. absurd (cc))
  | inr e ↦
      let high : to_i32 d ≡ negsuc (2 ^ 32 - d - 1) = ground (arith, e, h) in
      (λ f. e, λ f. ap three_way high ∙ three_way_negsuc (2 ^ 32 - d - 1))
]

pub comp-Compares :
    (procs : ℕ → Proc) (base : ℕ)
    → base < 2 ^ 32
    → Compares (proc_stride_comp_f procs) (ahead procs base) (InWindow procs base)
unfolding proc_stride_comp_f
comp-Compares procs base h a b p q =
    let n =
      is_negative (u32 ((procs a).lab6_stride + 2 ^ 32 - (procs b).lab6_stride)) (omega arith) in
    let w = compare_strides (procs a).lab6_stride (procs b).lab6_stride base p.0 q.0 h p.1 q.1 in
    (λ e. w.0 (n.0 e), λ l. n.1 (w.1 l))
