-- ===== src/Common/Store.antt =====
-- A store: what stands at each address. The program's structures live at addresses.
use Prim.Native.Nat.{ℕ}
use a_smart_mlfq_project_bas.Common.{
  ◌==◌, if◌then◌else◌, Bool-cases, ◌≡◌, refl, sym, ap, ◌∙◌, ◌≢◌, inl, inr, arith,
}

abbrev pub update {ℓ} : {A : Type ℓ} → (ℕ → A) → ℕ → A → ℕ → A
update s a v b = if b == a then v else s b

-- To prove something of what stands at an address after a write: of the new value and of the old.
pub update_all {ℓ κ} :
    {A : Type ℓ} (P : A → Type κ) (s : ℕ → A) (a : ℕ) (v : A) (b : ℕ)
    → P v
    → P (s b)
    → P (update s a v b)
update_all P s a v b new old = elim (Bool-cases (b == a)) [ inl e ↦ rw e new | inr e ↦ rw e old ]

-- The same, with what the test says.
pub update_cases {ℓ κ} :
    {A : Type ℓ} (P : A → Type κ) (s : ℕ → A) (a : ℕ) (v : A) (b : ℕ)
    → (b ≡ a → P v)
    → (b ≢ a → P (s b))
    → P (update s a v b)
update_cases P s a v b new old = elim (Bool-cases (b == a)) [
  | inl e ↦ rw e (new (ground arith))
  | inr e ↦ rw e (old (ground arith))
]

pub update_self {ℓ} : {A : Type ℓ} (s : ℕ → A) (a : ℕ) (v : A) → update s a v a ≡ v
update_self s a v = update_cases (λ x. x ≡ v) s a v a (λ _. refl) (λ ne. absurd (ne refl))

-- What a function reads of a store after a write.
pub update_read {ℓ κ} :
    {A : Type ℓ} {B : Type κ} (g : A → B) (s : ℕ → A) (a : ℕ) (v : A) (b : ℕ)
    → g (update s a v b) ≡ (if b == a then g v else g (s b))
update_read g s a v b = elim (Bool-cases (b == a)) [ inl e ↦ rw e | inr e ↦ rw e ]

-- A write that leaves what the function reads.
pub update_keeps {ℓ κ} :
    {A : Type ℓ} {B : Type κ} (g : A → B) (s : ℕ → A) (a : ℕ) (v : A) (b : ℕ)
    → g v ≡ g (s a)
    → g (update s a v b) ≡ g (s b)
update_keeps g s a v b h =
    update_cases (λ x. g x ≡ g (s b)) s a v b (λ e. h ∙ ap (λ x. g (s x)) (sym e)) (λ n. refl)
