-- ===== src/Prelude/Eq.antt =====
-- Tests of equality as an interface: what the keys of a dictionary provide.
use sentinel_hft.Prelude.{
  ℕ, ◌≡◌, ◌≢◌, ◌↔◌, refl, Bool, true, false, ◌&&◌, ◌==◌ as same_ℕ, ==_iff as same_ℕ_iff, arith,
  Bool-cases, inl, inr,
}
use sentinel_hft.Prelude.Int.{ℤ, pos_part, neg_part, eq_of_parts}

-- `same` decides equality.
pub record Eq {ℓ} (K : Type ℓ) : Type ℓ where
  pub same : K → K → Bool
  pub same_iff : (j k : K) → (same j k ≡ true) ↔ (j ≡ k)

-- The keys that are tuples of numbers.
abbrev pub triple_same : ℕ × ℕ × ℕ → ℕ × ℕ × ℕ → Bool
triple_same (a, b, c) (a', b', c') = same_ℕ a a' && (same_ℕ b b' && same_ℕ c c')

pub triple_same_iff : (x y : ℕ × ℕ × ℕ) → (triple_same x y ≡ true) ↔ (x ≡ y)
triple_same_iff (a, b, c) (a', b', c') = (λ h. ground arith, λ e. ground arith)

instance abbrev pub triple_eq : Eq (ℕ × ℕ × ℕ)
triple_eq = record { same = triple_same; same_iff = triple_same_iff }

-- Keys that are numbers.
instance abbrev pub nat_eq : Eq ℕ
nat_eq = record { same = same_ℕ; same_iff = same_ℕ_iff }

-- Keys that are integers.
abbrev pub int_same : ℤ → ℤ → Bool
int_same a b = same_ℕ (pos_part a) (pos_part b) && same_ℕ (neg_part a) (neg_part b)

pub int_same_iff : (a b : ℤ) → (int_same a b ≡ true) ↔ (a ≡ b)
int_same_iff a b = (λ h. eq_of_parts a b (ground arith), λ h. rw h (ground arith))

instance abbrev pub int_eq : Eq ℤ
int_eq = record { same = int_same; same_iff = int_same_iff }

module _ {ℓ} {A : Type ℓ} ⦃e : Eq A⦄ where
  pub same_refl : (a : A) → e.same a a ≡ true
  same_refl a = (e.same_iff a a).1 refl

  pub same_ne : (a b : A) → a ≢ b → e.same a b ≡ false
  same_ne a b h = elim (Bool-cases (e.same a b)) [
    | inl t ↦ absurd (h ((e.same_iff a b).0 t))
    | inr f ↦ f
  ]
