-- ===== src/Prelude/Dict/Values.antt =====
-- Sums and predicates over the values of a dictionary, and what an assignment does to them.
use sentinel_hft.Prelude.{
  ℕ, ◌+◌, ◌≡◌, refl, Option, none, some, subst, if◌then◌else◌, [], ◌∷◌, Bool-cases, inl, inr, arith,
}
use mathlib.Core.Option.{some-injective}
use sentinel_hft.Prelude.Eq.{Eq}
use sentinel_hft.Prelude.Dict.{Dict, lookup, insert, or_else, bump_by}

module _ {ℓ κ} {K : Type ℓ} {V : Type κ} (f : V → ℕ) where
  abbrev pub total : Dict K V → ℕ
  total [] = 0
  total ((k, v) ∷ d) = f v + total d

-- A missing value weighs nothing.
abbrev pub weight {κ} : {V : Type κ} → (V → ℕ) → Option V → ℕ
weight f none = 0
weight f (some v) = f v

module _ {ℓ κ} {K : Type ℓ} {V : Type κ} ⦃e : Eq K⦄ (f : V → ℕ) where
  -- An assignment replaces the old value's weight by the new one's.
  pub total-insert :
      (k : K) (v : V) (d : Dict K V)
      → total f (insert k v d) + weight f (lookup k d) ≡ total f d + f v
  unfolding insert lookup
  total-insert k v [] = omega arith
  total-insert k v ((j, w) ∷ d) = elim (Bool-cases (e.same j k)) [
    | inl equal ↦ rw equal (omega arith)
    | inr other ↦ rw other (omega (arith, total-insert k v d))
  ]

-- The sum of a dictionary of counts.
abbrev pub held {ℓ} : {K : Type ℓ} → Dict K ℕ → ℕ
held d = total (λ n. n) d

weight_default : (o : Option ℕ) → weight (λ n. n) o ≡ or_else o 0
weight_default none = refl
weight_default (some n) = refl

module _ {ℓ} {K : Type ℓ} ⦃e : Eq K⦄ where
  pub held-bump_by : (n : ℕ) (k : K) (d : Dict K ℕ) → held (bump_by n k d) ≡ held d + n
  held-bump_by n k d =
      omega
        (arith, total-insert (λ n. n) k (or_else (lookup k d) 0 + n) d, weight_default (lookup k d))

module _ {ℓ κ μ} {K : Type ℓ} {V : Type κ} (P : V → Type μ) where
  abbrev pub AllValues : Dict K V → Type μ
  AllValues [] = Unit
  AllValues ((k, v) ∷ d) = P v × AllValues d

module _ {ℓ κ μ} {K : Type ℓ} {V : Type κ} ⦃e : Eq K⦄ (P : V → Type μ) where
  pub AllValues-insert :
      (k : K) (v : V) (d : Dict K V) → P v → AllValues P d → AllValues P (insert k v d)
  unfolding insert
  AllValues-insert k v [] p all = (p, tt)
  AllValues-insert k v ((j, w) ∷ d) p all = elim (Bool-cases (e.same j k)) [
    | inl equal ↦ rw equal (p, all.1)
    | inr other ↦ rw other (all.0, AllValues-insert k v d p all.1)
  ]

  pub AllValues-lookup : (k : K) (v : V) (d : Dict K V) → AllValues P d → lookup k d ≡ some v → P v
  unfolding lookup
  AllValues-lookup k v [] all h = cc
  AllValues-lookup k v ((j, w) ∷ d) all h = elim (Bool-cases (e.same j k)) [
    | inl equal ↦
        let found : some w ≡ some v =
          subst (λ b. (if b then some w else lookup k d) ≡ some v) equal h in
        subst P (some-injective w v found) all.0
    | inr other ↦
        AllValues-lookup k v d all.1
          (subst (λ b. (if b then some w else lookup k d) ≡ some v) other h)
  ]
