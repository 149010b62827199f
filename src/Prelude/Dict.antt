-- ===== src/Prelude/Dict.antt =====
-- A Python dict as an association list in insertion order.
pub mod Values
use sentinel_hft.Prelude.{
  ℕ, ◌+◌, ◌≡◌, ◌≢◌, Option, none, some, List, [], ◌∷◌, if◌then◌else◌, Bool-cases, inl, inr,
}
use sentinel_hft.Prelude.Eq.{Eq, same_refl, same_ne}

abbrev pub Dict {ℓ κ} : Type ℓ → Type κ → Type (ℓ ⊔ κ)
Dict K V = List (K × V)

module _ {ℓ κ} {K : Type ℓ} {V : Type κ} ⦃e : Eq K⦄ where
  -- `d.get(k)`
  unfoldable pub lookup : K → Dict K V → Option V
  lookup k [] = none
  lookup k ((j, v) ∷ d) = if e.same j k then some v else lookup k d

  -- `d[k] = v`
  unfoldable pub insert : K → V → Dict K V → Dict K V
  insert k v [] = (k, v) ∷ []
  insert k v ((j, w) ∷ d) = if e.same j k then (j, v) ∷ d else (j, w) ∷ insert k v d

  pub lookup-insert_self : (k : K) (v : V) (d : Dict K V) → lookup k (insert k v d) ≡ some v
  unfolding lookup insert
  lookup-insert_self k v [] = rw (same_refl k)
  lookup-insert_self k v ((j, w) ∷ d) = elim (Bool-cases (e.same j k)) [
    | inl equal ↦ rw (equal, lookup, equal)
    | inr other ↦ rw (other, lookup, other) (lookup-insert_self k v d)
  ]

  pub lookup-insert_ne :
      (j k : K) (v : V) (d : Dict K V) → k ≢ j → lookup j (insert k v d) ≡ lookup j d
  unfolding lookup insert
  lookup-insert_ne j k v [] h = rw (same_ne k j h)
  lookup-insert_ne j k v ((i, w) ∷ d) h = elim (Bool-cases (e.same i k)) [
    | inl equal ↦ let eq : i ≡ k = (e.same_iff i k).0 equal in rw (equal, eq, same_ne k j h)
    | inr other ↦ elim (Bool-cases (e.same i j)) [
      | inl here ↦ rw (other, here)
      | inr there ↦ rw (other, there) (lookup-insert_ne j k v d h)
    ]
  ]

-- `d.get(k, default)`
abbrev pub or_else {ℓ} : {A : Type ℓ} → Option A → A → A
or_else none d = d
or_else (some a) d = a

-- `d[k] = d.get(k, 0) + n`
abbrev pub bump_by {ℓ} : {K : Type ℓ} ⦃e : Eq K⦄ → ℕ → K → Dict K ℕ → Dict K ℕ
bump_by n k d = insert k (or_else (lookup k d) 0 + n) d
