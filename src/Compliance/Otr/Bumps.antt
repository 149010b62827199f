-- ===== src/Compliance/Otr/Bumps.antt =====
-- What one more for a symbol does to its count and to the sum.
use sentinel_hft.Prelude.{
  ℕ, ◌+◌, ◌≡◌, sym, ap, ◌∙◌, [], ◌∷◌, ◌==◌, arith, Bool-cases, inl, inr, if◌then◌else◌, ==_iff,
}
use sentinel_hft.Prelude.Eq.{nat_eq}
use sentinel_hft.Prelude.Dict.{Dict, lookup, insert, or_else, lookup-insert_self, lookup-insert_ne}
use sentinel_hft.Compliance.Otr.{bump, sum_values}

pub lookup-bump :
    (j k : ℕ) (d : Dict ℕ ℕ)
    → or_else (lookup j (bump k d)) 0 ≡ (if k == j then 1 else 0) + or_else (lookup j d) 0
unfolding bump
lookup-bump j k d = elim (Bool-cases (k == j)) [
  | inl same ↦
      let eq : k ≡ j = (==_iff k j).0 same in
      let here = lookup-insert_self k (or_else (lookup k d) 0 + 1) d in
      let found : or_else (lookup j (insert k (or_else (lookup k d) 0 + 1) d)) 0
          ≡ or_else (lookup k d) 0 + 1 =
        ap (λ i. or_else (lookup i (insert k (or_else (lookup k d) 0 + 1) d)) 0) (sym eq)
        ∙ ap (λ o. or_else o 0) here in
      let old : or_else (lookup k d) 0 ≡ or_else (lookup j d) 0 =
        ap (λ i. or_else (lookup i d) 0) eq in
      rw same (omega (arith, found, old))
  | inr other ↦
      rw (other, lookup-insert_ne j k (or_else (lookup k d) 0 + 1) d (λ eq. ground arith))
        (omega arith)
]

sum_values-insert :
    (k v : ℕ) (d : Dict ℕ ℕ) → sum_values (insert k v d) + or_else (lookup k d) 0 ≡ sum_values d + v
unfolding insert lookup
sum_values-insert k v [] = omega arith
sum_values-insert k v ((j, w) ∷ d) = elim (Bool-cases (j == k)) [
  | inl equal ↦ rw equal (omega arith)
  | inr other ↦ rw other (omega (arith, sum_values-insert k v d))
]

pub sum_values-bump : (k : ℕ) (d : Dict ℕ ℕ) → sum_values (bump k d) ≡ sum_values d + 1
unfolding bump
sum_values-bump k d = omega (arith, sum_values-insert k (or_else (lookup k d) 0 + 1) d)
