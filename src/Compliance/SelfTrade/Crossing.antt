-- ===== src/Compliance/SelfTrade/Crossing.antt =====
-- The guard rejects exactly the intents that would trade against the trader's own orders.
use sentinel_hft.Prelude.{
  ℕ, ◌+◌, ◌≡◌, ◌≢◌, ◌↔◌, ◌⊎◌, inl, inr, refl, sym, subst, true, false, not, List, [], ◌∷◌, ◌==◌,
  if◌then◌else◌, if_split, arith, Bool-cases, Option-cases,
}
use sentinel_hft.Prelude.Eq.{nat_eq, same_ne}
use sentinel_hft.Prelude.Dict.{lookup, or_else, lookup-insert_self, lookup-insert_ne}
use sentinel_hft.Prelude.Float.{Float}
use sentinel_hft.Compliance.SelfTrade.{
  RestingOrder, SelfTradeGuard, without, cancel_from, cancel, crosses, any_crosses, check,
}

module _ {N : Type 0} where
  -- The resting orders of a trader.
  abbrev pub own : ℕ → SelfTradeGuard N → List (RestingOrder N)
  own trader g = or_else (lookup trader g.book) []

  abbrev pub Any : (RestingOrder N → Type 0) → List (RestingOrder N) → Type 0
  Any P [] = ⊥
  Any P (o ∷ os) = P o ⊎ Any P os

  pub Any-of_without :
      (P : RestingOrder N → Type 0) (i : ℕ) (os : List (RestingOrder N))
      → Any P (without i os)
      → Any (λ r. (r.order_id ≢ i) × P r) os
  unfolding without
  Any-of_without P i [] a = a
  Any-of_without P i (o ∷ os) a = elim (Bool-cases (o.order_id == i)) [
    | inl same ↦ inr (
        Any-of_without P i os
          (subst (λ b. Any P (if not b then o ∷ without i os else without i os)) same a))
    | inr other ↦
        elim (subst (λ b. Any P (if not b then o ∷ without i os else without i os)) other a) [
          | inl p ↦ inl (λ e. ground arith, p)
          | inr q ↦ inr (Any-of_without P i os q)
        ]
  ]

  pub without_of_Any :
      (P : RestingOrder N → Type 0) (i : ℕ) (os : List (RestingOrder N))
      → Any (λ r. (r.order_id ≢ i) × P r) os
      → Any P (without i os)
  unfolding without
  without_of_Any P i [] a = a
  without_of_Any P i (o ∷ os) (inl (ne, p)) =
      let other : (o.order_id == i) ≡ false = same_ne o.order_id i ne in rw other (inl p)
  without_of_Any P i (o ∷ os) (inr a) =
      let ih = without_of_Any P i os a in
      if_split (Any P) (not (o.order_id == i)) (λ h. inr ih) (λ h. ih)

  -- What is left of the trader's orders.
  pub own-cancel :
      (trader i : ℕ) (g : SelfTradeGuard N)
      → own trader (cancel trader i g) ≡ without i (own trader g)
  unfolding cancel without
  own-cancel trader i g = elim (Option-cases (lookup trader g.book)) [
    | inl missing ↦ rw (cancel, missing, cancel_from, missing)
    | inr ([], known) ↦ rw (cancel, known, cancel_from, known)
    | inr (o ∷ os, known) ↦
        rw (cancel, known, lookup-insert_self trader (without i (o ∷ os)) g.book)
  ]

  pub own-cancel_other :
      (trader other i : ℕ) (g : SelfTradeGuard N)
      → trader ≢ other
      → own other (cancel trader i g) ≡ own other g
  unfolding cancel
  own-cancel_other trader other i g apart = elim (Option-cases (lookup trader g.book)) [
    | inl missing ↦ rw (cancel, missing)
    | inr ([], known) ↦ rw (cancel, known)
    | inr (o ∷ os, known) ↦
        rw (cancel, known, lookup-insert_ne other trader (without i (o ∷ os)) g.book apart)
  ]

module _ (F : Float) where
  open F use {Num, lt}

  -- An order on the other side, in the same symbol, at a price that meets the intent's.
  abbrev pub Crosses : ℕ → ℕ → Num → RestingOrder Num → Type 0
  Crosses symbol side price r =
      (r.symbol_id ≡ symbol)
      × (((side ≡ 1) × (r.side ≡ 2) × (lt price r.price ≡ false))
          ⊎ ((side ≡ 2) × (r.side ≡ 1) × (lt r.price price ≡ false)))

  -- One round of the loop, on a resting order that crosses and on one that does not.
  crosses_of :
      (symbol side : ℕ) (price : Num) (r : RestingOrder Num)
      → (r.symbol_id == symbol) ≡ true
      → crosses F side price r ≡ true
      → Crosses symbol side price r
  crosses_of symbol side price r s h = ground arith

  of_Crosses :
      (symbol side : ℕ) (price : Num) (r : RestingOrder Num)
      → Crosses symbol side price r
      → ((r.symbol_id == symbol) ≡ true)
        × ((r.side == side) ≡ false)
        × (crosses F side price r ≡ true)
  of_Crosses symbol side price r (s, inl (a, b, c)) = (ground arith, ground arith, ground arith)
  of_Crosses symbol side price r (s, inr (a, b, c)) = (ground arith, ground arith, ground arith)

  any_crosses_sound :
      (symbol side : ℕ) (price : Num) (rs : List (RestingOrder Num))
      → any_crosses F symbol side price rs ≡ true
      → Any (Crosses symbol side price) rs
  unfolding any_crosses
  any_crosses_sound symbol side price [] h = absurd (ground arith)
  any_crosses_sound symbol side price (r ∷ rs) h = elim (Bool-cases (r.symbol_id == symbol)) [
    | inl s ↦ elim (Bool-cases (crosses F side price r)) [
      | inl c ↦ inl (crosses_of symbol side price r s c)
      | inr c ↦ inr (any_crosses_sound symbol side price rs (ground arith))
    ]
    | inr s ↦ inr (any_crosses_sound symbol side price rs (ground arith))
  ]

  any_crosses_complete :
      (symbol side : ℕ) (price : Num) (rs : List (RestingOrder Num))
      → Any (Crosses symbol side price) rs
      → any_crosses F symbol side price rs ≡ true
  unfolding any_crosses
  any_crosses_complete symbol side price [] none_left = elim none_left [ ]
  any_crosses_complete symbol side price (r ∷ rs) (inl c) =
      let (s, o, t) = of_Crosses symbol side price r c in rw (s, o, t)
  any_crosses_complete symbol side price (r ∷ rs) (inr c) =
      let ih = any_crosses_complete symbol side price rs c in ground arith

  -- `check` answers true exactly when one of the trader's own resting orders, on the other side and
  -- in the same symbol, is at a price that the intent meets. It counts the check, and the
  -- rejection if there is one, and leaves the book as it is.
  pub check_iff :
      (trader symbol side : ℕ) (price : Num) (g : SelfTradeGuard Num)
      → let (rejected, g') = check F trader symbol side price g in
        ((rejected ≡ true) ↔ Any (Crosses symbol side price) (own trader g))
        × (g'.book ≡ g.book)
        × (g'.checked ≡ g.checked + 1)
        × (g'.rejects ≡ (if rejected then g.rejects + 1 else g.rejects))
  unfolding check
  check_iff trader symbol side price g =
      elim (Bool-cases (any_crosses F symbol side price (own trader g))) [
        | inl yes_crosses ↦ rw yes_crosses (
          (λ h. any_crosses_sound symbol side price (own trader g) yes_crosses, λ a. refl),
          refl,
          refl,
          refl,
        )
        | inr no_cross ↦ rw no_cross (
          (
            λ h. absurd (ground arith),
            λ a. absurd (ground (arith, any_crosses_complete symbol side price (own trader g) a)),
          ),
          refl,
          refl,
          refl,
        )
      ]

  -- After `cancel`, `check` answers for that trader as if the order of that number were not there,
  -- and for every other trader as before.
  pub check-cancel :
      (trader i symbol side : ℕ) (price : Num) (g : SelfTradeGuard Num)
      → (((check F trader symbol side price (cancel trader i g)).0 ≡ true)
          ↔ Any (λ r. (r.order_id ≢ i) × Crosses symbol side price r) (own trader g))
        × ((other : ℕ) → trader ≢ other → own other (cancel trader i g) ≡ own other g)
  check-cancel trader i symbol side price g =
      let (iff, _, _, _) = check_iff trader symbol side price (cancel trader i g) in
      let left = own-cancel trader i g in
      (
        (
          λ h.
              Any-of_without (Crosses symbol side price) i (own trader g)
                (subst (Any (Crosses symbol side price)) left (iff.0 h)),
          λ a. iff.1 (
              subst (Any (Crosses symbol side price)) (sym left)
                (without_of_Any (Crosses symbol side price) i (own trader g) a)),
        ),
        λ other apart. own-cancel_other trader other i g apart,
      )
