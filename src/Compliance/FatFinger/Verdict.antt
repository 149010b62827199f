-- ===== src/Compliance/FatFinger/Verdict.antt =====
-- When the guard rejects a price.
use sentinel_hft.Prelude.{
  ℕ, ◌+◌, ◌≡◌, ◌↔◌, inl, inr, refl, sym, ap, ◌∙◌, Bool, true, Option, none, some, if_split, arith,
  Bool-cases,
}
use mathlib.Core.Option.{some-injective}
use sentinel_hft.Prelude.Eq.{nat_eq}
use sentinel_hft.Prelude.Dict.{lookup}
use sentinel_hft.Prelude.Float.{Float}
use sentinel_hft.Compliance.FatFinger.{
  FatFingerGuard, deviation, observed, judge, compare_with, check,
}
use sentinel_hft.Compliance.FatFinger.Deviation.{Positive, observed-rest}

module _ (F : Float) where
  open F use {Num, of_nat, lt}

  judged : (dev : Num) (g : FatFingerGuard Num) → (judge F dev g).0 ≡ lt g.max_deviation_bps dev
  unfolding judge
  judged dev g =
      let (l, _, _, _) = observed-rest F dev g in
      if_split (λ (x : Bool × FatFingerGuard Num). x.0 ≡ lt g.max_deviation_bps dev)
        (lt (observed F dev g).max_deviation_bps dev) (λ h. sym (ap (λ z. lt z dev) (sym l) ∙ h))
        (λ h. sym (ap (λ z. lt z dev) (sym l) ∙ h))

  compared :
      (o : Option Num) (price : Num) (g : FatFingerGuard Num)
      → ((compare_with F o price g).0 ≡ true) ↔ (
          (last : Num) × (o ≡ some last)
          × Positive F last
          × Positive F price
          × (lt g.max_deviation_bps (deviation F price last) ≡ true))
  unfolding compare_with
  compared none price g = (λ h. absurd (ground arith), λ (last, e, _, _, _). cc)
  compared (some last) price g = elim (Bool-cases (lt (of_nat 0) last)) [
    | inl a ↦ elim (Bool-cases (lt (of_nat 0) price)) [
      | inl b ↦
          rw (a, b)
            (
              λ h. (last, refl, a, refl, sym (judged (deviation F price last) g) ∙ h),
              λ (l, e, _, _, far).
                  judged (deviation F price last) g
                  ∙ ap (λ z. lt g.max_deviation_bps (deviation F price z)) (some-injective last l e)
                  ∙ far,
            )
      | inr b ↦ rw (a, b) (λ h. absurd (ground arith), λ (l, e, p, q, far). absurd (ground arith))
    ]
    | inr a ↦ rw a (
      λ h. absurd (ground arith),
      λ (l, e, p, q, far).
          absurd (ground (arith, ap (λ z. lt (of_nat 0) z) (some-injective last l e))),
    )
  ]

  -- `check` answers true exactly when the symbol has a positive reference price, the price is
  -- positive, and its deviation is beyond the limit.
  pub check-true_iff :
      (symbol : ℕ) (price : Num) (g : FatFingerGuard Num)
      → ((check F symbol price g).0 ≡ true) ↔ (
          (last : Num) × (lookup symbol g.last_px ≡ some last)
          × Positive F last
          × Positive F price
          × (lt g.max_deviation_bps (deviation F price last) ≡ true))
  unfolding check
  check-true_iff symbol price g =
      compared (lookup symbol g.last_px) price (record g { checked = g.checked + 1 })
