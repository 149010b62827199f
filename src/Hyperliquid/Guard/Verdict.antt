-- ===== src/Hyperliquid/Guard/Verdict.antt =====
-- When the guard rejects an order, told by the flow on the side that would hit it.
use sentinel_hft.Prelude.{
  ℕ, ◌+◌, ◌≤◌, ◌≡◌, ◌↔◌, ◌⊎◌, refl, ap, ap₂, ◌∙◌, Bool, false, not, ◌&&◌, List, [], ◌∷◌, filter,
  length, arith, ltb, leb, Bool-cases, inl, inr,
}
use sentinel_hft.Prelude.Float.{Float}
use sentinel_hft.Audit.Record.{accepted, toxic_flow}
use sentinel_hft.Risk.{Side, QuoteIntent}
use sentinel_hft.Hyperliquid.Fixture.{is_toxic}
use sentinel_hft.Hyperliquid.Scorer.{FlowEntry, ToxicFlowScorer}
use sentinel_hft.Hyperliquid.Guard.{
  opposite, is_on, count_flow, count_side_events, ToxicFlowGuard, fraction, toxic_flow_rate,
  check_flow,
}

-- The entries on a side of an instrument that are in the window.
abbrev pub in_window : ℕ → ℕ → FlowEntry → Bool
in_window now window f = leb now (f.ts_ns + window)

abbrev pub recent : ℕ → ℕ → ℕ → Side → List FlowEntry → List FlowEntry
recent now window instrument side fs =
    filter (λ f. in_window now window f && is_on instrument side f) fs

abbrev pub toxic_among : List FlowEntry → ℕ
toxic_among fs = length (filter (λ f. is_toxic f.profile) fs)

not-ltb : (a b : ℕ) → not (ltb a b) ≡ leb b a
not-ltb a b = ground arith

count_flow_recent :
    (now window instrument : ℕ) (side : Side) (fs : List FlowEntry) (m t : ℕ)
    → count_flow now window instrument side fs m t ≡ (
      m + toxic_among (recent now window instrument side fs),
      t + length (recent now window instrument side fs),
    )
unfolding count_flow
count_flow_recent now window instrument side [] m t =
    ap₂ (λ (a b : ℕ). (a, b)) (omega arith) (omega arith)
count_flow_recent now window instrument side (f ∷ fs) m t =
    let left = recent now window instrument side fs in
    rw (not-ltb (f.ts_ns + window) now)
      (elim (Bool-cases (in_window now window f && is_on instrument side f)) [
        | inr left_out ↦ rw left_out (count_flow_recent now window instrument side fs m t)
        | inl counted ↦ elim (Bool-cases (is_toxic f.profile)) [
          | inl adverse ↦
              rw (counted, adverse)
                (count_flow_recent now window instrument side fs (m + 1) (t + 1)
                  ∙ ap₂ (λ (a b : ℕ). (a, b)) (omega arith) (omega arith))
          | inr fair ↦
              rw (counted, fair)
                (count_flow_recent now window instrument side fs m (t + 1)
                  ∙ ap₂ (λ (a b : ℕ). (a, b)) refl (omega arith))
        ]
      ])

count_side_events-recent :
    (now window instrument : ℕ) (side : Side) (fs : List FlowEntry)
    → count_side_events now window instrument side fs
      ≡ length (recent now window instrument side fs)
unfolding count_side_events
count_side_events-recent now window instrument side [] = refl
count_side_events-recent now window instrument side (f ∷ fs) =
    let later = count_side_events-recent now window instrument side fs in
    elim (Bool-cases (in_window now window f && is_on instrument side f)) [
      | inl counted ↦ rw (counted, later) (omega arith)
      | inr left_out ↦ rw (left_out, later) (omega arith)
    ]

module _ (F : Float) where
  open F use {Num, lt}

  toxic_flow_rate_recent :
      (window instrument : ℕ) (side : Side) (now : ℕ) (s : ToxicFlowScorer Num)
      → let among = recent now window instrument side s.flow in
        toxic_flow_rate F window instrument side now s
        ≡ fraction F (toxic_among among) (length among)
  unfolding toxic_flow_rate
  toxic_flow_rate_recent window instrument side now s =
      ap (λ (x : ℕ × ℕ). fraction F x.0 x.1)
        (count_flow_recent now window instrument side s.flow 0 0
          ∙ ap₂ (λ (a b : ℕ). (a, b)) (omega arith) (omega arith))

  pub check_flow_iff :
      (window now : ℕ) (i : QuoteIntent Num) (s : ToxicFlowScorer Num) (g : ToxicFlowGuard Num)
      → let among = recent now window i.symbol_id (opposite i.side) s.flow in
        let result = check_flow F window i now s g in
        ((result.0 ≡ toxic_flow) ↔ (
          (lt (fraction F (toxic_among among) (length among)) g.toxic_rate_threshold ≡ false)
          × (g.min_flow_events ≤ length among)))
        × ((result.0 ≡ toxic_flow) × (result.1.rejected ≡ g.rejected + 1)
            ⊎ ((result.0 ≡ accepted) × (result.1 ≡ g)))
  unfolding check_flow
  check_flow_iff window now i s g =
      let among = recent now window i.symbol_id (opposite i.side) s.flow in
      let rate = fraction F (toxic_among among) (length among) in
      rw
        (
          toxic_flow_rate_recent window i.symbol_id (opposite i.side) now s,
          count_side_events-recent now window i.symbol_id (opposite i.side) s.flow,
        )
        (elim (Bool-cases (lt rate g.toxic_rate_threshold)) [
          | inl low ↦ rw low ((λ e. cc, λ x. cc), inr (refl, refl))
          | inr high ↦ elim (Bool-cases (leb g.min_flow_events (length among))) [
            | inl enough ↦
                rw (high, enough) ((λ e. (refl, ground arith), λ x. refl), inl (refl, refl))
            | inr few ↦ rw (high, few) ((λ e. cc, λ x. ground arith), inr (refl, refl))
          ]
        ])
