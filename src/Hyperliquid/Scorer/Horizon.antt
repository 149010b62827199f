-- ===== src/Hyperliquid/Scorer/Horizon.antt =====
-- When the scorer settles: the outcomes that a priced tick leaves open are within their horizon.
use sentinel_hft.Prelude.{
  if_split, ℕ, ◌+◌, ◌<◌, ◌≡◌, subst, true, not, ◌||◌, List, [], ◌∷◌, ◌++◌, arith, ltb, ◌==◌,
  if◌then◌else◌, Bool-cases, inl, inr,
}
use sentinel_hft.Prelude.Float.{Float}
use sentinel_hft.Prelude.Dict.{lookup, insert, or_else}
use sentinel_hft.Prelude.Eq.{nat_eq}
use sentinel_hft.Prelude.Result.{ok, bind-eq-ok}
use sentinel_hft.Hyperliquid.Fixture.{HlTickEvent, tick_mid, is_trade}
use sentinel_hft.Hyperliquid.Scorer.{
  TakerOutcome, ScorerConfig, ToxicFlowScorer, settle, update_scorecard, settle_one, settle_all,
  settle_open, note_mid, outcome_of, record_outcome, on_tick,
}
use sentinel_hft.Hyperliquid.Scorer.Settled.{IsBalanced, on_tick-Returns}

-- Open outcomes whose horizon is not over at a time.
abbrev pub AllWaiting : {N : Type 0} → ℕ → List (TakerOutcome N) → Type 0
AllWaiting now [] = Unit
AllWaiting now (o ∷ os) = (now < o.trade_ts_ns + o.horizon_ns) × AllWaiting now os

AllWaiting-append :
    {N : Type 0} (now : ℕ) (os : List (TakerOutcome N)) (o : TakerOutcome N)
    → AllWaiting now os
    → now < o.trade_ts_ns + o.horizon_ns
    → AllWaiting now (os ++ o ∷ [])
AllWaiting-append now [] o w h = (h, tt)
AllWaiting-append now (p ∷ os) o w h = (w.0, AllWaiting-append now os o w.1 h)

module _ (F : Float) (cfg : ScorerConfig F.Num) where
  open F use {Num, of_nat, lt}

  settle_one-AllWaiting :
      (now : ℕ) (out : TakerOutcome Num) (x y : List (TakerOutcome Num) × ToxicFlowScorer Num)
      → settle_one F cfg now out x ≡ ok y
      → AllWaiting now x.0
      → AllWaiting now y.0
  unfolding settle_one
  settle_one-AllWaiting now out (keep, s) y e w =
      elim (Bool-cases (ltb now (out.trade_ts_ns + out.horizon_ns))) [
        | inl waiting ↦
            let same : (keep ++ out ∷ [], s) ≡ y = ground (arith, waiting) in
            subst (λ (z : List (TakerOutcome Num) × ToxicFlowScorer Num). AllWaiting now z.0) same
              (AllWaiting-append now keep out w (ground (arith, waiting)))
        | inr due ↦
            let mid = or_else (lookup out.instrument_id s.last_mid) out.mid_at_trade in
            let (x, p, q) =
              bind-eq-ok (update_scorecard F cfg (settle F cfg mid out) s) _ (rw due at e) in
            let same : keep ≡ y.0 = ground arith in subst (AllWaiting now) same w
      ]

  settle_all-AllWaiting :
      (now : ℕ) (os : List (TakerOutcome Num)) (x y : List (TakerOutcome Num) × ToxicFlowScorer Num)
      → settle_all F cfg now os x ≡ ok y
      → AllWaiting now x.0
      → AllWaiting now y.0
  unfolding settle_all
  settle_all-AllWaiting now [] x y e w =
      let same : x ≡ y = ground arith in
      subst (λ (z : List (TakerOutcome Num) × ToxicFlowScorer Num). AllWaiting now z.0) same w
  settle_all-AllWaiting now (out ∷ os) x y e w =
      let (z, p, q) = bind-eq-ok (settle_one F cfg now out x) _ e in
      settle_all-AllWaiting now os z y q (settle_one-AllWaiting now out x z p w)

  with_open :
      (now : ℕ) (os : List (TakerOutcome Num)) (s s' : ToxicFlowScorer Num)
      → settle_open F cfg now (record s { open_outcomes = os }) ≡ ok s'
      → AllWaiting now s'.open_outcomes
  unfolding settle_open
  with_open now [] s s' e =
      let same : record s { open_outcomes = [] } ≡ s' = ground arith in
      subst (λ (x : ToxicFlowScorer Num). AllWaiting now x.open_outcomes) same tt
  with_open now (out ∷ os) s s' e =
      let opened : ToxicFlowScorer Num = record s { open_outcomes = out ∷ os } in
      let (x, p, q) = bind-eq-ok (settle_all F cfg now (out ∷ os) ([], opened)) _ e in
      let same : x.0 ≡ s'.open_outcomes = ground arith in
      subst (AllWaiting now) same (settle_all-AllWaiting now (out ∷ os) ([], opened) x p tt)

  -- An open outcome does not stay open for longer than its horizon. A tick with a positive mid
  -- raises nothing on a scorer whose cards balance, and settles what is due: when the configured
  -- horizon is positive, every outcome that is open after the tick ends later than the tick.
  pub on_tick-AllWaiting :
      (ev : HlTickEvent Num) (s : ToxicFlowScorer Num)
      → IsBalanced F cfg s
      → lt (of_nat 0) (tick_mid F ev) ≡ true
      → 0 < cfg.horizon_ns
      → (s' : ToxicFlowScorer Num) × (on_tick F cfg ev s ≡ ok s')
        × IsBalanced F cfg s'
        × AllWaiting ev.host_ts_ns s'.open_outcomes
  unfolding on_tick note_mid record_outcome
  on_tick-AllWaiting ev s b priced some_time =
      let r = on_tick-Returns F cfg ev s b in
      let (x, p, q) = bind-eq-ok (note_mid F cfg ev s) _ r.returned in
      let noted : ToxicFlowScorer Num = record s {
        last_mid = insert ev.instrument.symbol_id (tick_mid F ev) s.last_mid;
        last_mid_ns = insert ev.instrument.symbol_id ev.host_ts_ns s.last_mid_ns;
      } in
      let w : AllWaiting ev.host_ts_ns x.open_outcomes =
        with_open ev.host_ts_ns s.open_outcomes noted x (rw (note_mid, priced) at p) in
      let same : (if not (is_trade ev.kind) || ev.taker_id == 0
            then x
            else record_outcome F cfg ev x)
          ≡ r.scorer =
        ground arith in
      (
        r.scorer,
        r.returned,
        r.balanced,
        subst (λ (z : ToxicFlowScorer Num). AllWaiting ev.host_ts_ns z.open_outcomes) same
            (if_split (λ (z : ToxicFlowScorer Num). AllWaiting ev.host_ts_ns z.open_outcomes) _
              (λ quiet. w)
              (λ trading.
                AllWaiting-append ev.host_ts_ns x.open_outcomes (outcome_of F cfg ev) w
                  (omega (arith, some_time)))),
      )
