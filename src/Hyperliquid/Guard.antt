-- ===== src/Hyperliquid/Guard.antt =====
-- sentinel_hft/hyperliquid/scorer.py: ToxicFlowScorer.toxic_flow_rate and ToxicFlowGuard.
pub mod Verdict
use sentinel_hft.Prelude.{
  ℕ, zero, suc, ◌+◌, ◌≤◌, ◌≡◌, ◌↔◌, ◌⊎◌, refl, sym, ap, ap₂, ◌∙◌, Bool, true, false, not, ◌&&◌,
  ◌||◌, List, [], ◌∷◌, filter, length, arith, ltb, leb, ◌==◌, if◌then◌else◌, Bool-cases, inl, inr,
}
use sentinel_hft.Prelude.Float.{Float, geb}
use sentinel_hft.Audit.Record.{RejectReason, accepted, toxic_flow}
use sentinel_hft.Risk.{Side, buy, sell, QuoteIntent}
use sentinel_hft.Hyperliquid.Fixture.{is_toxic}
use sentinel_hft.Hyperliquid.Scorer.{FlowEntry, ToxicFlowScorer}

abbrev pub is_buy : Side → Bool
is_buy buy = true
is_buy sell = false

abbrev pub opposite : Side → Side
opposite buy = sell
opposite sell = buy

abbrev pub same_bool : Bool → Bool → Bool
same_bool true b = b
same_bool false b = not b

-- `if ins != instrument_id or lifted != want_lifted`, turned round.
abbrev pub is_on : ℕ → Side → FlowEntry → Bool
is_on instrument side f = f.instrument_id == instrument && same_bool f.lifted_ask (is_buy side)

-- The loop of `toxic_flow_rate`, on `match` and `total`.
unfoldable pub count_flow : ℕ → ℕ → ℕ → Side → List FlowEntry → ℕ → ℕ → ℕ × ℕ
count_flow now window instrument side [] matched total = (matched, total)
count_flow now window instrument side (f ∷ fs) matched total =
    let counted = not (ltb (f.ts_ns + window) now) && is_on instrument side f in
    count_flow now window instrument side fs
      (if counted && is_toxic f.profile then matched + 1 else matched)
      (if counted then total + 1 else total)

-- `_count_side_events`
unfoldable pub count_side_events : ℕ → ℕ → ℕ → Side → List FlowEntry → ℕ
count_side_events now window instrument side [] = 0
count_side_events now window instrument side (f ∷ fs) =
    (if leb now (f.ts_ns + window) && is_on instrument side f then 1 else 0)
    + count_side_events now window instrument side fs

pub record ToxicFlowGuard (N : Type 0) : Type 0 where
  pub toxic_rate_threshold : N
  pub min_flow_events : ℕ
  pub rejected : ℕ

module _ (F : Float) where
  open F use {Num, of_nat, div, lt}

  -- `match / total`, or zero.
  abbrev pub fraction : ℕ → ℕ → Num
  fraction m n = if n == 0 then of_nat 0 else div (of_nat m) (of_nat n)

  -- `toxic_flow_rate`, on the window of the scorer.
  unfoldable pub toxic_flow_rate : ℕ → ℕ → Side → ℕ → ToxicFlowScorer Num → Num
  toxic_flow_rate window instrument side now s =
      let (matched, total) = count_flow now window instrument side s.flow 0 0 in
      fraction matched total

  -- `ToxicFlowGuard.check`
  unfoldable pub check_flow :
      ℕ
      → QuoteIntent Num
      → ℕ
      → ToxicFlowScorer Num
      → ToxicFlowGuard Num
      → RejectReason × ToxicFlowGuard Num
  check_flow window i now s g =
      let side = opposite i.side in
      if geb F (toxic_flow_rate window i.symbol_id side now s) g.toxic_rate_threshold
        && leb g.min_flow_events (count_side_events now window i.symbol_id side s.flow)
      then (toxic_flow, record g { rejected = g.rejected + 1 })
      else (accepted, g)
