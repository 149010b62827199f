-- ===== src/Hyperliquid/Scorer.antt =====
-- sentinel_hft/hyperliquid/scorer.py: ToxicFlowScorer.
pub mod Settled
pub mod Profiles
pub mod Horizon
use sentinel_hft.Prelude.{
  ℕ, ◌+◌, ◌^◌, Bool, true, false, not, ◌||◌, Option, none, some, List, [], ◌∷◌, ◌++◌, filter,
  length, ltb, leb, ◌==◌, if◌then◌else◌,
}
use sentinel_hft.Prelude.Dict.{Dict, lookup, insert, or_else}
use sentinel_hft.Prelude.Eq.{nat_eq}
use sentinel_hft.Prelude.Float.{Float, geb, max}
use sentinel_hft.Prelude.Result.{Result, ok, err, key_error, ◌>>=◌}
use sentinel_hft.Hyperliquid.Fixture.{
  TakerProfile, toxic, neutral, benign, HlTickEvent, tick_mid, is_trade,
}

pub record TakerOutcome (N : Type 0) : Type 0 where
  pub taker_id : ℕ
  pub instrument_id : ℕ
  pub lifted_ask : Bool
  pub trade_price : N
  pub trade_ts_ns : ℕ
  pub horizon_ns : ℕ
  pub tick_size : N
  pub mid_at_trade : N
  pub mid_after : N
  pub drift_ticks : N
  pub settled : Bool

pub record TakerScorecard (N : Type 0) : Type 0 where
  pub taker_id : ℕ
  pub trades : ℕ
  pub settled : ℕ
  pub total_drift_ticks : N
  pub ewma_drift_ticks : N
  pub first_seen_ns : ℕ
  pub last_seen_ns : ℕ
  pub profile : TakerProfile

-- An entry of the flow log: `(ts_ns, instrument_id, lifted_ask, profile)`.
pub record FlowEntry : Type 0 where
  pub ts_ns : ℕ
  pub instrument_id : ℕ
  pub lifted_ask : Bool
  pub profile : TakerProfile

pub record ScorerConfig (N : Type 0) : Type 0 where
  pub horizon_ns : ℕ
  pub ewma_alpha : N
  pub min_trades : ℕ
  pub toxic_ticks : N
  pub benign_ticks : N
  pub flow_window_ns : ℕ

pub record ToxicFlowScorer (N : Type 0) : Type 0 where
  pub last_mid : Dict ℕ N
  pub last_mid_ns : Dict ℕ ℕ
  pub open_outcomes : List (TakerOutcome N)
  pub scorecards : Dict ℕ (TakerScorecard N)
  pub flow : List FlowEntry

-- `summary`, without the lengths of its two queues.
pub record ScorerSummary : Type 0 where
  pub takers : ℕ
  pub toxic_takers : ℕ
  pub neutral_takers : ℕ
  pub benign_takers : ℕ

-- One round of the loop of `summary`.
abbrev pub count_profile : TakerProfile → ScorerSummary → ScorerSummary
count_profile toxic n = record n { toxic_takers = n.toxic_takers + 1 }
count_profile benign n = record n { benign_takers = n.benign_takers + 1 }
count_profile neutral n = record n { neutral_takers = n.neutral_takers + 1 }

unfoldable pub count_profiles :
    {N : Type 0} → Dict ℕ (TakerScorecard N) → ScorerSummary → ScorerSummary
count_profiles [] n = n
count_profiles ((taker, sc) ∷ cards) n = count_profiles cards (count_profile sc.profile n)

unfoldable pub summarise : {N : Type 0} → ToxicFlowScorer N → ScorerSummary
summarise s = count_profiles s.scorecards (record {
  takers = length s.scorecards;
  toxic_takers = 0;
  neutral_takers = 0;
  benign_takers = 0;
})

abbrev pub new_scorer : {N : Type 0} → ToxicFlowScorer N
new_scorer = record {
  last_mid = [];
  last_mid_ns = [];
  open_outcomes = [];
  scorecards = [];
  flow = [];
}

-- `touch`
abbrev pub touch : {N : Type 0} → ℕ → TakerScorecard N → TakerScorecard N
touch ts sc = record sc {
  first_seen_ns = if sc.first_seen_ns == 0 then ts else sc.first_seen_ns;
  last_seen_ns = ts;
}

-- The pruning at the end of `_settle_open`: `cutoff` is `now_ns - window`.
unfoldable pub prune : ℕ → ℕ → List FlowEntry → List FlowEntry
prune now window [] = []
prune now window (f ∷ fs) =
    if ltb (f.ts_ns + window) now
    then filter (λ (e : FlowEntry). leb now (e.ts_ns + window)) (f ∷ fs)
    else f ∷ fs

module _ (F : Float) (cfg : ScorerConfig F.Num) where
  open F use {Num, of_nat, add, sub, mul, div, lt}

  -- 1e-9
  abbrev pub billionth : Num
  billionth = div (of_nat 1) (of_nat (10 ^ 9))

  -- `settle`: the sign is 1.0 or -1.0.
  abbrev pub settle : Num → TakerOutcome Num → TakerOutcome Num
  settle mid_after out =
      let sign = if out.lifted_ask then of_nat 1 else sub (of_nat 0) (of_nat 1) in
      let raw = sub mid_after out.mid_at_trade in
      record out {
        mid_after = mid_after;
        drift_ticks = div (mul sign raw) (max F billionth out.tick_size);
        settled = true;
      }

  abbrev pub classify : Num → TakerProfile
  classify ewma =
      if geb F ewma cfg.toxic_ticks
      then toxic
      else if geb F cfg.benign_ticks ewma
      then benign
      else neutral

  abbrev pub score : Num → TakerScorecard Num → TakerScorecard Num
  score drift sc =
      let settled = sc.settled + 1 in
      let ewma =
        if settled == 1
        then drift
        else add (mul cfg.ewma_alpha drift)
            (mul (sub (of_nat 1) cfg.ewma_alpha) sc.ewma_drift_ticks) in
      record sc {
        settled = settled;
        total_drift_ticks = add sc.total_drift_ticks drift;
        ewma_drift_ticks = ewma;
        profile = if leb cfg.min_trades settled then classify ewma else sc.profile;
      }

  -- `_update_scorecard`, with the card that it leaves: `d[k]` raises on a missing key.
  unfoldable pub update_scorecard :
      TakerOutcome Num → ToxicFlowScorer Num → Result (TakerScorecard Num × ToxicFlowScorer Num)
  update_scorecard out s = elim (lookup out.taker_id s.scorecards) [
    | none ↦ err key_error
    | some sc ↦
        let card = score out.drift_ticks sc in
        ok (card, record s { scorecards = insert out.taker_id card s.scorecards })
  ]

  -- One round of the loop of `_settle_open`, on `keep` and the scorer.
  unfoldable pub settle_one :
      ℕ
      → TakerOutcome Num
      → List (TakerOutcome Num) × ToxicFlowScorer Num
      → Result (List (TakerOutcome Num) × ToxicFlowScorer Num)
  settle_one now out (keep, s) =
      if ltb now (out.trade_ts_ns + out.horizon_ns)
      then ok (keep ++ out ∷ [], s)
      else let mid_after = or_else (lookup out.instrument_id s.last_mid) out.mid_at_trade in
        do
          x ← update_scorecard (settle mid_after out) s
          let s' = x.1
          let entry : FlowEntry = record {
            ts_ns = out.trade_ts_ns;
            instrument_id = out.instrument_id;
            lifted_ask = out.lifted_ask;
            profile = x.0.profile;
          }
          ok (keep, record s' { flow = s'.flow ++ entry ∷ [] })

  unfoldable pub settle_all :
      ℕ
      → List (TakerOutcome Num)
      → List (TakerOutcome Num) × ToxicFlowScorer Num
      → Result (List (TakerOutcome Num) × ToxicFlowScorer Num)
  settle_all now [] x = ok x
  settle_all now (out ∷ outs) x = do y ← settle_one now out x; settle_all now outs y

  -- `_settle_open`: with no open outcome it returns before the pruning.
  unfoldable pub settle_open : ℕ → ToxicFlowScorer Num → Result (ToxicFlowScorer Num)
  settle_open now s = elim s.open_outcomes [
    | [] ↦ ok s
    | out ∷ outs ↦ do
      x ← settle_all now (out ∷ outs) ([], s)
      let s' = x.1
      ok (record s' { open_outcomes = x.0; flow = prune now cfg.flow_window_ns s'.flow })
  ]

  abbrev pub new_card : ℕ → TakerScorecard Num
  new_card taker = record {
    taker_id = taker;
    trades = 0;
    settled = 0;
    total_drift_ticks = of_nat 0;
    ewma_drift_ticks = of_nat 0;
    first_seen_ns = 0;
    last_seen_ns = 0;
    profile = neutral;
  }

  -- The first half of `on_tick`: the mid of the tick, if it has one.
  unfoldable pub note_mid : HlTickEvent Num → ToxicFlowScorer Num → Result (ToxicFlowScorer Num)
  note_mid ev s =
      if lt (of_nat 0) (tick_mid F ev)
      then settle_open ev.host_ts_ns (record s {
        last_mid = insert ev.instrument.symbol_id (tick_mid F ev) s.last_mid;
        last_mid_ns = insert ev.instrument.symbol_id ev.host_ts_ns s.last_mid_ns;
      })
      else ok s

  abbrev pub outcome_of : HlTickEvent Num → TakerOutcome Num
  outcome_of ev = record {
    taker_id = ev.taker_id;
    instrument_id = ev.instrument.symbol_id;
    lifted_ask = geb F ev.trade_price (sub ev.ask_price billionth);
    trade_price = ev.trade_price;
    trade_ts_ns = ev.host_ts_ns;
    horizon_ns = cfg.horizon_ns;
    tick_size = ev.instrument.tick_size;
    mid_at_trade = if lt (of_nat 0) (tick_mid F ev) then tick_mid F ev else ev.trade_price;
    mid_after = of_nat 0;
    drift_ticks = of_nat 0;
    settled = false;
  }

  -- The second half: the trade becomes an open outcome of its taker.
  unfoldable pub record_outcome : HlTickEvent Num → ToxicFlowScorer Num → ToxicFlowScorer Num
  record_outcome ev s =
      let sc =
        touch ev.host_ts_ns (or_else (lookup ev.taker_id s.scorecards) (new_card ev.taker_id)) in
      record s {
        scorecards = insert ev.taker_id (record sc { trades = sc.trades + 1 }) s.scorecards;
        open_outcomes = s.open_outcomes ++ outcome_of ev ∷ [];
      }

  -- `on_tick`
  unfoldable pub on_tick : HlTickEvent Num → ToxicFlowScorer Num → Result (ToxicFlowScorer Num)
  on_tick ev s = do
    s' ← note_mid ev s
    ok (if not (is_trade ev.kind) || ev.taker_id == 0 then s' else record_outcome ev s')

  -- The ticks of a feed one after another.
  unfoldable pub on_ticks :
      List (HlTickEvent Num) → ToxicFlowScorer Num → Result (ToxicFlowScorer Num)
  on_ticks [] s = ok s
  on_ticks (ev ∷ evs) s = do s' ← on_tick ev s; on_ticks evs s'
