-- ===== src/Hyperliquid/Tests.antt =====
-- A feed in which one taker buys ahead of rising prices, on integers for floats.
use sentinel_hft.Prelude.{
  ℕ, arith, true, none, some, ◌+◌, ◌≤◌, ◌≡◌, ◌↔◌, ◌⊎◌, refl, false, List, [], ◌∷◌, length,
}
use sentinel_hft.Prelude.Int.{ℤ, pos, negsuc, ◌+ℤ◌, ◌-ℤ◌, ltb_ℤ}
use sentinel_hft.Prelude.Integral.{integral}
use sentinel_hft.Prelude.Dict.{lookup, insert}
use sentinel_hft.Prelude.Result.{err, Error, IsNumeric, from_ok, from_ok_lem, returns, ok}
use sentinel_hft.Audit.Record.{accepted, toxic_flow}
use sentinel_hft.Risk.{buy, sell, QuoteIntent, new}
use sentinel_hft.Deribit.Book.{Instrument, perpetual, quote, TickKind, trade}
use sentinel_hft.Hyperliquid.Fixture.{HlTickEvent, tick_mid, as_deribit_event}
use sentinel_hft.Hyperliquid.Scorer.{
  ScorerConfig, ToxicFlowScorer, new_scorer, prune, update_scorecard, settle_one, settle_all,
  settle_open, note_mid, record_outcome, on_tick, on_ticks,
}
use sentinel_hft.Hyperliquid.Scorer.Horizon.{AllWaiting, on_tick-AllWaiting}
use sentinel_hft.Hyperliquid.Scorer.Settled.{IsBalanced, on_ticks-IsBalanced}
use sentinel_hft.Hyperliquid.Guard.{
  ToxicFlowGuard, fraction, count_flow, count_side_events, toxic_flow_rate, check_flow,
}
use sentinel_hft.Audit.Digest.Padded.{padded}
use sentinel_hft.Deribit.Samples.{fixed_draws, budget, risk, strategy}
use sentinel_hft.Struct.{to_le, of_le, to_twos, fit, pack}
use sentinel_hft.Audit.Digest.{low128}
use sentinel_hft.Audit.Record.{mask64, encode, payload_bytes, hash_lo}
use sentinel_hft.Audit.Logger.{new_logger, flags_of, record_of, log}
use sentinel_hft.Risk.{
  new_gate, refill, try_consume, check, apply as apply_order, release, on_notional, trip, build,
  accept, limits, rated, submit, withdraw, dispatch, evaluate,
}
use sentinel_hft.Deribit.Book.{mid, apply}
use sentinel_hft.Deribit.Strategy.{
  too_soon, cancel_of, order, quote_pair, on_tick as quote_tick, confirm_new,
}
use sentinel_hft.Deribit.Pipeline.{decision_of, trace_flags, append_trace_record, new_demo, sample}
use sentinel_hft.Deribit.Pipeline.Loop.{decision_time, log_decision, confirm, no_order}
use sentinel_hft.Compliance.Mar.{
  push, bucket, store, on_new, mark_cancelled, is_layered, layered, maybe_fire, on_cancel,
}
use sentinel_hft.Compliance.Otr.{
  bump, on_order, on_trade as on_trade_otr, quotient, ratio, global_ratio, observe as observe_otr,
}
use sentinel_hft.Compliance.SelfTrade.{
  add_resting, without, cancel, any_crosses, check as check_self,
}
use sentinel_hft.Compliance.FatFinger.{
  on_trade as on_trade_price, deviation, judge, compare_with, check as check_price,
}
use sentinel_hft.Compliance.Cat.{emit}
use sentinel_hft.Compliance.Stack.{on_trade, check_priced, observe_new, observe_cancel, observe}
use sentinel_hft.Hyperliquid.Runner.{
  HlRunConfig, HlRunner, new_runner, guard_check, toxic_decision, log_in, observe_in,
  record_latency,
}
use sentinel_hft.Hyperliquid.Runner.Loop.{
  prepare, send, reject_toxic, pass_gate, take_intent, take_intents, after_strategy, feed_trade,
  run_core, take_tick, note_spike, take_ticks,
}
use sentinel_hft.Hyperliquid.Runner.Report.{HlRunArtifacts, run_stream}
use sentinel_hft.Hyperliquid.Runner.Sound.{Guarded, Watching}
use sentinel_hft.Hyperliquid.Runner.Ticks.{take_ticks-IsSound}
use sentinel_hft.Hyperliquid.Runner.Runs.{
  fresh-IsSound, fresh, Accounted, run_stream_accounts, take_ticks_agree,
}
use sentinel_hft.Hyperliquid.Guard.Verdict.{recent, toxic_among, check_flow_iff}

abbrev config : ScorerConfig ℤ
config = record {
  horizon_ns = 5;
  ewma_alpha = pos 1;
  min_trades = 2;
  toxic_ticks = pos 2;
  benign_ticks = negsuc 0;
  flow_window_ns = 500;
}

abbrev coin : Instrument ℤ
coin = record { symbol_id = 3; kind = perpetual; tick_size = pos 1; lot_size = pos 1 }

abbrev tick : ℕ → TickKind → ℕ → ℕ → HlTickEvent ℤ
tick ts kind bid taker = record {
  wire_ts_ns = ts;
  host_ts_ns = ts;
  seq_no = ts;
  instrument = coin;
  kind = kind;
  bid_price = pos bid;
  ask_price = pos (bid + 2);
  bid_size = pos 1;
  ask_size = pos 1;
  trade_price = pos (bid + 2);
  taker_id = taker;
}

-- Three buys of taker 9 that the mid follows, one of taker 8, and one that is still open.
abbrev feed : List (HlTickEvent ℤ)
feed =
    tick 10 trade 100 9
    ∷ tick 16 quote 104 0
    ∷ tick 20 trade 104 9
    ∷ tick 26 quote 109 0
    ∷ tick 30 trade 109 9
    ∷ tick 31 trade 109 8
    ∷ tick 36 quote 115 0
    ∷ tick 40 trade 115 9
    ∷ []

abbrev scorer : ToxicFlowScorer ℤ
scorer = from_ok new_scorer (on_ticks integral config feed new_scorer)

scorer_counts : (length scorer.flow ≡ 4) × (length scorer.open_outcomes ≡ 1)
unfolding on_ticks on_tick record_outcome note_mid settle_open settle_all settle_one
    update_scorecard prune lookup insert ◌-ℤ◌ ◌+ℤ◌
scorer_counts = (refl, refl)

on_ticks-IsBalanced_example :
    (s : ToxicFlowScorer ℤ) × (on_ticks integral config feed new_scorer ≡ ok s)
    × IsBalanced integral config s
on_ticks-IsBalanced_example = on_ticks-IsBalanced integral config feed

abbrev guard : ToxicFlowGuard ℤ
guard = record { toxic_rate_threshold = pos 0; min_flow_events = 3; rejected = 0 }

abbrev sell_order : QuoteIntent ℤ
sell_order = record {
  order_id = 1;
  symbol_id = 3;
  side = sell;
  price = pos 117;
  quantity = pos 1;
  notional = pos 117;
  generated_ts_ns = 41;
  action = new;
  replaces_order_id = 0;
}

sell_rejected : (check_flow integral 500 sell_order 41 scorer guard).0 ≡ toxic_flow
unfolding check_flow toxic_flow_rate count_flow count_side_events on_ticks on_tick record_outcome
    note_mid settle_open settle_all settle_one update_scorecard prune lookup insert ◌-ℤ◌ ◌+ℤ◌
sell_rejected = refl

check_flow_iff_example :
    let among = recent 41 500 3 buy scorer.flow in
    let result = check_flow integral 500 sell_order 41 scorer guard in
    ((result.0 ≡ toxic_flow) ↔ (
      (ltb_ℤ (fraction integral (toxic_among among) (length among)) (pos 0) ≡ false)
      × (3 ≤ length among)))
    × ((result.0 ≡ toxic_flow) × (result.1.rejected ≡ 1)
        ⊎ ((result.0 ≡ accepted) × (result.1 ≡ guard)))
check_flow_iff_example = check_flow_iff integral 500 41 sell_order scorer guard

abbrev run_config : HlRunConfig ℤ
run_config = record {
  scorer = record config { flow_window_ns = 100000 };
  budgets = record { ingress = budget 35; core = budget 55; risk = budget 18; egress = budget 32 };
  enable_toxic_guard = true;
  toxic_rate_threshold = pos 0;
  toxic_min_flow_events = 3;
  enable_compliance = true;
  inject_kill_at = none;
  spike_tick = some 3;
}

abbrev at_start : HlRunner ℤ ℕ
at_start =
    fresh integral fixed_draws padded run_config 3 8 (pos 500) 1000 500 (pos 10) risk strategy 0

abbrev after_feed : HlRunner ℤ ℕ
after_feed = from_ok at_start (take_ticks integral fixed_draws padded run_config feed at_start)

feed_runs : returns (take_ticks integral fixed_draws padded run_config feed at_start) ≡ true
unfolding take_ticks note_spike take_tick run_core feed_trade after_strategy take_intents
    take_intent pass_gate reject_toxic send prepare new_runner guard_check toxic_decision log_in
    observe_in record_latency as_deribit_event check_flow toxic_flow_rate count_flow
    count_side_events on_ticks on_tick record_outcome note_mid settle_open settle_all settle_one
    update_scorecard prune no_order confirm log_decision decision_time sample new_demo
    append_trace_record trace_flags decision_of confirm_new quote_tick quote_pair order cancel_of
    too_soon apply mid evaluate dispatch withdraw submit rated limits accept build trip on_notional
    release apply_order check try_consume refill new_gate log record_of flags_of new_logger hash_lo
    payload_bytes encode mask64 low128 pack fit to_twos of_le to_le observe observe_new
    observe_cancel check_priced on_trade observe_otr on_trade_otr on_order bump global_ratio ratio
    quotient check_price on_trade_price compare_with judge deviation check_self any_crosses
    add_resting cancel without emit on_new on_cancel maybe_fire layered is_layered mark_cancelled
    store bucket push lookup insert ◌-ℤ◌ ◌+ℤ◌
feed_runs = refl

feed_ends : take_ticks integral fixed_draws padded run_config feed at_start ≡ ok after_feed
feed_ends = from_ok_lem at_start _ feed_runs

-- The guard rejects the last sell order, the risk gate passes the rest, and one tick has no order.
feed_counts :
    (after_feed.demo.decisions_logged ≡ 14)
    × (after_feed.rejected_toxic ≡ 1)
    × (after_feed.demo.gate.counters.passed ≡ 13)
    × (after_feed.spike_tick_wire_ts_ns ≡ 20)
unfolding take_ticks note_spike take_tick run_core feed_trade after_strategy take_intents
    take_intent pass_gate reject_toxic send prepare new_runner guard_check toxic_decision log_in
    observe_in record_latency as_deribit_event check_flow toxic_flow_rate count_flow
    count_side_events on_ticks on_tick record_outcome note_mid settle_open settle_all settle_one
    update_scorecard prune no_order confirm log_decision decision_time sample new_demo
    append_trace_record trace_flags decision_of confirm_new quote_tick quote_pair order cancel_of
    too_soon apply mid evaluate dispatch withdraw submit rated limits accept build trip on_notional
    release apply_order check try_consume refill new_gate log record_of flags_of new_logger hash_lo
    payload_bytes encode mask64 low128 pack fit to_twos of_le to_le observe observe_new
    observe_cancel check_priced on_trade observe_otr on_trade_otr on_order bump global_ratio ratio
    quotient check_price on_trade_price compare_with judge deviation check_self any_crosses
    add_resting cancel without emit on_new on_cancel maybe_fire layered is_layered mark_cancelled
    store bucket push lookup insert ◌-ℤ◌ ◌+ℤ◌
feed_counts = (refl, refl, refl, refl)

run_stream_accounts_example :
    ((x : Error) × IsNumeric x
      × (run_stream integral fixed_draws padded run_config feed at_start ≡ err x))
    ⊎ ((r : HlRunner ℤ ℕ) × (a : HlRunArtifacts) × Accounted integral fixed_draws padded run_config
          3 8
          (pos 500)
          1000
          500
          (pos 10)
          risk
          strategy
          0
          feed
          r
          a)
run_stream_accounts_example =
    run_stream_accounts integral fixed_draws padded run_config 3 8 (pos 500) 1000 500 (pos 10) risk
      strategy 0 feed (omega arith)

take_ticks_agree_example :
    ((x : Error) × IsNumeric x
      × (take_ticks integral fixed_draws padded run_config feed at_start ≡ err x))
    ⊎ ((r : HlRunner ℤ ℕ) × (take_ticks integral fixed_draws padded run_config feed at_start ≡ ok r)
        × Guarded integral fixed_draws padded run_config 3 8 (pos 500) r.guard r.rejected_toxic
        × Watching integral fixed_draws padded run_config 3 8
            (pos 500)
            r.compliance
            r.demo.decisions_logged
        × IsBalanced integral run_config.scorer r.scorer)
take_ticks_agree_example =
    take_ticks_agree integral fixed_draws padded run_config 3 8 (pos 500) 1000 500 (pos 10) risk
      strategy 0 feed (omega arith)

-- A quote behind the horizon of the last trade.
abbrev later : HlTickEvent ℤ
later = tick 50 quote 117 0

feed-IsBalanced : IsBalanced integral run_config.scorer after_feed.scorer
feed-IsBalanced =
    (take_ticks-IsSound integral fixed_draws padded run_config 3 8 (pos 500) feed at_start
      after_feed (omega arith) feed_ends
      (fresh-IsSound integral fixed_draws padded run_config 3 8 (pos 500) 1000 500 (pos 10) risk
        strategy 0)).balanced

priced : integral.lt (pos 0) (tick_mid integral later) ≡ true
unfolding ◌+ℤ◌
priced = refl

on_tick-AllWaiting_example :
    (s : ToxicFlowScorer ℤ) × (on_tick integral run_config.scorer later after_feed.scorer ≡ ok s)
    × IsBalanced integral run_config.scorer s
    × AllWaiting 50 s.open_outcomes
on_tick-AllWaiting_example =
    on_tick-AllWaiting integral run_config.scorer later after_feed.scorer feed-IsBalanced priced
      (omega arith)
