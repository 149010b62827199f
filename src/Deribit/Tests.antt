-- ===== src/Deribit/Tests.antt =====
-- A run of the demo pipeline over three ticks, on integers for its floats and with fixed draws.
use sentinel_hft.Prelude.{false, ◌⊎◌, ℕ, ◌+◌, ◌≡◌, refl, true, none, some, List, [], ◌∷◌, length}
use sentinel_hft.Prelude.Int.{ℤ, pos, negsuc, ◌+ℤ◌, ◌-ℤ◌}
use sentinel_hft.Prelude.Integral.{integral}
use sentinel_hft.Prelude.Dict.{lookup, insert}
use sentinel_hft.Prelude.Result.{
  from_ok, ok, err, Error, IsNumeric, zero_division_error, overflow_error, IfReturned,
}
use sentinel_hft.Struct.{to_le, of_le, to_twos, fit, pack}
use sentinel_hft.Audit.Digest.Padded.{padded}
use sentinel_hft.Audit.Digest.{low128}
use sentinel_hft.Audit.Record.{accepted, mask64, encode, payload_bytes, hash_lo}
use sentinel_hft.Audit.Logger.{
  RiskDecision, seed_prev_hash, new_logger, flags_of, record_of, log, log_all,
}
use sentinel_hft.Audit.Verifier.{verify}
use sentinel_hft.Audit.Verifier.Chain.{clean_result}
use sentinel_hft.Risk.{
  new_gate, refill, try_consume, check, apply as apply_order, release, on_notional, trip, build,
  accept, limits, rated, submit, withdraw, dispatch, evaluate,
}
use sentinel_hft.Deribit.Book.{perpetual, quote, TickEvent, TopOfBook, mid, apply}
use sentinel_hft.Deribit.Strategy.{
  SpreadMmStrategy, too_soon, cancel_of, order, quote_pair, on_tick, confirm_new,
}
use sentinel_hft.Deribit.Strategy.Live.{IsBacked, CancelsAccepted}
use sentinel_hft.Deribit.Pipeline.{
  DemoConfig, DeribitDemo, decision_of, trace_flags, append_trace_record, new_demo, sample,
  race_fill,
}
use sentinel_hft.Deribit.Samples.{fixed_draws, budget, risk, strategy}
use sentinel_hft.Deribit.Pipeline.Loop.{
  decision_time, log_decision, burst, confirm, decide, egress, consume_intent, consume_intents,
  no_order, after_core, consume_tick, consume_all,
}
use sentinel_hft.Deribit.Pipeline.Audited.{Ticking}
use sentinel_hft.Deribit.Pipeline.Ended.{consume_all_ends}
use sentinel_hft.Deribit.Pipeline.Traced.{AllTimed, consume_all-IsTraced}
use sentinel_hft.Deribit.Pipeline.Accepted.{consume_all-IsBacked}

abbrev config : DemoConfig ℤ
config = record {
  budgets = record { ingress = budget 35; core = budget 55; risk = budget 18; egress = budget 32 };
  inject_kill_at = some 6;
  inject_rate_burst = true;
  fill_prob = pos 0;
}

abbrev tick : ℕ → ℕ → TickEvent ℤ
tick ts bid = record {
  wire_ts_ns = ts;
  host_ts_ns = ts + 80;
  seq_no = ts;
  instrument = record { symbol_id = 1; kind = perpetual; tick_size = pos 1; lot_size = pos 1 };
  kind = quote;
  bid_price = pos bid;
  ask_price = pos (bid + 2);
  bid_size = pos 1;
  ask_size = pos 1;
  trade_price = pos 0;
}

-- A pair of quotes, a tick without an order, and a pair that replaces the first.
abbrev ticks : List (TickEvent ℤ)
ticks = tick 1000 100 ∷ tick 2000 101 ∷ tick 3000 110 ∷ []

abbrev at_start : DeribitDemo ℤ ℕ
at_start = new_demo integral risk strategy 0

abbrev demo : DeribitDemo ℤ ℕ
demo = from_ok at_start (consume_all integral fixed_draws padded config ticks at_start)

run_ends : consume_all integral fixed_draws padded config ticks at_start ≡ ok demo
unfolding consume_all consume_tick after_core no_order consume_intents consume_intent egress decide
    confirm burst log_decision decision_time race_fill sample new_demo append_trace_record
    trace_flags decision_of confirm_new on_tick quote_pair order cancel_of too_soon apply mid
    evaluate dispatch withdraw submit rated limits accept build trip on_notional release apply_order
    check try_consume refill new_gate log record_of flags_of new_logger hash_lo payload_bytes encode
    mask64 low128 pack fit to_twos of_le to_le insert lookup ◌-ℤ◌ ◌+ℤ◌
run_ends = refl

-- The last order is the sixth intent, at which the kill switch is tripped.
demo_counts :
    (demo.decisions_logged ≡ 6)
    × (demo.gate.counters.passed ≡ 5)
    × (demo.gate.counters.rejected_kill ≡ 1)
    × (length demo.trace_records ≡ 7)
unfolding consume_all consume_tick after_core no_order consume_intents consume_intent egress decide
    confirm burst log_decision decision_time race_fill sample new_demo append_trace_record
    trace_flags decision_of confirm_new on_tick quote_pair order cancel_of too_soon apply mid
    evaluate dispatch withdraw submit rated limits accept build trip on_notional release apply_order
    check try_consume refill new_gate log record_of flags_of new_logger hash_lo payload_bytes encode
    mask64 low128 pack fit to_twos of_le to_le insert lookup ◌-ℤ◌ ◌+ℤ◌
demo_counts = (refl, refl, refl, refl)

consume_all_ends_example :
    ((x : Error) × IsNumeric x
      × (consume_all integral fixed_draws padded config ticks at_start ≡ err x))
    ⊎ ((x : DeribitDemo ℤ ℕ) × (consume_all integral fixed_draws padded config ticks at_start
          ≡ ok x)
        × (x.decisions_logged ≡ x.intents_generated)
        × (length x.audit.records ≡ x.decisions_logged)
        × ((ds : List RiskDecision) × Ticking 0 ds x.last_decision_ns
            × (log_all padded (new_logger none) ds ≡ ok x.audit))
        × (verify padded seed_prev_hash x.audit.records
            ≡ ok (clean_result x.audit.prev_hash_lo x.audit.records)))
consume_all_ends_example = consume_all_ends integral fixed_draws padded config risk strategy 0 ticks

consume_all-IsTraced_example : AllTimed demo.trace_records
consume_all-IsTraced_example =
    consume_all-IsTraced integral fixed_draws padded config ticks at_start demo run_ends
      (unfold new_demo in tt)

abbrev last_book : TopOfBook ℤ
last_book = record {
  instrument = record { symbol_id = 1; kind = perpetual; tick_size = pos 1; lot_size = pos 1 };
  bid = pos 120;
  ask = pos 122;
  bid_size = pos 1;
  ask_size = pos 1;
  last_trade = pos 0;
  last_trade_ts_ns = 0;
  updated_at_ns = 5000;
}

consume_all-IsBacked_example :
    IsBacked demo.audit.records demo.strategy
    × IfReturned
        (λ x. CancelsAccepted demo.audit.records x.0)
        (on_tick integral last_book 6000 demo.strategy)
consume_all-IsBacked_example =
    consume_all-IsBacked integral fixed_draws padded config ticks at_start demo last_book 6000
      run_ends (unfold new_demo in tt)

-- A symbol that was quoted at time 10, and a book of it whose tick size is zero.
abbrev quoted_before : SpreadMmStrategy ℤ
quoted_before = record strategy {
  state =
      (1, record { last_mid = pos 100; last_paper_ns = 10; order_counter = 1; outstanding = [] })
      ∷ [];
}

abbrev zero_book : TopOfBook ℤ
zero_book = record last_book {
  instrument = record { symbol_id = 1; kind = perpetual; tick_size = pos 0; lot_size = pos 1 };
}

zero_tick_raises : on_tick integral zero_book 11 quoted_before ≡ err zero_division_error
unfolding on_tick too_soon mid lookup ◌+ℤ◌
zero_tick_raises = refl

-- A decision whose price was infinite.
infinite_price_raises :
    decision_of (record {
      timestamp_ns = 1;
      order_id = 1;
      symbol_id = 1;
      quantity = some (pos 1);
      price = none;
      notional = some (negsuc 0);
      passed = true;
      reject_reason = accepted;
      kill_triggered = false;
      tokens_remaining = some (pos 1);
      position_after = some (pos 1);
      notional_after = some (pos 1);
    })
    ≡ err overflow_error
unfolding decision_of
infinite_price_raises = refl
