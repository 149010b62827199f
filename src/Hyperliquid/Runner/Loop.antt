-- ===== src/Hyperliquid/Runner/Loop.antt =====
-- The event loop of sentinel_hft/hyperliquid/runner.py: `_consume_tick` and the loop of `run_stream`.
-- An exception ends the run.
use sentinel_hft.Prelude.{
  ℕ, ◌+◌, ◌/◌, ◌%◌, ◌^◌, true, ◌&&◌, none, some, List, [], ◌∷◌, if◌then◌else◌,
}
use sentinel_hft.Prelude.Float.{Float}
use sentinel_hft.Prelude.Result.{Result, ok, ◌>>=◌}
use sentinel_hft.Audit.Digest.{Blake2b}
use sentinel_hft.Audit.Logger.{raise_flag}
use sentinel_hft.Risk.{QuoteIntent, RiskGate, trip, evaluate}
use sentinel_hft.Deribit.Book.{apply}
use sentinel_hft.Deribit.Strategy.{on_tick}
use sentinel_hft.Deribit.Pipeline.{
  Random, Cycles, cycles_to_ns, trace_flags, append_trace_record, sample, kill_due,
}
use sentinel_hft.Deribit.Pipeline.Loop.{Tick, decision_time, confirm, no_order}
use sentinel_hft.Compliance.Stack.{on_trade}
use sentinel_hft.Hyperliquid.Fixture.{HlTickEvent, is_trade, as_deribit_event}
use sentinel_hft.Hyperliquid.Scorer.{on_tick as score_tick}
use sentinel_hft.Hyperliquid.Runner.{
  HlRunConfig, HlRunner, is_flow_reject, guard_check, toxic_decision, log_in, observe_in,
  record_latency,
}

module _ (F : Float) (R : Random (F.Num)) where
  open F use {Num, of_nat, lt}
  open R use {State}

  -- The injected kill, the cycles of the risk stage and the clamped time of the decision.
  unfoldable pub prepare : HlRunConfig Num → ℕ → HlRunner Num State → ℕ × HlRunner Num State
  prepare cfg core_ts r =
      let demo = r.demo in
      let gate = demo.gate in
      let generated = demo.intents_generated + 1 in
      let tripped : RiskGate Num = record gate { kill = trip F gate.kill } in
      let (d_risk, s) = sample F R cfg.budgets.risk demo.rng in
      (
        d_risk,
        record r {
          demo = record demo {
            rng = s;
            gate = if kill_due cfg.inject_kill_at generated then tripped else gate;
            last_decision_ns = decision_time (core_ts + cycles_to_ns d_risk) demo.last_decision_ns;
            intents_generated = generated;
          };
        },
      )

  -- The latency and the trace record of a decision, whose time is `last_decision_ns`.
  unfoldable pub send :
      Tick Num → ℕ → QuoteIntent Num → ℕ → ℕ → HlRunner Num State → Result (HlRunner Num State)
  send t d_risk i d_egress flags r =
      let ev = t.event in
      let t_egress = r.demo.last_decision_ns + cycles_to_ns d_egress in
      let cycles : Cycles = record {
        d_ingress = t.d_ingress;
        d_core = t.d_core;
        d_risk = d_risk;
        d_egress = d_egress;
      } in
      let timed = record_latency F ev.wire_ts_ns t_egress cycles r in
      do
        traced ←
            append_trace_record ev ev.wire_ts_ns t_egress cycles (i.order_id % 2 ^ 16) flags
              timed.demo
        ok (record timed { demo = traced })

  -- The branch of an intent that the guard rejects: it goes past the risk gate.
  unfoldable pub reject_toxic :
      Blake2b
      → HlRunConfig Num
      → Tick Num
      → ℕ
      → QuoteIntent Num
      → HlRunner Num State
      → Result (HlRunner Num State)
  reject_toxic h cfg t d_risk i r =
      let d = toxic_decision F i r.demo.last_decision_ns r.demo.gate in
      do
        logged ← log_in F h d (record r { rejected_toxic = r.rejected_toxic + 1 })
        seen ← observe_in F i d logged
        let demo = seen.demo
        let drawn = sample F R cfg.budgets.egress demo.rng
        send t d_risk i (drawn.0 / 3) (raise_flag true 0x0040 (raise_flag true 0x0010 0))
            (record seen { demo = record demo { rng = drawn.1 } })

  -- The branch of an intent that the risk gate evaluates.
  unfoldable pub pass_gate :
      Blake2b
      → HlRunConfig Num
      → Tick Num
      → ℕ
      → QuoteIntent Num
      → HlRunner Num State
      → Result (HlRunner Num State)
  pass_gate h cfg t d_risk i r =
      let before = r.demo in
      let (d, g) = evaluate F i before.last_decision_ns before.gate in
      do
        logged ← log_in F h d (record r { demo = record before { gate = g } })
        seen ← observe_in F i d (record logged { demo = confirm F i d logged.demo })
        let demo = seen.demo
        let drawn = sample F R cfg.budgets.egress demo.rng
        send t d_risk i (if d.passed then drawn.0 else drawn.0 / 3) (trace_flags d)
            (record seen { demo = record demo { rng = drawn.1 } })

  -- One round of the loop over the intents.
  unfoldable pub take_intent :
      Blake2b
      → HlRunConfig Num
      → Tick Num
      → QuoteIntent Num
      → HlRunner Num State
      → Result (HlRunner Num State)
  take_intent h cfg t i r =
      let (d_risk, ready) = prepare cfg t.core_ts r in
      let (reason, checked) = guard_check F cfg.scorer i ready in
      if is_flow_reject reason
      then reject_toxic h cfg t d_risk i checked
      else pass_gate h cfg t d_risk i checked

  unfoldable pub take_intents :
      Blake2b
      → HlRunConfig Num
      → Tick Num
      → List (QuoteIntent Num)
      → HlRunner Num State
      → Result (HlRunner Num State)
  take_intents h cfg t [] r = ok r
  take_intents h cfg t (i ∷ is) r = do r' ← take_intent h cfg t i r; take_intents h cfg t is r'

  -- A tick without an order still leaves a trace record, as in the demo.
  unfoldable pub after_strategy :
      Blake2b
      → HlRunConfig Num
      → Tick Num
      → List (QuoteIntent Num)
      → HlRunner Num State
      → Result (HlRunner Num State)
  after_strategy h cfg t [] r = do
    traced ← no_order F R cfg.budgets.egress t r.demo
    ok (record r { demo = traced })
  after_strategy h cfg t (i ∷ is) r = take_intents h cfg t (i ∷ is) r

  -- Public trades reach the observers.
  unfoldable pub feed_trade : HlTickEvent Num → HlRunner Num State → HlRunner Num State
  feed_trade ev r = elim r.compliance [
    | none ↦ r
    | some k ↦
        if is_trade ev.kind && lt (of_nat 0) ev.trade_price
        then record r { compliance = some (on_trade F ev.instrument.symbol_id ev.trade_price k) }
        else r
  ]

  -- From the ingress to the strategy, and on.
  unfoldable pub run_core :
      Blake2b → HlRunConfig Num → HlTickEvent Num → HlRunner Num State → Result (HlRunner Num State)
  run_core h cfg ev r =
      let demo = r.demo in
      let (d_ingress, s1) = sample F R cfg.budgets.ingress demo.rng in
      let (d_core, s2) = sample F R cfg.budgets.core s1 in
      let (book, books) = apply F (as_deribit_event ev) demo.book in
      let core_ts = ev.wire_ts_ns + cycles_to_ns (d_ingress + d_core) in
      on_tick F book core_ts demo.strategy >>= λ quoted.
      after_strategy h cfg
        (record {
          event = as_deribit_event ev;
          d_ingress = d_ingress;
          d_core = d_core;
          core_ts = core_ts;
        })
        quoted.0 (record r { demo = record demo { rng = s2; book = books; strategy = quoted.1 } })

  -- `_consume_tick`
  unfoldable pub take_tick :
      Blake2b → HlRunConfig Num → HlTickEvent Num → HlRunner Num State → Result (HlRunner Num State)
  take_tick h cfg ev r = do
    scored ← score_tick F cfg.scorer ev r.scorer
    run_core h cfg ev (feed_trade ev (record r { scorer = scored }))

  -- The time of the tick at which the volatility spike fires.
  unfoldable pub note_spike :
      HlRunConfig Num → HlTickEvent Num → HlRunner Num State → HlRunner Num State
  note_spike cfg ev r =
      if kill_due cfg.spike_tick (r.demo.ticks_consumed + 1)
      then record r { spike_tick_wire_ts_ns = ev.wire_ts_ns }
      else r

  abbrev pub count_tick : HlRunner Num State → HlRunner Num State
  count_tick r =
      let demo = r.demo in
      record r { demo = record demo { ticks_consumed = demo.ticks_consumed + 1 } }

  -- The loop of `run_stream`.
  unfoldable pub take_ticks :
      Blake2b
      → HlRunConfig Num
      → List (HlTickEvent Num)
      → HlRunner Num State
      → Result (HlRunner Num State)
  take_ticks h cfg [] r = ok r
  take_ticks h cfg (ev ∷ evs) r = do
    r' ← take_tick h cfg ev (note_spike cfg ev r)
    take_ticks h cfg evs (count_tick r')
