-- ===== src/Deribit/Pipeline/Loop.antt =====
-- The event loop of sentinel_hft/deribit/pipeline.py, stage by stage: `_consume_tick` and the loop of
-- `run`. An exception ends the run.
use sentinel_hft.Prelude.{
  ℕ, zero, suc, ◌+◌, ◌/◌, ◌%◌, ◌-◌, ◌^◌, Bool, true, false, not, ◌&&◌, List, [], ◌∷◌, ◌++◌, ltb,
  ◌==◌, if◌then◌else◌,
}
use sentinel_hft.Prelude.Float.{Float}
use sentinel_hft.Prelude.Result.{Result, ok, ◌>>=◌}
use sentinel_hft.Audit.Digest.{Blake2b}
use sentinel_hft.Audit.Logger.{log}
use sentinel_hft.Risk.{QuoteIntent, RiskGate, Decision, evaluate, trip, try_consume}
use sentinel_hft.Deribit.Book.{TickEvent, apply}
use sentinel_hft.Deribit.Strategy.{on_tick, confirm_new}
use sentinel_hft.Deribit.Pipeline.{
  Random, LatencyBudget, DemoConfig, DeribitDemo, Cycles, cycles_to_ns, decision_of, trace_flags,
  append_trace_record, sample, race_fill, is_cancel, kill_due,
}

-- The tick and its stages up to the strategy.
pub record Tick (N : Type 0) : Type 0 where
  pub event : TickEvent N
  pub d_ingress : ℕ
  pub d_core : ℕ
  pub core_ts : ℕ

-- What the risk stage returns: the intent that it evaluated, the decision and its cycles.
pub record Decided (N S : Type 0) : Type 0 where
  pub intent : QuoteIntent N
  pub decision : Decision
  pub d_risk : ℕ
  pub demo : DeribitDemo N S

-- `max(raw_now_ns, self._last_decision_ns + 1)`
unfoldable pub decision_time : ℕ → ℕ → ℕ
decision_time raw last = if ltb raw (last + 1) then last + 1 else raw

-- `self.decisions_logged += 1` after `self._audit.log(decision)`.
unfoldable pub log_decision :
    {N S : Type 0} → Blake2b → Decision → DeribitDemo N S → Result (DeribitDemo N S)
log_decision h d demo = do
  r ← decision_of d
  step ← log h demo.audit r
  ok (record demo { audit = step.1; decisions_logged = demo.decisions_logged + 1 })

module _ (F : Float) where
  open F use {Num, of_nat, lt}

  -- Tokens that are taken from the bucket `n` times in a row, 80 at once.
  unfoldable pub burst : ℕ → ℕ → RiskGate Num → RiskGate Num
  burst zero now g = g
  burst (suc n) now g = burst n now (record g { bucket = (try_consume F now 80 g.bucket).1 })

  -- Only orders that the gate accepted go on the strategy's list.
  unfoldable pub confirm :
      {S : Type 0} → QuoteIntent Num → Decision → DeribitDemo Num S → DeribitDemo Num S
  confirm i d demo =
      if d.passed && (not (is_cancel i.action) && lt (of_nat 0) i.quantity)
      then record demo { strategy = confirm_new F i demo.strategy }
      else demo

  module _ (R : Random Num) where
    open R use {State}

    -- The injected kill, the race with a fill, the burst and the evaluation at the clamped time.
    unfoldable pub decide :
        DemoConfig Num → ℕ → Bool → QuoteIntent Num → DeribitDemo Num State → Decided Num State
    decide cfg core_ts first intent demo =
        let generated = demo.intents_generated + 1 in
        let gate = demo.gate in
        let tripped : RiskGate Num = record gate { kill = trip F gate.kill } in
        let g0 = if kill_due cfg.inject_kill_at generated then tripped else gate in
        let (i, s1) = race_fill F R cfg.fill_prob intent demo.rng in
        let (d_risk, s2) = sample F R cfg.budgets.risk s1 in
        let bursting =
          cfg.inject_rate_burst
          && (ltb 0 demo.ticks_consumed && (demo.ticks_consumed % 2500 == 0 && first)) in
        let g1 = if bursting then burst 6 core_ts g0 else g0 in
        let now = decision_time (core_ts + cycles_to_ns d_risk) demo.last_decision_ns in
        let (d, g2) = evaluate F i now g1 in
        record {
          intent = i;
          decision = d;
          d_risk = d_risk;
          demo = record demo {
            rng = s2;
            gate = g2;
            last_decision_ns = now;
            intents_generated = generated;
          };
        }

    -- The egress of a decision: its latency and its trace record. `last_decision_ns` is its time.
    unfoldable pub egress :
        DemoConfig Num
        → Tick Num
        → ℕ
        → QuoteIntent Num
        → Decision
        → DeribitDemo Num State
        → Result (DeribitDemo Num State)
    egress cfg t d_risk i d demo =
        let (drawn, s) = sample F R cfg.budgets.egress demo.rng in
        let d_egress = if d.passed then drawn else drawn / 3 in
        let ev = t.event in
        let t_egress = demo.last_decision_ns + cycles_to_ns d_egress in
        let cycles : Cycles = record {
          d_ingress = t.d_ingress;
          d_core = t.d_core;
          d_risk = d_risk;
          d_egress = d_egress;
        } in
        append_trace_record ev ev.wire_ts_ns t_egress cycles (i.order_id % 2 ^ 16) (trace_flags d)
          (record demo {
            rng = s;
            latencies_ns = demo.latencies_ns ++ (t_egress - ev.wire_ts_ns) ∷ [];
          })

    -- One round of the loop over the intents.
    unfoldable pub consume_intent :
        Blake2b
        → DemoConfig Num
        → Tick Num
        → Bool
        → QuoteIntent Num
        → DeribitDemo Num State
        → Result (DeribitDemo Num State)
    consume_intent h cfg t first intent demo =
        let x = decide cfg t.core_ts first intent demo in
        do
          logged ← log_decision h x.decision x.demo
          egress cfg t x.d_risk x.intent x.decision (confirm x.intent x.decision logged)

    unfoldable pub consume_intents :
        Blake2b
        → DemoConfig Num
        → Tick Num
        → Bool
        → List (QuoteIntent Num)
        → DeribitDemo Num State
        → Result (DeribitDemo Num State)
    consume_intents h cfg t first [] demo = ok demo
    consume_intents h cfg t first (i ∷ is) demo = do
      demo' ← consume_intent h cfg t first i demo
      consume_intents h cfg t false is demo'

    -- A tick without an order still leaves a trace record.
    unfoldable pub no_order :
        LatencyBudget Num → Tick Num → DeribitDemo Num State → Result (DeribitDemo Num State)
    no_order budget t demo =
        let (drawn, s) = sample F R budget demo.rng in
        let ev = t.event in
        let cycles : Cycles = record {
          d_ingress = t.d_ingress;
          d_core = t.d_core;
          d_risk = 0;
          d_egress = drawn / 2;
        } in
        append_trace_record ev ev.wire_ts_ns (t.core_ts + cycles_to_ns (drawn / 2)) cycles 0 0x8000
          (record demo { rng = s })

    unfoldable pub after_core :
        Blake2b
        → DemoConfig Num
        → Tick Num
        → List (QuoteIntent Num)
        → DeribitDemo Num State
        → Result (DeribitDemo Num State)
    after_core h cfg t [] demo = no_order cfg.budgets.egress t demo
    after_core h cfg t (i ∷ is) demo = consume_intents h cfg t true (i ∷ is) demo

    -- `_consume_tick`
    unfoldable pub consume_tick :
        Blake2b
        → DemoConfig Num
        → TickEvent Num
        → DeribitDemo Num State
        → Result (DeribitDemo Num State)
    consume_tick h cfg ev demo =
        let (d_ingress, s1) = sample F R cfg.budgets.ingress demo.rng in
        let (d_core, s2) = sample F R cfg.budgets.core s1 in
        let (book, books) = apply F ev demo.book in
        let core_ts = ev.wire_ts_ns + cycles_to_ns (d_ingress + d_core) in
        on_tick F book core_ts demo.strategy >>= λ quoted.
        after_core h cfg
          (record { event = ev; d_ingress = d_ingress; d_core = d_core; core_ts = core_ts })
          quoted.0 (record demo { rng = s2; book = books; strategy = quoted.1 })

    -- The loop of `run` over the ticks of the fixture.
    unfoldable pub consume_all :
        Blake2b
        → DemoConfig Num
        → List (TickEvent Num)
        → DeribitDemo Num State
        → Result (DeribitDemo Num State)
    consume_all h cfg [] demo = ok demo
    consume_all h cfg (ev ∷ evs) demo = do
      demo' ← consume_tick h cfg ev demo
      consume_all h cfg evs (record demo' { ticks_consumed = demo'.ticks_consumed + 1 })
