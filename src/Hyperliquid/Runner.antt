-- ===== src/Hyperliquid/Runner.antt =====
-- sentinel_hft/hyperliquid/runner.py: the state of HyperliquidRunner, and what one intent does to it.
-- The runner keeps the fields of the Deribit demo, which stand in `demo`, and adds the scorer of
-- toxic flow, its guard and the compliance observers. Files and quantiles are left out.
pub mod Loop
pub mod Sound
pub mod Intents
pub mod Raises
pub mod Ticks
pub mod Runs
pub mod Report
use Prim.Native.Nat.{bit_or}
use sentinel_hft.Prelude.{
  ℕ, ◌+◌, ◌*◌, ◌/◌, ◌%◌, ◌-◌, ◌^◌, Bool, true, false, Option, none, some, List, [], ◌∷◌, ◌++◌,
  if◌then◌else◌,
}
use sentinel_hft.Prelude.Float.{Float}
use sentinel_hft.Prelude.Result.{Result, ok, ◌>>=◌}
use sentinel_hft.Audit.Digest.{Blake2b}
use sentinel_hft.Audit.Record.{RejectReason, accepted, toxic_flow}
use sentinel_hft.Risk.{
  Side, buy, sell, IntentAction, new, cancel, QuoteIntent, RiskGateConfig, RiskGate, Decision, trip,
  build, evaluate,
}
use sentinel_hft.Deribit.Strategy.{SpreadMmStrategy}
use sentinel_hft.Deribit.Pipeline.{
  Random, LatencyBudget, Budgets, DeribitDemo, Cycles, cycles_to_ns, trace_flags,
  append_trace_record, new_demo, sample, is_cancel, kill_due,
}
use sentinel_hft.Deribit.Pipeline.Loop.{Tick, decision_time, log_decision, confirm}
use sentinel_hft.Compliance.Stack.{Intent, GateDecision, ComplianceStack, observe}
use sentinel_hft.Hyperliquid.Scorer.{ScorerConfig, ToxicFlowScorer, new_scorer}
use sentinel_hft.Hyperliquid.Guard.{ToxicFlowGuard, check_flow}

pub record HlRunConfig (N : Type 0) : Type 0 where
  pub scorer : ScorerConfig N
  pub budgets : Budgets N
  pub enable_toxic_guard : Bool
  pub toxic_rate_threshold : N
  pub toxic_min_flow_events : ℕ
  pub enable_compliance : Bool
  pub inject_kill_at : Option ℕ
  pub spike_tick : Option ℕ

-- `_stage_ns`
pub record StageNs : Type 0 where
  pub ingress : List ℕ
  pub core : List ℕ
  pub risk : List ℕ
  pub egress : List ℕ

pub record HlRunner (N S : Type 0) : Type 0 where
  pub demo : DeribitDemo N S
  pub scorer : ToxicFlowScorer N
  pub guard : Option (ToxicFlowGuard N)
  pub compliance : Option (ComplianceStack N)
  pub stage_ns : StageNs
  pub rejected_toxic : ℕ
  pub spike_tick_wire_ts_ns : ℕ

-- The codes that the observers read of an intent.
abbrev pub side_code : Side → ℕ
side_code buy = 1
side_code sell = 2

abbrev pub action_code : IntentAction → ℕ
action_code new = 1
action_code cancel = 2

abbrev pub seen_intent : {N : Type 0} → QuoteIntent N → Intent N
seen_intent i = record {
  side = side_code i.side;
  action = action_code i.action;
  symbol_id = i.symbol_id;
  price = i.price;
  quantity = i.quantity;
  order_id = i.order_id;
}

abbrev pub seen_decision : Decision → GateDecision
seen_decision d = record { passed = d.passed; reject_reason = d.reject_reason }

abbrev pub is_flow_reject : RejectReason → Bool
is_flow_reject toxic_flow = true
is_flow_reject _ = false

module _ (F : Float) where
  open F use {Num, of_nat}

  -- `__init__`, with the observers that `ComplianceStack()` builds.
  unfoldable pub new_runner :
      {S : Type 0}
      → HlRunConfig Num
      → RiskGateConfig Num
      → SpreadMmStrategy Num
      → ComplianceStack Num
      → S
      → HlRunner Num S
  new_runner cfg risk strategy stack rng = record {
    demo = new_demo F risk strategy rng;
    scorer = new_scorer;
    guard =
        if cfg.enable_toxic_guard
        then some (record {
          toxic_rate_threshold = cfg.toxic_rate_threshold;
          min_flow_events = cfg.toxic_min_flow_events;
          rejected = 0;
        })
        else none;
    compliance = if cfg.enable_compliance then some stack else none;
    stage_ns = record { ingress = []; core = []; risk = []; egress = [] };
    rejected_toxic = 0;
    spike_tick_wire_ts_ns = 0;
  }

  -- `_build_toxic_decision`: what `RiskGate._build` makes of the same fields.
  unfoldable pub toxic_decision : QuoteIntent Num → ℕ → RiskGate Num → Decision
  toxic_decision i now g = build F i now false toxic_flow false g

  module _ {S : Type 0} where
    -- The guard looks at new orders only.
    unfoldable pub guard_check :
        ScorerConfig Num → QuoteIntent Num → HlRunner Num S → RejectReason × HlRunner Num S
    guard_check cfg i r = elim r.guard [
      | none ↦ (accepted, r)
      | some g ↦
          if is_cancel i.action
          then (accepted, r)
          else (let (reason, g') =
                check_flow F cfg.flow_window_ns i r.demo.last_decision_ns r.scorer g in
              (reason, record r { guard = some g' }))
    ]

    unfoldable pub log_in : Blake2b → Decision → HlRunner Num S → Result (HlRunner Num S)
    log_in h d r = do logged ← log_decision h d r.demo; ok (record r { demo = logged })

    -- The observers see the intent at the time of its decision.
    unfoldable pub observe_in :
        QuoteIntent Num → Decision → HlRunner Num S → Result (HlRunner Num S)
    observe_in i d r = elim r.compliance [
      | none ↦ ok r
      | some k ↦ do
        step ← observe F (seen_intent i) (some (seen_decision d)) r.demo.last_decision_ns none k
        ok (record r { compliance = some step.1 })
    ]

    -- `_record_latency`: 10 ns for each cycle.
    unfoldable pub record_latency : ℕ → ℕ → Cycles → HlRunner Num S → HlRunner Num S
    record_latency t_ingress t_egress c r =
        let demo = r.demo in
        let ns = r.stage_ns in
        record r {
          demo = record demo { latencies_ns = demo.latencies_ns ++ (t_egress - t_ingress) ∷ [] };
          stage_ns = record {
            ingress = ns.ingress ++ (c.d_ingress * (1000 / 100)) ∷ [];
            core = ns.core ++ (c.d_core * (1000 / 100)) ∷ [];
            risk = ns.risk ++ (c.d_risk * (1000 / 100)) ∷ [];
            egress = ns.egress ++ (c.d_egress * (1000 / 100)) ∷ [];
          };
        }
