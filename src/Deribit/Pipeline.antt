-- ===== src/Deribit/Pipeline.antt =====
-- sentinel_hft/deribit/pipeline.py: the cycle budgets and the event loop, which takes each tick over
-- book, strategy, gate and audit log to the trace records. The draws of `random.Random` and the
-- logarithm are parameters. Files and the summary are left out.
pub mod Loop
pub mod Stages
pub mod Raises
pub mod Ended
pub mod Preserved
pub mod Audited
pub mod Traced
pub mod Accepted
use Prim.Native.Nat.{bit_or}
use sentinel_hft.Prelude.{
  ℕ, ◌+◌, ◌*◌, ◌/◌, ◌%◌, ◌-◌, ◌^◌, Bool, true, false, not, ◌&&◌, ◌||◌, Option, none, some, List, [],
  ◌∷◌, ◌++◌, ltb, leb, ◌==◌, if◌then◌else◌,
}
use sentinel_hft.Prelude.Int.{ℤ, pos, negsuc}
use sentinel_hft.Prelude.Float.{Float, finite}
use sentinel_hft.Prelude.Result.{Result, ok, err, struct_error, ◌>>=◌}
use sentinel_hft.Struct.{Values, pack}
use sentinel_hft.Trace.Adapters.{v12_struct}
use sentinel_hft.Audit.Digest.{Blake2b}
use sentinel_hft.Audit.Record.{AuditRecord, RejectReason, reason_code, accepted}
use sentinel_hft.Audit.Logger.{RiskDecision, AuditLogger, new_logger, log, raise_flag}
use sentinel_hft.Risk.{
  IntentAction, new, cancel, QuoteIntent, RiskGateConfig, RiskGate, new_gate, Decision, evaluate,
  trip, try_consume,
}
use sentinel_hft.Deribit.Book.{TickEvent, TopOfBook, BookState, apply, kind_code}
use sentinel_hft.Deribit.Strategy.{SpreadMmStrategy, on_tick, confirm_new}

-- What the pipeline uses of `random.Random`, whose methods return a draw and change the generator.
pub record Random (N : Type 0) : Type 1 where
  pub State : Type 0
  pub lognormvariate : N → N → State → N × State
  pub expovariate : N → State → N × State
  pub random : State → N × State
  pub log : N → N

pub record LatencyBudget (N : Type 0) : Type 0 where
  pub base_cycles : ℕ
  pub sigma : N
  pub burst_prob : N
  pub burst_factor : N

pub record Budgets (N : Type 0) : Type 0 where
  pub ingress : LatencyBudget N
  pub core : LatencyBudget N
  pub risk : LatencyBudget N
  pub egress : LatencyBudget N

pub record DemoConfig (N : Type 0) : Type 0 where
  pub budgets : Budgets N
  pub inject_kill_at : Option ℕ
  pub inject_rate_burst : Bool
  pub fill_prob : N

-- `DeribitDemo`, with the state of its random generator.
pub record DeribitDemo (N S : Type 0) : Type 0 where
  pub rng : S
  pub book : BookState N
  pub strategy : SpreadMmStrategy N
  pub gate : RiskGate N
  pub audit : AuditLogger
  pub trace_records : List (List ℕ)
  pub latencies_ns : List ℕ
  pub last_decision_ns : ℕ
  pub ticks_consumed : ℕ
  pub intents_generated : ℕ
  pub decisions_logged : ℕ

-- 100 MHz: 10 ns for each cycle.
abbrev pub cycles_to_ns : ℕ → ℕ
cycles_to_ns cycles = cycles * (1000 / 100)

-- A field that the audit record packs as an unsigned number: `struct` raises on a negative one.
abbrev pub unsigned : ℤ → Result ℕ
unsigned (pos n) = ok n
unsigned (negsuc n) = err struct_error

-- What the logger reads of a decision: the conversions of `_build` first, in its order, and then the
-- fields of the record.
unfoldable pub decision_of : Decision → Result RiskDecision
decision_of d = do
  price_fp ← finite d.price
  notional_fp ← finite d.notional
  quantity_fp ← finite d.quantity
  net_fp ← finite d.position_after
  after_fp ← finite d.notional_after
  remaining ← finite d.tokens_remaining
  quantity ← unsigned quantity_fp
  price ← unsigned price_fp
  notional ← unsigned notional_fp
  tokens ← unsigned remaining
  after ← unsigned after_fp
  ok (record {
    timestamp_ns = d.timestamp_ns;
    order_id = d.order_id;
    symbol_id = d.symbol_id;
    quantity = quantity;
    price = price;
    notional = notional;
    passed = d.passed;
    reject_reason = reason_code d.reject_reason;
    kill_triggered = d.kill_triggered;
    tokens_remaining = tokens;
    position_after = net_fp;
    notional_after = after;
  })

-- The flags of a trace record.
unfoldable pub trace_flags : Decision → ℕ
trace_flags d =
    raise_flag (not (reason_code d.reject_reason == reason_code accepted)) 0x0010
      (raise_flag d.kill_triggered 0x0002 (raise_flag d.passed 0x0001 0))

-- The measured stages of one record, in cycles.
pub record Cycles : Type 0 where
  pub d_ingress : ℕ
  pub d_core : ℕ
  pub d_risk : ℕ
  pub d_egress : ℕ

abbrev pub is_cancel : IntentAction → Bool
is_cancel cancel = true
is_cancel new = false

-- `self.inject_kill_at is not None and self.intents_generated == self.inject_kill_at`
abbrev pub kill_due : Option ℕ → ℕ → Bool
kill_due none n = false
kill_due (some k) n = n == k

module _ {N : Type 0} where
  abbrev pub trace_fields : TickEvent N → ℕ → ℕ → Cycles → ℕ → ℕ → Values v12_struct
  trace_fields ev t_ingress t_egress c tx_id flags = (
    2,
    (
      kind_code ev.instrument.kind,
      (
        ev.instrument.symbol_id,
        (
          ev.seq_no % 2 ^ 32,
          (
            t_ingress,
            (
              t_egress,
              (
                ev.host_ts_ns,
                (tx_id, (flags, (c.d_ingress, (c.d_core, (c.d_risk, (c.d_egress, tt)))))),
              ),
            ),
          ),
        ),
      ),
    ),
  )

  -- `_append_trace_record`
  unfoldable pub append_trace_record :
      {S : Type 0}
      → TickEvent N
      → ℕ
      → ℕ
      → Cycles
      → ℕ
      → ℕ
      → DeribitDemo N S
      → Result (DeribitDemo N S)
  append_trace_record ev t_ingress t_egress c tx_id flags demo = do
    packed ← pack v12_struct (trace_fields ev t_ingress t_egress c tx_id flags)
    ok (record demo { trace_records = demo.trace_records ++ packed ∷ [] })

module _ (F : Float) where
  open F use {Num, of_nat, add, mul, div, lt, trunc}

  -- `max(1, int(x))` of a draw, which is finite.
  abbrev pub at_least_one : Num → ℕ
  at_least_one x = elim (trunc x) [ pos n ↦ (if ltb 1 n then n else 1) | negsuc n ↦ 1 ]

  -- `int(x)` of a number that is not negative, as the products with an exponential draw are.
  abbrev pub whole : Num → ℕ
  whole x = elim (trunc x) [ pos n ↦ n | negsuc n ↦ 0 ]

  -- `RiskGateConfig` aside, what `DeribitDemo.__init__` starts from.
  unfoldable pub new_demo :
      {S : Type 0} → RiskGateConfig Num → SpreadMmStrategy Num → S → DeribitDemo Num S
  new_demo risk strategy rng = record {
    rng = rng;
    book = [];
    strategy = strategy;
    gate = new_gate F risk;
    audit = new_logger none;
    trace_records = [];
    latencies_ns = [];
    last_decision_ns = 0;
    ticks_consumed = 0;
    intents_generated = 0;
    decisions_logged = 0;
  }

  module _ (R : Random Num) where
    open R use {State, lognormvariate, expovariate, random, log as log_of}

    -- `_LatencyBudget.sample`
    unfoldable pub sample : LatencyBudget Num → State → ℕ × State
    sample b s0 =
        let mu = log_of (of_nat (if ltb 1 b.base_cycles then b.base_cycles else 1)) in
        let (x, s1) = lognormvariate mu b.sigma s0 in
        let val = at_least_one x in
        let (u, s2) = random s1 in
        if lt u b.burst_prob
        then (let (e, s3) = expovariate (div (of_nat 1) b.burst_factor) s2 in
            (whole (mul (of_nat val) (add (of_nat 1) e)), s3))
        else (val, s2)

    -- A cancel may race a fill: then it releases nothing. Only a cancel takes a draw.
    unfoldable pub race_fill : Num → QuoteIntent Num → State → QuoteIntent Num × State
    race_fill fill_prob i s =
        if is_cancel i.action
        then (let (u, s') = random s in
            if lt u fill_prob
            then (record i { quantity = of_nat 0; notional = of_nat 0 }, s')
            else (i, s'))
        else (i, s)
