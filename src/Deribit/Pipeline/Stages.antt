-- ===== src/Deribit/Pipeline/Stages.antt =====
-- What each stage of the event loop leaves behind when it does not raise.
use sentinel_hft.Prelude.{ℕ, ◌+◌, ◌≤◌, ◌<◌, ◌≡◌, List, [], ◌∷◌, ◌++◌, arith}
use sentinel_hft.Prelude.Float.{finite}
use sentinel_hft.Prelude.Result.{ok, bind-eq-ok}
use sentinel_hft.Struct.{pack}
use sentinel_hft.Trace.Adapters.{v12_struct}
use sentinel_hft.Audit.Digest.{Blake2b}
use sentinel_hft.Audit.Record.{AuditRecord}
use sentinel_hft.Audit.Logger.{RiskDecision, AuditLogger, log}
use sentinel_hft.Risk.{Decision}
use sentinel_hft.Deribit.Book.{TickEvent}
use sentinel_hft.Deribit.Pipeline.{
  DeribitDemo, Cycles, unsigned, decision_of, trace_fields, append_trace_record,
}
use sentinel_hft.Deribit.Pipeline.Loop.{decision_time, log_decision}

pub decision_time_late :
    (raw last : ℕ) → (last < decision_time raw last) × (raw ≤ decision_time raw last)
unfolding decision_time
decision_time_late raw last = ground arith

-- The record that the logger reads of a decision is about the same order at the same time.
pub record IsAbout (d : Decision) (r : RiskDecision) : Type 0 where
  pub time : r.timestamp_ns ≡ d.timestamp_ns
  pub order : r.order_id ≡ d.order_id
  pub verdict : r.passed ≡ d.passed

pub decision_of-IsAbout : (d : Decision) (r : RiskDecision) → decision_of d ≡ ok r → IsAbout d r
unfolding decision_of
decision_of-IsAbout d r e =
    let (price_fp, p1, e1) = bind-eq-ok (finite d.price) _ e in
    let (notional_fp, p2, e2) = bind-eq-ok (finite d.notional) _ e1 in
    let (quantity_fp, p3, e3) = bind-eq-ok (finite d.quantity) _ e2 in
    let (net_fp, p4, e4) = bind-eq-ok (finite d.position_after) _ e3 in
    let (after_fp, p5, e5) = bind-eq-ok (finite d.notional_after) _ e4 in
    let (remaining, p6, e6) = bind-eq-ok (finite d.tokens_remaining) _ e5 in
    let (quantity, q1, f1) = bind-eq-ok (unsigned quantity_fp) _ e6 in
    let (price, q2, f2) = bind-eq-ok (unsigned price_fp) _ f1 in
    let (notional, q3, f3) = bind-eq-ok (unsigned notional_fp) _ f2 in
    let (tokens, q4, f4) = bind-eq-ok (unsigned remaining) _ f3 in
    let (after, q5, f5) = bind-eq-ok (unsigned after_fp) _ f4 in
    record { time = ground arith; order = ground arith; verdict = ground arith }

module _ {N S : Type 0} where
  pub log_decision_parts :
      (h : Blake2b) (d : Decision) (demo : DeribitDemo N S) {demo' : DeribitDemo N S}
      → log_decision h d demo ≡ ok demo'
      → (r : RiskDecision) × (s : AuditRecord × AuditLogger) × IsAbout d r
        × (log h demo.audit r ≡ ok s)
        × (record demo { audit = s.1; decisions_logged = demo.decisions_logged + 1 } ≡ demo')
  unfolding log_decision
  log_decision_parts h d demo e =
      let (r, p, e1) = bind-eq-ok (decision_of d) _ e in
      let (s, q, e2) = bind-eq-ok (log h demo.audit r) _ e1 in
      (r, s, decision_of-IsAbout d r p, q, ground arith)

  pub append_trace_record_parts :
      (ev : TickEvent N) (t_ingress t_egress : ℕ) (c : Cycles) (tx_id flags : ℕ)
      (demo : DeribitDemo N S) {demo' : DeribitDemo N S}
      → append_trace_record ev t_ingress t_egress c tx_id flags demo ≡ ok demo'
      → (bs : List ℕ) × (pack v12_struct (trace_fields ev t_ingress t_egress c tx_id flags) ≡ ok bs)
        × (record demo { trace_records = demo.trace_records ++ bs ∷ [] } ≡ demo')
  unfolding append_trace_record
  append_trace_record_parts ev t_in t_out c tx fl demo e =
      let (bs, p, q) = bind-eq-ok (pack v12_struct (trace_fields ev t_in t_out c tx fl)) _ e in
      (bs, p, ground arith)
