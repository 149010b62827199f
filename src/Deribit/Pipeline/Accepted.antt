-- ===== src/Deribit/Pipeline/Accepted.antt =====
-- The strategy and the audit log of a run: what the strategy holds to be on the book was accepted.
use sentinel_hft.Prelude.{if_split, ℕ, ◌≡◌, ap, ◌∙◌, subst, Bool, true, List, [], ◌∷◌, ◌++◌, arith}
use sentinel_hft.Prelude.Float.{Float}
use sentinel_hft.Prelude.Result.{ok, bind-eq-ok, IfReturned, IfReturned-ok, IfReturned-map}
use sentinel_hft.Audit.Digest.{Blake2b}
use sentinel_hft.Audit.Record.{AuditRecord}
use sentinel_hft.Audit.Logger.{RiskDecision, AuditLogger, record_of, log}
use sentinel_hft.Audit.Verifier.Logged.{log_parts, flags_of-record_of}
use sentinel_hft.Risk.{QuoteIntent, Decision}
use sentinel_hft.Risk.Stamps.{evaluate-Stamped}
use sentinel_hft.Deribit.Book.{TickEvent, TopOfBook}
use sentinel_hft.Deribit.Strategy.{on_tick}
use sentinel_hft.Deribit.Strategy.Live.{
  Ticked, Accepted, IsBacked, IsBacked-more, CancelsAccepted, on_tick-Ticked, confirm_new-IsBacked,
}
use sentinel_hft.Deribit.Pipeline.{Random, DemoConfig, DeribitDemo}
use sentinel_hft.Deribit.Pipeline.Loop.{
  Tick, log_decision, confirm, decide, egress, consume_intent, no_order, consume_all,
}
use sentinel_hft.Deribit.Pipeline.Preserved.{consume_all_keeps}
use sentinel_hft.Deribit.Pipeline.Stages.{log_decision_parts, append_trace_record_parts}

abbrev Backed : {N S : Type 0} → DeribitDemo N S → Type 0
Backed demo = IsBacked demo.audit.records demo.strategy

-- The record that `log` appends is about the order of the decision, with its verdict.
logged_records :
    (h : Blake2b) (l : AuditLogger) (r : RiskDecision) (s : AuditRecord × AuditLogger)
    → log h l r ≡ ok s
    → s.1.records ≡ l.records ++ record_of l r ∷ []
logged_records h l r s e =
    let (next, hashed, same) = log_parts h l r s e in ap (λ (x : AuditLogger). x.records) same

logged-Accepted :
    (h : Blake2b) (l : AuditLogger) (r : RiskDecision) (s : AuditRecord × AuditLogger) (id : ℕ)
    → log h l r ≡ ok s
    → r.order_id ≡ id
    → r.passed ≡ true
    → Accepted s.1.records id
logged-Accepted h l r s id e about is_passed = record {
  before = l.records;
  rec = record_of l r;
  after = [];
  split = logged_records h l r s e;
  order = unfold record_of in about;
  verdict = (flags_of-record_of l r).0 ∙ is_passed;
}

module _ (F : Float) (R : Random (F.Num)) (h : Blake2b) where
  open F use {Num, lt, of_nat}
  open R use {State}

  confirm-Backed :
      (i : QuoteIntent Num) (d : Decision) (demo : DeribitDemo Num State)
      → (d.passed ≡ true → Accepted demo.audit.records i.order_id)
      → Backed demo
      → Backed (confirm F i d demo)
  unfolding confirm
  confirm-Backed i d demo one a =
      if_split Backed _
        (λ on. confirm_new-IsBacked F demo.audit.records i demo.strategy (one (ground arith)) a)
        (λ off. a)

  egress-Backed :
      (cfg : DemoConfig Num) (t : Tick Num) (d_risk : ℕ) (i : QuoteIntent Num) (d : Decision)
      (demo demo' : DeribitDemo Num State)
      → egress F R cfg t d_risk i d demo ≡ ok demo'
      → Backed demo
      → Backed demo'
  unfolding egress
  egress-Backed cfg t d_risk i d demo demo' e a =
      let (bs, p, same) = append_trace_record_parts t.event _ _ _ _ _ _ e in subst Backed same a

  consume_intent-Backed :
      (cfg : DemoConfig Num) (t : Tick Num) (first : Bool) (i : QuoteIntent Num)
      (demo demo' : DeribitDemo Num State)
      → consume_intent F R h cfg t first i demo ≡ ok demo'
      → Backed demo
      → Backed demo'
  unfolding consume_intent decide
  consume_intent-Backed cfg t first i demo demo' e a =
      let x = decide F R cfg t.core_ts first i demo in
      let (logged, p, q) = bind-eq-ok (log_decision h x.decision x.demo) _ e in
      let (r, s, about, one, same) = log_decision_parts h x.decision x.demo p in
      let longer = logged_records h demo.audit r s one in
      egress-Backed cfg t x.d_risk x.intent x.decision _ demo' q (
        confirm-Backed x.intent x.decision logged
          (λ is_passed.
            subst (λ (y : DeribitDemo Num State). Accepted y.audit.records x.intent.order_id) same
              (logged-Accepted h demo.audit r s x.intent.order_id one
                (about.order ∙ (evaluate-Stamped F x.intent _ _).1) (about.verdict ∙ is_passed)))
          (subst Backed same (rw longer (IsBacked-more _ _ demo.strategy a))))

  no_order-Backed :
      (cfg : DemoConfig Num) (t : Tick Num) (demo demo' : DeribitDemo Num State)
      → no_order F R cfg.budgets.egress t demo ≡ ok demo'
      → Backed demo
      → Backed demo'
  unfolding no_order
  no_order-Backed cfg t demo demo' e a =
      let (bs, p, same) = append_trace_record_parts t.event _ _ _ _ _ _ e in subst Backed same a

  -- From a strategy whose lists hold accepted orders only, such as a new one, every run that ends
  -- without an exception leaves such a strategy: each order that it holds to be on the book has a
  -- record in the audit log that says that the gate passed it. On any further tick on which the
  -- strategy does not raise, every order that it cancels has such a record.
  pub consume_all-IsBacked :
      (cfg : DemoConfig Num) (evs : List (TickEvent Num)) (demo demo' : DeribitDemo Num State)
      (book : TopOfBook Num) (now : ℕ)
      → consume_all F R h cfg evs demo ≡ ok demo'
      → IsBacked demo.audit.records demo.strategy
      → IsBacked demo'.audit.records demo'.strategy
        × IfReturned
            (λ x. CancelsAccepted demo'.audit.records x.0)
            (on_tick F book now demo'.strategy)
  consume_all-IsBacked cfg evs demo demo' book now e a =
      let backed =
        consume_all_keeps F R h cfg Backed
          (λ ev core_ts s x y quoted b.
            (IfReturned-ok (Ticked F x.audit.records) _ quoted
              (on_tick-Ticked F x.audit.records _ core_ts x.strategy b)).backed)
          (λ t first i x y time. consume_intent-Backed cfg t first i x y)
          (λ t x y time. no_order-Backed cfg t x y) (λ n x b. b) evs demo demo' e a in
      (
        backed,
        IfReturned-map _ _ (on_tick F book now demo'.strategy)
            (λ x (ticked : Ticked F demo'.audit.records x). ticked.cancelled)
            (on_tick-Ticked F demo'.audit.records book now demo'.strategy backed),
      )
