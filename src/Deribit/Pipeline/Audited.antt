-- ===== src/Deribit/Pipeline/Audited.antt =====
-- The audit log of a run: its decisions are in the order of their clock, so the verifier accepts it.
use sentinel_hft.Prelude.{
  if_split, ℕ, ◌+◌, ◌≤◌, ◌<◌, ◌≡◌, refl, sym, ◌∙◌, subst, Bool, none, List, [], ◌∷◌, ◌++◌, length,
  arith, length-append,
}
use sentinel_hft.Prelude.Int.{pos, negsuc}
use sentinel_hft.Prelude.Float.{Float}
use sentinel_hft.Prelude.Result.{ok, bind-eq-ok}
use sentinel_hft.Audit.Digest.{Blake2b}
use sentinel_hft.Audit.Record.{AuditRecord}
use sentinel_hft.Audit.Logger.{RiskDecision, AuditLogger, seed_prev_hash, new_logger, log, log_all}
use sentinel_hft.Audit.Verifier.{verify}
use sentinel_hft.Audit.Verifier.Chain.{clean_result}
use sentinel_hft.Audit.Verifier.Logged.{Clocked, verify-log_all}
use sentinel_hft.Risk.{QuoteIntent, RiskGateConfig, Decision}
use sentinel_hft.Risk.Stamps.{evaluate-Stamped}
use sentinel_hft.Deribit.Book.{TickEvent}
use sentinel_hft.Deribit.Strategy.{SpreadMmStrategy}
use sentinel_hft.Deribit.Pipeline.{Random, DemoConfig, DeribitDemo, new_demo}
use sentinel_hft.Deribit.Pipeline.Loop.{
  Tick, log_decision, confirm, decide, egress, consume_intent, no_order, consume_all, consume_tick,
}
use sentinel_hft.Deribit.Pipeline.Preserved.{consume_tick_keeps, consume_all_keeps}
use sentinel_hft.Deribit.Pipeline.Stages.{
  decision_time_late, log_decision_parts, append_trace_record_parts,
}

-- The times of the decisions rise strictly, from above `from` to at most `to`.
abbrev pub Ticking : ℕ → List RiskDecision → ℕ → Type 0
Ticking from [] to = from ≤ to
Ticking from (d ∷ ds) to = (from < d.timestamp_ns) × Ticking d.timestamp_ns ds to

Ticking-append :
    (from to : ℕ) (ds : List RiskDecision) (d : RiskDecision)
    → Ticking from ds to
    → to < d.timestamp_ns
    → Ticking from (ds ++ d ∷ []) d.timestamp_ns
Ticking-append from to [] d t h = (omega arith, omega arith)
Ticking-append from to (e ∷ ds) d t h = (t.0, Ticking-append e.timestamp_ns to ds d t.1 h)

Clocked-Ticking :
    (from to : ℕ) (ds : List RiskDecision) → Ticking from ds to → Clocked (pos from) ds
Clocked-Ticking from to [] t = tt
Clocked-Ticking from to (d ∷ ds) t = (omega (arith, t.0), Clocked-Ticking d.timestamp_ns to ds t.1)

Clocked-negsuc : (ds : List RiskDecision) → Clocked (pos 0) ds → Clocked (negsuc 0) ds
Clocked-negsuc [] c = tt
Clocked-negsuc (d ∷ ds) c = (omega arith, c.1)

log_all-append :
    (h : Blake2b) (l l' : AuditLogger) (ds : List RiskDecision) (d : RiskDecision)
    (s : AuditRecord × AuditLogger)
    → log_all h l ds ≡ ok l'
    → log h l' d ≡ ok s
    → log_all h l (ds ++ d ∷ []) ≡ ok s.1
unfolding log_all
log_all-append h l l' [] d s e one = let same : l ≡ l' = ground arith in rw (same, one)
log_all-append h l l' (c ∷ ds) d s e one =
    let (first, p, rest) = bind-eq-ok (log h l c) _ e in
    rw p (log_all-append h first.1 l' ds d s rest one)

-- What the demo's fields say of its audit log.
pub record Audited (h : Blake2b) (audit : AuditLogger) (last generated logged : ℕ) : Type 0 where
  pub decisions : List RiskDecision
  pub log_all_lem : log_all h (new_logger none) decisions ≡ ok audit
  pub ticking : Ticking 0 decisions last
  pub counted : length decisions ≡ logged
  pub generated_lem : generated ≡ logged

abbrev pub IsAudited : {N S : Type 0} → Blake2b → DeribitDemo N S → Type 0
IsAudited h demo =
    Audited h demo.audit demo.last_decision_ns demo.intents_generated demo.decisions_logged

-- One more decision, later than all before.
Audited-log :
    (h : Blake2b) (audit : AuditLogger) (last now generated logged : ℕ) (r : RiskDecision)
    (s : AuditRecord × AuditLogger)
    → Audited h audit last generated logged
    → last < now
    → r.timestamp_ns ≡ now
    → log h audit r ≡ ok s
    → Audited h s.1 now (generated + 1) (logged + 1)
Audited-log h audit last now generated logged r s a late time one = record {
  decisions = a.decisions ++ r ∷ [];
  log_all_lem = log_all-append h (new_logger none) audit a.decisions r s a.log_all_lem one;
  ticking =
      subst (Ticking 0 (a.decisions ++ r ∷ [])) time
        (Ticking-append 0 last a.decisions r a.ticking (omega (arith, late, time)));
  counted = omega (arith, length-append a.decisions (r ∷ []), a.counted);
  generated_lem = omega (arith, a.generated_lem);
}

-- The verifier accepts such a log in full.
pub verify-IsAudited :
    {N S : Type 0} (h : Blake2b) (demo : DeribitDemo N S)
    → IsAudited h demo
    → (length demo.audit.records ≡ demo.decisions_logged)
      × (verify h seed_prev_hash demo.audit.records
          ≡ ok (clean_result demo.audit.prev_hash_lo demo.audit.records))
verify-IsAudited h demo a =
    let (len, clean) =
      verify-log_all h none a.decisions demo.audit
        (Clocked-negsuc a.decisions (Clocked-Ticking 0 demo.last_decision_ns a.decisions a.ticking))
        a.log_all_lem in
    (len ∙ a.counted, clean)

pub new_demo-IsAudited :
    {S : Type 0} (F : Float) (h : Blake2b) (risk : RiskGateConfig F.Num)
    (strategy : SpreadMmStrategy F.Num) (rng : S)
    → IsAudited h (new_demo F risk strategy rng)
unfolding new_demo log_all
new_demo-IsAudited F h risk strategy rng = record {
  decisions = [];
  log_all_lem = refl;
  ticking = omega arith;
  counted = refl;
  generated_lem = refl;
}

-- Logging a decision of the present time, when one more intent was generated than decisions logged.
pub log_decision-IsAudited :
    {N S : Type 0} (h : Blake2b) (d : Decision) (last generated : ℕ) (demo demo' : DeribitDemo N S)
    → log_decision h d demo ≡ ok demo'
    → Audited h demo.audit last generated demo.decisions_logged
    → last < demo.last_decision_ns
    → d.timestamp_ns ≡ demo.last_decision_ns
    → demo.intents_generated ≡ generated + 1
    → IsAudited h demo'
log_decision-IsAudited h d last generated demo demo' e a late now one_more =
    let (r, s, about, one, same) = log_decision_parts h d demo e in
    subst (IsAudited h) same (
      subst (λ (n : ℕ). Audited h s.1 demo.last_decision_ns n (demo.decisions_logged + 1))
        (sym one_more)
        (Audited-log h demo.audit last demo.last_decision_ns generated demo.decisions_logged r s a
          late (about.time ∙ now) one))

module _ (F : Float) (R : Random (F.Num)) (h : Blake2b) where
  open F use {Num}
  open R use {State}

  pub confirm-IsAudited :
      (i : QuoteIntent Num) (d : Decision) (demo : DeribitDemo Num State)
      → IsAudited h demo
      → IsAudited h (confirm F i d demo)
  unfolding confirm
  confirm-IsAudited i d demo a = if_split (IsAudited h) _ (λ on. a) (λ off. a)

  egress-IsAudited :
      (cfg : DemoConfig Num) (t : Tick Num) (d_risk : ℕ) (i : QuoteIntent Num) (d : Decision)
      (demo demo' : DeribitDemo Num State)
      → egress F R cfg t d_risk i d demo ≡ ok demo'
      → IsAudited h demo
      → IsAudited h demo'
  unfolding egress
  egress-IsAudited cfg t d_risk i d demo demo' e a =
      let (bs, p, same) = append_trace_record_parts t.event _ _ _ _ _ _ e in
      subst (IsAudited h) same a

  pub consume_intent-IsAudited :
      (cfg : DemoConfig Num) (t : Tick Num) (first : Bool) (i : QuoteIntent Num)
      (demo demo' : DeribitDemo Num State)
      → consume_intent F R h cfg t first i demo ≡ ok demo'
      → IsAudited h demo
      → IsAudited h demo'
  unfolding consume_intent decide
  consume_intent-IsAudited cfg t first i demo demo' e a =
      let x = decide F R cfg t.core_ts first i demo in
      let (logged, p, q) = bind-eq-ok (log_decision h x.decision x.demo) _ e in
      egress-IsAudited cfg t x.d_risk x.intent x.decision _ demo' q (
        confirm-IsAudited x.intent x.decision logged (
          log_decision-IsAudited h x.decision demo.last_decision_ns demo.intents_generated x.demo
            logged p a (decision_time_late _ demo.last_decision_ns).0
            (evaluate-Stamped F x.intent _ _).0 refl))

  pub no_order-IsAudited :
      (cfg : DemoConfig Num) (t : Tick Num) (demo demo' : DeribitDemo Num State)
      → no_order F R cfg.budgets.egress t demo ≡ ok demo'
      → IsAudited h demo
      → IsAudited h demo'
  unfolding no_order
  no_order-IsAudited cfg t demo demo' e a =
      let (bs, p, same) = append_trace_record_parts t.event _ _ _ _ _ _ e in
      subst (IsAudited h) same a

  pub consume_tick-IsAudited :
      (cfg : DemoConfig Num) (ev : TickEvent Num) (demo demo' : DeribitDemo Num State)
      → consume_tick F R h cfg ev demo ≡ ok demo'
      → IsAudited h demo
      → IsAudited h demo'
  consume_tick-IsAudited cfg =
      consume_tick_keeps F R h cfg (IsAudited h) (λ ev core_ts s x y e b. b)
        (λ t first i x y time. consume_intent-IsAudited cfg t first i x y)
        (λ t x y time. no_order-IsAudited cfg t x y) (λ n x b. b)

  -- The audit log of a run is verified in full: on any ticks and draws, a run that ends without an
  -- exception has logged one record for each intent that the strategy generated, at strictly rising
  -- times, and the verifier finds no break in the log.
  pub verify-consume_all :
      (risk : RiskGateConfig Num) (strategy : SpreadMmStrategy Num) (rng : State)
      (cfg : DemoConfig Num) (evs : List (TickEvent Num)) (demo : DeribitDemo Num State)
      → consume_all F R h cfg evs (new_demo F risk strategy rng) ≡ ok demo
      → (demo.decisions_logged ≡ demo.intents_generated)
        × (length demo.audit.records ≡ demo.decisions_logged)
        × ((ds : List RiskDecision) × Ticking 0 ds demo.last_decision_ns
            × (log_all h (new_logger none) ds ≡ ok demo.audit))
        × (verify h seed_prev_hash demo.audit.records
            ≡ ok (clean_result demo.audit.prev_hash_lo demo.audit.records))
  verify-consume_all risk strategy rng cfg evs demo e =
      let a =
        consume_all_keeps F R h cfg (IsAudited h) (λ ev core_ts s x y e b. b)
          (λ t first i x y time. consume_intent-IsAudited cfg t first i x y)
          (λ t x y time. no_order-IsAudited cfg t x y) (λ n x b. b) evs
          (new_demo F risk strategy rng) demo e (new_demo-IsAudited F h risk strategy rng) in
      let (len, clean) = verify-IsAudited h demo a in
      (sym a.generated_lem, len, (a.decisions, a.ticking, a.log_all_lem), clean)
