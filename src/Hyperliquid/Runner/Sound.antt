-- ===== src/Hyperliquid/Runner/Sound.antt =====
-- What holds of the runner between two intents, and that every intent keeps it.
use sentinel_hft.Prelude.{
  if_split, ℕ, ◌+◌, ◌<◌, ◌≤◌, ◌≡◌, refl, sym, ap, subst, Option, none, some, arith, Option-cases,
  inl, inr, ◌==◌,
}
use sentinel_hft.Prelude.Float.{Float}
use sentinel_hft.Prelude.Result.{ok, bind-eq-ok}
use sentinel_hft.Audit.Digest.{Blake2b}
use sentinel_hft.Risk.{IntentAction, new, cancel, QuoteIntent, RiskGate, Decision, build, evaluate}
use sentinel_hft.Risk.Outcome.{settled, settled-evaluate}
use sentinel_hft.Risk.Stamps.{evaluate-Stamped}
use sentinel_hft.Deribit.Pipeline.{Random, DeribitDemo, Cycles, cycles_to_ns}
use sentinel_hft.Deribit.Pipeline.Loop.{Tick, log_decision, confirm}
use sentinel_hft.Deribit.Pipeline.Stages.{log_decision_parts, append_trace_record_parts}
use sentinel_hft.Deribit.Pipeline.Audited.{Audited, log_decision-IsAudited, confirm-IsAudited}
use sentinel_hft.Compliance.Stack.{ComplianceStack, observe}
use sentinel_hft.Compliance.Stack.Agreement.{Agrees}
use sentinel_hft.Compliance.Stack.Streams.{one_if, observe-Observed}
use sentinel_hft.Audit.Logger.{AuditLogger}
use sentinel_hft.Hyperliquid.Scorer.{ToxicFlowScorer}
use sentinel_hft.Hyperliquid.Scorer.Settled.{IsBalanced}
use sentinel_hft.Hyperliquid.Guard.{ToxicFlowGuard}
use sentinel_hft.Hyperliquid.Runner.{
  HlRunConfig, HlRunner, action_code, seen_intent, seen_decision, log_in, observe_in,
  record_latency, toxic_decision,
}
use sentinel_hft.Hyperliquid.Runner.Loop.{send, reject_toxic, pass_gate}

one_action : (a : IntentAction) → one_if (action_code a == 1) + one_if (action_code a == 2) ≡ 1
one_action new = refl
one_action cancel = refl

module _ (F : Float) (R : Random (F.Num)) (h : Blake2b) (cfg : HlRunConfig F.Num) (low high : ℕ)
    (m : F.Num) where
  open F use {Num}
  open R use {State}

  abbrev pub Guarded : Option (ToxicFlowGuard Num) → ℕ → Type 0
  Guarded none n = n ≡ 0
  Guarded (some g) n = g.rejected ≡ n

  -- The observers agree, and have reported `n` intents.
  abbrev pub Watching : Option (ComplianceStack Num) → ℕ → Type 0
  Watching none n = Unit
  Watching (some k) n = Agrees F low high m k × (k.cat.count ≡ n)

  -- The components agree; the observers have seen `seen` intents.
  pub record Holds (audit : AuditLogger) (last generated logged : ℕ) (gate : RiskGate Num)
      (toxic : ℕ) (guard : Option (ToxicFlowGuard Num)) (compliance : Option (ComplianceStack Num))
      (scorer : ToxicFlowScorer Num) (seen : ℕ) : Type 0 where
    pub audited : Audited h audit last generated logged
    pub tallied : settled gate.counters + toxic ≡ logged
    pub guarded : Guarded guard toxic
    pub watching : Watching compliance seen
    pub balanced : IsBalanced F cfg.scorer scorer

  abbrev pub Sound : ℕ → HlRunner Num State → Type 0
  Sound seen r =
      Holds r.demo.audit r.demo.last_decision_ns r.demo.intents_generated r.demo.decisions_logged
        r.demo.gate r.rejected_toxic r.guard r.compliance r.scorer seen

  abbrev pub IsSound : HlRunner Num State → Type 0
  IsSound r = Sound r.demo.decisions_logged r

  -- An intent that is generated and not logged yet; `toxic` is what the guard has rejected.
  abbrev pub Waiting : ℕ → ℕ → HlRunner Num State → Type 0
  Waiting outcomes toxic r =
      (last : ℕ) × (generated : ℕ) × Audited h r.demo.audit last generated r.demo.decisions_logged
      × (last < r.demo.last_decision_ns)
      × (r.demo.intents_generated ≡ generated + 1)
      × (outcomes ≡ r.demo.decisions_logged)
      × Guarded r.guard toxic
      × Watching r.compliance r.demo.decisions_logged
      × IsBalanced F cfg.scorer r.scorer

  confirm-kept_gate :
      (i : QuoteIntent Num) (d : Decision) (demo : DeribitDemo Num State)
      → ((confirm F i d demo).gate ≡ demo.gate)
        × ((confirm F i d demo).decisions_logged ≡ demo.decisions_logged)
  unfolding confirm
  confirm-kept_gate i d demo =
      if_split
        (λ (x : DeribitDemo Num State).
          (x.gate ≡ demo.gate) × (x.decisions_logged ≡ demo.decisions_logged))
        _ (λ on. (refl, refl)) (λ off. (refl, refl))

  pub log_in-Sound :
      (d : Decision) (outcomes : ℕ) (r r' : HlRunner Num State)
      → log_in F h d r ≡ ok r'
      → Waiting outcomes r.rejected_toxic r
      → d.timestamp_ns ≡ r.demo.last_decision_ns
      → settled r.demo.gate.counters + r.rejected_toxic ≡ outcomes + 1
      → Sound r.demo.decisions_logged r' × (r'.demo.decisions_logged ≡ r.demo.decisions_logged + 1)
  unfolding log_in
  log_in-Sound d outcomes r r' e (last, generated, a, late, one_more, sum, g, w, b) now more =
      let (logged, p, q) = bind-eq-ok (log_decision h d r.demo) _ e in
      let (s, t, about, one, same) = log_decision_parts h d r.demo p in
      let a' = log_decision-IsAudited h d last generated r.demo logged p a late now one_more in
      let same' : record r { demo = logged } ≡ r' = ground arith in
      let count : logged.decisions_logged ≡ r.demo.decisions_logged + 1 =
        sym (ap (λ (x : DeribitDemo Num State). x.decisions_logged) same) in
      let gate : logged.gate ≡ r.demo.gate =
        sym (ap (λ (x : DeribitDemo Num State). x.gate) same) in
      subst
        (λ (x : HlRunner Num State).
          Sound r.demo.decisions_logged x × (x.demo.decisions_logged ≡ r.demo.decisions_logged + 1))
        same'
        (
          record {
            audited = a';
            tallied = rw gate (omega (arith, more, sum, count));
            guarded = g;
            watching = w;
            balanced = b;
          },
          count,
        )

  observe_in-IsSound :
      (i : QuoteIntent Num) (d : Decision) (n : ℕ) (r r' : HlRunner Num State)
      → 1 ≤ low
      → observe_in F i d r ≡ ok r'
      → Sound n r
      → r.demo.decisions_logged ≡ n + 1
      → IsSound r'
  unfolding observe_in
  observe_in-IsSound i d n r r' pos_low e s count = elim (Option-cases r.compliance) [
    | inl absent ↦
        let same : r ≡ r' = ground (arith, absent) in
        subst IsSound same (record {
          audited = s.audited;
          tallied = s.tallied;
          guarded = s.guarded;
          watching = rw absent tt;
          balanced = s.balanced;
        })
    | inr (k, there) ↦
        let seen =
          observe F (seen_intent i) (some (seen_decision d)) r.demo.last_decision_ns none k in
        let (step, p, q) = bind-eq-ok seen _ (rw (observe_in, there) at e) in
        let old : Watching (some k) n = rw there at s.watching in
        let o =
          observe-Observed F low high m (seen_intent i) (some (seen_decision d))
            r.demo.last_decision_ns none k pos_low old.0 in
        let both : step ≡ (o.warnings, o.after) = ground (arith, p, o.returned) in
        let after : step.1 ≡ o.after = ap (λ x. x.1) both in
        let same : record r { compliance = some step.1 } ≡ r' = ground arith in
        subst IsSound same (record {
          audited = s.audited;
          tallied = s.tallied;
          guarded = s.guarded;
          watching = rw after (
            o.agrees,
            omega (
              arith,
              o.agrees.records,
              o.news,
              o.cancels,
              one_action i.action,
              old.0.records,
              old.1,
              count,
            ),
          );
          balanced = s.balanced;
        })
  ]

  send-IsSound :
      (t : Tick Num) (d_risk : ℕ) (i : QuoteIntent Num) (d_egress flags : ℕ)
      (r r' : HlRunner Num State)
      → send F R t d_risk i d_egress flags r ≡ ok r'
      → IsSound r
      → IsSound r'
  unfolding send record_latency
  send-IsSound t d_risk i d_egress flags r r' e s =
      let cycles : Cycles = record {
        d_ingress = t.d_ingress;
        d_core = t.d_core;
        d_risk = d_risk;
        d_egress = d_egress;
      } in
      let sent = r.demo.last_decision_ns + cycles_to_ns d_egress in
      let timed = record_latency F t.event.wire_ts_ns sent cycles r in
      let (traced, p, q) = bind-eq-ok _ _ e in
      let (bs, packed, same) = append_trace_record_parts t.event _ _ _ _ _ timed.demo p in
      let same' : record timed { demo = traced } ≡ r' = ground arith in
      subst IsSound same'
        (subst (λ (x : DeribitDemo Num State). IsSound (record timed { demo = x })) same s)

  -- The guard rejected the intent.
  pub reject_toxic-IsSound :
      (t : Tick Num) (d_risk : ℕ) (i : QuoteIntent Num) (r r' : HlRunner Num State)
      → 1 ≤ low
      → reject_toxic F R h cfg t d_risk i r ≡ ok r'
      → Waiting (settled r.demo.gate.counters + r.rejected_toxic) (r.rejected_toxic + 1) r
      → IsSound r'
  unfolding reject_toxic toxic_decision build
  reject_toxic-IsSound t d_risk i r r' pos_low e w =
      let d = toxic_decision F i r.demo.last_decision_ns r.demo.gate in
      let (logged, p, e1) = bind-eq-ok (log_in F h d _) _ e in
      let (seen, q, e2) = bind-eq-ok (observe_in F i d logged) _ e1 in
      let (s, count) = log_in-Sound d _ _ logged p w refl (omega arith) in
      let s' = observe_in-IsSound i d _ logged seen pos_low q s count in
      send-IsSound t d_risk i _ _ _ r' e2 s'

  -- The risk gate evaluated the intent.
  pub pass_gate-IsSound :
      (t : Tick Num) (d_risk : ℕ) (i : QuoteIntent Num) (r r' : HlRunner Num State)
      → 1 ≤ low
      → pass_gate F R h cfg t d_risk i r ≡ ok r'
      → Waiting (settled r.demo.gate.counters + r.rejected_toxic) r.rejected_toxic r
      → IsSound r'
  unfolding pass_gate
  pass_gate-IsSound t d_risk i r r' pos_low e w =
      let now = r.demo.last_decision_ns in
      let (d, g) = evaluate F i now r.demo.gate in
      let (logged, p, e1) = bind-eq-ok (log_in F h d _) _ e in
      let (seen, q, e2) = bind-eq-ok (observe_in F i d _) _ e1 in
      let (s, count) =
        log_in-Sound d _ _ logged p w (evaluate-Stamped F i now r.demo.gate).0
          (omega (arith, settled-evaluate F i now r.demo.gate)) in
      let (gate, total) = confirm-kept_gate i d logged.demo in
      let s' =
        observe_in-IsSound i d _ _ seen pos_low q
          (record {
            audited = confirm-IsAudited F R h i d logged.demo s.audited;
            tallied = rw (gate, total) s.tallied;
            guarded = s.guarded;
            watching = s.watching;
            balanced = s.balanced;
          })
          (rw total count) in
      send-IsSound t d_risk i _ _ _ r' e2 s'
