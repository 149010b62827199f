-- ===== src/Hyperliquid/Runner/Raises.antt =====
-- What an intent may raise: what a conversion or a record does. The observers raise nothing.
use sentinel_hft.Prelude.{ℕ, ◌+◌, ◌≤◌, refl, Option, none, some, List, [], ◌∷◌, arith}
use sentinel_hft.Prelude.Float.{Float}
use sentinel_hft.Prelude.Result.{IsNumeric, OnlyRaises, bind-OnlyRaises, bind-OnlyRaises_ok}
use sentinel_hft.Audit.Digest.{Blake2b}
use sentinel_hft.Risk.{QuoteIntent, Decision, build, evaluate}
use sentinel_hft.Risk.Outcome.{settled, settled-evaluate}
use sentinel_hft.Risk.Stamps.{evaluate-Stamped}
use sentinel_hft.Deribit.Pipeline.{Random, append_trace_record}
use sentinel_hft.Deribit.Pipeline.Loop.{Tick, log_decision, confirm}
use sentinel_hft.Deribit.Pipeline.Raises.{log_decision-OnlyRaises, append_trace_record-OnlyRaises}
use sentinel_hft.Compliance.Stack.{ComplianceStack}
use sentinel_hft.Compliance.Stack.Streams.{observe-Observed}
use sentinel_hft.Hyperliquid.Runner.{
  HlRunConfig, HlRunner, seen_intent, seen_decision, toxic_decision, log_in, observe_in,
}
use sentinel_hft.Hyperliquid.Runner.Loop.{send, reject_toxic, pass_gate, take_intent, take_intents}
use sentinel_hft.Hyperliquid.Runner.Sound.{Watching, IsSound, Waiting, log_in-Sound}
use sentinel_hft.Hyperliquid.Runner.Intents.{take_intent_cases, take_intent-IsSound}

module _ (F : Float) (R : Random (F.Num)) (h : Blake2b) (cfg : HlRunConfig F.Num) (low high : ℕ)
    (m : F.Num) (pos_low : 1 ≤ low) where
  open F use {Num}
  open R use {State}

  seen_by :
      (i : QuoteIntent Num) (d : Decision) (n : ℕ) (r : HlRunner Num State)
      (o : Option (ComplianceStack Num))
      → Watching F R h cfg low high m o n
      → OnlyRaises IsNumeric (observe_in F i d (record r { compliance = o }))
  unfolding observe_in
  seen_by i d n r none w = tt
  seen_by i d n r (some k) w =
      let o =
        observe-Observed F low high m (seen_intent i) (some (seen_decision d))
          r.demo.last_decision_ns none k pos_low w.0 in
      rw o.returned tt

  log_in-OnlyRaises :
      (d : Decision) (outcomes toxic : ℕ) (r : HlRunner Num State)
      → Waiting F R h cfg low high m outcomes toxic r
      → OnlyRaises IsNumeric (log_in F h d r)
  unfolding log_in
  log_in-OnlyRaises d outcomes toxic r w =
      bind-OnlyRaises_ok IsNumeric (log_decision h d r.demo) _
        (log_decision-OnlyRaises h d r.demo w.2.decisions w.2.log_all_lem)

  send-OnlyRaises :
      (t : Tick Num) (d_risk : ℕ) (i : QuoteIntent Num) (d_egress flags : ℕ)
      (r : HlRunner Num State)
      → OnlyRaises IsNumeric (send F R t d_risk i d_egress flags r)
  unfolding send
  send-OnlyRaises t d_risk i d_egress flags r =
      bind-OnlyRaises_ok IsNumeric (append_trace_record t.event _ _ _ _ _ _) _
        (append_trace_record-OnlyRaises t.event _ _ _ _ _ _)

  reject_toxic-OnlyRaises :
      (t : Tick Num) (d_risk : ℕ) (i : QuoteIntent Num) (r : HlRunner Num State)
      → Waiting F R h cfg low high m
          (settled r.demo.gate.counters + r.rejected_toxic)
          (r.rejected_toxic + 1)
          r
      → OnlyRaises IsNumeric (reject_toxic F R h cfg t d_risk i r)
  unfolding reject_toxic toxic_decision build
  reject_toxic-OnlyRaises t d_risk i r w =
      let d = toxic_decision F i r.demo.last_decision_ns r.demo.gate in
      let counted : HlRunner Num State = record r { rejected_toxic = r.rejected_toxic + 1 } in
      bind-OnlyRaises IsNumeric (log_in F h d counted) _ (log_in-OnlyRaises d _ _ counted w)
        (λ logged p.
          let s = (log_in-Sound F R h cfg low high m d _ counted logged p w refl (omega arith)).0 in
          bind-OnlyRaises IsNumeric (observe_in F i d logged) _
            (seen_by i d _ logged logged.compliance s.watching)
            (λ seen q. send-OnlyRaises t d_risk i _ _ _))

  pass_gate-OnlyRaises :
      (t : Tick Num) (d_risk : ℕ) (i : QuoteIntent Num) (r : HlRunner Num State)
      → Waiting F R h cfg low high m
          (settled r.demo.gate.counters + r.rejected_toxic)
          r.rejected_toxic
          r
      → OnlyRaises IsNumeric (pass_gate F R h cfg t d_risk i r)
  unfolding pass_gate
  pass_gate-OnlyRaises t d_risk i r w =
      let demo = r.demo in
      let now = demo.last_decision_ns in
      let (d, g) = evaluate F i now demo.gate in
      let gated : HlRunner Num State = record r { demo = record demo { gate = g } } in
      bind-OnlyRaises IsNumeric (log_in F h d gated) _ (log_in-OnlyRaises d _ _ gated w)
        (λ logged p.
          let s =
            (log_in-Sound F R h cfg low high m d _ gated logged p w
              (evaluate-Stamped F i now r.demo.gate).0
              (omega (arith, settled-evaluate F i now r.demo.gate))).0 in
          bind-OnlyRaises IsNumeric (observe_in F i d _) _
            (seen_by i d _ (record logged { demo = confirm F i d logged.demo }) logged.compliance
              s.watching)
            (λ seen q. send-OnlyRaises t d_risk i _ _ _))

  pub take_intents-OnlyRaises :
      (t : Tick Num) (is : List (QuoteIntent Num)) (r : HlRunner Num State)
      → IsSound F R h cfg low high m r
      → OnlyRaises IsNumeric (take_intents F R h cfg t is r)
  unfolding take_intents
  take_intents-OnlyRaises t [] r s = tt
  take_intents-OnlyRaises t (i ∷ is) r s =
      bind-OnlyRaises IsNumeric (take_intent F R h cfg t i r) _
        (take_intent_cases F R h cfg low high m (OnlyRaises IsNumeric) t i r s
          (λ d_risk x w. reject_toxic-OnlyRaises t d_risk i x w)
          (λ d_risk x w. pass_gate-OnlyRaises t d_risk i x w))
        (λ r' e.
          take_intents-OnlyRaises t is r'
            (take_intent-IsSound F R h cfg low high m t i r r' pos_low e s))
