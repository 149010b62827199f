-- ===== src/Hyperliquid/Runner/Intents.antt =====
-- What one intent does to the runner: the guard's verdict, then one of the two branches.
use sentinel_hft.Prelude.{
  if◌then◌else◌, ℕ, ◌+◌, ◌≤◌, ◌≡◌, refl, Bool, true, false, Option, none, some, List, [], ◌∷◌,
  arith, subst, Bool-cases, inl, inr,
}
use sentinel_hft.Prelude.Float.{Float}
use sentinel_hft.Prelude.Result.{Result, ok, bind-eq-ok}
use sentinel_hft.Audit.Digest.{Blake2b}
use sentinel_hft.Audit.Record.{RejectReason, accepted}
use sentinel_hft.Risk.{QuoteIntent, RiskGate, trip}
use sentinel_hft.Risk.Outcome.{settled}
use sentinel_hft.Deribit.Pipeline.{Random, is_cancel, cycles_to_ns}
use sentinel_hft.Deribit.Pipeline.Loop.{Tick}
use sentinel_hft.Deribit.Pipeline.Stages.{decision_time_late}
use sentinel_hft.Compliance.Stack.Streams.{one_if}
use sentinel_hft.Hyperliquid.Guard.{ToxicFlowGuard, check_flow}
use sentinel_hft.Hyperliquid.Guard.Verdict.{check_flow_iff}
use sentinel_hft.Hyperliquid.Runner.{HlRunConfig, HlRunner, is_flow_reject, guard_check}
use sentinel_hft.Hyperliquid.Runner.Loop.{
  prepare, reject_toxic, pass_gate, take_intent, take_intents,
}
use sentinel_hft.Hyperliquid.Runner.Sound.{
  Guarded, Waiting, IsSound, reject_toxic-IsSound, pass_gate-IsSound,
}

module _ (F : Float) (R : Random (F.Num)) (h : Blake2b) (cfg : HlRunConfig F.Num) (low high : ℕ)
    (m : F.Num) where
  open F use {Num}
  open R use {State}

  -- The guard's verdict changes the guard alone, which counts it.
  record Checked (i : QuoteIntent Num) (r : HlRunner Num State) (n : ℕ) : Type 0 where
    reason : RejectReason
    guard : Option (ToxicFlowGuard Num)
    returned : guard_check F cfg.scorer i r ≡ (reason, record r { guard = guard })
    counted : Guarded F R h cfg low high m guard (n + one_if (is_flow_reject reason))

  with_guard :
      (i : QuoteIntent Num) (r : HlRunner Num State) (n : ℕ) (o : Option (ToxicFlowGuard Num))
      → Guarded F R h cfg low high m o n
      → Checked i (record r { guard = o }) n
  unfolding guard_check
  with_guard i r n none g = record {
    reason = accepted;
    guard = none;
    returned = refl;
    counted = omega (arith, g);
  }
  with_guard i r n (some one) g = elim (Bool-cases (is_cancel i.action)) [
    | inl cancels ↦ record {
      reason = accepted;
      guard = some one;
      returned = rw cancels refl;
      counted = omega (arith, g);
    }
    | inr orders ↦
        let window = cfg.scorer.flow_window_ns in
        let now = r.demo.last_decision_ns in
        let x = check_flow F window i now r.scorer one in
        let verdict = (check_flow_iff F window now i r.scorer one).1 in
        record {
          reason = x.0;
          guard = some x.1;
          returned = rw orders refl;
          counted = elim verdict [
            | inl (hit, more) ↦ rw hit (omega (arith, g, more))
            | inr (clear, same) ↦ rw (clear, same) (omega (arith, g))
          ];
        }
  ]

  tripped_settled :
      (due : Bool) (g : RiskGate Num)
      → settled (if due then record g { kill = trip F g.kill } else g).counters ≡ settled g.counters
  tripped_settled true g = refl
  tripped_settled false g = refl

  -- The guard's verdict sends an intent to one of the two branches.
  pub take_intent_cases :
      (P : Result (HlRunner Num State) → Type 0) (t : Tick Num) (i : QuoteIntent Num)
      (r : HlRunner Num State)
      → IsSound F R h cfg low high m r
      → ((d_risk : ℕ) (x : HlRunner Num State)
          → Waiting F R h cfg low high m
              (settled x.demo.gate.counters + x.rejected_toxic)
              (x.rejected_toxic + 1)
              x
          → P (reject_toxic F R h cfg t d_risk i x))
      → ((d_risk : ℕ) (x : HlRunner Num State)
          → Waiting F R h cfg low high m
              (settled x.demo.gate.counters + x.rejected_toxic)
              x.rejected_toxic
              x
          → P (pass_gate F R h cfg t d_risk i x))
      → P (take_intent F R h cfg t i r)
  unfolding take_intent prepare
  take_intent_cases P t i r s toxic gate =
      let (d_risk, ready) = prepare F R cfg t.core_ts r in
      let c = with_guard i ready r.rejected_toxic r.guard s.guarded in
      let x : HlRunner Num State = record ready { guard = c.guard } in
      let late = (decision_time_late (t.core_ts + cycles_to_ns d_risk) r.demo.last_decision_ns).0 in
      let outcomes : settled ready.demo.gate.counters + r.rejected_toxic ≡ r.demo.decisions_logged =
        omega (arith, tripped_settled _ r.demo.gate, s.tallied) in
      rw c.returned (elim (Bool-cases (is_flow_reject c.reason)) [
        | inl hit ↦ rw hit (
            toxic d_risk x (
              _,
              _,
              s.audited,
              late,
              refl,
              outcomes,
              (rw hit at c.counted),
              s.watching,
              s.balanced,
            ))
        | inr clear ↦
            let same =
              subst (Guarded F R h cfg low high m c.guard) (rw clear (omega arith)) c.counted in
            rw clear
              (gate d_risk x (_, _, s.audited, late, refl, outcomes, same, s.watching, s.balanced))
      ])

  pub take_intent-IsSound :
      (t : Tick Num) (i : QuoteIntent Num) (r r' : HlRunner Num State)
      → 1 ≤ low
      → take_intent F R h cfg t i r ≡ ok r'
      → IsSound F R h cfg low high m r
      → IsSound F R h cfg low high m r'
  take_intent-IsSound t i r r' pos_low e s =
      take_intent_cases (λ x. x ≡ ok r' → IsSound F R h cfg low high m r') t i r s
        (λ d_risk x w done.
          reject_toxic-IsSound F R h cfg low high m t d_risk i x r' pos_low done w)
        (λ d_risk x w done. pass_gate-IsSound F R h cfg low high m t d_risk i x r' pos_low done w) e

  pub take_intents-IsSound :
      (t : Tick Num) (is : List (QuoteIntent Num)) (r r' : HlRunner Num State)
      → 1 ≤ low
      → take_intents F R h cfg t is r ≡ ok r'
      → IsSound F R h cfg low high m r
      → IsSound F R h cfg low high m r'
  unfolding take_intents
  take_intents-IsSound t [] r r' pos_low e s =
      let same : r ≡ r' = ground arith in subst (IsSound F R h cfg low high m) same s
  take_intents-IsSound t (i ∷ is) r r' pos_low e s =
      let (next, p, q) = bind-eq-ok (take_intent F R h cfg t i r) _ e in
      take_intents-IsSound t is next r' pos_low q (take_intent-IsSound t i r next pos_low p s)
