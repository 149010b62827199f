-- ===== src/Hyperliquid/Runner/Runs.antt =====
-- Whole runs of the Hyperliquid runner: what the report says, and that the observers have seen
-- everything.
use sentinel_hft.Prelude.{
  ◌⊎◌, inl, inr, if_split, ℕ, ◌+◌, ◌≤◌, ◌≡◌, refl, true, Option, List, arith, sym, length,
}
use sentinel_hft.Prelude.Float.{Float}
use sentinel_hft.Prelude.Result.{Error, IsNumeric, ok, err, Result-cases}
use sentinel_hft.Audit.Digest.{Blake2b}
use sentinel_hft.Risk.{RiskGateConfig, new_gate}
use sentinel_hft.Deribit.Strategy.{SpreadMmStrategy}
use sentinel_hft.Deribit.Pipeline.{Random, new_demo}
use sentinel_hft.Compliance.Stack.{ComplianceStack}
use sentinel_hft.Compliance.Stack.Streams.{new_stack, new_stack-Agrees}
use sentinel_hft.Hyperliquid.Fixture.{HlTickEvent}
use sentinel_hft.Hyperliquid.Scorer.Profiles.{summarise_total}
use sentinel_hft.Hyperliquid.Guard.{ToxicFlowGuard}
use sentinel_hft.Hyperliquid.Runner.Report.{HlRunArtifacts, report, run_stream}
use sentinel_hft.Deribit.Pipeline.Audited.{verify-IsAudited, new_demo-IsAudited}
use sentinel_hft.Hyperliquid.Scorer.Settled.{IsBalanced, new_scorer-IsBalanced}
use sentinel_hft.Hyperliquid.Runner.{HlRunConfig, HlRunner, new_runner}
use sentinel_hft.Hyperliquid.Runner.Loop.{take_ticks}
use sentinel_hft.Hyperliquid.Runner.Sound.{Guarded, Watching, IsSound}
use sentinel_hft.Hyperliquid.Runner.Ticks.{take_ticks-IsSound, take_ticks-OnlyRaises}

module _ (F : Float) (R : Random (F.Num)) (h : Blake2b) (cfg : HlRunConfig F.Num) (low high : ℕ)
    (m : F.Num) where
  open F use {Num, of_nat, lt}
  open R use {State}

  abbrev Good : HlRunner Num State → Type 0
  Good = IsSound F R h cfg low high m

  module _ (window on_book : ℕ) (max_ratio : Num) (risk : RiskGateConfig Num)
      (strategy : SpreadMmStrategy Num) (rng : State) where
    -- A runner with fresh observers.
    abbrev pub fresh : HlRunner Num State
    fresh = new_runner F cfg risk strategy (new_stack F low window on_book high max_ratio m) rng

    pub fresh-IsSound : Good fresh
    unfolding new_runner new_demo new_gate
    fresh-IsSound = record {
      audited = new_demo-IsAudited F h risk strategy rng;
      tallied = omega arith;
      guarded =
          if_split (λ (o : Option (ToxicFlowGuard Num)). Guarded F R h cfg low high m o 0)
            cfg.enable_toxic_guard (λ on. refl) (λ off. refl);
      watching =
          if_split (λ (o : Option (ComplianceStack Num)). Watching F R h cfg low high m o 0)
            cfg.enable_compliance
            (λ on. (new_stack-Agrees F low window on_book high max_ratio m, refl)) (λ off. tt);
      balanced = new_scorer-IsBalanced F cfg.scorer;
    }

    ticks_end :
        (evs : List (HlTickEvent Num))
        → 1 ≤ low
        → ((x : Error) × IsNumeric x × (take_ticks F R h cfg evs fresh ≡ err x))
          ⊎ ((r : HlRunner Num State) × (take_ticks F R h cfg evs fresh ≡ ok r))
    ticks_end evs pos_low = elim (Result-cases (take_ticks F R h cfg evs fresh)) [
      | inl x ↦ inr x
      | inr (x, e) ↦
          let only = take_ticks-OnlyRaises F R h cfg low high m evs fresh pos_low fresh-IsSound in
          inl (x, rw e at only, e)
    ]

    -- A report in which everything is accounted for.
    abbrev pub Accounted : List (HlTickEvent Num) → HlRunner Num State → HlRunArtifacts → Type 0
    Accounted evs r a =
        (take_ticks F R h cfg evs fresh ≡ ok r)
        × (run_stream F R h cfg evs fresh ≡ ok a)
        × (a.chain_ok ≡ true)
        × (a.decisions_logged ≡ a.intents_generated)
        × (length r.demo.audit.records ≡ a.decisions_logged)
        × (a.passed + a.rejected ≡ a.decisions_logged)
        × (a.takers_classified_toxic + a.takers_classified_neutral + a.takers_classified_benign
            ≡ a.taker_population)

    run_stream-Accounted :
        (evs : List (HlTickEvent Num)) (r : HlRunner Num State)
        → 1 ≤ low
        → take_ticks F R h cfg evs fresh ≡ ok r
        → Accounted evs r (report r true)
    unfolding run_stream report
    run_stream-Accounted evs r pos_low e =
        let s = take_ticks-IsSound F R h cfg low high m evs fresh r pos_low e fresh-IsSound in
        let (len, clean) = verify-IsAudited h r.demo s.audited in
        (
          e,
          rw (e, clean) refl,
          refl,
          sym s.audited.generated_lem,
          len,
          omega (arith, s.tallied),
          summarise_total r.scorer,
        )

    -- With fresh observers whose `min_cancelled` is at least 1, a run on any ticks and draws either
    -- raises a numeric exception, which is `struct.error`, `OverflowError`, `ZeroDivisionError` or
    -- `ValueError` and no `KeyError` or `IndexError`, or it returns a report. In the report the
    -- audit log is verified as intact, one decision is logged for each generated intent, the log
    -- has that many records, each is counted as passed or rejected, the rejections of the
    -- toxic-flow guard among them, and every taker is classified as toxic, neutral or benign.
    pub run_stream_accounts :
        (evs : List (HlTickEvent Num))
        → 1 ≤ low
        → ((x : Error) × IsNumeric x × (run_stream F R h cfg evs fresh ≡ err x))
          ⊎ ((r : HlRunner Num State) × (a : HlRunArtifacts) × Accounted evs r a)
    unfolding run_stream
    run_stream_accounts evs pos_low = elim (ticks_end evs pos_low) [
      | inl (x, numeric, e) ↦ inl (x, numeric, rw e refl)
      | inr (r, e) ↦ inr (r, report r true, run_stream-Accounted evs r pos_low e)
    ]

    pub take_ticks_agree :
        (evs : List (HlTickEvent Num))
        → 1 ≤ low
        → ((x : Error) × IsNumeric x × (take_ticks F R h cfg evs fresh ≡ err x))
          ⊎ ((r : HlRunner Num State) × (take_ticks F R h cfg evs fresh ≡ ok r)
              × Guarded F R h cfg low high m r.guard r.rejected_toxic
              × Watching F R h cfg low high m r.compliance r.demo.decisions_logged
              × IsBalanced F cfg.scorer r.scorer)
    take_ticks_agree evs pos_low = elim (ticks_end evs pos_low) [
      | inl e ↦ inl e
      | inr (r, e) ↦
          let s = take_ticks-IsSound F R h cfg low high m evs fresh r pos_low e fresh-IsSound in
          inr (r, e, s.guarded, s.watching, s.balanced)
    ]
