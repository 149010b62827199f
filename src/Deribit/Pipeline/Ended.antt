-- ===== src/Deribit/Pipeline/Ended.antt =====
-- How a run of the event loop ends: with a numeric exception, or with a verified audit log.
use sentinel_hft.Prelude.{◌⊎◌, inl, inr, ◌+◌, ◌≡◌, Bool, true, false, none, List, [], ◌∷◌, length}
use sentinel_hft.Prelude.Float.{Float}
use sentinel_hft.Prelude.Result.{
  Error, ok, err, IsNumeric, OnlyRaises, bind-OnlyRaises, Result-cases,
}
use sentinel_hft.Audit.Digest.{Blake2b}
use sentinel_hft.Audit.Logger.{RiskDecision, seed_prev_hash, new_logger, log_all}
use sentinel_hft.Audit.Verifier.{verify}
use sentinel_hft.Audit.Verifier.Chain.{clean_result}
use sentinel_hft.Risk.{QuoteIntent, RiskGateConfig}
use sentinel_hft.Deribit.Book.{TickEvent, apply}
use sentinel_hft.Deribit.Strategy.{SpreadMmStrategy, on_tick}
use sentinel_hft.Deribit.Strategy.Raises.{on_tick-OnlyRaises}
use sentinel_hft.Deribit.Pipeline.{Random, DemoConfig, DeribitDemo, new_demo}
use sentinel_hft.Deribit.Pipeline.Loop.{
  Tick, log_decision, decide, egress, consume_intent, consume_intents, no_order, after_core,
  consume_tick, consume_all,
}
use sentinel_hft.Deribit.Pipeline.Raises.{log_decision-OnlyRaises, append_trace_record-OnlyRaises}
use sentinel_hft.Deribit.Pipeline.Audited.{
  Ticking, IsAudited, new_demo-IsAudited, consume_intent-IsAudited, consume_tick-IsAudited,
  verify-consume_all,
}

module _ (F : Float) (R : Random (F.Num)) (h : Blake2b) (cfg : DemoConfig F.Num) where
  open F use {Num}
  open R use {State}

  consume_intent-OnlyRaises :
      (t : Tick Num) (first : Bool) (i : QuoteIntent Num) (demo : DeribitDemo Num State)
      → IsAudited h demo
      → OnlyRaises IsNumeric (consume_intent F R h cfg t first i demo)
  unfolding consume_intent decide egress
  consume_intent-OnlyRaises t first i demo a =
      let x = decide F R cfg t.core_ts first i demo in
      bind-OnlyRaises IsNumeric (log_decision h x.decision x.demo) _
        (log_decision-OnlyRaises h x.decision x.demo a.decisions a.log_all_lem)
        (λ logged e. append_trace_record-OnlyRaises t.event _ _ _ _ _ _)

  consume_intents-OnlyRaises :
      (t : Tick Num) (first : Bool) (is : List (QuoteIntent Num)) (demo : DeribitDemo Num State)
      → IsAudited h demo
      → OnlyRaises IsNumeric (consume_intents F R h cfg t first is demo)
  unfolding consume_intents
  consume_intents-OnlyRaises t first [] demo a = tt
  consume_intents-OnlyRaises t first (i ∷ is) demo a =
      bind-OnlyRaises IsNumeric (consume_intent F R h cfg t first i demo) _
        (consume_intent-OnlyRaises t first i demo a)
        (λ next e.
          consume_intents-OnlyRaises t false is next
            (consume_intent-IsAudited F R h cfg t first i demo next e a))

  after_core-OnlyRaises :
      (t : Tick Num) (is : List (QuoteIntent Num)) (demo : DeribitDemo Num State)
      → IsAudited h demo
      → OnlyRaises IsNumeric (after_core F R h cfg t is demo)
  unfolding after_core no_order
  after_core-OnlyRaises t [] demo a = append_trace_record-OnlyRaises t.event _ _ _ _ _ _
  after_core-OnlyRaises t (i ∷ is) demo a = consume_intents-OnlyRaises t true (i ∷ is) demo a

  consume_tick-OnlyRaises :
      (ev : TickEvent Num) (demo : DeribitDemo Num State)
      → IsAudited h demo
      → OnlyRaises IsNumeric (consume_tick F R h cfg ev demo)
  unfolding consume_tick
  consume_tick-OnlyRaises ev demo a =
      let book = (apply F ev demo.book).0 in
      bind-OnlyRaises IsNumeric (on_tick F book _ demo.strategy) _
        (on_tick-OnlyRaises F book _ demo.strategy) (λ x e. after_core-OnlyRaises _ _ _ a)

  consume_all-OnlyRaises :
      (evs : List (TickEvent Num)) (demo : DeribitDemo Num State)
      → IsAudited h demo
      → OnlyRaises IsNumeric (consume_all F R h cfg evs demo)
  unfolding consume_all
  consume_all-OnlyRaises [] demo a = tt
  consume_all-OnlyRaises (ev ∷ evs) demo a =
      bind-OnlyRaises IsNumeric (consume_tick F R h cfg ev demo) _
        (consume_tick-OnlyRaises ev demo a)
        (λ next e.
          consume_all-OnlyRaises evs (record next { ticks_consumed = next.ticks_consumed + 1 })
            (consume_tick-IsAudited F R h cfg ev demo next e a))

  -- A run on any ticks and draws either raises a numeric exception, which is `struct.error` for a
  -- number that its record has no room for, `OverflowError` for one that is infinite,
  -- `ZeroDivisionError` for a tick size of zero or `ValueError`, and no `KeyError` or `IndexError`,
  -- or it ends with an audit log that is verified in full: one record is logged for each intent
  -- that the strategy generated, at strictly rising times, and the verifier finds no break.
  pub consume_all_ends :
      (risk : RiskGateConfig Num) (strategy : SpreadMmStrategy Num) (rng : State)
      (evs : List (TickEvent Num))
      → ((x : Error) × IsNumeric x
          × (consume_all F R h cfg evs (new_demo F risk strategy rng) ≡ err x))
        ⊎ ((demo : DeribitDemo Num State) × (consume_all F R h cfg evs
                (new_demo F risk strategy rng)
              ≡ ok demo)
            × (demo.decisions_logged ≡ demo.intents_generated)
            × (length demo.audit.records ≡ demo.decisions_logged)
            × ((ds : List RiskDecision) × Ticking 0 ds demo.last_decision_ns
                × (log_all h (new_logger none) ds ≡ ok demo.audit))
            × (verify h seed_prev_hash demo.audit.records
                ≡ ok (clean_result demo.audit.prev_hash_lo demo.audit.records)))
  consume_all_ends risk strategy rng evs =
      elim (Result-cases (consume_all F R h cfg evs (new_demo F risk strategy rng))) [
        | inl (demo, e) ↦
            let (all, len, log, clean) =
              verify-consume_all F R h risk strategy rng cfg evs demo e in
            inr (demo, e, all, len, log, clean)
        | inr (x, e) ↦
            let only =
              consume_all-OnlyRaises evs (new_demo F risk strategy rng)
                (new_demo-IsAudited F h risk strategy rng) in
            inl (x, rw e at only, e)
      ]
