-- ===== src/Hyperliquid/Runner/Ticks.antt =====
-- The loop over the ticks: it keeps what holds of the runner, and raises no
-- lookup error.
use sentinel_hft.Prelude.{
  if_split, ℕ, ◌≤◌, ◌≡◌, Option, none, some, List, [], ◌∷◌, arith, subst, ◌&&◌,
}
use sentinel_hft.Prelude.Float.{Float}
use sentinel_hft.Prelude.Result.{
  ok, bind-eq-ok, IsNumeric, OnlyRaises, bind-OnlyRaises, bind-OnlyRaises_ok,
}
use sentinel_hft.Deribit.Pipeline.Raises.{append_trace_record-OnlyRaises}
use sentinel_hft.Hyperliquid.Runner.Raises.{take_intents-OnlyRaises}
use sentinel_hft.Audit.Digest.{Blake2b}
use sentinel_hft.Risk.{QuoteIntent}
use sentinel_hft.Deribit.Book.{apply}
use sentinel_hft.Deribit.Strategy.{on_tick}
use sentinel_hft.Deribit.Strategy.Raises.{on_tick-OnlyRaises}
use sentinel_hft.Deribit.Pipeline.{Random, DeribitDemo}
use sentinel_hft.Deribit.Pipeline.Loop.{Tick, no_order}
use sentinel_hft.Deribit.Pipeline.Stages.{append_trace_record_parts}
use sentinel_hft.Compliance.Stack.{ComplianceStack, on_trade}
use sentinel_hft.Compliance.Stack.Streams.{on_trade-Agrees}
use sentinel_hft.Hyperliquid.Fixture.{HlTickEvent, is_trade, as_deribit_event}
use sentinel_hft.Hyperliquid.Scorer.{ToxicFlowScorer, on_tick as score_tick}
use sentinel_hft.Hyperliquid.Scorer.Settled.{on_tick-Returns}
use sentinel_hft.Hyperliquid.Runner.{HlRunConfig, HlRunner}
use sentinel_hft.Hyperliquid.Runner.Loop.{
  after_strategy, feed_trade, run_core, take_tick, note_spike, count_tick, take_ticks,
}
use sentinel_hft.Hyperliquid.Runner.Sound.{Watching, IsSound}
use sentinel_hft.Hyperliquid.Runner.Intents.{take_intents-IsSound}

module _ (F : Float) (R : Random (F.Num)) (h : Blake2b) (cfg : HlRunConfig F.Num) (low high : ℕ)
    (m : F.Num) where
  open F use {Num, of_nat, lt}
  open R use {State}

  abbrev Good : HlRunner Num State → Type 0
  Good = IsSound F R h cfg low high m

  after_strategy-IsSound :
      (t : Tick Num) (is : List (QuoteIntent Num)) (r r' : HlRunner Num State)
      → 1 ≤ low
      → after_strategy F R h cfg t is r ≡ ok r'
      → Good r
      → Good r'
  unfolding after_strategy no_order
  after_strategy-IsSound t [] r r' pos_low e s =
      let (traced, p, q) = bind-eq-ok (no_order F R cfg.budgets.egress t r.demo) _ e in
      let (bs, packed, same) = append_trace_record_parts t.event _ _ _ _ _ _ p in
      let same' : record r { demo = traced } ≡ r' = ground arith in
      subst Good same' (subst (λ (x : DeribitDemo Num State). Good (record r { demo = x })) same s)
  after_strategy-IsSound t (i ∷ is) r r' pos_low e s =
      take_intents-IsSound F R h cfg low high m t (i ∷ is) r r' pos_low e s

  fed_stack :
      (ev : HlTickEvent Num) (r : HlRunner Num State) (o : Option (ComplianceStack Num))
      → Good (record r { compliance = o })
      → Good (feed_trade F R ev (record r { compliance = o }))
  unfolding feed_trade
  fed_stack ev r none s = s
  fed_stack ev r (some k) s =
      let fed = on_trade F ev.instrument.symbol_id ev.trade_price k in
      let agrees : Watching F R h cfg low high m (some fed) r.demo.decisions_logged = (
        on_trade-Agrees F low high m ev.instrument.symbol_id ev.trade_price k s.watching.0,
        unfold on_trade in s.watching.1,
      ) in
      let good : Good (record r { compliance = some fed }) = record {
        audited = s.audited;
        tallied = s.tallied;
        guarded = s.guarded;
        watching = agrees;
        balanced = s.balanced;
      } in
      if_split Good (is_trade ev.kind && lt (of_nat 0) ev.trade_price) (λ on. good) (λ off. s)

  -- The scorer takes the tick, and the observers its trade.
  scored_tick :
      (ev : HlTickEvent Num) (r : HlRunner Num State)
      → Good r
      → (x : ToxicFlowScorer Num) × (score_tick F cfg.scorer ev r.scorer ≡ ok x)
        × Good (feed_trade F R ev (record r { scorer = x }))
  scored_tick ev r s =
      let x = on_tick-Returns F cfg.scorer ev r.scorer s.balanced in
      let scored : HlRunner Num State = record r { scorer = x.scorer } in
      (
        x.scorer,
        x.returned,
        fed_stack ev scored r.compliance (record {
          audited = s.audited;
          tallied = s.tallied;
          guarded = s.guarded;
          watching = s.watching;
          balanced = x.balanced;
        }),
      )

  take_tick-IsSound :
      (ev : HlTickEvent Num) (r r' : HlRunner Num State)
      → 1 ≤ low
      → take_tick F R h cfg ev r ≡ ok r'
      → Good r
      → Good r'
  unfolding take_tick run_core
  take_tick-IsSound ev r r' pos_low e s =
      let (x, returned, good) = scored_tick ev r s in
      let fed = (feed_trade F R ev (record r { scorer = x })).demo in
      let (quoted, p, q) =
        bind-eq-ok (on_tick F (apply F (as_deribit_event ev) fed.book).0 _ fed.strategy) _
          (rw returned at e) in
      after_strategy-IsSound _ _ _ r' pos_low q good

  pub take_ticks-IsSound :
      (evs : List (HlTickEvent Num)) (r r' : HlRunner Num State)
      → 1 ≤ low
      → take_ticks F R h cfg evs r ≡ ok r'
      → Good r
      → Good r'
  unfolding take_ticks note_spike
  take_ticks-IsSound [] r r' pos_low e s = let same : r ≡ r' = ground arith in subst Good same s
  take_ticks-IsSound (ev ∷ evs) r r' pos_low e s =
      let (next, p, q) = bind-eq-ok (take_tick F R h cfg ev (note_spike F R cfg ev r)) _ e in
      let noted : Good (note_spike F R cfg ev r) = if_split Good _ (λ on. s) (λ off. s) in
      take_ticks-IsSound evs (count_tick F R next) r' pos_low q
        (take_tick-IsSound ev _ next pos_low p noted)

  after_strategy-OnlyRaises :
      (t : Tick Num) (is : List (QuoteIntent Num)) (r : HlRunner Num State)
      → 1 ≤ low
      → Good r
      → OnlyRaises IsNumeric (after_strategy F R h cfg t is r)
  unfolding after_strategy no_order
  after_strategy-OnlyRaises t [] r pos_low s =
      bind-OnlyRaises_ok IsNumeric (no_order F R cfg.budgets.egress t r.demo) _
        (append_trace_record-OnlyRaises t.event _ _ _ _ _ _)
  after_strategy-OnlyRaises t (i ∷ is) r pos_low s =
      take_intents-OnlyRaises F R h cfg low high m pos_low t (i ∷ is) r s

  take_tick-OnlyRaises :
      (ev : HlTickEvent Num) (r : HlRunner Num State)
      → 1 ≤ low
      → Good r
      → OnlyRaises IsNumeric (take_tick F R h cfg ev r)
  unfolding take_tick run_core
  take_tick-OnlyRaises ev r pos_low s =
      let (x, returned, good) = scored_tick ev r s in
      let fed = (feed_trade F R ev (record r { scorer = x })).demo in
      rw returned (
        bind-OnlyRaises IsNumeric
          (on_tick F (apply F (as_deribit_event ev) fed.book).0 _ fed.strategy) _
          (on_tick-OnlyRaises F _ _ fed.strategy)
          (λ quoted p. after_strategy-OnlyRaises _ _ _ pos_low good))

  pub take_ticks-OnlyRaises :
      (evs : List (HlTickEvent Num)) (r : HlRunner Num State)
      → 1 ≤ low
      → Good r
      → OnlyRaises IsNumeric (take_ticks F R h cfg evs r)
  unfolding take_ticks note_spike
  take_ticks-OnlyRaises [] r pos_low s = tt
  take_ticks-OnlyRaises (ev ∷ evs) r pos_low s =
      let noted : Good (note_spike F R cfg ev r) = if_split Good _ (λ on. s) (λ off. s) in
      bind-OnlyRaises IsNumeric (take_tick F R h cfg ev (note_spike F R cfg ev r)) _
        (take_tick-OnlyRaises ev _ pos_low noted)
        (λ next p.
          take_ticks-OnlyRaises evs (count_tick F R next) pos_low
            (take_tick-IsSound ev _ next pos_low p noted))
