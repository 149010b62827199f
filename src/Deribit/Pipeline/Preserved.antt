-- ===== src/Deribit/Pipeline/Preserved.antt =====
-- What every stage of the event loop keeps, a whole run keeps.
use sentinel_hft.Prelude.{ℕ, ◌+◌, ◌≡◌, refl, subst, Bool, true, false, List, [], ◌∷◌, arith}
use sentinel_hft.Prelude.Float.{Float}
use sentinel_hft.Prelude.Result.{ok, bind-eq-ok}
use sentinel_hft.Audit.Digest.{Blake2b}
use sentinel_hft.Risk.{QuoteIntent}
use sentinel_hft.Deribit.Book.{TickEvent, apply}
use sentinel_hft.Deribit.Strategy.{SpreadMmStrategy, on_tick}
use sentinel_hft.Deribit.Pipeline.{Random, DemoConfig, DeribitDemo, cycles_to_ns}
use sentinel_hft.Deribit.Pipeline.Loop.{
  Tick, consume_intent, consume_intents, no_order, after_core, consume_tick, consume_all,
}

-- The time of the core stage is that of the wire and of the first two stages.
abbrev pub IsTimed : {N : Type 0} → Tick N → Type 0
IsTimed t = t.core_ts ≡ t.event.wire_ts_ns + cycles_to_ns (t.d_ingress + t.d_core)

module _ (F : Float) (R : Random (F.Num)) (h : Blake2b) (cfg : DemoConfig F.Num) where
  open F use {Num}
  open R use {State}

  -- The demo after the stages up to the strategy.
  abbrev pub quoted :
      TickEvent Num → State → SpreadMmStrategy Num → DeribitDemo Num State → DeribitDemo Num State
  quoted ev s strategy demo = record demo {
    rng = s;
    book = (apply F ev demo.book).1;
    strategy = strategy;
  }

  module _ (P : DeribitDemo Num State → Type 0)
      (by_core : (ev : TickEvent Num) (core_ts : ℕ) (s : State) (demo : DeribitDemo Num State)
          (x : List (QuoteIntent Num) × SpreadMmStrategy Num)
        → on_tick F (apply F ev demo.book).0 core_ts demo.strategy ≡ ok x
        → P demo
        → P (quoted ev s x.1 demo))
      (by_intent : (t : Tick Num) (first : Bool) (i : QuoteIntent Num)
          (demo demo' : DeribitDemo Num State)
        → IsTimed t
        → consume_intent F R h cfg t first i demo ≡ ok demo'
        → P demo
        → P demo')
      (by_quiet : (t : Tick Num) (demo demo' : DeribitDemo Num State)
        → IsTimed t
        → no_order F R cfg.budgets.egress t demo ≡ ok demo'
        → P demo
        → P demo')
      (by_count : (n : ℕ) (demo : DeribitDemo Num State)
        → P demo
        → P (record demo { ticks_consumed = n })) where
    consume_intents_keeps :
        (t : Tick Num) (first : Bool) (is : List (QuoteIntent Num))
        (demo demo' : DeribitDemo Num State)
        → IsTimed t
        → consume_intents F R h cfg t first is demo ≡ ok demo'
        → P demo
        → P demo'
    unfolding consume_intents
    consume_intents_keeps t first [] demo demo' time e a =
        let same : demo ≡ demo' = ground arith in subst P same a
    consume_intents_keeps t first (i ∷ is) demo demo' time e a =
        let (next, p, q) = bind-eq-ok (consume_intent F R h cfg t first i demo) _ e in
        consume_intents_keeps t false is next demo' time q (by_intent t first i demo next time p a)

    after_core_keeps :
        (t : Tick Num) (is : List (QuoteIntent Num)) (demo demo' : DeribitDemo Num State)
        → IsTimed t
        → after_core F R h cfg t is demo ≡ ok demo'
        → P demo
        → P demo'
    unfolding after_core
    after_core_keeps t [] demo demo' time e a = by_quiet t demo demo' time e a
    after_core_keeps t (i ∷ is) demo demo' time e a =
        consume_intents_keeps t true (i ∷ is) demo demo' time e a

    pub consume_tick_keeps :
        (ev : TickEvent Num) (demo demo' : DeribitDemo Num State)
        → consume_tick F R h cfg ev demo ≡ ok demo'
        → P demo
        → P demo'
    unfolding consume_tick
    consume_tick_keeps ev demo demo' e a =
        let (x, p, q) = bind-eq-ok (on_tick F (apply F ev demo.book).0 _ demo.strategy) _ e in
        after_core_keeps _ _ _ demo' refl q (by_core ev _ _ demo x p a)

    pub consume_all_keeps :
        (evs : List (TickEvent Num)) (demo demo' : DeribitDemo Num State)
        → consume_all F R h cfg evs demo ≡ ok demo'
        → P demo
        → P demo'
    unfolding consume_all
    consume_all_keeps [] demo demo' e a = let same : demo ≡ demo' = ground arith in subst P same a
    consume_all_keeps (ev ∷ evs) demo demo' e a =
        let (next, p, q) = bind-eq-ok (consume_tick F R h cfg ev demo) _ e in
        consume_all_keeps evs (record next { ticks_consumed = next.ticks_consumed + 1 }) demo' q
          (by_count _ next (consume_tick_keeps ev demo next p a))
