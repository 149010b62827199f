-- ===== src/Risk/Tests.antt =====
-- Runs of the risk gate, on integers for its floats.
use sentinel_hft.Prelude.{ℕ, ◌+◌, ◌≡◌, refl, true, false, not, ◌&&◌, List, [], ◌∷◌, length}
use sentinel_hft.Prelude.Int.{pos, ◌+ℤ◌, ◌-ℤ◌}
use sentinel_hft.Prelude.Float.{geb}
use sentinel_hft.Prelude.Integral.{integral}
use sentinel_hft.Prelude.Int.{ℤ}
use sentinel_hft.Risk.{
  Side, buy, sell, IntentAction, new, cancel, QuoteIntent, RiskGateConfig, RiskGate, new_gate,
  refill, try_consume, check, apply, release, on_notional, trip, build, accept, limits, rated,
  submit, withdraw, dispatch, evaluate, evaluate_all,
}
use sentinel_hft.Risk.Outcome.{Consistent, tally, settled, evaluate_all-tally}
use sentinel_hft.Risk.Admission.{fits, passed-evaluate_new, Kept-evaluate}
use sentinel_hft.Risk.Bounds.{IsWithin, IsFilled}
use sentinel_hft.Risk.Runs.{AllOrders, evaluate_all-IsWithin}
use sentinel_hft.Risk.Kill.{AllHalted, IsBelow, killed-evaluate_all}
use sentinel_hft.Risk.AutoKill.{quiet-evaluate_all}

abbrev config : RiskGateConfig ℤ
config = record {
  max_tokens = 2;
  refill_per_second = pos 1;
  max_long_qty = pos 10;
  max_short_qty = pos 10;
  max_notional = pos 500;
  max_order_qty = pos 6;
  auto_kill_notional = pos 2000;
}

abbrev intent : IntentAction → Side → ℕ → QuoteIntent ℤ
intent action side qty = record {
  order_id = 7;
  symbol_id = 1;
  side = side;
  price = pos 20;
  quantity = pos qty;
  notional = pos (qty + qty);
  generated_ts_ns = 0;
  action = action;
  replaces_order_id = 0;
}

-- Passed, too large, out of tokens, cancelled, and passed again a second later.
abbrev stream : List (QuoteIntent ℤ × ℕ)
stream =
    (intent new buy 5, 1000)
    ∷ (intent new sell 7, 1001)
    ∷ (intent new sell 2, 1002)
    ∷ (intent cancel buy 5, 1003)
    ∷ (intent new sell 3, 2000001002)
    ∷ []

abbrev orders : AllOrders integral stream
orders = (
  record { quantity = refl; notional = refl },
  (
    record { quantity = refl; notional = refl },
    (
      record { quantity = refl; notional = refl },
      (
        record { quantity = refl; notional = refl },
        (record { quantity = refl; notional = refl }, tt),
      ),
    ),
  ),
)

stream_counters : (evaluate_all integral stream (new_gate integral config)).1.counters ≡ record {
  total = 5;
  passed = 3;
  rejected_rate = 1;
  rejected_pos = 0;
  rejected_notional = 0;
  rejected_order_size = 1;
  rejected_kill = 0;
}
unfolding evaluate_all evaluate dispatch submit withdraw rated limits accept check apply release
    on_notional build refill try_consume new_gate ◌+ℤ◌ ◌-ℤ◌
stream_counters = refl

evaluate_all-tally_example :
    let (ds, g) = evaluate_all integral stream (new_gate integral config) in
    (length ds ≡ 5)
    × Consistent ds
    × (g.counters ≡ tally ds (new_gate integral config).counters)
    × (g.counters.total + settled (new_gate integral config).counters
        ≡ settled g.counters + (new_gate integral config).counters.total)
evaluate_all-tally_example = evaluate_all-tally integral stream (new_gate integral config)

passed-evaluate_new_example :
    let g = new_gate integral config in
    (evaluate integral (intent new buy 5) 1000 g).0.passed
    ≡ not g.kill.triggered
      && (geb integral (refill integral 1000 g.bucket).tokens (pos 1)
          && fits integral buy (pos 5) (pos 10) g.positions)
passed-evaluate_new_example =
    passed-evaluate_new integral (intent new buy 5) 1000 (new_gate integral config) refl

too_large : (evaluate integral (intent new buy 8) 1000 (new_gate integral config)).0.passed ≡ false
unfolding evaluate dispatch submit rated limits check build refill try_consume new_gate ◌-ℤ◌
too_large = refl

Kept-evaluate_example :
    let g = new_gate integral config in
    let (d, g') = evaluate integral (intent new buy 8) 1000 g in
    (g'.positions ≡ g.positions) × (g'.kill ≡ g.kill)
Kept-evaluate_example =
    Kept-evaluate integral (intent new buy 8) 1000 (new_gate integral config) too_large

evaluate_all-IsWithin_example :
    let g = (evaluate_all integral stream (new_gate integral config)).1 in
    IsWithin integral g.positions × IsFilled integral g.bucket
evaluate_all-IsWithin_example =
    evaluate_all-IsWithin integral config stream refl refl refl refl orders

quiet-evaluate_all_example :
    (evaluate_all integral stream (new_gate integral config)).1.kill.triggered ≡ false
quiet-evaluate_all_example = quiet-evaluate_all integral config stream refl refl refl refl orders

-- A gate that holds five and was tripped by the operator.
abbrev held : RiskGate ℤ
held =
    let g : RiskGate ℤ = new_gate integral config in
    record g {
      positions = record (new_gate integral config).positions {
        long_qty = pos 5;
        notional = pos 10;
      };
      kill = trip integral g.kill;
    }

held_triggered : held.kill.triggered ≡ true
unfolding new_gate trip
held_triggered = refl

held-IsWithin : IsWithin integral held.positions
unfolding new_gate
held-IsWithin = record { long = (refl, refl); short = (refl, refl); notional = (refl, refl) }

killed-evaluate_all_example :
    let (ds, g) = evaluate_all integral stream held in
    AllHalted integral stream ds
    × (g.kill ≡ held.kill)
    × (g.bucket ≡ held.bucket)
    × IsBelow integral g.positions held.positions
killed-evaluate_all_example =
    killed-evaluate_all integral stream held held_triggered held-IsWithin orders

-- With a threshold within the limit, an accepted order trips the switch, and reports it.
abbrev tight : RiskGateConfig ℤ
tight = record config { auto_kill_notional = pos 10 }

tight_trips :
    let (d, g) = evaluate integral (intent new buy 5) 1000 (new_gate integral tight) in
    (d.passed ≡ true) × (d.kill_triggered ≡ true) × (g.kill.triggered ≡ true)
unfolding evaluate dispatch submit rated limits accept check apply on_notional build refill
    try_consume new_gate ◌+ℤ◌ ◌-ℤ◌
tight_trips = (refl, refl, refl)
