-- ===== src/Compliance/Tests.antt =====
-- Runs of the observers, on integers for their floats.
use sentinel_hft.Prelude.{
  ℕ, ◌≡◌, ◌↔◌, refl, true, false, some, none, List, [], ◌∷◌, arith, if◌then◌else◌,
}
use sentinel_hft.Prelude.Int.{ℤ, pos}
use sentinel_hft.Prelude.Integral.{integral}
use sentinel_hft.Prelude.Eq.{nat_eq, triple_eq}
use sentinel_hft.Prelude.Dict.{lookup, insert}
use sentinel_hft.Prelude.Result.{ok}
use sentinel_hft.Audit.Record.{RejectReason}
use sentinel_hft.Compliance.Mar.{
  SpoofLayerDetector, push, bucket, store, on_new, mark_cancelled, mark_filled, is_layered, layered,
  maybe_fire, on_cancel, on_fill,
}
use sentinel_hft.Compliance.Mar.Calls.{IsWatch}
use sentinel_hft.Compliance.Mar.Firing.{
  Call, new_call, cancel_call, fill_call, run as run_mar, new_detector, run-IsWatch,
}
use sentinel_hft.Compliance.Otr.{quotient, ratio, global_ratio}
use sentinel_hft.Compliance.Otr.Counts.{
  Event, ordered, executed, occurrences, count_true, run as run_otr, new_counter, ratio-run,
}
use sentinel_hft.Compliance.SelfTrade.{RestingOrder, SelfTradeGuard, check}
use sentinel_hft.Compliance.SelfTrade.Crossing.{own, Any, Crosses, check_iff}
use sentinel_hft.Compliance.FatFinger.{FatFingerGuard, deviation, check as check_price}
use sentinel_hft.Compliance.FatFinger.Deviation.{Positive, Quote, checked, trade, new_guard}
use sentinel_hft.Compliance.FatFinger.Verdict.{check-true_iff}
use sentinel_hft.Compliance.Stack.{ComplianceStack}
use sentinel_hft.Compliance.Stack.Agreement.{Agrees}
use sentinel_hft.Compliance.Stack.Streams.{
  Feed, intent, public_trade, run as run_stack, new_stack, run-Agrees,
}

-- Two orders on a side, cancelled after 10 ns each; a third one is filled.
abbrev calls : List Call
calls =
    new_call (1, 2, 1) 100 1000
    ∷ new_call (1, 2, 1) 101 1001
    ∷ new_call (1, 2, 1) 102 1002
    ∷ fill_call (1, 2, 1) 102
    ∷ cancel_call (1, 2, 1) 102 1010
    ∷ cancel_call (1, 2, 1) 100 1011
    ∷ cancel_call (1, 2, 1) 101 1012
    ∷ []

-- The last cancel raises the alert, and empties the bucket.
calls_alert :
    (d : SpoofLayerDetector) × (run_mar calls (new_detector 2 50 5 3) ≡ ok d)
    × (d.alerts
        ≡ record {
          trader_id = 1;
          symbol_id = 2;
          side = 1;
          n_orders = 2;
          window_ns = 50;
          first_order_ns = 1000;
          last_cancel_ns = 1012;
        }
          ∷ [])
    × (d.hist ≡ ((1, 2, 1), []) ∷ [])
unfolding run_mar push bucket store on_new on_fill on_cancel mark_cancelled mark_filled is_layered
    layered maybe_fire lookup insert
calls_alert = (_, refl, refl, refl)

run-IsWatch_example :
    (d : SpoofLayerDetector) × (run_mar calls (new_detector 2 50 5 3) ≡ ok d) × IsWatch 2 3 d
run-IsWatch_example = run-IsWatch 2 50 5 3 calls (omega arith)

abbrev events : List Event
events = ordered 7 false ∷ ordered 7 true ∷ ordered 8 false ∷ executed 7 ∷ ordered 7 false ∷ []

ratio-run_example :
    let (warned, c) = run_otr integral events (new_counter integral (pos 2)) in
    ((j : ℕ)
      → ratio integral j c
        ≡ quotient integral (occurrences j (7 ∷ 7 ∷ 8 ∷ 7 ∷ [])) (occurrences j (7 ∷ 7 ∷ [])))
    × (global_ratio integral c ≡ quotient integral 4 2)
    × (c.rejects_would_trip ≡ count_true warned)
ratio-run_example = ratio-run integral (pos 2) events

-- A trader with a sell at 100 and a buy at 90 in symbol 5.
abbrev order : ℕ → ℕ → ℕ → RestingOrder ℤ
order i side price = record {
  order_id = i;
  symbol_id = 5;
  side = side;
  price = pos price;
  quantity = pos 1;
}

abbrev resting : SelfTradeGuard ℤ
resting = record { book = (1, order 10 2 100 ∷ order 11 1 90 ∷ []) ∷ []; rejects = 0; checked = 0 }

check_iff_example :
    let (rejected, g) = check integral 1 5 1 (pos 100) resting in
    ((rejected ≡ true) ↔ Any (Crosses integral 5 1 (pos 100)) (own 1 resting))
    × (g.book ≡ resting.book)
    × (g.checked ≡ 1)
    × (g.rejects ≡ (if rejected then 1 else 0))
check_iff_example = check_iff integral 1 5 1 (pos 100) resting

abbrev quotes : List (Quote integral)
quotes = checked 3 (pos 50) ∷ trade 3 (pos 100) ∷ checked 3 (pos 103) ∷ checked 3 (pos 110) ∷ []

abbrev priced : FatFingerGuard ℤ
priced = record (new_guard integral (pos 500)) { last_px = (3, pos 100) ∷ [] }

check-true_iff_example : ((check_price integral 3 (pos 250) priced).0 ≡ true) ↔ (
    (last : ℤ) × (lookup 3 priced.last_px ≡ some last)
    × Positive integral last
    × Positive integral (pos 250)
    × (integral.lt (pos 500) (deviation integral (pos 250) last) ≡ true))
check-true_iff_example = check-true_iff integral 3 (pos 250) priced

abbrev feed : List (Feed integral)
feed =
    public_trade 5 (pos 100)
    ∷ intent
        (record {
          side = 1;
          action = 1;
          symbol_id = 5;
          price = pos 99;
          quantity = pos 2;
          order_id = 40;
        })
        (some (record { passed = true; reject_reason = RejectReason.accepted })) 1000 none
    ∷ intent
        (record {
          side = 1;
          action = 2;
          symbol_id = 5;
          price = pos 99;
          quantity = pos 2;
          order_id = 40;
        })
        none 1020 none
    ∷ []

run-Agrees_example :
    (k : ComplianceStack ℤ) × (run_stack integral feed
        (new_stack integral 1 50 5 3 (pos 2) (pos 500))
      ≡ ok k)
    × Agrees integral 1 3 (pos 500) k
    × (k.mar.orders_seen ≡ 1)
    × (k.cat.count ≡ 2)
run-Agrees_example = run-Agrees integral 1 50 5 3 (pos 2) (pos 500) feed (omega arith)
