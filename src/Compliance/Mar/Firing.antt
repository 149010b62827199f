-- ===== src/Compliance/Mar/Firing.antt =====
-- When the detector raises an alert, over any sequence of calls.
use sentinel_hft.Prelude.{ℕ, ◌≤◌, ◌≡◌, refl, ap, ◌∙◌, List, [], ◌∷◌, arith}
use sentinel_hft.Prelude.Eq.{triple_eq}
use sentinel_hft.Prelude.Result.{Result, ok, ◌>>=◌}
use sentinel_hft.Compliance.Mar.{Key, SpoofLayerDetector, on_new, on_cancel, on_fill}
use sentinel_hft.Compliance.Mar.Calls.{IsWatch, on_cancel-Fired, on_new-IsWatch, on_fill-IsWatch}

-- A call of the detector.
pub data Call : Type 0 where
  new_call cancel_call : Key → ℕ → ℕ → Call
  fill_call : Key → ℕ → Call

unfoldable pub run : List Call → SpoofLayerDetector → Result SpoofLayerDetector
run [] d = ok d
run (new_call key i ts ∷ cs) d = run cs (on_new key i ts d)
run (fill_call key i ∷ cs) d = run cs (on_fill key i d)
run (cancel_call key i ts ∷ cs) d = do step ← on_cancel key i ts d; run cs step.1

run_from-IsWatch :
    (low high : ℕ) (cs : List Call) (d : SpoofLayerDetector)
    → 1 ≤ low
    → IsWatch low high d
    → (d' : SpoofLayerDetector) × (run cs d ≡ ok d') × IsWatch low high d'
unfolding run
run_from-IsWatch low high [] d pos_low w = (d, refl, w)
run_from-IsWatch low high (new_call key i ts ∷ cs) d pos_low w =
    run_from-IsWatch low high cs (on_new key i ts d) pos_low (on_new-IsWatch low high key i ts d w)
run_from-IsWatch low high (fill_call key i ∷ cs) d pos_low w =
    run_from-IsWatch low high cs (on_fill key i d) pos_low (on_fill-IsWatch low high key i d w)
run_from-IsWatch low high (cancel_call key i ts ∷ cs) d pos_low w =
    let f = on_cancel-Fired low high key i ts d pos_low w in
    let (d', returned, w') = run_from-IsWatch low high cs f.after pos_low f.watch in
    (d', ap (λ r. r >>= λ step. run cs step.1) f.returned ∙ returned, w')

abbrev pub new_detector : ℕ → ℕ → ℕ → ℕ → SpoofLayerDetector
new_detector low window on_book high = record {
  min_cancelled = low;
  window_ns = window;
  min_time_on_book_ns = on_book;
  max_history = high;
  hist = [];
  alerts = [];
  orders_seen = 0;
  cancels_seen = 0;
  fills_seen = 0;
}

-- A new detector with `min_cancelled` at least 1 raises no exception on any calls. Afterwards no
-- bucket holds more than `max_history` orders, every alert reports from `min_cancelled` to
-- `max_history` orders, and the orders that the alerts report and those still remembered are
-- together at most the orders seen: none is in two alerts.
pub run-IsWatch :
    (low window on_book high : ℕ) (cs : List Call)
    → 1 ≤ low
    → (d : SpoofLayerDetector) × (run cs (new_detector low window on_book high) ≡ ok d)
      × IsWatch low high d
run-IsWatch low window on_book high cs pos_low =
    run_from-IsWatch low high cs (new_detector low window on_book high) pos_low (record {
      low_kept = refl;
      high_kept = refl;
      sound = record { once = omega arith; small = tt };
      bounded = tt;
    })
