-- ===== src/Streaming/Tests.antt =====
-- Runs of the window and of the metrics, on integers for floats and for the functions of math.
use sentinel_hft.Prelude.{
  ◌++◌, map, ℕ, ◌+◌, ◌≡◌, refl, false, List, [], ◌∷◌, length, none, some, ◌⊎◌, arith,
}
use sentinel_hft.Prelude.Int.{ℤ, pos, negsuc, ◌+ℤ◌, ◌-ℤ◌, ltb_ℤ}
use sentinel_hft.Prelude.Float.{abs}
use sentinel_hft.Prelude.Integral.{integral}
use sentinel_hft.Prelude.Result.{ok}
use sentinel_hft.Trace.Adapters.{StandardTrace}
use sentinel_hft.Prelude.Dict.{lookup, insert}
use sentinel_hft.Sequence.{
  new_tracker, u32, u32_add, u32_distance, update_max_seen, gap_branch, check_known, check,
  handle_reset,
}
use sentinel_hft.Streaming.Sketch.{Maths, TDigestWrapper, new_digest, sketch_of}
use sentinel_hft.Streaming.Sketch.Counts.{Holds}
use sentinel_hft.Streaming.Window.{
  RollingWindowStats, window_of, new_window, expire, rotate, add_sample, add_samples, merged,
}
use sentinel_hft.Streaming.Window.Counts.{samples, open_samples, Recent}
use sentinel_hft.Streaming.Window.Values.{AllTaken, OpenTaken, merge_groups, value_of}
use sentinel_hft.Prelude.Reads.{concat}
use sentinel_hft.Streaming.Window.Samples.{add_samples_window}
use sentinel_hft.Streaming.Metrics.{
  StreamingConfig, StreamingMetrics, add_overflow, add_heartbeat, add_reset, add_transaction,
  track_risk_flags, add_trace, add_traces, new_metrics,
}
use sentinel_hft.Streaming.Attribution.{
  AttributedLatency, AttributionTracker, LatencyAttribution, new_attribution, get_metrics,
  update_all,
}
use sentinel_hft.Streaming.Attribution.Bottleneck.{Sampled, IsReport, update_all-IsReport}
use sentinel_hft.Streaming.Metrics.OnlyTransactions.{
  only_tx, latency_view, Counted, add_traces-only_tx,
}

same_is_small : (a : ℤ) → ltb_ℤ (pos 0) (abs integral (a -ℤ a)) ≡ false
unfolding ◌-ℤ◌
same_is_small a = ground arith

abbrev maths : Maths integral
maths = record {
  inf = pos 1000000000;
  neg_inf = negsuc 1000000000;
  log = λ a. a;
  sqrt = λ a. a;
  pow = λ a k. a;
  ceil = λ a. a;
  sub_self = same_is_small;
}

-- Five seconds in buckets of one, with a clock of ten cycles a second.
abbrev start : RollingWindowStats ℤ
start = window_of integral maths (pos 5) (pos 1) (pos 10)

starts : new_window integral maths (pos 5) (pos 1) (pos 10) ≡ ok start
unfolding new_window
starts = refl

abbrev stream : List (ℤ × ℕ)
stream = (pos 3, 10) ∷ (pos 4, 15) ∷ (pos 5, 22) ∷ (pos 6, 48) ∷ (pos 7, 41) ∷ []

abbrev last : RollingWindowStats ℤ
last = add_sample integral maths (pos 9) 80 (add_samples integral maths stream start)

-- The two samples of the first second and that of the third have left the window.
kept : (last.sample_count ≡ 3) × (length last.buckets ≡ 1)
unfolding add_samples add_sample rotate expire ◌+ℤ◌ ◌-ℤ◌
kept = (refl, refl)

add_samples_window_example :
    (last.sample_count ≡ samples last.buckets + open_samples last.current_bucket)
    × Recent integral maths (pos 8 -ℤ pos 5) last.buckets
    × ((left : List ℤ) × (groups : List (List ℤ)) × (newest : List ℤ) × (map
              (value_of integral maths)
              stream
            ++ pos 9 ∷ []
          ≡ left ++ (concat groups ++ newest))
        × AllTaken integral maths groups last.buckets
        × OpenTaken integral maths newest last.current_bucket
        × (merged integral maths last
            ≡ merge_groups integral maths (groups ++ newest ∷ []) (new_digest integral maths)))
    × ((t : TDigestWrapper ℤ) × (merged integral maths last ≡ ok t)
        × Holds integral maths last.sample_count t)
add_samples_window_example =
    add_samples_window integral maths (pos 5) (pos 1) (pos 10) start stream (pos 9) 80 refl starts

abbrev trace : ℕ → ℕ → ℕ → StandardTrace
trace ty seq t = record {
  version = 1;
  record_type = ty;
  core_id = 0;
  seq_no = seq;
  t_ingress = t;
  t_egress = t + 7;
  payload = 1000;
  flags = 0x0100;
  tx_id = seq;
}

-- A transaction, an overflow, a heartbeat, a reset, an unknown type and a transaction after a gap.
abbrev traces : List StandardTrace
traces =
    trace 1 0 10 ∷ trace 2 0 20 ∷ trace 3 0 30 ∷ trace 5 4 40 ∷ trace 9 0 50 ∷ trace 1 7 60 ∷ []

abbrev config : StreamingConfig ℤ
config = record {
  window_seconds = pos 5;
  anomaly_zscore = pos 3;
  max_anomalies_tracked = 10;
  clock_hz = pos 10;
}

abbrev metrics_of : StreamingMetrics ℤ
metrics_of = record {
  config = config;
  global_count = 0;
  global_mean = pos 0;
  global_m2 = pos 0;
  global_min = pos 1000000000;
  global_max = negsuc 1000000000;
  global_digest = record {
    count = 0;
    min = pos 1000000000;
    max = negsuc 1000000000;
    impl = sketch_of integral maths (pos 0);
  };
  rolling_window = start;
  sequence_tracker = new_tracker;
  anomalies = [];
  tx_count = 0;
  overflow_count = 0;
  overflow_traces_lost = 0;
  heartbeat_count = 0;
  reset_count = 0;
  unknown_type_count = 0;
  rate_limit_rejects = 0;
  position_limit_rejects = 0;
  notional_limit_rejects = 0;
  kill_switch_triggered = false;
  first_timestamp = none;
  last_timestamp = none;
}

begins : new_metrics integral maths config ≡ ok metrics_of
unfolding new_metrics new_window
begins = refl

abbrev result : StreamingMetrics ℤ
result = add_traces integral maths traces metrics_of

counts :
    (result.tx_count ≡ 2)
    × (result.overflow_traces_lost ≡ 1000)
    × (result.rate_limit_rejects ≡ 2)
    × (result.sequence_tracker.total_dropped ≡ 2)
unfolding add_traces add_trace add_transaction add_overflow add_heartbeat add_reset track_risk_flags
    check check_known gap_branch handle_reset u32_distance u32_add u32 update_max_seen lookup insert
    ◌+ℤ◌ ◌-ℤ◌
counts = (refl, refl, refl, refl)

add_traces-only_tx_example :
    (latency_view result ≡ latency_view (add_traces integral maths (only_tx traces) metrics_of))
    × Counted integral maths traces metrics_of result
add_traces-only_tx_example = add_traces-only_tx integral maths traces metrics_of

abbrev attributed : ℕ → ℕ → AttributedLatency ℤ
attributed c r = record {
  total_ns = pos (c + r + 30);
  stage_ns = record {
    ingress = pos 10;
    core = pos c;
    risk = pos r;
    egress = pos 10;
    overhead = pos 10;
  };
}

abbrev attributions : List (AttributedLatency ℤ)
attributions = attributed 5 20 ∷ attributed 6 40 ∷ []

abbrev tracker : AttributionTracker ℤ
tracker = update_all integral maths attributions (new_attribution integral maths)

update_all-IsReport_example :
    Sampled integral maths attributions tracker
    × ((attributions ≡ []) × (get_metrics integral maths tracker ≡ none)
        ⊎ ((m : LatencyAttribution ℤ) × (get_metrics integral maths tracker ≡ some m)
            × IsReport integral maths m))
update_all-IsReport_example = update_all-IsReport integral maths attributions
