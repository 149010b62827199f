-- ===== src/Triage/Tests.antt =====
-- A run of the agent over latencies and fills, on integers for floats and with the variance for the
-- deviation.
use sentinel_hft.Prelude.{
  ℕ, ◌≡◌, refl, false, none, some, List, [], ◌∷◌, ◌++◌, map, replicate, length,
}
use sentinel_hft.Prelude.Int.{ℤ, pos, negsuc, ◌+ℤ◌, ◌-ℤ◌}
use sentinel_hft.Prelude.Integral.{integral}
use sentinel_hft.Prelude.Dict.{lookup, insert}
use sentinel_hft.Prelude.Result.{from_ok, ok}
use sentinel_hft.Struct.{to_le, of_le, to_twos, fit, pack}
use sentinel_hft.Audit.Digest.Padded.{padded}
use sentinel_hft.Audit.Digest.{low128}
use sentinel_hft.Audit.Alert.{
  AlertRecord, score_q32, payload_bytes, encode, hash_lo, append, zeros, verify_chain,
}
use sentinel_hft.Audit.Alert.Chain.{head_of, clean}
use sentinel_hft.Triage.Detectors.{
  TriageEvent, latency, fill, LatencyZScoreDetector, FillQualitySprtDetector, DetectorEnsemble,
  update, variance, stdev, judge, observe_latency, observe_reject, count_fill, observe_fill,
  observe_event,
}
use sentinel_hft.Triage.Detectors.Cooldown.{Spaced, firings_on, firings_on-Spaced}
use sentinel_hft.Struct.Records.{encode_all}
use sentinel_hft.Triage.Agent.{TriageAgent, Texts, handle_firing, handle_firings, observe, run}
use sentinel_hft.Triage.Agent.Logged.{Tallied, new_agent, run_verified}

abbrev root : ℤ → ℤ
root x = x

abbrev texts : Texts ℤ
texts = record { name = λ d. 122 ∷ []; detail = λ f. 104 ∷ 105 ∷ [] }

abbrev core : List ℕ
core = 99 ∷ []

abbrev latency_detector : LatencyZScoreDetector ℤ
latency_detector = record {
  z_threshold = pos 2;
  min_samples = 2;
  cooldown_samples = 2;
  acc = [];
  last_fire_n = [];
}

abbrev fill_detector : FillQualitySprtDetector ℤ
fill_detector = record {
  accept_upper = pos 4;
  reject_lower = negsuc 3;
  llr_bad = pos 1;
  llr_good = negsuc 0;
  llr = pos 0;
  seen = 0;
}

abbrev ensemble : DetectorEnsemble ℤ
ensemble = record {
  latency = latency_detector;
  reject = record {
    baseline = pos 0;
    slack = pos 0;
    alert_threshold = pos 5;
    window = 500;
    buf = [];
    cusum = pos 0;
  };
  fill = fill_detector;
}

abbrev timed : ℕ → TriageEvent ℤ
timed v = record {
  timestamp_ns = v;
  kind = latency;
  stage = some core;
  value = pos v;
  passed = none;
}

abbrev bad_fill : TriageEvent ℤ
bad_fill = record {
  timestamp_ns = 7;
  kind = fill;
  stage = none;
  value = pos 0;
  passed = some false;
}

-- Two samples to warm up, a firing, two samples in its cooldown, of which one is over the threshold,
-- and a second firing.
abbrev latencies : List (TriageEvent ℤ)
latencies = map timed (10 ∷ 12 ∷ 100 ∷ 9000 ∷ 900000000 ∷ [])

firings : firings_on integral root core latencies latency_detector [] ≡ 4 ∷ 2 ∷ []
unfolding firings_on observe_latency judge stdev variance update lookup insert ◌-ℤ◌ ◌+ℤ◌
firings = refl

firings_on-Spaced_example : Spaced 2 2 (firings_on integral root core latencies latency_detector [])
unfolding lookup
firings_on-Spaced_example = firings_on-Spaced integral root core latencies latency_detector refl

abbrev events : List (TriageEvent ℤ)
events = latencies ++ replicate 20 bad_fill

abbrev done : List AlertRecord × TriageAgent ℤ
done =
    from_ok ([], new_agent integral root texts padded ensemble)
      (run integral root texts padded events (new_agent integral root texts padded ensemble))

run_ends :
    run integral root texts padded events (new_agent integral root texts padded ensemble) ≡ ok done
unfolding run observe handle_firings handle_firing observe_event observe_fill count_fill
    observe_reject observe_latency judge stdev variance update append hash_lo payload_bytes encode
    pack low128 score_q32 to_le of_le to_twos fit lookup insert ◌-ℤ◌ ◌+ℤ◌
run_ends = refl

-- The firing of the fills comes with no sample, since the detector is reset before it is read.
three_alerts : map (λ (r : AlertRecord). r.window_n) done.0 ≡ 2 ∷ 4 ∷ 0 ∷ []
unfolding run observe handle_firings handle_firing observe_event observe_fill count_fill
    observe_reject observe_latency judge stdev variance update append hash_lo payload_bytes encode
    pack low128 score_q32 to_le of_le to_twos fit lookup insert ◌-ℤ◌ ◌+ℤ◌
three_alerts = refl

run_verified_example :
    (encode_all encode done.0 ≡ ok done.1.chain.fp)
    × (verify_chain padded done.0 none ≡ ok (clean (length done.0) (head_of [] done.0)))
    × (done.1.chain.prev_hash_lo ≡ head_of zeros done.0)
    × (done.1.stats.events_in ≡ length events)
    × (done.1.stats.firings ≡ length done.0)
    × Tallied done.1.stats
run_verified_example =
    run_verified integral root texts padded ensemble events done.0 done.1 run_ends
