-- ===== src/Streaming/Metrics.antt =====
-- sentinel_hft/streaming/analyzer.py: StreamingMetrics, with the record types of
-- formats/record_types.py. The snapshot only reads fields.
pub mod OnlyTransactions
use Prim.Native.Nat.{bit_and}
use sentinel_hft.Prelude.{
  ℕ, suc, ◌+◌, ◌-◌, Bool, true, false, not, ◌||◌, Option, none, some, List, [], ◌∷◌, ◌++◌, length,
  drop, ltb, ◌==◌, if◌then◌else◌,
}
use sentinel_hft.Prelude.Int.{ℤ, pos, negsuc}
use sentinel_hft.Prelude.Float.{Float, min, max}
use sentinel_hft.Prelude.Result.{Result, ok, ◌>>=◌}
use sentinel_hft.Sequence.{SequenceTracker, new_tracker, check, handle_reset}
use sentinel_hft.Trace.Adapters.{StandardTrace, latency}
use sentinel_hft.Streaming.Sketch.{Maths, TDigestWrapper, new_digest, add_digest}
use sentinel_hft.Streaming.Window.{RollingWindowStats, new_window, add_sample}

abbrev pub tx_event : ℕ
tx_event = 0x01

abbrev pub overflow : ℕ
overflow = 0x02

abbrev pub heartbeat : ℕ
heartbeat = 0x03

abbrev pub reset_type : ℕ
reset_type = 0x05

pub record StreamingConfig (N : Type 0) : Type 0 where
  pub window_seconds : N
  pub anomaly_zscore : N
  pub max_anomalies_tracked : ℕ
  pub clock_hz : N

pub record Anomaly (N : Type 0) : Type 0 where
  pub timestamp : ℕ
  pub tx_id : ℕ
  pub latency : ℤ
  pub zscore : N

pub record StreamingMetrics (N : Type 0) : Type 0 where
  pub config : StreamingConfig N
  pub global_count : ℕ
  pub global_mean : N
  pub global_m2 : N
  pub global_min : N
  pub global_max : N
  pub global_digest : TDigestWrapper N
  pub rolling_window : RollingWindowStats N
  pub sequence_tracker : SequenceTracker
  pub anomalies : List (Anomaly N)
  pub tx_count : ℕ
  pub overflow_count : ℕ
  pub overflow_traces_lost : ℕ
  pub heartbeat_count : ℕ
  pub reset_count : ℕ
  pub unknown_type_count : ℕ
  pub rate_limit_rejects : ℕ
  pub position_limit_rejects : ℕ
  pub notional_limit_rejects : ℕ
  pub kill_switch_triggered : Bool
  pub first_timestamp : Option ℕ
  pub last_timestamp : Option ℕ

-- `deque(maxlen=n).append`
abbrev pub append_bounded {ℓ} : {A : Type ℓ} → ℕ → List A → A → List A
append_bounded n xs x = let longer = xs ++ x ∷ [] in drop (length longer - n) longer

-- `bool(flags & flag)`, as a number and as a test.
abbrev pub has_flag : ℕ → ℕ → Bool
has_flag flag flags = not (bit_and flags flag == 0)

abbrev pub one_if : Bool → ℕ
one_if b = if b then 1 else 0

abbrev pub or_first : Option ℕ → ℕ → Option ℕ
or_first none t = some t
or_first (some s) t = some s

module _ {N : Type 0} where
  -- `_track_risk_flags`
  unfoldable pub track_risk_flags : ℕ → StreamingMetrics N → StreamingMetrics N
  track_risk_flags flags m = record m {
    rate_limit_rejects = m.rate_limit_rejects + one_if (has_flag 0x0100 flags);
    position_limit_rejects = m.position_limit_rejects + one_if (has_flag 0x0200 flags);
    notional_limit_rejects = m.notional_limit_rejects + one_if (has_flag 0x0400 flags);
    kill_switch_triggered = has_flag 0x0800 flags || m.kill_switch_triggered;
  }

  unfoldable pub add_overflow : StandardTrace → StreamingMetrics N → StreamingMetrics N
  add_overflow t m = record m {
    overflow_count = m.overflow_count + 1;
    overflow_traces_lost = m.overflow_traces_lost + t.payload;
  }

  unfoldable pub add_heartbeat : StandardTrace → StreamingMetrics N → StreamingMetrics N
  add_heartbeat t m = record m {
    heartbeat_count = m.heartbeat_count + 1;
    last_timestamp = if ltb 0 t.t_egress then some t.t_egress else m.last_timestamp;
  }

  unfoldable pub add_reset : StandardTrace → StreamingMetrics N → StreamingMetrics N
  add_reset t m = record m {
    reset_count = m.reset_count + 1;
    sequence_tracker = handle_reset t.core_id t.seq_no t.t_egress m.sequence_tracker;
  }

module _ (F : Float) (M : Maths F) where
  open F use {Num, of_nat, add, sub, mul, div, lt}
  open M use {inf, neg_inf, sqrt}

  abbrev pub of_int : ℤ → Num
  of_int (pos n) = of_nat n
  of_int (negsuc n) = sub (of_nat 0) (of_nat (suc n))

  -- `StreamingMetrics.__init__`: the rolling window, of buckets of one second, may refuse the
  -- configuration.
  unfoldable pub new_metrics : StreamingConfig Num → Result (StreamingMetrics Num)
  new_metrics c = do
    window ← new_window F M c.window_seconds (of_nat 1) c.clock_hz
    ok (record {
      config = c;
      global_count = 0;
      global_mean = of_nat 0;
      global_m2 = of_nat 0;
      global_min = inf;
      global_max = neg_inf;
      global_digest = new_digest F M;
      rolling_window = window;
      sequence_tracker = new_tracker;
      anomalies = [];
      tx_count = 0;
      overflow_count = 0;
      overflow_traces_lost = 0;
      heartbeat_count = 0;
      reset_count = 0;
      unknown_type_count = 0;
      rate_limit_rejects = 0;
      position_limit_rejects = 0;
      notional_limit_rejects = 0;
      kill_switch_triggered = false;
      first_timestamp = none;
      last_timestamp = none;
    })

  -- `global_stddev`, of the count and the sum of squares.
  unfoldable pub global_stddev : ℕ → Num → Num
  global_stddev count m2 = if ltb count 2 then of_nat 0 else sqrt (div m2 (of_nat (count - 1)))

  -- The anomaly detection, on the updated statistics.
  unfoldable pub detect_anomaly :
      StandardTrace
      → Num
      → ℕ
      → Num
      → Num
      → StreamingConfig Num
      → List (Anomaly Num)
      → List (Anomaly Num)
  detect_anomaly t value count mean m2 c found =
      let stddev = global_stddev count m2 in
      let zscore = div (sub value mean) stddev in
      if ltb 30 count
      then (if lt (of_nat 0) stddev
          then (if lt c.anomaly_zscore zscore
              then append_bounded c.max_anomalies_tracked found (record {
                timestamp = t.t_egress;
                tx_id = t.tx_id;
                latency = latency t;
                zscore = zscore;
              })
              else found)
          else found)
      else found

  -- `_add_transaction`
  unfoldable pub add_transaction : StandardTrace → StreamingMetrics Num → StreamingMetrics Num
  add_transaction t m =
      let value = of_int (latency t) in
      let timestamp = t.t_egress in
      let count = m.global_count + 1 in
      let delta = sub value m.global_mean in
      let mean = add m.global_mean (div delta (of_nat count)) in
      let m2 = add m.global_m2 (mul delta (sub value mean)) in
      track_risk_flags t.flags (record m {
        tx_count = m.tx_count + 1;
        first_timestamp = or_first m.first_timestamp timestamp;
        last_timestamp = some timestamp;
        sequence_tracker = (check t.core_id t.seq_no timestamp m.sequence_tracker).1;
        global_count = count;
        global_mean = mean;
        global_m2 = m2;
        global_min = min F m.global_min value;
        global_max = max F m.global_max value;
        global_digest = add_digest F M value m.global_digest;
        rolling_window = add_sample F M value timestamp m.rolling_window;
        anomalies = detect_anomaly t value count mean m2 m.config m.anomalies;
      })

  -- `StreamingMetrics.add`
  unfoldable pub add_trace : StandardTrace → StreamingMetrics Num → StreamingMetrics Num
  add_trace t m =
      if t.record_type == tx_event
      then add_transaction t m
      else if t.record_type == overflow
      then add_overflow t m
      else if t.record_type == heartbeat
      then add_heartbeat t m
      else if t.record_type == reset_type
      then add_reset t m
      else record m { unknown_type_count = m.unknown_type_count + 1 }

  -- The loop of `analyze_file` over the traces that the reader yields.
  unfoldable pub add_traces : List StandardTrace → StreamingMetrics Num → StreamingMetrics Num
  add_traces [] m = m
  add_traces (t ∷ ts) m = add_traces ts (add_trace t m)
