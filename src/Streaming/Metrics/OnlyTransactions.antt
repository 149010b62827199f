-- ===== src/Streaming/Metrics/OnlyTransactions.antt =====
-- Which traces affect which metrics: latency statistics take transactions only, every trace is
-- counted once.
use sentinel_hft.Prelude.{
  if_split, ℕ, ◌+◌, ◌≡◌, refl, sym, ap, ◌∙◌, true, false, none, List, [], ◌∷◌, ◌==◌, if◌then◌else◌,
  arith, Bool-cases, inl, inr,
}
use sentinel_hft.Prelude.Float.{Float}
use sentinel_hft.Sequence.{SequenceTracker, new_tracker}
use sentinel_hft.Sequence.Counters.{Call, check_call, reset_call, run}
use sentinel_hft.Trace.Adapters.{StandardTrace}
use sentinel_hft.Streaming.Sketch.{Maths}
use sentinel_hft.Streaming.Metrics.{
  tx_event, overflow, heartbeat, reset_type, StreamingMetrics, track_risk_flags, add_overflow,
  add_heartbeat, add_reset, add_transaction, add_trace, add_traces,
}

abbrev pub only_tx : List StandardTrace → List StandardTrace
only_tx [] = []
only_tx (t ∷ ts) = if t.record_type == tx_event then t ∷ only_tx ts else only_tx ts

-- The metrics of latency and risk: all but the sequence tracker, the counters of the other record
-- types and the time of the last trace, which are set to their start.
unfoldable pub latency_view : {N : Type 0} → StreamingMetrics N → StreamingMetrics N
latency_view m = record m {
  sequence_tracker = new_tracker;
  overflow_count = 0;
  overflow_traces_lost = 0;
  heartbeat_count = 0;
  reset_count = 0;
  unknown_type_count = 0;
  last_timestamp = none;
}

-- The traces of a record type.
abbrev pub count_type : ℕ → List StandardTrace → ℕ
count_type ty [] = 0
count_type ty (t ∷ ts) = (if t.record_type == ty then 1 else 0) + count_type ty ts

abbrev pub count_unknown : List StandardTrace → ℕ
count_unknown [] = 0
count_unknown (t ∷ ts) =
    (if t.record_type == tx_event
      then 0
      else if t.record_type == overflow
      then 0
      else if t.record_type == heartbeat
      then 0
      else if t.record_type == reset_type
      then 0
      else 1)
    + count_unknown ts

-- What the sequence tracker is asked: a check for a transaction, a reset for a reset.
abbrev pub calls_of : List StandardTrace → List Call
calls_of [] = []
calls_of (t ∷ ts) =
    let rest = calls_of ts in
    if t.record_type == tx_event
    then check_call t.core_id t.seq_no t.t_egress ∷ rest
    else if t.record_type == reset_type
    then reset_call t.core_id t.seq_no t.t_egress ∷ rest
    else rest

abbrev pub lost : List StandardTrace → ℕ
lost [] = 0
lost (t ∷ ts) = (if t.record_type == overflow then t.payload else 0) + lost ts

module _ (F : Float) (M : Maths F) where
  open F use {Num}

  view-add_transaction :
      (t : StandardTrace) (m : StreamingMetrics Num)
      → latency_view (add_transaction F M t m)
        ≡ latency_view (add_transaction F M t (latency_view m))
  unfolding add_transaction latency_view track_risk_flags
  view-add_transaction t m = refl

  view-other :
      (t : StandardTrace) (m : StreamingMetrics Num)
      → (t.record_type == tx_event) ≡ false
      → latency_view (add_trace F M t m) ≡ latency_view m
  unfolding add_trace latency_view add_overflow add_heartbeat add_reset
  view-other t m other =
      let Kept = λ (x : StreamingMetrics Num). latency_view x ≡ latency_view m in
      rw other (
        if_split Kept (t.record_type == overflow) (λ lost. refl)
          (λ _.
            if_split Kept (t.record_type == heartbeat) (λ beat. refl)
              (λ _.
                if_split Kept (t.record_type == reset_type) (λ restart. refl) (λ unknown. refl))))

  view-transaction :
      (t : StandardTrace) (m : StreamingMetrics Num)
      → (t.record_type == tx_event) ≡ true
      → add_trace F M t m ≡ add_transaction F M t m
  unfolding add_trace
  view-transaction t m tx = rw tx

  view_same :
      (t : StandardTrace) (m n : StreamingMetrics Num)
      → latency_view m ≡ latency_view n
      → latency_view (add_transaction F M t m) ≡ latency_view (add_transaction F M t n)
  view_same t m n e =
      view-add_transaction t m
      ∙ ap (λ (x : StreamingMetrics Num). latency_view (add_transaction F M t x)) e
      ∙ sym (view-add_transaction t n)

  view-only_tx :
      (ts : List StandardTrace) (m n : StreamingMetrics Num)
      → latency_view m ≡ latency_view n
      → latency_view (add_traces F M ts m) ≡ latency_view (add_traces F M (only_tx ts) n)
  unfolding add_traces
  view-only_tx [] m n e = e
  view-only_tx (t ∷ ts) m n e = elim (Bool-cases (t.record_type == tx_event)) [
    | inl tx ↦
        rw (tx, view-transaction t m tx, add_traces, view-transaction t n tx)
          (view-only_tx ts (add_transaction F M t m) (add_transaction F M t n) (view_same t m n e))
    | inr other ↦ rw other (view-only_tx ts (add_trace F M t m) n (view-other t m other ∙ e))
  ]

  -- What one trace adds to the counters and asks of the tracker.
  record Stepped (t : StandardTrace) (m x : StreamingMetrics Num) : Type 0 where
    tx : x.tx_count ≡ m.tx_count + count_type tx_event (t ∷ [])
    overflows : x.overflow_count ≡ m.overflow_count + count_type overflow (t ∷ [])
    lost_lem : x.overflow_traces_lost ≡ m.overflow_traces_lost + lost (t ∷ [])
    heartbeats : x.heartbeat_count ≡ m.heartbeat_count + count_type heartbeat (t ∷ [])
    resets : x.reset_count ≡ m.reset_count + count_type reset_type (t ∷ [])
    unknown : x.unknown_type_count ≡ m.unknown_type_count + count_unknown (t ∷ [])
    tracked : x.sequence_tracker ≡ run (calls_of (t ∷ [])) m.sequence_tracker

  add_trace-Stepped :
      (t : StandardTrace) (m : StreamingMetrics Num) → Stepped t m (add_trace F M t m)
  unfolding add_trace add_transaction track_risk_flags add_overflow add_heartbeat add_reset run
  add_trace-Stepped t m = record {
    tx = ground arith;
    overflows = ground arith;
    lost_lem = ground arith;
    heartbeats = ground arith;
    resets = ground arith;
    unknown = ground arith;
    tracked = ground arith;
  }

  -- The counters and the tracker after a stream, from the stream alone.
  pub record Counted (ts : List StandardTrace) (m x : StreamingMetrics Num) : Type 0 where
    pub tx : x.tx_count ≡ m.tx_count + count_type tx_event ts
    pub overflows : x.overflow_count ≡ m.overflow_count + count_type overflow ts
    pub lost_lem : x.overflow_traces_lost ≡ m.overflow_traces_lost + lost ts
    pub heartbeats : x.heartbeat_count ≡ m.heartbeat_count + count_type heartbeat ts
    pub resets : x.reset_count ≡ m.reset_count + count_type reset_type ts
    pub unknown : x.unknown_type_count ≡ m.unknown_type_count + count_unknown ts
    pub tracked : x.sequence_tracker ≡ run (calls_of ts) m.sequence_tracker

  run-calls_of :
      (t : StandardTrace) (ts : List StandardTrace) (s : SequenceTracker)
      → run (calls_of ts) (run (calls_of (t ∷ [])) s) ≡ run (calls_of (t ∷ ts)) s
  unfolding run
  run-calls_of t ts s = ground arith

  add_traces-Counted :
      (ts : List StandardTrace) (m : StreamingMetrics Num) → Counted ts m (add_traces F M ts m)
  unfolding add_traces
  add_traces-Counted [] m = record {
    tx = omega arith;
    overflows = omega arith;
    lost_lem = omega arith;
    heartbeats = omega arith;
    resets = omega arith;
    unknown = omega arith;
    tracked = unfold run in refl;
  }
  add_traces-Counted (t ∷ ts) m =
      let one = add_trace-Stepped t m in
      let more = add_traces-Counted ts (add_trace F M t m) in
      record {
        tx = omega (arith, one.tx, more.tx);
        overflows = omega (arith, one.overflows, more.overflows);
        lost_lem = omega (arith, one.lost_lem, more.lost_lem);
        heartbeats = omega (arith, one.heartbeats, more.heartbeats);
        resets = omega (arith, one.resets, more.resets);
        unknown = omega (arith, one.unknown, more.unknown);
        tracked =
            more.tracked
            ∙ ap (run (calls_of ts)) one.tracked
            ∙ run-calls_of t ts m.sequence_tracker;
      }

  -- Over any stream of traces, the statistics of latency and risk, with the rolling window and the
  -- digest, are those of its transactions alone. Every counter is the number of the traces of its
  -- type, the lost traces are the sum over the overflow records, and the sequence tracker is asked
  -- once for each transaction and each reset, in their order.
  pub add_traces-only_tx :
      (ts : List StandardTrace) (m : StreamingMetrics Num)
      → (latency_view (add_traces F M ts m) ≡ latency_view (add_traces F M (only_tx ts) m))
        × Counted ts m (add_traces F M ts m)
  add_traces-only_tx ts m = (view-only_tx ts m m refl, add_traces-Counted ts m)
