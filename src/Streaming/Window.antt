-- ===== src/Streaming/Window.antt =====
-- sentinel_hft/streaming/rolling_window.py: percentiles over the last seconds, in buckets of time.
pub mod Counts
pub mod Samples
pub mod Values
use sentinel_hft.Prelude.{
  ℕ, ◌+◌, ◌-◌, Bool, true, false, not, ◌&&◌, Option, none, some, List, [], ◌∷◌, ◌++◌, ltb, ◌==◌,
  if◌then◌else◌,
}
use sentinel_hft.Prelude.Float.{Float, geb}
use sentinel_hft.Prelude.Dict.{or_else}
use sentinel_hft.Prelude.Result.{Result, ok, value_error, ◌>>=◌, ◌>>◌, guard}
use sentinel_hft.Streaming.Sketch.{
  Maths, TDigestWrapper, new_digest, add_digest, merge_digest, digest_percentile,
}

pub record WindowBucket (N : Type 0) : Type 0 where
  pub start_time : N
  pub digest : TDigestWrapper N
  pub sample_count : ℕ

pub record RollingWindowStats (N : Type 0) : Type 0 where
  pub window_seconds : N
  pub bucket_seconds : N
  pub clock_hz : N
  pub buckets : List (WindowBucket N)
  pub current_bucket : Option (WindowBucket N)
  pub sample_count : ℕ

module _ (F : Float) (M : Maths F) where
  open F use {Num, of_nat, add, sub, div, lt}

  abbrev pub window_of : Num → Num → Num → RollingWindowStats Num
  window_of window_seconds bucket_seconds clock_hz = record {
    window_seconds = window_seconds;
    bucket_seconds = bucket_seconds;
    clock_hz = clock_hz;
    buckets = [];
    current_bucket = none;
    sample_count = 0;
  }

  -- `RollingWindowStats.__init__`
  unfoldable pub new_window : Num → Num → Num → Result (RollingWindowStats Num)
  new_window window_seconds bucket_seconds clock_hz =
      guard (lt (of_nat 0) window_seconds) value_error
      >> (guard (lt (of_nat 0) bucket_seconds) value_error
          >> (guard (not (lt window_seconds bucket_seconds)) value_error
              >> ok (window_of window_seconds bucket_seconds clock_hz)))

  abbrev pub new_bucket : Num → WindowBucket Num
  new_bucket ts = record { start_time = ts; digest = new_digest F M; sample_count = 0 }

  -- `_expire_buckets`: the buckets that are left, and the count. A bucket's samples are among those
  -- counted, so the count does not fall below zero.
  unfoldable pub expire : Num → List (WindowBucket Num) → ℕ → List (WindowBucket Num) × ℕ
  expire cutoff [] n = ([], n)
  expire cutoff (b ∷ bs) n =
      let rest = expire cutoff bs (n - b.sample_count) in
      if lt b.start_time cutoff then rest else (b ∷ bs, n)

  -- The bucket that takes the value, and those that are closed before it.
  unfoldable pub rotate : Num → RollingWindowStats Num → WindowBucket Num × List (WindowBucket Num)
  rotate ts w =
      let current = or_else w.current_bucket (new_bucket ts) in
      if geb F ts (add current.start_time w.bucket_seconds)
      then (new_bucket ts, w.buckets ++ current ∷ [])
      else (current, w.buckets)

  -- `RollingWindowStats.add`
  unfoldable pub add_sample : Num → ℕ → RollingWindowStats Num → RollingWindowStats Num
  add_sample value timestamp w =
      let ts = div (of_nat timestamp) w.clock_hz in
      let (current, closed) = rotate ts w in
      let (left, n) = expire (sub ts w.window_seconds) closed (w.sample_count + 1) in
      record w {
        buckets = left;
        current_bucket = some (record current {
          digest = add_digest F M value current.digest;
          sample_count = current.sample_count + 1;
        });
        sample_count = n;
      }

  unfoldable pub add_samples : List (Num × ℕ) → RollingWindowStats Num → RollingWindowStats Num
  add_samples [] w = w
  add_samples ((value, timestamp) ∷ more) w = add_samples more (add_sample value timestamp w)

  unfoldable pub merge_all :
      List (WindowBucket Num) → TDigestWrapper Num → Result (TDigestWrapper Num)
  merge_all [] t = ok t
  merge_all (b ∷ bs) t = do t' ← merge_digest F M b.digest t; merge_all bs t'

  -- The open bucket, when it has samples.
  abbrev pub open_bucket : Option (WindowBucket Num) → List (WindowBucket Num)
  open_bucket none = []
  open_bucket (some b) = if ltb 0 b.sample_count then b ∷ [] else []

  -- The digest of the whole window.
  unfoldable pub merged : RollingWindowStats Num → Result (TDigestWrapper Num)
  merged w = do
    closed ← merge_all w.buckets (new_digest F M)
    merge_all (open_bucket w.current_bucket) closed

  -- `RollingWindowStats.percentile`
  unfoldable pub window_percentile : Num → RollingWindowStats Num → Result Num
  window_percentile p w =
      if w.sample_count == 0
      then ok (of_nat 0)
      else (do t ← merged w; ok (digest_percentile F M p t))
