-- ===== src/Streaming/Window/Samples.antt =====
-- Runs of the rolling window: what it counts and what its percentiles are taken over.
use sentinel_hft.Prelude.{
  ◌++◌, map, if_split, ℕ, ◌+◌, ◌≡◌, refl, ◌∙◌, subst, true, not, Option, none, some, List, [], ◌∷◌,
  ltb, arith, All,
}
use sentinel_hft.Prelude.Float.{Float}
use sentinel_hft.Prelude.Result.{ok, value_error, bind-eq-ok, guard}
use sentinel_hft.Streaming.Sketch.{Maths, TDigestWrapper, new_digest}
use sentinel_hft.Streaming.Sketch.Counts.{Holds, new_digest-Holds, merge_digest-Holds}
use sentinel_hft.Streaming.Window.{
  WindowBucket, RollingWindowStats, new_window, window_of, add_sample, add_samples, merge_all,
  open_bucket, merged,
}
use sentinel_hft.Streaming.Window.Counts.{
  samples, open_samples, Filled, Opened, IsWindow, Recent, add_sample-Expired, add_sample-IsWindow,
}
use sentinel_hft.Prelude.Reads.{concat}
use sentinel_hft.Streaming.Window.Values.{
  AllTaken, OpenTaken, merge_groups, value_of, new_window-Remembers, add_samples-Remembers,
  add_sample-Remembers, add_sample-merged,
}

module _ (F : Float) (M : Maths F) where
  open F use {Num, of_nat, sub, div, lt}

  -- A new window has positive buckets no longer than itself, and no samples.
  new_window-IsWindow :
      (ws bs hz : Num) (w : RollingWindowStats Num)
      → new_window F M ws bs hz ≡ ok w
      → IsWindow F M w × (w.clock_hz ≡ hz) × (w.window_seconds ≡ ws)
  unfolding new_window
  new_window-IsWindow ws bs hz w e =
      let (_, p, e1) = bind-eq-ok (guard (lt (of_nat 0) ws) value_error) _ e in
      let (_, q, e2) = bind-eq-ok (guard (lt (of_nat 0) bs) value_error) _ e1 in
      let (_, r, e3) = bind-eq-ok (guard (not (lt ws bs)) value_error) _ e2 in
      let above : lt (of_nat 0) bs ≡ true = ground arith in
      let same : window_of F M ws bs hz ≡ w = ground arith in
      subst
        (λ (x : RollingWindowStats Num).
          IsWindow F M x × (x.clock_hz ≡ hz) × (x.window_seconds ≡ ws))
        same
        (
          record {
            counted = refl;
            filled = tt;
            opened = refl;
            positive = F.lt_asym (of_nat 0) bs above;
          },
          refl,
          refl,
        )

  merge_all-Holds :
      (bs : List (WindowBucket Num)) (n : ℕ) (t : TDigestWrapper Num)
      → All (Filled F M) bs
      → Holds F M n t
      → (u : TDigestWrapper Num) × (merge_all F M bs t ≡ ok u) × Holds F M (n + samples bs) u
  unfolding merge_all
  merge_all-Holds [] n t f h = (t, refl, subst (λ (k : ℕ). Holds F M k t) (omega arith) h)
  merge_all-Holds (b ∷ bs) n t f h =
      let (next, one, held) = merge_digest-Holds F M b.sample_count n b.digest t f.0 h in
      let (u, more, all) = merge_all-Holds bs (n + b.sample_count) next f.1 held in
      (u, rw one more, subst (λ (k : ℕ). Holds F M k u) (omega arith) all)

  open_bucket-Filled :
      (w : RollingWindowStats Num)
      → IsWindow F M w
      → All (Filled F M) (open_bucket F M w.current_bucket)
        × (samples (open_bucket F M w.current_bucket) ≡ open_samples w.current_bucket)
  open_bucket-Filled w v = of_option w.current_bucket v.opened
    where
      of_option :
          (o : Option (WindowBucket Num))
          → Opened F M w o
          → All (Filled F M) (open_bucket F M o) × (samples (open_bucket F M o) ≡ open_samples o)
      of_option none empty = (tt, refl)
      of_option (some b) (filled, ordered) =
          if_split
            (λ (bs : List (WindowBucket Num)). All (Filled F M) bs × (samples bs ≡ b.sample_count))
            (ltb 0 b.sample_count) (λ more. ((filled, tt), omega arith))
            (λ none_yet. (tt, ground arith))

  merged-Holds :
      (w : RollingWindowStats Num)
      → IsWindow F M w
      → (t : TDigestWrapper Num) × (merged F M w ≡ ok t) × Holds F M w.sample_count t
  unfolding merged
  merged-Holds w v =
      let (closed, one, held) =
        merge_all-Holds w.buckets 0 (new_digest F M) v.filled (new_digest-Holds F M) in
      let (filled, count) = open_bucket-Filled w v in
      let (t, two, all) =
        merge_all-Holds (open_bucket F M w.current_bucket) (0 + samples w.buckets) closed filled
          held in
      (t, rw one two, subst (λ (k : ℕ). Holds F M k t) (omega (arith, count, v.counted)) all)

  add_samples-IsWindow :
      (xs : List (Num × ℕ)) (w : RollingWindowStats Num)
      → IsWindow F M w
      → IsWindow F M (add_samples F M xs w)
        × ((add_samples F M xs w).clock_hz ≡ w.clock_hz)
        × ((add_samples F M xs w).window_seconds ≡ w.window_seconds)
  unfolding add_samples add_sample
  add_samples-IsWindow [] w v = (v, refl, refl)
  add_samples-IsWindow ((value, timestamp) ∷ xs) w v =
      add_samples-IsWindow xs (add_sample F M value timestamp w)
        (add_sample-IsWindow F M value timestamp w v)

  -- A window with a positive clock rate that its constructor accepts, after any samples, their times
  -- in any order, and one more sample: its count is that of its buckets, every closed bucket that it
  -- keeps starts no earlier than the time of the last sample less the window's length, and the values
  -- that were added are, in order, some that have left it and then, group by group, those that its
  -- buckets count and hold the digests of, the last group in the open bucket. Its percentiles are
  -- taken over the digests of these groups, merged in order without an exception, which count as many
  -- values as the window.
  pub add_samples_window :
      (ws bs hz : Num) (w : RollingWindowStats Num) (xs : List (Num × ℕ)) (value : Num)
      (timestamp : ℕ)
      → lt (of_nat 0) hz ≡ true
      → new_window F M ws bs hz ≡ ok w
      → let x = add_sample F M value timestamp (add_samples F M xs w) in
        (x.sample_count ≡ samples x.buckets + open_samples x.current_bucket)
        × Recent F M (sub (div (of_nat timestamp) hz) ws) x.buckets
        × ((left : List Num) × (groups : List (List Num)) × (newest : List Num) × (map
                  (value_of F M)
                  xs
                ++ value ∷ []
              ≡ left ++ (concat groups ++ newest))
            × AllTaken F M groups x.buckets
            × OpenTaken F M newest x.current_bucket
            × (merged F M x ≡ merge_groups F M (groups ++ newest ∷ []) (new_digest F M)))
        × ((t : TDigestWrapper Num) × (merged F M x ≡ ok t) × Holds F M x.sample_count t)
  add_samples_window ws bs hz w xs value timestamp runs e =
      let (new, clock, length) = new_window-IsWindow ws bs hz w e in
      let (v, clock', length') = add_samples-IsWindow xs w new in
      let y = add_samples F M xs w in
      let v' = add_sample-IsWindow F M value timestamp y v in
      let kept = (add_sample F M value timestamp y).buckets in
      let expired = add_sample-Expired F M value timestamp y v in
      let before = add_samples-Remembers F M xs [] w (new_window-Remembers F M ws bs hz w e) in
      let r = add_sample-Remembers F M value timestamp _ y before in
      let whole = add_sample-merged F M value timestamp y r.groups r.newest r.closed r.opened in
      (
        v'.counted,
        subst (λ (c : Num). Recent F M (sub (div (of_nat timestamp) c) ws) kept) (clock' ∙ clock)
            (subst (λ (s : Num). Recent F M (sub (div (of_nat timestamp) y.clock_hz) s) kept)
              (length' ∙ length) expired.recent),
        (r.left, r.groups, r.newest, r.all, r.closed, r.opened, whole),
        merged-Holds (add_sample F M value timestamp y) v',
      )
