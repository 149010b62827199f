-- ===== src/Streaming/Window/Counts.antt =====
-- The window counts the samples of its buckets, and keeps no closed bucket from before it.
use sentinel_hft.Prelude.{
  if_split, ℕ, ◌+◌, ◌-◌, ◌≤◌, ◌≡◌, refl, false, Option, none, some, List, [], ◌∷◌, ◌++◌, arith, All,
  Bool-cases, inl, inr,
}
use sentinel_hft.Prelude.Float.{Float, geb}
use sentinel_hft.Prelude.Dict.{or_else}
use sentinel_hft.Streaming.Sketch.{Maths}
use sentinel_hft.Streaming.Sketch.Counts.{Holds, new_digest-Holds, add_digest-Holds}
use sentinel_hft.Streaming.Window.{
  WindowBucket, RollingWindowStats, new_bucket, expire, rotate, add_sample,
}

abbrev pub samples : {N : Type 0} → List (WindowBucket N) → ℕ
samples [] = 0
samples (b ∷ bs) = b.sample_count + samples bs

abbrev pub open_samples : {N : Type 0} → Option (WindowBucket N) → ℕ
open_samples none = 0
open_samples (some b) = b.sample_count

samples-append :
    {N : Type 0} (bs : List (WindowBucket N)) (b : WindowBucket N)
    → samples (bs ++ b ∷ []) ≡ samples bs + b.sample_count
samples-append [] b = omega arith
samples-append (c ∷ bs) b = omega (arith, samples-append bs b)

module _ (F : Float) (M : Maths F) where
  open F use {Num, of_nat, add, sub, div, lt}

  -- The digest of a bucket has its samples.
  abbrev pub Filled : WindowBucket Num → Type 0
  Filled b = Holds F M b.sample_count b.digest

  -- The buckets start one after another, none after `last`.
  abbrev pub Ordered : List (WindowBucket Num) → Num → Type 0
  Ordered [] last = Unit
  Ordered (b ∷ bs) last =
      (lt last b.start_time ≡ false)
      × All (λ (c : WindowBucket Num). lt c.start_time b.start_time ≡ false) bs
      × Ordered bs last

  abbrev pub Opened : RollingWindowStats Num → Option (WindowBucket Num) → Type 0
  Opened w none = w.buckets ≡ []
  Opened w (some b) = Filled b × Ordered w.buckets b.start_time

  -- The count of the window is that of its buckets, and the buckets are filled and in order.
  pub record IsWindow (w : RollingWindowStats Num) : Type 0 where
    pub counted : w.sample_count ≡ samples w.buckets + open_samples w.current_bucket
    pub filled : All Filled w.buckets
    pub opened : Opened w w.current_bucket
    pub positive : lt w.bucket_seconds (of_nat 0) ≡ false

  -- No bucket starts before the cutoff.
  abbrev pub Recent : Num → List (WindowBucket Num) → Type 0
  Recent cutoff bs = All (λ (b : WindowBucket Num). lt b.start_time cutoff ≡ false) bs

  All-append :
      (P : WindowBucket Num → Type 0) (bs : List (WindowBucket Num)) (b : WindowBucket Num)
      → All P bs
      → P b
      → All P (bs ++ b ∷ [])
  All-append P [] b a p = (p, tt)
  All-append P (c ∷ bs) b a p = (a.0, All-append P bs b a.1 p)

  Ordered-append :
      (bs : List (WindowBucket Num)) (b : WindowBucket Num) (ts : Num)
      → Ordered bs b.start_time
      → lt ts b.start_time ≡ false
      → Ordered (bs ++ b ∷ []) ts
  Ordered-append [] b ts o h = (h, tt, tt)
  Ordered-append (c ∷ bs) b ts o h = (
    F.ge_trans ts b.start_time c.start_time h o.0,
    All-append (λ (d : WindowBucket Num). lt d.start_time c.start_time ≡ false) bs b o.1 o.0,
    Ordered-append bs b ts o.2 h,
  )

  -- What is left behind the expiry.
  pub record Expired (cutoff : Num) (last : Num) (bs : List (WindowBucket Num)) (n : ℕ)
      (x : List (WindowBucket Num) × ℕ) : Type 0 where
    pub recent : Recent cutoff x.0
    pub same : x.1 + samples bs ≡ n + samples x.0
    pub filled : All Filled x.0
    pub ordered : Ordered x.0 last

  later :
      (cutoff start : Num) (bs : List (WindowBucket Num))
      → lt start cutoff ≡ false
      → All (λ (c : WindowBucket Num). lt c.start_time start ≡ false) bs
      → Recent cutoff bs
  later cutoff start [] h a = tt
  later cutoff start (b ∷ bs) h a =
      (F.ge_trans b.start_time start cutoff a.0 h, later cutoff start bs h a.1)

  expire-Expired :
      (cutoff last : Num) (bs : List (WindowBucket Num)) (n : ℕ)
      → samples bs ≤ n
      → All Filled bs
      → Ordered bs last
      → Expired cutoff last bs n (expire F M cutoff bs n)
  unfolding expire
  expire-Expired cutoff last [] n le f o = record {
    recent = tt;
    same = refl;
    filled = tt;
    ordered = tt;
  }
  expire-Expired cutoff last (b ∷ bs) n le f o = elim (Bool-cases (lt b.start_time cutoff)) [
    | inl old ↦
        let rest = expire-Expired cutoff last bs (n - b.sample_count) (omega arith) f.1 o.2 in
        rw old (record {
          recent = rest.recent;
          same = omega (arith, rest.same);
          filled = rest.filled;
          ordered = rest.ordered;
        })
    | inr kept ↦ rw kept (record {
      recent = (kept, later cutoff b.start_time bs kept o.1);
      same = refl;
      filled = f;
      ordered = o;
    })
  ]

  -- What `rotate` hands on.
  record Rotated (n : ℕ) (x : WindowBucket Num × List (WindowBucket Num)) : Type 0 where
    current : Filled x.0
    closed : All Filled x.1
    ordered : Ordered x.1 (x.0).start_time
    counted : n ≡ samples x.1 + (x.0).sample_count

  started :
      (ts : Num) (w : RollingWindowStats Num)
      → IsWindow w
      → Rotated w.sample_count (or_else w.current_bucket (new_bucket F M ts), w.buckets)
  started ts w v = of_option w.current_bucket v.opened v.counted
    where
      of_option :
          (o : Option (WindowBucket Num))
          → Opened w o
          → w.sample_count ≡ samples w.buckets + open_samples o
          → Rotated w.sample_count (or_else o (new_bucket F M ts), w.buckets)
      of_option none empty count = record {
        current = new_digest-Holds F M;
        closed = v.filled;
        ordered = rw empty tt;
        counted = count;
      }
      of_option (some b) opened count = record {
        current = opened.0;
        closed = v.filled;
        ordered = opened.1;
        counted = count;
      }

  rotate-Rotated :
      (ts : Num) (w : RollingWindowStats Num)
      → IsWindow w
      → Rotated w.sample_count (rotate F M ts w)
  unfolding rotate
  rotate-Rotated ts w v =
      let c = or_else w.current_bucket (new_bucket F M ts) in
      let s = started ts w v in
      if_split (Rotated w.sample_count) (geb F ts (add c.start_time w.bucket_seconds))
        (λ ended.
          let past : lt ts (add c.start_time w.bucket_seconds) ≡ false = ground arith in
          record {
            current = new_digest-Holds F M;
            closed = All-append Filled w.buckets c s.closed s.current;
            ordered = Ordered-append w.buckets c ts s.ordered (
                F.ge_trans ts (add c.start_time w.bucket_seconds) c.start_time past
                  (F.add_ge c.start_time w.bucket_seconds v.positive));
            counted = omega (arith, s.counted, samples-append w.buckets c);
          })
        (λ running. s)

  pub add_sample-Expired :
      (value : Num) (timestamp : ℕ) (w : RollingWindowStats Num)
      → IsWindow w
      → Expired
          (sub (div (of_nat timestamp) w.clock_hz) w.window_seconds)
          (rotate F M (div (of_nat timestamp) w.clock_hz) w).0.start_time
          (rotate F M (div (of_nat timestamp) w.clock_hz) w).1
          (w.sample_count + 1)
          (
            (add_sample F M value timestamp w).buckets,
            (add_sample F M value timestamp w).sample_count,
          )
  unfolding add_sample
  add_sample-Expired value timestamp w v =
      let r = rotate-Rotated (div (of_nat timestamp) w.clock_hz) w v in
      expire-Expired _ _ _ (w.sample_count + 1) (omega (arith, r.counted)) r.closed r.ordered

  pub add_sample-IsWindow :
      (value : Num) (timestamp : ℕ) (w : RollingWindowStats Num)
      → IsWindow w
      → IsWindow (add_sample F M value timestamp w)
  unfolding add_sample
  add_sample-IsWindow value timestamp w v =
      let r = rotate-Rotated (div (of_nat timestamp) w.clock_hz) w v in
      let x = add_sample-Expired value timestamp w v in
      record {
        counted = omega (arith, x.same, r.counted);
        filled = x.filled;
        opened = (add_digest-Holds F M _ value _ r.current, x.ordered);
        positive = v.positive;
      }
