-- ===== src/Streaming/Sketch.antt =====
-- sentinel_hft/streaming/quantiles.py: DDSketch, and TDigestWrapper as it is without the tdigest
-- library. What the sketch uses of the module math, of floats beyond their arithmetic, is a parameter.
pub mod Counts
use sentinel_hft.Prelude.{
  ℕ, ◌+◌, ◌≡◌, Bool, true, false, not, ◌&&◌, ◌||◌, Option, none, some, List, [], ◌∷◌, map, ◌==◌,
  if◌then◌else◌,
}
use sentinel_hft.Prelude.Int.{ℤ, pos, negsuc, leb_ℤ, ◌-ℤ◌}
use sentinel_hft.Prelude.Eq.{int_eq}
use sentinel_hft.Prelude.Dict.{Dict, lookup, or_else, bump_by}
use sentinel_hft.Prelude.Float.{Float, geb, max, min, abs}
use sentinel_hft.Prelude.Result.{Result, ok, err, value_error, ◌>>=◌, ◌>>◌, guard}

-- `inf` and `neg_inf` are the infinities; `pow` has an integer exponent. The law holds of every
-- double: a difference with itself is zero or not a number, never above a billionth.
pub record Maths (F : Float) : Type 0 where
  pub inf : F.Num
  pub neg_inf : F.Num
  pub log : F.Num → F.Num
  pub sqrt : F.Num → F.Num
  pub pow : F.Num → ℤ → F.Num
  pub ceil : F.Num → ℤ
  pub sub_self :
      (a : F.Num) → F.lt (F.div (F.of_nat 1) (F.of_nat 1000000000)) (abs F (F.sub a a)) ≡ false

pub record DdSketch (N : Type 0) : Type 0 where
  pub alpha : N
  pub gamma : N
  pub log_gamma : N
  pub positive_buckets : Dict ℤ ℕ
  pub negative_buckets : Dict ℤ ℕ
  pub zero_count : ℕ
  pub count : ℕ
  pub min : N
  pub max : N

-- The loop of `merge` over the items of one dictionary.
unfoldable pub merge_buckets : Dict ℤ ℕ → Dict ℤ ℕ → Dict ℤ ℕ
merge_buckets [] d = d
merge_buckets ((k, n) ∷ more) d = merge_buckets more (bump_by n k d)

-- `sorted(d.keys())`, and the same in the other direction.
abbrev pub insert_key : ℤ → List ℤ → List ℤ
insert_key k [] = k ∷ []
insert_key k (j ∷ js) = let rest = insert_key k js in if leb_ℤ k j then k ∷ j ∷ js else j ∷ rest

unfoldable pub sort_keys : List ℤ → List ℤ
sort_keys [] = []
sort_keys (k ∷ ks) = insert_key k (sort_keys ks)

abbrev pub keys : Dict ℤ ℕ → List ℤ
keys d = map (λ (e : ℤ × ℕ). e.0) d

abbrev pub reverse_onto : List ℤ → List ℤ → List ℤ
reverse_onto [] acc = acc
reverse_onto (k ∷ ks) acc = reverse_onto ks (k ∷ acc)

module _ (F : Float) (M : Maths F) where
  open F use {Num, of_nat, add, sub, mul, div, lt}
  open M use {inf, neg_inf, log, sqrt, pow, ceil}

  abbrev pub eqb : Num → Num → Bool
  eqb a b = not (lt a b) && not (lt b a)

  abbrev pub sketch_of : Num → DdSketch Num
  sketch_of alpha =
      let gamma = div (add (of_nat 1) alpha) (sub (of_nat 1) alpha) in
      record {
        alpha = alpha;
        gamma = gamma;
        log_gamma = log gamma;
        positive_buckets = [];
        negative_buckets = [];
        zero_count = 0;
        count = 0;
        min = inf;
        max = neg_inf;
      }

  -- `DDSketch.__init__`
  unfoldable pub new_sketch : Num → Result (DdSketch Num)
  new_sketch alpha =
      guard (lt (of_nat 0) alpha && lt alpha (of_nat 1)) value_error >> ok (sketch_of alpha)

  -- `value <= 0`
  unfoldable pub bucket_index : DdSketch Num → Num → ℤ
  bucket_index s value =
      if not (lt (of_nat 0) value) then pos 0 else ceil (div (log value) s.log_gamma)

  unfoldable pub bucket_value : DdSketch Num → ℤ → Num
  bucket_value s index =
      if leb_ℤ index (pos 0)
      then of_nat 0
      else sqrt (mul (pow s.gamma (index -ℤ pos 1)) (pow s.gamma index))

  -- The counts and the extremes, before the bucket is chosen.
  abbrev pub with_value : Num → DdSketch Num → DdSketch Num
  with_value value s = record s {
    count = s.count + 1;
    min = min F s.min value;
    max = max F s.max value;
  }

  unfoldable pub add_value : Num → DdSketch Num → DdSketch Num
  add_value value s =
      if lt (of_nat 0) value
      then record (with_value value s) {
        positive_buckets = bump_by 1 (bucket_index s value) s.positive_buckets;
      }
      else if lt value (of_nat 0)
      then record (with_value value s) {
        negative_buckets = bump_by 1 (bucket_index s (sub (of_nat 0) value)) s.negative_buckets;
      }
      else record (with_value value s) { zero_count = s.zero_count + 1 }

  -- The walk over the buckets in the order of their keys: where the rank is reached, or how far
  -- the counts have come.
  unfoldable pub walk : Num → Dict ℤ ℕ → List ℤ → ℕ → Option ℤ × ℕ
  walk target d [] cumulative = (none, cumulative)
  walk target d (k ∷ ks) cumulative =
      let here = cumulative + or_else (lookup k d) 0 in
      let rest = walk target d ks here in
      if geb F (of_nat here) target then (some k, here) else rest

  unfoldable pub rank_value : DdSketch Num → Num → Num
  rank_value s target =
      let (negative, below) =
        walk target s.negative_buckets (reverse_onto (sort_keys (keys s.negative_buckets)) []) 0 in
      let upto_zero = below + s.zero_count in
      let (positive, all) =
        walk target s.positive_buckets (sort_keys (keys s.positive_buckets)) upto_zero in
      elim negative [
        | some k ↦ sub (of_nat 0) (bucket_value s k)
        | none ↦
            if geb F (of_nat upto_zero) target
            then of_nat 0
            else elim positive [ some k ↦ bucket_value s k | none ↦ s.max ]
      ]

  unfoldable pub percentile : Num → DdSketch Num → Num
  percentile p s =
      let q = max F (of_nat 0) (min F (of_nat 1) p) in
      if s.count == 0
      then of_nat 0
      else if eqb q (of_nat 0)
      then s.min
      else if eqb q (of_nat 1)
      then s.max
      else rank_value s (mul q (of_nat s.count))

  abbrev pub joined : DdSketch Num → DdSketch Num → DdSketch Num
  joined other s = record s {
    positive_buckets = merge_buckets other.positive_buckets s.positive_buckets;
    negative_buckets = merge_buckets other.negative_buckets s.negative_buckets;
    zero_count = s.zero_count + other.zero_count;
    count = s.count + other.count;
    min = min F s.min other.min;
    max = max F s.max other.max;
  }

  -- `merge`: the sketch that is merged into comes last.
  unfoldable pub merge : DdSketch Num → DdSketch Num → Result (DdSketch Num)
  merge other s =
      guard (not (lt (div (of_nat 1) (of_nat 1000000000)) (abs F (sub s.alpha other.alpha))))
        value_error
      >> ok (joined other s)

-- `TDigestWrapper`
pub record TDigestWrapper (N : Type 0) : Type 0 where
  pub count : ℕ
  pub min : N
  pub max : N
  pub impl : DdSketch N

module _ (F : Float) (M : Maths F) where
  open F use {Num, of_nat, div}
  open M use {inf, neg_inf}

  -- The precision of every wrapped sketch, 0.01, which `DDSketch` takes.
  abbrev pub hundredth : Num
  hundredth = div (of_nat 1) (of_nat 100)

  abbrev pub new_digest : TDigestWrapper Num
  new_digest = record { count = 0; min = inf; max = neg_inf; impl = sketch_of F M hundredth }

  unfoldable pub add_digest : Num → TDigestWrapper Num → TDigestWrapper Num
  add_digest value t = record {
    count = t.count + 1;
    min = min F t.min value;
    max = max F t.max value;
    impl = add_value F M value t.impl;
  }

  unfoldable pub digest_percentile : Num → TDigestWrapper Num → Num
  digest_percentile p t =
      if t.count == 0
      then of_nat 0
      else percentile F M
          (max F (div (of_nat 1) (of_nat 1000)) (min F (div (of_nat 999) (of_nat 1000)) p)) t.impl

  abbrev pub merged_digest :
      DdSketch Num → TDigestWrapper Num → TDigestWrapper Num → TDigestWrapper Num
  merged_digest impl other t = record {
    count = t.count + other.count;
    min = min F t.min other.min;
    max = max F t.max other.max;
    impl = impl;
  }

  unfoldable pub merge_digest :
      TDigestWrapper Num → TDigestWrapper Num → Result (TDigestWrapper Num)
  merge_digest other t = do impl ← merge F M other.impl t.impl; ok (merged_digest impl other t)
