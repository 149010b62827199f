-- ===== src/Onchain/Analyzer/Stages.antt =====
-- What a stage of the metrics holds after any values.
use sentinel_hft.Prelude.{
  ℕ, ◌+◌, ◌≡◌, Bool, true, false, Option, none, some, List, [], ◌∷◌, length, sum, All, leb, arith,
}
use Prim.Native.Nat.{min, max}
use sentinel_hft.Prelude.Eq.{nat_eq}
use sentinel_hft.Prelude.Float.{Float}
use sentinel_hft.Streaming.Sketch.{Maths, DdSketch}
use sentinel_hft.Streaming.Sketch.Counts.{count-add_value}
use sentinel_hft.Onchain.Analyzer.{StageSketch, extreme, stage_of, add_latency}

abbrev pub at_least : Option ℕ → ℕ → Bool
at_least none v = false
at_least (some m) v = leb m v

abbrev pub at_most : Option ℕ → ℕ → Bool
at_most none v = false
at_most (some m) v = leb v m

-- The stage has extremes, and the value is between them.
abbrev pub Within : {N : Type 0} → StageSketch N → ℕ → Type 0
Within s v = (at_least s.min_ns v ≡ true) × (at_most s.max_ns v ≡ true)

-- A stage that was given the values.
pub record Streamed {N : Type 0} (vs : List ℕ) (s : StageSketch N) : Type 0 where
  pub counted : s.count ≡ length vs
  pub sketched : s.sketch.count ≡ length vs
  pub summed : s.sum_ns ≡ sum vs
  pub bounded : All (Within s) vs

extreme_keeps :
    (o : Option ℕ) (v w : ℕ)
    → (at_least o w ≡ true → at_least (extreme min o v) w ≡ true)
      × (at_most o w ≡ true → at_most (extreme max o v) w ≡ true)
extreme_keeps none v w = (λ h. cc, λ h. cc)
extreme_keeps (some m) v w = (λ h. ground arith, λ h. ground arith)

extreme_takes :
    (o : Option ℕ) (v : ℕ)
    → (at_least (extreme min o v) v ≡ true) × (at_most (extreme max o v) v ≡ true)
extreme_takes none v = (ground arith, ground arith)
extreme_takes (some m) v = (ground arith, ground arith)

module _ (F : Float) (M : Maths F) where
  open F use {Num}

  -- The values of a list one after another.
  unfoldable pub stream : List ℕ → StageSketch Num → StageSketch Num
  stream [] s = s
  stream (v ∷ vs) s = stream vs (add_latency F M v s)

  stream-counted : (vs : List ℕ) (s : StageSketch Num) → (stream vs s).count ≡ s.count + length vs
  unfolding stream add_latency
  stream-counted [] s = omega arith
  stream-counted (v ∷ vs) s = omega (arith, stream-counted vs (add_latency F M v s))

  stream-sketched :
      (vs : List ℕ) (s : StageSketch Num) → (stream vs s).sketch.count ≡ s.sketch.count + length vs
  unfolding stream add_latency
  stream-sketched [] s = omega arith
  stream-sketched (v ∷ vs) s = omega (
    arith,
    stream-sketched vs (add_latency F M v s),
    count-add_value F M (F.of_nat (max 1 v)) s.sketch,
  )

  stream-summed : (vs : List ℕ) (s : StageSketch Num) → (stream vs s).sum_ns ≡ s.sum_ns + sum vs
  unfolding stream add_latency
  stream-summed [] s = omega arith
  stream-summed (v ∷ vs) s = omega (arith, stream-summed vs (add_latency F M v s))

  stream-keeps : (vs : List ℕ) (s : StageSketch Num) (w : ℕ) → Within s w → Within (stream vs s) w
  unfolding stream add_latency
  stream-keeps [] s w h = h
  stream-keeps (v ∷ vs) s w h =
      stream-keeps vs (add_latency F M v s) w
        ((extreme_keeps s.min_ns v w).0 h.0, (extreme_keeps s.max_ns v w).1 h.1)

  stream-bounded : (vs : List ℕ) (s : StageSketch Num) → All (Within (stream vs s)) vs
  unfolding stream add_latency
  stream-bounded [] s = tt
  stream-bounded (v ∷ vs) s = (
    stream-keeps vs (add_latency F M v s) v
        ((extreme_takes s.min_ns v).0, (extreme_takes s.max_ns v).1),
    stream-bounded vs (add_latency F M v s),
  )

  pub stage_of-Streamed :
      (vs : List ℕ) (sk : DdSketch Num) → sk.count ≡ 0 → Streamed vs (stream vs (stage_of sk))
  stage_of-Streamed vs sk empty = record {
    counted = omega (arith, stream-counted vs (stage_of sk));
    sketched = omega (arith, stream-sketched vs (stage_of sk), empty);
    summed = omega (arith, stream-summed vs (stage_of sk));
    bounded = stream-bounded vs (stage_of sk);
  }
