-- ===== src/Streaming/Attribution.antt =====
-- sentinel_hft/streaming/attribution.py: AttributionTracker. A dictionary over the five stages is a
-- record of them; the rounding of `to_dict` is output.
pub mod Bottleneck
use sentinel_hft.Prelude.{ℕ, ◌+◌, Option, none, some, List, [], ◌∷◌, ◌==◌, not, if◌then◌else◌}
use sentinel_hft.Prelude.Float.{Float}
use sentinel_hft.Streaming.Sketch.{
  Maths, TDigestWrapper, new_digest, add_digest, digest_percentile, eqb,
}

pub data Stage : Type 0 where
  ingress core risk egress overhead : Stage

-- A value for each of `STAGES`.
pub record PerStage (A : Type 0) : Type 0 where
  pub ingress : A
  pub core : A
  pub risk : A
  pub egress : A
  pub overhead : A

abbrev pub at_stage : {A : Type 0} → Stage → PerStage A → A
at_stage ingress p = p.ingress
at_stage core p = p.core
at_stage risk p = p.risk
at_stage egress p = p.egress
at_stage overhead p = p.overhead

abbrev pub for_stages : {A : Type 0} → (Stage → A) → PerStage A
for_stages f = record {
  ingress = f ingress;
  core = f core;
  risk = f risk;
  egress = f egress;
  overhead = f overhead;
}

-- What the adapter hands over: the latency of each stage and the total.
pub record AttributedLatency (N : Type 0) : Type 0 where
  pub total_ns : N
  pub stage_ns : PerStage N

pub record StageMetrics (N : Type 0) : Type 0 where
  pub stage : Stage
  pub p50 : N
  pub p90 : N
  pub p99 : N
  pub mean : N
  pub pct_of_total : N

pub record LatencyAttribution (N : Type 0) : Type 0 where
  pub stages : PerStage (StageMetrics N)
  pub bottleneck : Stage
  pub bottleneck_pct : N
  pub total_p99 : N

pub record AttributionTracker (N : Type 0) : Type 0 where
  pub digests : PerStage (TDigestWrapper N)
  pub total_digest : TDigestWrapper N
  pub count : ℕ
  pub sums : PerStage N
  pub total_sum : N

module _ (F : Float) (M : Maths F) where
  open F use {Num, of_nat, add, div, lt}

  unfoldable pub new_attribution : AttributionTracker Num
  new_attribution = record {
    digests = for_stages (λ s. new_digest F M);
    total_digest = new_digest F M;
    count = 0;
    sums = for_stages (λ s. of_nat 0);
    total_sum = of_nat 0;
  }

  -- `update`
  unfoldable pub update_attribution :
      AttributedLatency Num → AttributionTracker Num → AttributionTracker Num
  update_attribution a t = record {
    digests = for_stages (λ s. add_digest F M (at_stage s a.stage_ns) (at_stage s t.digests));
    total_digest = add_digest F M a.total_ns t.total_digest;
    count = t.count + 1;
    sums = for_stages (λ s. add (at_stage s t.sums) (at_stage s a.stage_ns));
    total_sum = add t.total_sum a.total_ns;
  }

  -- `reset`: every field is assigned anew.
  abbrev pub reset_attribution : AttributionTracker Num → AttributionTracker Num
  reset_attribution t = new_attribution

  abbrev pub percent : ℕ → TDigestWrapper Num → Num
  percent p d = digest_percentile F M (div (of_nat p) (of_nat 100)) d

  unfoldable pub stage_metrics : Num → AttributionTracker Num → Stage → StageMetrics Num
  stage_metrics total_p99 t s =
      let digest = at_stage s t.digests in
      let p99 = percent 99 digest in
      record {
        stage = s;
        p50 = percent 50 digest;
        p90 = percent 90 digest;
        p99 = p99;
        mean = if t.count == 0 then of_nat 0 else div (at_stage s t.sums) (of_nat t.count);
        pct_of_total = if lt (of_nat 0) total_p99 then div p99 total_p99 else of_nat 0;
      }

  -- `max(..., key=lambda s: s.p99)`: the first of those with the largest key.
  unfoldable pub max_p99 : StageMetrics Num → List (StageMetrics Num) → StageMetrics Num
  max_p99 best [] = best
  max_p99 best (s ∷ ss) = max_p99 (if lt best.p99 s.p99 then s else best) ss

  -- The stages without the overhead, behind the first.
  abbrev pub compute_stages : PerStage (StageMetrics Num) → List (StageMetrics Num)
  compute_stages p = p.core ∷ p.risk ∷ p.egress ∷ []

  -- A total of zero counts as one, so that the shares can be divided.
  abbrev pub all_metrics : AttributionTracker Num → PerStage (StageMetrics Num)
  all_metrics t =
      let raw = percent 99 t.total_digest in
      for_stages (stage_metrics (if eqb F M raw (of_nat 0) then of_nat 1 else raw) t)

  unfoldable pub report_of : AttributionTracker Num → LatencyAttribution Num
  report_of t =
      let stages = all_metrics t in
      let bottleneck = max_p99 stages.ingress (compute_stages stages) in
      record {
        stages = stages;
        bottleneck = bottleneck.stage;
        bottleneck_pct = bottleneck.pct_of_total;
        total_p99 = percent 99 t.total_digest;
      }

  unfoldable pub get_metrics : AttributionTracker Num → Option (LatencyAttribution Num)
  get_metrics t = if t.count == 0 then none else some (report_of t)

  unfoldable pub update_all :
      List (AttributedLatency Num) → AttributionTracker Num → AttributionTracker Num
  update_all [] t = t
  update_all (a ∷ as_) t = update_all as_ (update_attribution a t)
