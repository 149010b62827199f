-- ===== src/Streaming/Attribution/Bottleneck.antt =====
-- The bottleneck that the tracker reports, and the digests it is read from.
use sentinel_hft.Prelude.{
  ◌+◌, ◌≡◌, ◌≢◌, ◌⊎◌, refl, sym, ap, ◌∙◌, map, subst, true, false, none, some, List, [], ◌∷◌,
  length, All, arith, ◌==◌, Bool-cases, inl, inr,
}
use sentinel_hft.Prelude.Float.{Float}
use sentinel_hft.Streaming.Sketch.{Maths, TDigestWrapper, new_digest, add_digest}
use sentinel_hft.Streaming.Sketch.Counts.{add_digests}
use sentinel_hft.Streaming.Attribution.{
  Stage, ingress, core, risk, egress, overhead, PerStage, at_stage, for_stages, AttributedLatency,
  StageMetrics, LatencyAttribution, AttributionTracker, new_attribution, update_attribution,
  stage_metrics, max_p99, compute_stages, all_metrics, report_of, get_metrics, update_all,
}

module _ (F : Float) (M : Maths F) where
  open F use {Num, lt}

  -- No stage of the list has a higher 99th percentile.
  abbrev NoneAbove : StageMetrics Num → StageMetrics Num → Type 0
  NoneAbove best s = lt best.p99 s.p99 ≡ false

  max_p99-keeps :
      (best : StageMetrics Num) (ss : List (StageMetrics Num)) (s : StageMetrics Num)
      → NoneAbove best s
      → NoneAbove (max_p99 F M best ss) s
  unfolding max_p99
  max_p99-keeps best [] s h = h
  max_p99-keeps best (x ∷ ss) s h = elim (Bool-cases (lt best.p99 x.p99)) [
    | inl higher ↦
        rw (max_p99, higher)
          (max_p99-keeps x ss s
            (F.ge_trans x.p99 best.p99 s.p99 (F.lt_asym best.p99 x.p99 higher) h))
    | inr lower ↦ rw (max_p99, lower) (max_p99-keeps best ss s h)
  ]

  max_p99-NoneAbove :
      (best : StageMetrics Num) (ss : List (StageMetrics Num))
      → All (NoneAbove (max_p99 F M best ss)) (best ∷ ss)
  unfolding max_p99
  max_p99-NoneAbove best [] = (F.lt_irrefl best.p99, tt)
  max_p99-NoneAbove best (x ∷ ss) = elim (Bool-cases (lt best.p99 x.p99)) [
    | inl higher ↦
        let later = max_p99-NoneAbove x ss in
        let step : max_p99 F M best (x ∷ ss) ≡ max_p99 F M x ss = rw (max_p99, higher) refl in
        subst (λ (b : StageMetrics Num). All (NoneAbove b) (best ∷ (x ∷ ss))) (sym step)
          (max_p99-keeps x ss best (F.lt_asym best.p99 x.p99 higher), (later.0, later.1))
    | inr lower ↦
        let later = max_p99-NoneAbove best ss in
        let step : max_p99 F M best (x ∷ ss) ≡ max_p99 F M best ss = rw (max_p99, lower) refl in
        subst (λ (b : StageMetrics Num). All (NoneAbove b) (best ∷ (x ∷ ss))) (sym step)
          (later.0, (max_p99-keeps best ss x lower, later.1))
  ]

  -- What holds of all candidates holds of the one that is chosen.
  max_p99-chosen :
      (P : StageMetrics Num → Type 0) (best : StageMetrics Num) (ss : List (StageMetrics Num))
      → P best
      → All P ss
      → P (max_p99 F M best ss)
  unfolding max_p99
  max_p99-chosen P best [] h a = h
  max_p99-chosen P best (x ∷ ss) h a = elim (Bool-cases (lt best.p99 x.p99)) [
    | inl higher ↦ rw (max_p99, higher) (max_p99-chosen P x ss a.0 a.1)
    | inr lower ↦ rw (max_p99, lower) (max_p99-chosen P best ss h a.1)
  ]

  -- A report: the stage that it names is not the overhead, its share is that of the stage, and no
  -- stage but the overhead has a higher 99th percentile.
  pub record IsReport (m : LatencyAttribution Num) : Type 0 where
    pub computes : m.bottleneck ≢ overhead
    pub share : m.bottleneck_pct ≡ (at_stage m.bottleneck m.stages).pct_of_total
    pub largest :
        All
          (λ (s : StageMetrics Num). lt (at_stage m.bottleneck m.stages).p99 s.p99 ≡ false)
          (m.stages.ingress ∷ compute_stages F M m.stages)

  -- The candidate is the entry of its own stage, and that is not the overhead.
  abbrev IsEntry : PerStage (StageMetrics Num) → StageMetrics Num → Type 0
  IsEntry p s = (at_stage s.stage p ≡ s) × (s.stage ≢ overhead)

  chosen-IsEntry :
      (t : AttributionTracker Num)
      → let p = all_metrics F M t in IsEntry p (max_p99 F M p.ingress (compute_stages F M p))
  unfolding stage_metrics
  chosen-IsEntry t =
      let p = all_metrics F M t in
      max_p99-chosen (IsEntry p) p.ingress (compute_stages F M p) (refl, λ e. cc)
        ((refl, λ e. cc), ((refl, λ e. cc), ((refl, λ e. cc), tt)))

  report_of-IsReport : (t : AttributionTracker Num) → IsReport (report_of F M t)
  unfolding report_of
  report_of-IsReport t =
      let p = all_metrics F M t in
      let b = max_p99 F M p.ingress (compute_stages F M p) in
      let (entry, computes) = chosen-IsEntry t in
      record {
        computes = computes;
        share = ap (λ (s : StageMetrics Num). s.pct_of_total) (sym entry);
        largest =
            subst (λ (x : StageMetrics Num). All (NoneAbove x) (p.ingress ∷ compute_stages F M p))
              (sym entry) (max_p99-NoneAbove p.ingress (compute_stages F M p));
      }

  at_stage-for_stages : {A : Type 0} (s : Stage) (f : Stage → A) → at_stage s (for_stages f) ≡ f s
  at_stage-for_stages ingress f = refl
  at_stage-for_stages core f = refl
  at_stage-for_stages risk f = refl
  at_stage-for_stages egress f = refl
  at_stage-for_stages overhead f = refl

  abbrev pub total_of : AttributedLatency Num → Num
  total_of a = a.total_ns

  abbrev pub stage_of : Stage → AttributedLatency Num → Num
  stage_of s a = at_stage s a.stage_ns

  -- The tracker has counted the samples and added them to what it held: their totals to the digest
  -- of the totals, and for each stage the latencies of that stage to its digest.
  pub record Added (as_ : List (AttributedLatency Num)) (t u : AttributionTracker Num)
      : Type 0 where
    pub counted : u.count ≡ t.count + length as_
    pub total : u.total_digest ≡ add_digests F M (map total_of as_) t.total_digest
    pub stages :
        (s : Stage)
        → at_stage s u.digests ≡ add_digests F M (map (stage_of s) as_) (at_stage s t.digests)

  update_all-Added :
      (as_ : List (AttributedLatency Num)) (t : AttributionTracker Num)
      → Added as_ t (update_all F M as_ t)
  unfolding update_all update_attribution add_digests
  update_all-Added [] t = record { counted = omega arith; total = refl; stages = λ s. refl }
  update_all-Added (a ∷ as_) t =
      let later = update_all-Added as_ (update_attribution F M a t) in
      record {
        counted = omega (arith, later.counted);
        total = later.total;
        stages = λ s.
            later.stages s
            ∙ ap (λ (d : TDigestWrapper Num). add_digests F M (map (stage_of s) as_) d)
                (at_stage-for_stages s
                  (λ k. add_digest F M (at_stage k a.stage_ns) (at_stage k t.digests)));
      }

  -- From the start, each digest is that of the latencies of its own stage, in their order.
  pub record Sampled (as_ : List (AttributedLatency Num)) (t : AttributionTracker Num)
      : Type 0 where
    pub counted : t.count ≡ length as_
    pub total : t.total_digest ≡ add_digests F M (map total_of as_) (new_digest F M)
    pub stages :
        (s : Stage) → at_stage s t.digests ≡ add_digests F M (map (stage_of s) as_) (new_digest F M)

  update_all-Sampled :
      (as_ : List (AttributedLatency Num)) → Sampled as_ (update_all F M as_ (new_attribution F M))
  unfolding new_attribution
  update_all-Sampled as_ =
      let added = update_all-Added as_ (new_attribution F M) in
      record {
        counted = omega (arith, added.counted);
        total = added.total;
        stages = λ s.
            added.stages s
            ∙ ap (λ (d : TDigestWrapper Num). add_digests F M (map (stage_of s) as_) d)
                (at_stage-for_stages s (λ k. new_digest F M));
      }

  pub update_all-IsReport :
      (as_ : List (AttributedLatency Num))
      → let t = update_all F M as_ (new_attribution F M) in
        Sampled as_ t
        × ((as_ ≡ []) × (get_metrics F M t ≡ none)
            ⊎ ((m : LatencyAttribution Num) × (get_metrics F M t ≡ some m) × IsReport m))
  unfolding get_metrics
  update_all-IsReport as_ =
      let t = update_all F M as_ (new_attribution F M) in
      let sampled = update_all-Sampled as_ in (sampled, by_samples as_ t sampled.counted)
    where
      by_samples :
          (l : List (AttributedLatency Num)) (t : AttributionTracker Num)
          → t.count ≡ length l
          → (l ≡ []) × (get_metrics F M t ≡ none)
            ⊎ ((m : LatencyAttribution Num) × (get_metrics F M t ≡ some m) × IsReport m)
      by_samples [] t counted =
          let empty : (t.count == 0) ≡ true = ground (arith, counted) in
          inl (refl, rw (get_metrics, empty) refl)
      by_samples (a ∷ l) t counted =
          let full : (t.count == 0) ≡ false = ground (arith, counted) in
          inr (report_of F M t, rw (get_metrics, full) refl, report_of-IsReport t)
