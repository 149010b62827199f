-- ===== src/Triage/Detectors.antt =====
-- sentinel_hft/ai/triage_detectors.py: the three detectors and their ensemble. The text of a firing
-- is left out; a stage is its UTF-8 bytes.
pub mod Cooldown
use sentinel_hft.Prelude.{
  ℕ, zero, suc, ◌+◌, ◌-◌, ◌*◌, ◌^◌, Bool, true, false, not, ◌&&◌, Option, none, some, List, [], ◌∷◌,
  ◌++◌, length, sum, drop, ltb, ◌==◌, if◌then◌else◌,
}
use sentinel_hft.Prelude.Bytes.{bytes_eq, bytes_eq_iff}
use sentinel_hft.Prelude.Eq.{Eq}
use sentinel_hft.Prelude.Dict.{Dict, lookup, insert, or_else}
use sentinel_hft.Prelude.Float.{Float, geb, max}
use sentinel_hft.Streaming.Metrics.{append_bounded}

instance abbrev pub bytes_key : Eq (List ℕ)
bytes_key = record { same = bytes_eq; same_iff = bytes_eq_iff }

pub data EventKind : Type 0 where
  latency reject fill : EventKind

pub record TriageEvent (N : Type 0) : Type 0 where
  pub timestamp_ns : ℕ
  pub kind : EventKind
  pub stage : Option (List ℕ)
  pub value : N
  pub passed : Option Bool

pub data DetectorName : Type 0 where
  latency_zscore reject_rate_cusum fill_quality_sprt : DetectorName

pub data Severity : Type 0 where
  warn alert : Severity

pub record DetectorFiring (N : Type 0) : Type 0 where
  pub detector : DetectorName
  pub stage : Option (List ℕ)
  pub severity : Severity
  pub score : N
  pub window_samples : ℕ
  pub timestamp_ns : ℕ

pub record Welford (N : Type 0) : Type 0 where
  pub n : ℕ
  pub mean : N
  pub m2 : N

pub record LatencyZScoreDetector (N : Type 0) : Type 0 where
  pub z_threshold : N
  pub min_samples : ℕ
  pub cooldown_samples : ℕ
  pub acc : Dict (List ℕ) (Welford N)
  pub last_fire_n : Dict (List ℕ) ℕ

pub record RejectRateCusumDetector (N : Type 0) : Type 0 where
  pub baseline : N
  pub slack : N
  pub alert_threshold : N
  pub window : ℕ
  pub buf : List ℕ
  pub cusum : N

pub record FillQualitySprtDetector (N : Type 0) : Type 0 where
  pub accept_upper : N
  pub reject_lower : N
  pub llr_bad : N
  pub llr_good : N
  pub llr : N
  pub seen : ℕ

pub record DetectorEnsemble (N : Type 0) : Type 0 where
  pub latency : LatencyZScoreDetector N
  pub reject : RejectRateCusumDetector N
  pub fill : FillQualitySprtDetector N

abbrev pub is_latency : EventKind → Bool
is_latency latency = true
is_latency _ = false

abbrev pub is_reject : EventKind → Bool
is_reject reject = true
is_reject _ = false

abbrev pub is_fill : EventKind → Bool
is_fill fill = true
is_fill _ = false

-- `math.sqrt` is a parameter.
module _ (F : Float) (sqrt : F.Num → F.Num) where
  open F use {Num, of_nat, add, sub, mul, div, lt}

  abbrev pub new_welford : Welford Num
  new_welford = record { n = 0; mean = of_nat 0; m2 = of_nat 0 }

  unfoldable pub update : Num → Welford Num → Welford Num
  update x w =
      let delta = sub x w.mean in
      let mean = add w.mean (div delta (of_nat (w.n + 1))) in
      record { n = w.n + 1; mean = mean; m2 = add w.m2 (mul delta (sub x mean)) }

  unfoldable pub variance : Welford Num → Num
  variance w = if ltb 1 w.n then div w.m2 (of_nat (w.n - 1)) else of_nat 0

  unfoldable pub stdev : Welford Num → Num
  stdev w = sqrt (variance w)

  -- `n_before - last < cooldown`, where a stage that never fired has -10**9 for its last firing.
  abbrev pub is_cooling : ℕ → Option ℕ → ℕ → Bool
  is_cooling n none cooldown = ltb (n + 10 ^ 9) cooldown
  is_cooling n (some last) cooldown = ltb n (last + cooldown)

  abbrev pub firing_of :
      TriageEvent Num → List ℕ → Welford Num → Num → LatencyZScoreDetector Num → DetectorFiring Num
  firing_of event stage w z d = record {
    detector = latency_zscore;
    stage = some stage;
    severity = if geb F z (add d.z_threshold (of_nat 2)) then alert else warn;
    score = z;
    window_samples = w.n;
    timestamp_ns = event.timestamp_ns;
  }

  -- The rest of `observe` once the sample is in; `w` is the accumulator before it.
  unfoldable pub judge :
      TriageEvent Num
      → List ℕ
      → Welford Num
      → LatencyZScoreDetector Num
      → Option (DetectorFiring Num) × LatencyZScoreDetector Num
  judge event stage w d =
      let z = div (sub event.value w.mean) (stdev w) in
      if ltb w.n d.min_samples
      then (none, d)
      else if not (lt (of_nat 0) (stdev w))
      then (none, d)
      else if lt z d.z_threshold
      then (none, d)
      else if is_cooling w.n (lookup stage d.last_fire_n) d.cooldown_samples
      then (none, d)
      else (
        some (firing_of event stage w z d),
        record d { last_fire_n = insert stage w.n d.last_fire_n },
      )

  -- `LatencyZScoreDetector.observe`
  unfoldable pub observe_latency :
      TriageEvent Num
      → LatencyZScoreDetector Num
      → Option (DetectorFiring Num) × LatencyZScoreDetector Num
  observe_latency event d = if is_latency event.kind then of_stage event.stage else (none, d)
    where
      of_stage : Option (List ℕ) → Option (DetectorFiring Num) × LatencyZScoreDetector Num
      of_stage none = (none, d)
      of_stage (some stage) =
          let w = or_else (lookup stage d.acc) new_welford in
          judge event stage w (record d { acc = insert stage (update event.value w) d.acc })

  -- `RejectRateCUSUMDetector.observe` with the flag of a rejection.
  unfoldable pub count_reject :
      TriageEvent Num
      → ℕ
      → RejectRateCusumDetector Num
      → Option (DetectorFiring Num) × RejectRateCusumDetector Num
  count_reject event flag d =
      let buf = append_bounded d.window d.buf flag in
      let cusum = max F (of_nat 0) (add d.cusum (sub (of_nat flag) (add d.baseline d.slack))) in
      let observed = div (of_nat (sum buf)) (of_nat (length buf)) in
      if lt cusum d.alert_threshold
      then (none, record d { buf = buf; cusum = cusum })
      else if ltb (length buf) 50
      then (none, record d { buf = buf; cusum = cusum })
      else (
        some (record {
          detector = reject_rate_cusum;
          stage = none;
          severity = if lt (mul (of_nat 3) d.baseline) observed then alert else warn;
          score = cusum;
          window_samples = length buf;
          timestamp_ns = event.timestamp_ns;
        }),
        record d { buf = buf; cusum = of_nat 0 },
      )

  unfoldable pub observe_reject :
      TriageEvent Num
      → RejectRateCusumDetector Num
      → Option (DetectorFiring Num) × RejectRateCusumDetector Num
  observe_reject event d = if is_reject event.kind then of_passed event.passed else (none, d)
    where
      of_passed : Option Bool → Option (DetectorFiring Num) × RejectRateCusumDetector Num
      of_passed none = (none, d)
      of_passed (some passed) = count_reject event (if passed then 0 else 1) d

  -- `_reset`
  abbrev pub reset_sprt : FillQualitySprtDetector Num → FillQualitySprtDetector Num
  reset_sprt d = record d { llr = of_nat 0; seen = 0 }

  -- `FillQualitySPRTDetector.observe`: the firing reads the number of samples behind the reset.
  unfoldable pub count_fill :
      TriageEvent Num
      → Bool
      → FillQualitySprtDetector Num
      → Option (DetectorFiring Num) × FillQualitySprtDetector Num
  count_fill event passed d =
      let step = if passed then d.llr_good else d.llr_bad in
      let grown : FillQualitySprtDetector Num = record d {
        llr = add d.llr step;
        seen = d.seen + 1;
      } in
      if geb F grown.llr d.accept_upper && not (ltb grown.seen 20)
      then (
        some (record {
          detector = fill_quality_sprt;
          stage = none;
          severity = alert;
          score = grown.llr;
          window_samples = (reset_sprt grown).seen;
          timestamp_ns = event.timestamp_ns;
        }),
        reset_sprt grown,
      )
      else if not (lt d.reject_lower grown.llr)
      then (none, reset_sprt grown)
      else (none, grown)

  unfoldable pub observe_fill :
      TriageEvent Num
      → FillQualitySprtDetector Num
      → Option (DetectorFiring Num) × FillQualitySprtDetector Num
  observe_fill event d = if is_fill event.kind then of_passed event.passed else (none, d)
    where
      of_passed : Option Bool → Option (DetectorFiring Num) × FillQualitySprtDetector Num
      of_passed none = (none, d)
      of_passed (some passed) = count_fill event passed d

  abbrev pub fired : Option (DetectorFiring Num) → List (DetectorFiring Num)
  fired none = []
  fired (some f) = f ∷ []

  -- `DetectorEnsemble.observe`
  unfoldable pub observe_event :
      TriageEvent Num → DetectorEnsemble Num → List (DetectorFiring Num) × DetectorEnsemble Num
  observe_event event e =
      let (a, l) = observe_latency event e.latency in
      let (b, r) = observe_reject event e.reject in
      let (c, f) = observe_fill event e.fill in
      (fired a ++ (fired b ++ fired c), record { latency = l; reject = r; fill = f })
