-- ===== src/Triage/Agent.antt =====
-- sentinel_hft/ai/triage_stream.py: TriageAgent. The text of an alert, which a template or a language
-- model writes, is a parameter, as are the bytes of the detectors' names. The pager is called last,
-- and what it raises is dropped.
pub mod Logged
use sentinel_hft.Prelude.{
  ℕ, ◌+◌, ◌*◌, ◌^◌, ◌≡◌, ◌↔◌, refl, Bool, true, false, Option, none, some, List, [], ◌∷◌, ◌++◌,
  ◌==◌, arith,
}
use sentinel_hft.Prelude.Int.{ℤ}
use sentinel_hft.Prelude.Eq.{Eq}
use sentinel_hft.Prelude.Dict.{Dict, bump_by}
use sentinel_hft.Prelude.Float.{Float, finite}
use sentinel_hft.Prelude.Result.{Result, ok, ◌>>=◌}
use sentinel_hft.Audit.Digest.{Blake2b}
use sentinel_hft.Audit.Alert.{AlertRecord, Alert, AlertChain, append}
use sentinel_hft.Triage.Detectors.{
  TriageEvent, DetectorName, latency_zscore, reject_rate_cusum, fill_quality_sprt, Severity, warn,
  alert, DetectorFiring, DetectorEnsemble, observe_event,
}

-- `severity_from_str` on the two severities of a firing.
abbrev pub severity_code : Severity → ℕ
severity_code warn = 1
severity_code alert = 2

abbrev pub detector_code : DetectorName → ℕ
detector_code latency_zscore = 0
detector_code reject_rate_cusum = 1
detector_code fill_quality_sprt = 2

pub same_severity : (a b : Severity) → ((severity_code a == severity_code b) ≡ true) ↔ (a ≡ b)
same_severity warn warn = (λ h. refl, λ h. refl)
same_severity warn alert = (λ h. cc, λ h. cc)
same_severity alert warn = (λ h. cc, λ h. cc)
same_severity alert alert = (λ h. refl, λ h. refl)

pub same_detector : (a b : DetectorName) → ((detector_code a == detector_code b) ≡ true) ↔ (a ≡ b)
same_detector latency_zscore latency_zscore = (λ h. refl, λ h. refl)
same_detector latency_zscore reject_rate_cusum = (λ h. cc, λ h. cc)
same_detector latency_zscore fill_quality_sprt = (λ h. cc, λ h. cc)
same_detector reject_rate_cusum latency_zscore = (λ h. cc, λ h. cc)
same_detector reject_rate_cusum reject_rate_cusum = (λ h. refl, λ h. refl)
same_detector reject_rate_cusum fill_quality_sprt = (λ h. cc, λ h. cc)
same_detector fill_quality_sprt latency_zscore = (λ h. cc, λ h. cc)
same_detector fill_quality_sprt reject_rate_cusum = (λ h. cc, λ h. cc)
same_detector fill_quality_sprt fill_quality_sprt = (λ h. refl, λ h. refl)

instance abbrev pub severity_eq : Eq Severity
severity_eq = record { same = λ a b. severity_code a == severity_code b; same_iff = same_severity }

instance abbrev pub detector_eq : Eq DetectorName
detector_eq = record { same = λ a b. detector_code a == detector_code b; same_iff = same_detector }

pub record TriageStats : Type 0 where
  pub events_in : ℕ
  pub firings : ℕ
  pub by_detector : Dict DetectorName ℕ
  pub by_severity : Dict Severity ℕ

pub record TriageAgent (N : Type 0) : Type 0 where
  pub ensemble : DetectorEnsemble N
  pub stats : TriageStats
  pub chain : AlertChain

-- What stands for the texts: the name of a detector, and the detail with hint and runbook.
pub record Texts (N : Type 0) : Type 0 where
  pub name : DetectorName → List ℕ
  pub detail : DetectorFiring N → List ℕ

module _ (F : Float) (sqrt : F.Num → F.Num) (T : Texts F.Num) (h : Blake2b) where
  open F use {Num, fixed}

  -- The arguments of `self._chain.append`; the log scales the score by 2^32 and rounds it.
  abbrev pub logged_alert : DetectorFiring Num → ℤ → Alert
  logged_alert f score = record {
    detector = T.name f.detector;
    severity = severity_code f.severity;
    detail = T.detail f;
    score = score;
    timestamp_ns = f.timestamp_ns;
    stage = f.stage;
    window_n = f.window_samples;
    flags = 0;
  }

  abbrev pub count_firing : DetectorFiring Num → TriageStats → TriageStats
  count_firing f s = record s {
    firings = s.firings + 1;
    by_detector = bump_by 1 f.detector s.by_detector;
    by_severity = bump_by 1 f.severity s.by_severity;
  }

  -- `_handle_firing`
  unfoldable pub handle_firing :
      DetectorFiring Num → TriageAgent Num → Result (AlertRecord × TriageAgent Num)
  handle_firing f a = do
    score ← finite (fixed (2 ^ 32) f.score)
    step ← append h a.chain (logged_alert f score)
    ok (step.0, record a { chain = step.1; stats = count_firing f a.stats })

  unfoldable pub handle_firings :
      List (DetectorFiring Num) → TriageAgent Num → Result (List AlertRecord × TriageAgent Num)
  handle_firings [] a = ok ([], a)
  handle_firings (f ∷ fs) a = do
    one ← handle_firing f a
    more ← handle_firings fs one.1
    ok (one.0 ∷ more.0, more.1)

  -- `TriageAgent.observe`
  unfoldable pub observe :
      TriageEvent Num → TriageAgent Num → Result (List AlertRecord × TriageAgent Num)
  observe event a =
      let (firings, ensemble) = observe_event F sqrt event a.ensemble in
      let s = a.stats in
      handle_firings firings
        (record a { ensemble = ensemble; stats = record s { events_in = s.events_in + 1 } })

  -- `TriageAgent.run`
  unfoldable pub run :
      List (TriageEvent Num) → TriageAgent Num → Result (List AlertRecord × TriageAgent Num)
  run [] a = ok ([], a)
  run (event ∷ events) a = do
    one ← observe event a
    more ← run events one.1
    ok (one.0 ++ more.0, more.1)
