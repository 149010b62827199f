-- ===== src/Triage/Agent/Logged.antt =====
-- The alert log that a run of the agent leaves, and its statistics.
use sentinel_hft.Prelude.{
  sym, ◌^◌, ℕ, suc, ◌+◌, ◌≡◌, refl, ap, ◌∙◌, subst, none, List, [], ◌∷◌, ◌++◌, length, arith,
  length-append,
}
use sentinel_hft.Prelude.Dict.Values.{held, held-bump_by}
use sentinel_hft.Prelude.Float.{Float, finite}
use sentinel_hft.Prelude.Result.{ok, bind-eq-ok}
use sentinel_hft.Audit.Digest.{Blake2b}
use sentinel_hft.Audit.Alert.{
  AlertRecord, encode, Alert, AlertChain, append, append_all, new_chain, zeros, verify_chain,
}
use sentinel_hft.Audit.Alert.Chain.{clean, head_of, append_all_verified}
use sentinel_hft.Struct.Records.{encode_all}
use sentinel_hft.Audit.Alert.Reader.Written.{append_all-Filed}
use sentinel_hft.Triage.Detectors.{TriageEvent, DetectorFiring, DetectorEnsemble}
use sentinel_hft.Triage.Agent.{
  TriageStats, TriageAgent, Texts, severity_eq, detector_eq, logged_alert, count_firing,
  handle_firing, handle_firings, observe, run,
}

append_all-append :
    (h : Blake2b) (c d e : AlertChain) (xs ys : List Alert) (rs ss : List AlertRecord)
    → append_all h c xs ≡ ok (rs, d)
    → append_all h d ys ≡ ok (ss, e)
    → append_all h c (xs ++ ys) ≡ ok (rs ++ ss, e)
unfolding append_all
append_all-append h c d e [] ys rs ss p q =
    let nil : [] ≡ rs = ground arith in
    let same : c ≡ d = ground arith in
    subst (λ (l : List AlertRecord). append_all h c ys ≡ ok (l ++ ss, e)) nil (rw same q)
append_all-append h c d e (x ∷ xs) ys rs ss p q =
    let (step, one, p1) = bind-eq-ok (append h c x) _ p in
    let ((more, d'), rest, p2) = bind-eq-ok (append_all h step.1 xs) _ p1 in
    let whole : step.0 ∷ more ≡ rs = ground arith in
    let same : d' ≡ d = ground arith in
    let later =
      append_all-append h step.1 d e xs ys more ss (rest ∙ ap (λ x. ok (more, x)) same) q in
    subst (λ (l : List AlertRecord). append_all h c ((x ∷ xs) ++ ys) ≡ ok (l ++ ss, e)) whole
      (rw (one, later))

-- Every firing is counted under its detector and under its severity.
pub record Tallied (s : TriageStats) : Type 0 where
  pub by_detector : held s.by_detector ≡ s.firings
  pub by_severity : held s.by_severity ≡ s.firings

module _ (F : Float) (sqrt : F.Num → F.Num) (T : Texts F.Num) (h : Blake2b) where
  open F use {Num}

  -- What a part of a run with n events adds to an agent.
  record Grown (a : TriageAgent Num) (n : ℕ) (rs : List AlertRecord) (b : TriageAgent Num)
      : Type 0 where
    alerts : List Alert
    appended : append_all h a.chain alerts ≡ ok (rs, b.chain)
    many : length alerts ≡ length rs
    firings : b.stats.firings ≡ a.stats.firings + length rs
    events : b.stats.events_in ≡ a.stats.events_in + n
    tallied : Tallied a.stats → Tallied b.stats

  Grown-nothing : (a : TriageAgent Num) → Grown a 0 [] a
  unfolding append_all
  Grown-nothing a = record {
    alerts = [];
    appended = refl;
    many = refl;
    firings = omega arith;
    events = omega arith;
    tallied = λ t. t;
  }

  Grown-append :
      (a b c : TriageAgent Num) (m n : ℕ) (rs ss : List AlertRecord)
      → Grown a m rs b
      → Grown b n ss c
      → Grown a (m + n) (rs ++ ss) c
  Grown-append a b c m n rs ss g k = record {
    alerts = g.alerts ++ k.alerts;
    appended =
        append_all-append h a.chain b.chain c.chain g.alerts k.alerts rs ss g.appended k.appended;
    many = omega (arith, length-append g.alerts k.alerts, length-append rs ss, g.many, k.many);
    firings = omega (arith, length-append rs ss, g.firings, k.firings);
    events = omega (arith, g.events, k.events);
    tallied = λ t. k.tallied (g.tallied t);
  }

  handle_firing-Grown :
      (f : DetectorFiring Num) (a : TriageAgent Num) (x : AlertRecord × TriageAgent Num)
      → handle_firing F sqrt T h f a ≡ ok x
      → Grown a 0 (x.0 ∷ []) x.1
  unfolding handle_firing append_all
  handle_firing-Grown f a x e =
      let (score, _, e1) = bind-eq-ok (finite (F.fixed (2 ^ 32) f.score)) _ e in
      let (step, q, p) = bind-eq-ok (append h a.chain (logged_alert F sqrt T h f score)) _ e1 in
      let same : (step.0, record a { chain = step.1; stats = count_firing F sqrt T h f a.stats })
          ≡ x =
        ground arith in
      let s = a.stats in
      subst (λ (y : AlertRecord × TriageAgent Num). Grown a 0 (y.0 ∷ []) y.1) same
        (record {
          alerts = logged_alert F sqrt T h f score ∷ [];
          appended = rw q;
          many = refl;
          firings = omega arith;
          events = omega arith;
          tallied = λ t. record {
            by_detector = omega (arith, t.by_detector, held-bump_by 1 f.detector s.by_detector);
            by_severity = omega (arith, t.by_severity, held-bump_by 1 f.severity s.by_severity);
          };
        })

  handle_firings-Grown :
      (fs : List (DetectorFiring Num)) (a : TriageAgent Num)
      (x : List AlertRecord × TriageAgent Num)
      → handle_firings F sqrt T h fs a ≡ ok x
      → Grown a 0 x.0 x.1
  unfolding handle_firings
  handle_firings-Grown [] a x e =
      let same : ([], a) ≡ x = ground arith in
      subst (λ (y : List AlertRecord × TriageAgent Num). Grown a 0 y.0 y.1) same (Grown-nothing a)
  handle_firings-Grown (f ∷ fs) a x e =
      let (one, p, e1) = bind-eq-ok (handle_firing F sqrt T h f a) _ e in
      let (more, q, e2) = bind-eq-ok (handle_firings F sqrt T h fs one.1) _ e1 in
      let same : (one.0 ∷ more.0, more.1) ≡ x = ground arith in
      subst (λ (y : List AlertRecord × TriageAgent Num). Grown a 0 y.0 y.1) same
        (Grown-append a one.1 more.1 0 0 (one.0 ∷ []) more.0 (handle_firing-Grown f a one p)
          (handle_firings-Grown fs one.1 more q))

  observe-Grown :
      (event : TriageEvent Num) (a : TriageAgent Num) (x : List AlertRecord × TriageAgent Num)
      → observe F sqrt T h event a ≡ ok x
      → Grown a 1 x.0 x.1
  unfolding observe
  observe-Grown event a x e =
      let g = handle_firings-Grown _ _ x e in
      record {
        alerts = g.alerts;
        appended = g.appended;
        many = g.many;
        firings = g.firings;
        events = omega (arith, g.events);
        tallied =
            λ t. g.tallied (record { by_detector = t.by_detector; by_severity = t.by_severity });
      }

  run-Grown :
      (events : List (TriageEvent Num)) (a : TriageAgent Num)
      (x : List AlertRecord × TriageAgent Num)
      → run F sqrt T h events a ≡ ok x
      → Grown a (length events) x.0 x.1
  unfolding run
  run-Grown [] a x e =
      let same : ([], a) ≡ x = ground arith in
      subst (λ (y : List AlertRecord × TriageAgent Num). Grown a 0 y.0 y.1) same (Grown-nothing a)
  run-Grown (event ∷ events) a x e =
      let (one, p, e1) = bind-eq-ok (observe F sqrt T h event a) _ e in
      let (more, q, e2) = bind-eq-ok (run F sqrt T h events one.1) _ e1 in
      let same : (one.0 ++ more.0, more.1) ≡ x = ground arith in
      let n = length events in
      subst (λ (y : List AlertRecord × TriageAgent Num). Grown a (suc n) y.0 y.1) same
        (subst (λ (k : ℕ). Grown a k (one.0 ++ more.0) more.1) (omega arith)
          (Grown-append a one.1 more.1 1 n one.0 more.0 (observe-Grown event a one p)
            (run-Grown events one.1 more q)))

  abbrev pub new_agent : DetectorEnsemble Num → TriageAgent Num
  new_agent e = record {
    ensemble = e;
    stats = record { events_in = 0; firings = 0; by_detector = []; by_severity = [] };
    chain = new_chain;
  }

  pub run_verified :
      (e : DetectorEnsemble Num) (events : List (TriageEvent Num)) (rs : List AlertRecord)
      (a : TriageAgent Num)
      → run F sqrt T h events (new_agent e) ≡ ok (rs, a)
      → (encode_all encode rs ≡ ok a.chain.fp)
        × (verify_chain h rs none ≡ ok (clean (length rs) (head_of [] rs)))
        × (a.chain.prev_hash_lo ≡ head_of zeros rs)
        × (a.stats.events_in ≡ length events)
        × (a.stats.firings ≡ length rs)
        × Tallied a.stats
  run_verified e events rs a done =
      let g = run-Grown events (new_agent e) (rs, a) done in
      let (verified, head) = append_all_verified h g.alerts rs a.chain g.appended in
      let filed = append_all-Filed h g.alerts new_chain (rs, a.chain) g.appended in
      (
        filed.encoded ∙ ap ok (sym filed.file),
        verified ∙ ap (λ (n : ℕ). ok (clean n (head_of [] rs))) g.many,
        head,
        omega (arith, g.events),
        omega (arith, g.firings),
        g.tallied (record { by_detector = refl; by_severity = refl }),
      )
