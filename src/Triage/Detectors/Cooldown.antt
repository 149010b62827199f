-- ===== src/Triage/Detectors/Cooldown.antt =====
-- The firings of the latency detector: behind the warm-up, and a cooldown apart on each stage.
use sentinel_hft.Prelude.{
  ℕ, ◌+◌, ◌≤◌, ◌≡◌, ◌≢◌, refl, subst, false, not, Option, none, some, List, [], ◌∷◌, arith, ltb,
  if◌then◌else◌, Bool-cases, Option-cases, inl, inr,
}
use sentinel_hft.Prelude.Bytes.{bytes_eq, bytes_eq_iff}
use sentinel_hft.Prelude.Dict.{lookup, insert, or_else, lookup-insert_self, lookup-insert_ne}
use sentinel_hft.Prelude.Float.{Float}
use sentinel_hft.Triage.Detectors.{
  bytes_key, TriageEvent, DetectorFiring, Welford, LatencyZScoreDetector, is_latency, new_welford,
  update, stdev, is_cooling, firing_of, judge, observe_latency,
}

-- The numbers of samples before the firings on one stage, the last one first: each is behind the
-- warm-up, and a cooldown behind the one before.
abbrev pub Spaced : ℕ → ℕ → List ℕ → Type 0
Spaced warmup cooldown [] = Unit
Spaced warmup cooldown (n ∷ []) = warmup ≤ n
Spaced warmup cooldown (n ∷ (m ∷ ns)) =
    (warmup ≤ n) × (m + cooldown ≤ n) × Spaced warmup cooldown (m ∷ ns)

abbrev pub HeadIs : List ℕ → Option ℕ → Type 0
HeadIs [] o = o ≡ none
HeadIs (n ∷ ns) o = o ≡ some n

module _ (F : Float) (sqrt : F.Num → F.Num) where
  open F use {Num, of_nat, sub, div, lt}

  -- The firings of a detector on a stage add the sample numbers to those before.
  abbrev pub note_firing : List ℕ → Option (DetectorFiring Num) → List ℕ → List ℕ
  note_firing stage none ns = ns
  note_firing stage (some f) ns = elim f.stage [
    | none ↦ ns
    | some s ↦ (if bytes_eq s stage then f.window_samples ∷ ns else ns)
  ]

  -- All events one after another, with the firings on a stage.
  unfoldable pub firings_on :
      List ℕ → List (TriageEvent Num) → LatencyZScoreDetector Num → List ℕ → List ℕ
  firings_on stage [] d ns = ns
  firings_on stage (e ∷ es) d ns =
      let (f, d') = observe_latency F sqrt e d in firings_on stage es d' (note_firing stage f ns)

  -- The detector remembers the last firing on the stage.
  record Remembers (stage : List ℕ) (warmup cooldown : ℕ) (d : LatencyZScoreDetector Num)
      (ns : List ℕ) : Type 0 where
    spaced : Spaced warmup cooldown ns
    last : HeadIs ns (lookup stage d.last_fire_n)
    warm : d.min_samples ≡ warmup
    cool : d.cooldown_samples ≡ cooldown

  Spaced-more :
      (n warmup cooldown : ℕ) (ns : List ℕ) (o : Option ℕ)
      → Spaced warmup cooldown ns
      → HeadIs ns o
      → warmup ≤ n
      → is_cooling F sqrt n o cooldown ≡ false
      → Spaced warmup cooldown (n ∷ ns)
  Spaced-more n warmup cooldown [] o s l w c = w
  Spaced-more n warmup cooldown (m ∷ ns) o s l w c =
      let apart : ltb n (m + cooldown) ≡ false =
        subst (λ (x : Option ℕ). is_cooling F sqrt n x cooldown ≡ false) l c in
      (w, ground arith, s)

  fired-Remembers :
      (stage s : List ℕ) (warmup cooldown : ℕ) (event : TriageEvent Num) (w : Welford Num) (z : Num)
      (d : LatencyZScoreDetector Num) (ns : List ℕ)
      → Remembers stage warmup cooldown d ns
      → ltb w.n d.min_samples ≡ false
      → is_cooling F sqrt w.n (lookup s d.last_fire_n) d.cooldown_samples ≡ false
      → Remembers stage warmup cooldown
          (record d { last_fire_n = insert s w.n d.last_fire_n })
          (note_firing stage (some (firing_of F sqrt event s w z d)) ns)
  fired-Remembers stage s warmup cooldown event w z d ns r warm cooled =
      elim (Bool-cases (bytes_eq s stage)) [
        | inl here ↦
            let same : s ≡ stage = (bytes_eq_iff s stage).0 here in
            let cooled' : is_cooling F sqrt w.n (lookup stage d.last_fire_n) cooldown ≡ false =
              rw (← same, ← r.cool) cooled in
            rw here (record {
              spaced =
                  Spaced-more w.n warmup cooldown ns (lookup stage d.last_fire_n) r.spaced r.last
                    (ground (arith, r.warm)) cooled';
              last = rw (← same) (lookup-insert_self s w.n d.last_fire_n);
              warm = r.warm;
              cool = r.cool;
            })
        | inr other ↦
            let apart : s ≢ stage = λ e. cc ((bytes_eq_iff s stage).1 e) in
            rw other (record {
              spaced = r.spaced;
              last = rw (lookup-insert_ne stage s w.n d.last_fire_n apart) r.last;
              warm = r.warm;
              cool = r.cool;
            })
      ]

  judge-Remembers :
      (stage s : List ℕ) (warmup cooldown : ℕ) (event : TriageEvent Num) (w : Welford Num)
      (d : LatencyZScoreDetector Num) (ns : List ℕ)
      → Remembers stage warmup cooldown d ns
      → Remembers stage warmup cooldown
          (judge F sqrt event s w d).1
          (note_firing stage (judge F sqrt event s w d).0 ns)
  unfolding judge
  judge-Remembers stage s warmup cooldown event w d ns r =
      let z = div (sub event.value w.mean) (stdev F sqrt w) in
      elim (Bool-cases (ltb w.n d.min_samples)) [
        | inl cold ↦ rw cold r
        | inr warm ↦ elim (Bool-cases (not (lt (of_nat 0) (stdev F sqrt w)))) [
          | inl flat ↦ rw (warm, flat) r
          | inr varied ↦ elim (Bool-cases (lt z d.z_threshold)) [
            | inl low ↦ rw (warm, varied, low) r
            | inr high ↦
                elim (Bool-cases
                  (is_cooling F sqrt w.n (lookup s d.last_fire_n) d.cooldown_samples)) [
                    | inl cooling ↦ rw (warm, varied, high, cooling) r
                    | inr cooled ↦
                        rw (warm, varied, high, cooled)
                          (fired-Remembers stage s warmup cooldown event w z d ns r warm cooled)
                  ]
          ]
        ]
      ]

  observe_latency-Remembers :
      (stage : List ℕ) (warmup cooldown : ℕ) (event : TriageEvent Num)
      (d : LatencyZScoreDetector Num) (ns : List ℕ)
      → Remembers stage warmup cooldown d ns
      → Remembers stage warmup cooldown
          (observe_latency F sqrt event d).1
          (note_firing stage (observe_latency F sqrt event d).0 ns)
  unfolding observe_latency judge
  observe_latency-Remembers stage warmup cooldown event d ns r =
      elim (Bool-cases (is_latency event.kind)) [
        | inr other ↦ rw other r
        | inl timed ↦ elim (Option-cases event.stage) [
          | inl nowhere ↦ rw (timed, nowhere) r
          | inr (s, found) ↦
              let w = or_else (lookup s d.acc) (new_welford F sqrt) in
              rw (timed, found)
                (judge-Remembers stage s warmup cooldown event w
                  (record d { acc = insert s (update F sqrt event.value w) d.acc }) ns
                  (record { spaced = r.spaced; last = r.last; warm = r.warm; cool = r.cool }))
        ]
      ]

  firings_on-Remembers :
      (stage : List ℕ) (warmup cooldown : ℕ) (events : List (TriageEvent Num))
      (d : LatencyZScoreDetector Num) (ns : List ℕ)
      → Remembers stage warmup cooldown d ns
      → Spaced warmup cooldown (firings_on stage events d ns)
  unfolding firings_on
  firings_on-Remembers stage warmup cooldown [] d ns r = r.spaced
  firings_on-Remembers stage warmup cooldown (e ∷ es) d ns r =
      firings_on-Remembers stage warmup cooldown es _ _
        (observe_latency-Remembers stage warmup cooldown e d ns r)

  pub firings_on-Spaced :
      (stage : List ℕ) (events : List (TriageEvent Num)) (d : LatencyZScoreDetector Num)
      → lookup stage d.last_fire_n ≡ none
      → Spaced d.min_samples d.cooldown_samples (firings_on stage events d [])
  firings_on-Spaced stage events d fresh =
      firings_on-Remembers stage d.min_samples d.cooldown_samples events d []
        (record { spaced = tt; last = fresh; warm = refl; cool = refl })
