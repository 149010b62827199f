-- ===== src/Analysis/Minimizer/Reproducer.antt =====
-- The result of the search: that it reproduces the regression, and that the search ends.
use mathlib.Core.List.{Sublist}
use mathlib.Core.List.Sublist
use native.Mathlib.Nat.{mul-le-mul_right}
use sentinel_hft.Prelude.{
  ℕ, zero, suc, ◌+◌, ◌-◌, ◌*◌, ◌≤◌, ◌<◌, ◌≡◌, ap, Bool, true, List, length, arith, ltb, Bool-cases,
  inl, inr,
}
use sentinel_hft.Prelude.Float.{Float}
use sentinel_hft.Prelude.Result.{ok}
use sentinel_hft.Analysis.Minimizer.{
  Search, Round, next, stop, MinimizedResult, at_first, round, search, minimize_reproducer,
  minimized_result,
}
use sentinel_hft.Analysis.Minimizer.Outcome.{
  IsMinimal, Outcome, smaller, finer, done, round-Outcome,
}

module _ {ℓ} {A : Type ℓ} (check : List A → Bool) (min_size : ℕ) (one : 1 ≤ min_size) where
  -- The state of a search in these traces.
  pub record Kept (traces : List A) (s : Search A) : Type ℓ where
    pub part : Sublist s.current traces
    pub checked : check s.current ≡ true
    pub large : min_size ≤ length traces → min_size ≤ length s.current
    pub chunked : 2 ≤ s.n

  -- How the loop goes on behind a round.
  abbrev continue : ℕ → Round A → Search A
  continue left r = elim r [ next s ↦ search check min_size left s | stop s ↦ s ]

  abbrev KeptBy : List A → ℕ → Type ℓ
  KeptBy traces left =
      (s : Search A)
      → Kept traces s
      → Kept traces (search check min_size left s)
        × ((search check min_size left s).iterations ≤ s.iterations + left)

  continue-Kept :
      (traces : List A) (left : ℕ) (s : Search A) (r : Round A)
      → Kept traces s
      → KeptBy traces left
      → Outcome check min_size s r
      → Kept traces (continue left r) × ((continue left r).iterations ≤ s.iterations + suc left)
  continue-Kept traces left s r k ih (smaller c m part shorter small two le) =
      let (kept, count) =
        ih (record { current = c; n = m; iterations = s.iterations + 1 })
          (record {
            part = Sublist.trans part k.part;
            checked = small.checked;
            large = λ h. small.large_enough;
            chunked = two;
          }) in
      (kept, omega (arith, count))
  continue-Kept traces left s r k ih (finer m more le) =
      let (kept, count) =
        ih (record { current = s.current; n = m; iterations = s.iterations + 1 })
          (record {
            part = k.part;
            checked = k.checked;
            large = k.large;
            chunked = omega (arith, more, k.chunked);
          }) in
      (kept, omega (arith, count))
  continue-Kept traces left s r k ih (done minimal) = (
    record { part = k.part; checked = k.checked; large = k.large; chunked = k.chunked },
    omega arith,
  )

  search-Kept : (traces : List A) (left : ℕ) → KeptBy traces left
  unfolding search
  search-Kept traces zero s k = (k, omega arith)
  search-Kept traces (suc left) s k = elim (Bool-cases (ltb min_size (length s.current))) [
    | inl large ↦ rw large (
        continue-Kept traces left s (round check min_size s) k (search-Kept traces left)
          (round-Outcome check min_size s one (ground arith) k.chunked))
    | inr small ↦ rw small (k, omega arith)
  ]

  -- The list may lose elements, and at the same length the chunks get more.
  abbrev pub measure : ℕ → Search A → ℕ
  measure top s = length s.current * top + (top - s.n)

  record Fits (top : ℕ) (s : Search A) : Type 0 where
    listed : length s.current ≤ top
    chunked : 2 ≤ s.n
    bounded : s.n ≤ top

  measure_smaller :
      (len m n top : ℕ) (xs : List A)
      → length xs < len
      → 2 ≤ m
      → 2 ≤ n
      → n ≤ top
      → length xs * top + (top - m) < len * top + (top - n)
  measure_smaller len m n top xs lt two two' le =
      let shorter : length xs + 1 ≤ len = omega arith in omega (arith, mul-le-mul_right top shorter)

  abbrev EndsBy : ℕ → ℕ → Type ℓ
  EndsBy top left =
      (s : Search A)
      → Fits top s
      → measure top s < left
      → IsMinimal check min_size (search check min_size left s).current
        × ((search check min_size left s).iterations ≤ s.iterations + measure top s + 1)

  continue-IsMinimal :
      (top left : ℕ) (s : Search A) (r : Round A)
      → Fits top s
      → measure top s < suc left
      → EndsBy top left
      → Outcome check min_size s r
      → IsMinimal check min_size (continue left r).current
        × ((continue left r).iterations ≤ s.iterations + measure top s + 1)
  continue-IsMinimal top left s r f lt ih (smaller c m part shorter small two le) =
      let s' : Search A = record { current = c; n = m; iterations = s.iterations + 1 } in
      let less = measure_smaller (length s.current) m s.n top c shorter two f.chunked f.bounded in
      let (minimal, count) =
        ih s'
          (record {
            listed = omega (arith, shorter, f.listed);
            chunked = two;
            bounded = omega (arith, le, f.bounded);
          })
          (omega (arith, less, lt)) in
      (minimal, omega (arith, count, less))
  continue-IsMinimal top left s r f lt ih (finer m more le) =
      let s' : Search A = record { current = s.current; n = m; iterations = s.iterations + 1 } in
      let (minimal, count) =
        ih s'
          (record {
            listed = f.listed;
            chunked = omega (arith, more, f.chunked);
            bounded = omega (arith, le, f.listed);
          })
          (omega (arith, more, le, f.listed, lt)) in
      (minimal, omega (arith, count, more, le, f.listed))
  continue-IsMinimal top left s r f lt ih (done minimal) = (inr minimal, omega arith)

  search-IsMinimal : (top left : ℕ) → EndsBy top left
  unfolding search
  search-IsMinimal top zero s f lt = absurd (omega arith)
  search-IsMinimal top (suc left) s f lt = elim (Bool-cases (ltb min_size (length s.current))) [
    | inl large ↦ rw large (
        continue-IsMinimal top left s (round check min_size s) f lt (search-IsMinimal top left)
          (round-Outcome check min_size s one (ground arith) f.chunked))
    | inr small ↦ rw small (inl (ground arith), omega arith)
  ]

module _ {ℓ} {A : Type ℓ} (F : Float) (check : List A → Bool) (min_size : ℕ) where
  open F use {Num}

  -- What a call that returns has found.
  abbrev found : ℕ → List A → Search A
  found limit traces = search check min_size limit (at_first traces)

  record Returned (traces : List A) (limit : ℕ) (r : MinimizedResult Num A) : Type ℓ where
    checked : check traces ≡ true
    original : r.original_count ≡ length traces
    minimized : r.minimized_traces ≡ (found limit traces).current
    counted : r.minimized_count ≡ length r.minimized_traces
    rounds : r.iterations ≡ (found limit traces).iterations

  returned :
      (traces : List A) (limit : ℕ) (r : MinimizedResult Num A)
      → minimize_reproducer F traces check min_size limit ≡ ok r
      → Returned traces limit r
  unfolding minimize_reproducer
  returned traces limit r e = elim (Bool-cases (check traces)) [
    | inl shows ↦ record {
      checked = shows;
      original = ground (arith, shows);
      minimized = ground (arith, shows);
      counted = ground (arith, shows);
      rounds = ground (arith, shows);
    }
    | inr passes ↦ absurd (ground (arith, passes))
  ]

  -- Whatever the check and the traces: a call that returns, with a minimum of at least one trace,
  -- returns traces that still show the regression and are a part of the original ones in their
  -- order, no fewer than the minimum unless there were fewer, within the allowed iterations.
  pub minimize_reproducer-Sublist :
      (traces : List A) (limit : ℕ) (r : MinimizedResult Num A)
      → 1 ≤ min_size
      → minimize_reproducer F traces check min_size limit ≡ ok r
      → (check r.minimized_traces ≡ true)
        × Sublist r.minimized_traces traces
        × (r.minimized_count ≡ length r.minimized_traces)
        × (min_size ≤ length traces → min_size ≤ r.minimized_count)
        × (r.iterations ≤ limit)
  minimize_reproducer-Sublist traces limit r one e =
      let x = returned traces limit r e in
      let (kept, rounds) = search-Kept check min_size one traces limit (at_first traces) (record {
        part = Sublist.refl traces;
        checked = x.checked;
        large = λ h. h;
        chunked = omega arith;
      }) in
      (
        rw x.minimized kept.checked,
        rw x.minimized kept.part,
        x.counted,
        λ h. omega (arith, x.counted, ap length x.minimized, kept.large h),
        omega (arith, x.rounds, rounds),
      )

  -- The search ends by itself: with a minimum of at least one trace, n traces that show the
  -- regression and more than n * (n + 3) allowed iterations, the call returns after at most
  -- n * (n + 3) + 1 iterations, and its traces are at most the minimum in number or cannot spare
  -- any single trace without losing the regression.
  pub minimize_reproducer_ends :
      (traces : List A) (limit : ℕ)
      → 1 ≤ min_size
      → check traces ≡ true
      → length traces * (length traces + 3) < limit
      → (r : MinimizedResult Num A) × (minimize_reproducer F traces check min_size limit ≡ ok r)
        × (r.iterations ≤ length traces * (length traces + 3) + 1)
        × IsMinimal check min_size r.minimized_traces
  unfolding minimize_reproducer
  minimize_reproducer_ends traces limit one shows enough =
      let n = length traces in
      let (minimal, rounds) =
        search-IsMinimal check min_size one (n + 2) limit (at_first traces)
          (record { listed = omega arith; chunked = omega arith; bounded = omega arith })
          (omega (arith, enough)) in
      (minimized_result F traces (found limit traces), rw shows, omega (arith, rounds), minimal)
