-- ===== src/Analysis/Minimizer.antt =====
-- sentinel_hft/analysis/minimizer.py: `minimize_reproducer`, delta debugging over a list of traces.
-- The check is a function of the traces.
pub mod Chunks
pub mod Outcome
pub mod Reproducer
use sentinel_hft.Prelude.{
  ℕ, zero, suc, ◌+◌, ◌-◌, ◌*◌, ◌/◌, Bool, true, false, ◌&&◌, Option, none, some, List, [], ◌∷◌,
  ◌++◌, length, ltb, leb, ◌==◌, if◌then◌else◌,
}
use sentinel_hft.Prelude.Float.{Float}
use sentinel_hft.Prelude.Reads.{reads, concat}
use sentinel_hft.Prelude.Result.{Result, ok, value_error, ◌>>=◌, ◌>>◌, guard}

-- The variables of the loop.
pub record Search {ℓ} (A : Type ℓ) : Type ℓ where
  pub current : List A
  pub n : ℕ
  pub iterations : ℕ

-- How a round of the loop ends: with a new state, or by `break`.
pub data Round {ℓ} (A : Type ℓ) : Type ℓ where
  next stop : Search A → Round A

pub record MinimizedResult {ℓ} (N : Type 0) (A : Type ℓ) : Type ℓ where
  pub original_count : ℕ
  pub minimized_count : ℕ
  pub reduction_pct : N
  pub minimized_traces : List A
  pub iterations : ℕ

-- `max(1, len(current) // n)`
abbrev pub chunk_size : ℕ → ℕ → ℕ
chunk_size len n = if ltb 1 (len / n) then len / n else 1

module _ {ℓ} {A : Type ℓ} where
  unfoldable pub chunks_of : ℕ → List A → List (List A)
  chunks_of n current = reads (chunk_size (length current) n) current

  -- All chunks but the one at index i.
  unfoldable pub complement : ℕ → List (List A) → List A
  complement i [] = []
  complement zero (c ∷ cs) = concat cs
  complement (suc i) (c ∷ cs) = c ++ complement i cs

  -- Neither: the granularity is doubled, or the loop ends.
  unfoldable pub refine : Search A → Round A
  refine s =
      let len = length s.current in
      if ltb s.n len
      then next (record s { n = if ltb len (s.n * 2) then len else s.n * 2 })
      else stop s

  abbrev pub at_first : List A → Search A
  at_first traces = record { current = traces; n = 2; iterations = 0 }

module _ {ℓ} {A : Type ℓ} (check : List A → Bool) (min_size : ℕ) where
  abbrev pub is_smaller : List A → Bool
  is_smaller xs = leb min_size (length xs) && check xs

  -- The first chunk that still shows the regression.
  unfoldable pub find_chunk : List (List A) → Option (List A)
  find_chunk [] = none
  find_chunk (c ∷ cs) = if is_smaller c then some c else find_chunk cs

  -- The first complement that does, for k indices from i on.
  unfoldable pub find_complement : List (List A) → ℕ → ℕ → Option (List A)
  find_complement cs i zero = none
  find_complement cs i (suc k) =
      let rest = find_complement cs (suc i) k in
      if is_smaller (complement i cs) then some (complement i cs) else rest

  unfoldable pub try_complements : List (List A) → Search A → Round A
  try_complements cs s = elim (find_complement cs 0 (length cs)) [
    | some c ↦ next (record s { current = c; n = if ltb 2 (s.n - 1) then s.n - 1 else 2 })
    | none ↦ refine s
  ]

  unfoldable pub try_chunks : List (List A) → Search A → Round A
  try_chunks cs s = elim (find_chunk cs) [
    | some c ↦ next (record s { current = c; n = 2 })
    | none ↦ try_complements cs s
  ]

  -- The body of the `while` loop.
  unfoldable pub round : Search A → Round A
  round s = try_chunks (chunks_of s.n s.current) (record s { iterations = s.iterations + 1 })

  -- The loop, with the iterations that `max_iterations` leaves.
  unfoldable pub search : ℕ → Search A → Search A
  search zero s = s
  search (suc left) s =
      if ltb min_size (length s.current)
      then (elim (round s) [ next s' ↦ search left s' | stop s' ↦ s' ])
      else s

module _ (F : Float) where
  open F use {Num, of_nat, sub, mul, div}

  abbrev pub minimized_result {ℓ} : {A : Type ℓ} → List A → Search A → MinimizedResult Num A
  minimized_result traces s = record {
    original_count = length traces;
    minimized_count = length s.current;
    reduction_pct =
        if length traces == 0
        then of_nat 0
        else mul (sub (of_nat 1) (div (of_nat (length s.current)) (of_nat (length traces))))
            (of_nat 100);
    minimized_traces = s.current;
    iterations = s.iterations;
  }

  unfoldable pub minimize_reproducer {ℓ} :
      {A : Type ℓ} → List A → (List A → Bool) → ℕ → ℕ → Result (MinimizedResult Num A)
  minimize_reproducer traces check min_size max_iterations = do
    guard (check traces) value_error
    ok (minimized_result traces (search check min_size max_iterations (at_first traces)))
