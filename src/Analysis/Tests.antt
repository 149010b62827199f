-- ===== src/Analysis/Tests.antt =====
-- Runs of the minimizer: the regression needs the traces 3 and 8.
use mathlib.Core.List.{Sublist}
use sentinel_hft.Prelude.{
  ℕ, ◌+◌, ◌*◌, ◌≤◌, ◌≡◌, refl, Bool, true, false, ◌&&◌, ◌||◌, List, [], ◌∷◌, length, arith, ◌==◌,
}
use sentinel_hft.Prelude.Integral.{integral}
use sentinel_hft.Prelude.Int.{ℤ, ◌-ℤ◌}
use sentinel_hft.Prelude.Reads.{reads, reads_from}
use sentinel_hft.Prelude.Result.{ok}
use sentinel_hft.Analysis.Minimizer.{
  MinimizedResult, chunks_of, complement, find_chunk, find_complement, refine, try_complements,
  try_chunks, round, search, minimize_reproducer, minimized_result, at_first,
}
use sentinel_hft.Analysis.Minimizer.Outcome.{IsMinimal}
use sentinel_hft.Analysis.Minimizer.Reproducer.{
  minimize_reproducer-Sublist, minimize_reproducer_ends,
}

abbrev has : ℕ → List ℕ → Bool
has n [] = false
has n (x ∷ xs) = (n == x) || has n xs

abbrev regresses : List ℕ → Bool
regresses xs = has 3 xs && has 8 xs

abbrev traces : List ℕ
traces = 1 ∷ 2 ∷ 3 ∷ 4 ∷ 5 ∷ 6 ∷ 7 ∷ 8 ∷ []

abbrev result : MinimizedResult ℤ ℕ
result = minimized_result integral traces (search regresses 1 100 (at_first traces))

runs : minimize_reproducer integral traces regresses 1 100 ≡ ok result
unfolding minimize_reproducer
runs = refl

minimal_traces : result.minimized_traces ≡ 3 ∷ 8 ∷ []
unfolding search round try_chunks try_complements refine find_chunk find_complement chunks_of
    complement reads reads_from ◌-ℤ◌
minimal_traces = refl

minimize_reproducer-Sublist_example :
    (regresses result.minimized_traces ≡ true)
    × Sublist result.minimized_traces traces
    × (result.minimized_count ≡ length result.minimized_traces)
    × (1 ≤ 8 → 1 ≤ result.minimized_count)
    × (result.iterations ≤ 100)
minimize_reproducer-Sublist_example =
    minimize_reproducer-Sublist integral regresses 1 traces 100 result (omega arith) runs

minimize_reproducer_ends_example :
    (r : MinimizedResult ℤ ℕ) × (minimize_reproducer integral traces regresses 1 100 ≡ ok r)
    × (r.iterations ≤ 8 * (8 + 3) + 1)
    × IsMinimal regresses 1 r.minimized_traces
minimize_reproducer_ends_example =
    minimize_reproducer_ends integral regresses 1 traces 100 (omega arith) refl (omega arith)
