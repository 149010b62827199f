-- ===== src/Sequence/Tests.antt =====
-- Runs of the tracker.
use sentinel_hft.Prelude.{ℕ, ◌≡◌, refl, none, List, [], ◌∷◌, arith}
use sentinel_hft.Prelude.Int.{pos, negsuc}
use sentinel_hft.Prelude.Eq.{nat_eq}
use sentinel_hft.Prelude.Dict.{lookup, insert}
use sentinel_hft.Sequence.{
  u32_add, u32_distance, drop_event, SequenceTracker, new_tracker, check, check_known,
  expected_branch, gap_branch, update_max_seen,
}
use sentinel_hft.Sequence.Counters.{IsValid, Call, check_call, reset_call, run, run-IsValid}
use sentinel_hft.Sequence.Drops.{Arrival, lost, deliver, total_dropped_exact}

-- The examples of the docstring.
u32_distance_examples :
    (u32_distance 5 10 ≡ pos 5)
    × (u32_distance 10 5 ≡ negsuc 4)
    × (u32_distance 0xfffffffe 1 ≡ pos 3)
    × (u32_distance 1 0xfffffffe ≡ negsuc 2)
unfolding u32_distance
u32_distance_examples = (refl, refl, refl, refl)

abbrev arrival : ℕ → ℕ → Arrival
arrival c n = record { core_id = c; number = n; timestamp = 0 }

-- Two cores; core 0 loses two traces across the wrap of its number.
abbrev arrivals : List Arrival
arrivals = arrival 0 0xfffffffe ∷ arrival 1 7 ∷ arrival 0 0x100000001 ∷ arrival 1 8 ∷ []

deliver-arrivals : (deliver arrivals new_tracker).drop_events ≡ drop_event 0 0xffffffff 1 2 0 ∷ []
unfolding deliver check check_known expected_branch gap_branch update_max_seen u32_distance u32_add
    lookup insert
deliver-arrivals = refl

total_dropped_exact_example :
    let t = deliver arrivals new_tracker in
    (t.total_dropped ≡ lost (λ c. none) arrivals) × (t.total_reorders ≡ 0)
total_dropped_exact_example = total_dropped_exact arrivals (omega arith)

abbrev calls : List Call
calls = check_call 0 5 1 ∷ check_call 0 9 2 ∷ check_call 0 6 3 ∷ reset_call 0 1 4 ∷ []

run-IsValid_example : IsValid (run calls new_tracker)
run-IsValid_example = run-IsValid calls

abbrev waiting : SequenceTracker
waiting = record new_tracker { expected_seq = (0, 10) ∷ [] }
