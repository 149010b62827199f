-- ===== src/Sequence/Counters.antt =====
-- The tracker's counters agree with its lists of events, after any sequence of calls.
use sentinel_hft.Prelude.{
  ℕ, zero, suc, ◌+◌, ◌%◌, ◌≤◌, ◌<◌, ◌≡◌, refl, some, List, [], ◌∷◌, ◌++◌, length, length-append,
  ◌==◌, arith, inl, inr, Option-cases, Bool-cases, ==_iff,
}
use sentinel_hft.Prelude.Int.{ℤ, pos, negsuc}
use sentinel_hft.Prelude.Eq.{nat_eq}
use sentinel_hft.Prelude.Dict.{Dict, lookup, insert, or_else, lookup-insert_self, lookup-insert_ne}
use sentinel_hft.Sequence.{
  u32_half, u32_modulus, u32, u32_add, u32_distance, DropEvent, SequenceTracker, new_tracker,
  drop_event, expected_branch, gap_branch, late_branch, check_known, check, handle_reset,
}
use sentinel_hft.Sequence.Distance.{u32_distance_pos, u32-lt}

abbrev pub sum_dropped : List DropEvent → ℕ
sum_dropped [] = 0
sum_dropped (e ∷ es) = e.dropped_count + sum_dropped es

-- A drop is of 1 to 2^31 - 1 numbers, and leads from the expected number to the one that came.
abbrev pub IsDrop : DropEvent → Type 0
IsDrop e =
    (1 ≤ e.dropped_count)
    × (e.dropped_count < u32_half)
    × ((e.expected_seq + e.dropped_count) % u32_modulus ≡ e.actual_seq)

abbrev pub AllDrops : List DropEvent → Type 0
AllDrops [] = Unit
AllDrops (e ∷ es) = IsDrop e × AllDrops es

abbrev pub Bounded : Dict ℕ ℕ → Type 0
Bounded d = (c v : ℕ) → lookup c d ≡ some v → v < u32_modulus

pub record IsValid (t : SequenceTracker) : Type 0 where
  pub dropped : t.total_dropped ≡ sum_dropped t.drop_events
  pub reorders : t.total_reorders ≡ length t.reorder_events
  pub resets : t.total_resets ≡ length t.reset_events
  pub drops : AllDrops t.drop_events
  pub bounded : Bounded t.expected_seq

sum_dropped-append :
    (es : List DropEvent) (e : DropEvent)
    → sum_dropped (es ++ e ∷ []) ≡ sum_dropped es + e.dropped_count
sum_dropped-append [] e = omega arith
sum_dropped-append (x ∷ es) e = omega (arith, sum_dropped-append es e)

AllDrops-append :
    (es : List DropEvent) (e : DropEvent) → AllDrops es → IsDrop e → AllDrops (es ++ e ∷ [])
AllDrops-append [] e a d = (d, tt)
AllDrops-append (x ∷ es) e a d = (a.0, AllDrops-append es e a.1 d)

insert-Bounded : (c s : ℕ) (d : Dict ℕ ℕ) → Bounded d → Bounded (insert c (u32_add s 1) d)
unfolding u32_add
insert-Bounded c s d b j v e = elim (Bool-cases (c == j)) [
  | inl same ↦
      let at_c : c ≡ j = (==_iff c j).0 same in
      let found = lookup-insert_self j ((s + 1) % u32_modulus) d in
      let value : v ≡ (s + 1) % u32_modulus = ground (arith, found) in omega (arith, value)
  | inr other ↦
      let apart : lookup j (insert c ((s + 1) % u32_modulus) d) ≡ lookup j d =
        lookup-insert_ne j c ((s + 1) % u32_modulus) d (λ eq. ground arith) in
      b j v (ground (arith, apart))
]

pub new_tracker-IsValid : IsValid new_tracker
unfolding lookup
new_tracker-IsValid = record {
  dropped = refl;
  reorders = refl;
  resets = refl;
  drops = tt;
  bounded = λ c v e. cc;
}

check_known-IsValid :
    (c expected seq ts : ℕ) (t : SequenceTracker) (z : ℤ)
    → seq < u32_modulus
    → u32_distance expected seq ≡ z
    → IsValid t
    → IsValid (check_known c expected seq ts z t).1
unfolding check_known expected_branch gap_branch late_branch
check_known-IsValid c expected seq ts t (pos zero) lt e v = record {
  dropped = v.dropped;
  reorders = v.reorders;
  resets = v.resets;
  drops = v.drops;
  bounded = insert-Bounded c seq t.expected_seq v.bounded;
}
check_known-IsValid c expected seq ts t (pos (suc d)) lt e v = record {
  dropped =
      omega
        (arith, v.dropped, sum_dropped-append t.drop_events (drop_event c expected seq (suc d) ts));
  reorders = v.reorders;
  resets = v.resets;
  drops =
      AllDrops-append t.drop_events (drop_event c expected seq (suc d) ts) v.drops
        (omega (arith, u32_distance_pos expected seq (suc d) e));
  bounded = insert-Bounded c seq t.expected_seq v.bounded;
}
check_known-IsValid c expected seq ts t (negsuc n) lt e v = record {
  dropped = v.dropped;
  reorders =
      omega (arith, v.reorders, length-append t.reorder_events ((c, expected, seq, ts) ∷ []));
  resets = v.resets;
  drops = v.drops;
  bounded = v.bounded;
}

-- Every `check`, of any number from any core, keeps the invariant.
pub check-IsValid :
    (c seq_no ts : ℕ) (t : SequenceTracker) → IsValid t → IsValid (check c seq_no ts t).1
unfolding check
check-IsValid c seq_no ts t v = elim (Option-cases (lookup c t.expected_seq)) [
  | inl new ↦
      rw (check, new)
        (record {
          dropped = v.dropped;
          reorders = v.reorders;
          resets = v.resets;
          drops = v.drops;
          bounded = insert-Bounded c (u32 (pos seq_no)) t.expected_seq v.bounded;
        })
  | inr (expected, known) ↦
      rw (check, known)
        (check_known-IsValid c expected (u32 (pos seq_no)) ts t
          (u32_distance expected (u32 (pos seq_no))) (u32-lt (pos seq_no)) refl v)
]

-- And so does every reset.
pub handle_reset-IsValid :
    (c new_seq ts : ℕ) (t : SequenceTracker) → IsValid t → IsValid (handle_reset c new_seq ts t)
unfolding handle_reset
handle_reset-IsValid c new_seq ts t v = record {
  dropped = v.dropped;
  reorders = v.reorders;
  resets = omega (
    arith,
    v.resets,
    length-append t.reset_events ((c, or_else (lookup c t.expected_seq) 0, new_seq, ts) ∷ []),
  );
  drops = v.drops;
  bounded = insert-Bounded c new_seq t.expected_seq v.bounded;
}

-- A call of the tracker.
pub data Call : Type 0 where
  check_call reset_call : ℕ → ℕ → ℕ → Call

unfoldable pub run : List Call → SequenceTracker → SequenceTracker
run [] t = t
run (check_call c s ts ∷ cs) t = run cs (check c s ts t).1
run (reset_call c s ts ∷ cs) t = run cs (handle_reset c s ts t)

run_from-IsValid : (cs : List Call) (t : SequenceTracker) → IsValid t → IsValid (run cs t)
unfolding run
run_from-IsValid [] t v = v
run_from-IsValid (check_call c s ts ∷ cs) t v =
    run_from-IsValid cs (check c s ts t).1 (check-IsValid c s ts t v)
run_from-IsValid (reset_call c s ts ∷ cs) t v =
    run_from-IsValid cs (handle_reset c s ts t) (handle_reset-IsValid c s ts t v)

-- After any calls on a new tracker: the total of drops is the sum over the drop events, the other
-- totals are the numbers of their events, each drop event is of 1 to 2^31 - 1 numbers and leads
-- from the expected to the actual number modulo 2^32, and each expected number has 32 bits.
pub run-IsValid : (cs : List Call) → IsValid (run cs new_tracker)
run-IsValid cs = run_from-IsValid cs new_tracker new_tracker-IsValid
