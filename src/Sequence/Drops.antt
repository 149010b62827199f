-- ===== src/Sequence/Drops.antt =====
-- The tracker against the truth: numbers that grow without bound and are sent modulo 2^32.
use sentinel_hft.Prelude.{
  ℕ, zero, suc, ◌+◌, ◌-◌, ◌%◌, ◌≤◌, ◌<◌, ◌≡◌, refl, ap, ◌∙◌, Option, none, some, List, [], ◌∷◌,
  ◌++◌, ◌==◌, if◌then◌else◌, arith, inl, inr, Option-cases, Bool-cases, ==_iff,
}
use sentinel_hft.Prelude.Int.{pos}
use sentinel_hft.Prelude.Eq.{nat_eq}
use sentinel_hft.Prelude.Dict.{lookup, insert, lookup-insert_self, lookup-insert_ne}
use sentinel_hft.Sequence.{
  u32_half, u32_modulus, u32, u32_add, u32_distance, SequenceTracker, new_tracker, expected_branch,
  gap_branch, late_branch, check_known, check,
}
use sentinel_hft.Sequence.Distance.{u32_distance_between, u32_distance_behind}

-- A trace as its core numbered it.
pub record Arrival : Type 0 where
  pub core_id : ℕ
  pub number : ℕ
  pub timestamp : ℕ

-- The number that each core gives to its next trace; `none` before its first.
abbrev pub Sender : Type 0
Sender = ℕ → Option ℕ

abbrev pub sent : Arrival → Sender → Sender
sent a next c = if a.core_id == c then some (a.number + 1) else next c

-- How many traces were lost before this one.
abbrev pub missing : Option ℕ → ℕ → ℕ
missing none n = 0
missing (some m) n = n - m

abbrev pub lost : Sender → List Arrival → ℕ
lost next [] = 0
lost next (a ∷ rest) = missing (next a.core_id) a.number + lost (sent a next) rest

-- Traces of a core come in order, and fewer than 2^31 are lost in one run.
abbrev pub Ahead : Option ℕ → ℕ → Type 0
Ahead none n = Unit
Ahead (some m) n = (m ≤ n) × (n < m + u32_half)

abbrev pub InOrder : Sender → List Arrival → Type 0
InOrder next [] = Unit
InOrder next (a ∷ rest) = Ahead (next a.core_id) a.number × InOrder (sent a next) rest

-- What the tracker is given: the number modulo 2^32.
unfoldable pub deliver : List Arrival → SequenceTracker → SequenceTracker
deliver [] t = t
deliver (a ∷ rest) t = deliver rest (check a.core_id (a.number % u32_modulus) a.timestamp t).1

abbrev pub wrapped : Option ℕ → Option ℕ
wrapped none = none
wrapped (some n) = some (n % u32_modulus)

abbrev pub Agree : Sender → SequenceTracker → Type 0
Agree next t = (c : ℕ) → lookup c t.expected_seq ≡ wrapped (next c)

-- The effect of one arrival.
record Exact (next : Sender) (a : Arrival) (t t' : SequenceTracker) : Type 0 where
  counted : t'.total_dropped ≡ t.total_dropped + missing (next a.core_id) a.number
  in_order : t'.total_reorders ≡ t.total_reorders
  moved : t'.expected_seq ≡ insert a.core_id ((a.number + 1) % u32_modulus) t.expected_seq

u32_mod : (n : ℕ) → u32 (pos (n % u32_modulus)) ≡ n % u32_modulus
unfolding u32
u32_mod n = omega arith

u32_add-mod : (n : ℕ) → u32_add (n % u32_modulus) 1 ≡ (n + 1) % u32_modulus
unfolding u32_add
u32_add-mod n = omega arith

check_known-Exact :
    (c e n k ts : ℕ) (t : SequenceTracker)
    → let t' = (check_known c e (n % u32_modulus) ts (pos k) t).1 in
      (t'.total_dropped ≡ t.total_dropped + k)
      × (t'.total_reorders ≡ t.total_reorders)
      × (t'.expected_seq ≡ insert c ((n + 1) % u32_modulus) t.expected_seq)
unfolding check_known expected_branch gap_branch
check_known-Exact c e n zero ts t =
    (omega arith, refl, ap (λ v. insert c v t.expected_seq) (u32_add-mod n))
check_known-Exact c e n (suc k) ts t =
    (refl, refl, ap (λ v. insert c v t.expected_seq) (u32_add-mod n))

check_known_call :
    (c s ts e : ℕ) (t : SequenceTracker)
    → lookup c t.expected_seq ≡ some e
    → check c s ts t ≡ check_known c e (u32 (pos s)) ts (u32_distance e (u32 (pos s))) t
unfolding check
check_known_call c s ts e t h = rw (check, h)

check_first_call :
    (c s ts : ℕ) (t : SequenceTracker)
    → lookup c t.expected_seq ≡ none
    → let t' = (check c s ts t).1 in
      (t'.total_dropped ≡ t.total_dropped)
      × (t'.total_reorders ≡ t.total_reorders)
      × (t'.expected_seq ≡ insert c (u32_add (u32 (pos s)) 1) t.expected_seq)
unfolding check
check_first_call c s ts t h = rw (check, h) (refl, refl, refl)

check_in_order :
    (c m n ts : ℕ) (t : SequenceTracker)
    → lookup c t.expected_seq ≡ some (m % u32_modulus)
    → m ≤ n
    → n < m + u32_half
    → let t' = (check c (n % u32_modulus) ts t).1 in
      (t'.total_dropped ≡ t.total_dropped + (n - m))
      × (t'.total_reorders ≡ t.total_reorders)
      × (t'.expected_seq ≡ insert c ((n + 1) % u32_modulus) t.expected_seq)
check_in_order c m n ts t e le lt =
    rw
      (
        check_known_call c (n % u32_modulus) ts (m % u32_modulus) t e,
        u32_mod n,
        u32_distance_between m n le lt,
      )
      (check_known-Exact c (m % u32_modulus) n (n - m) ts t)

check-Exact :
    (next : Sender) (a : Arrival) (t : SequenceTracker)
    → Agree next t
    → Ahead (next a.core_id) a.number
    → Exact next a t (check a.core_id (a.number % u32_modulus) a.timestamp t).1
check-Exact next a t g h = elim (Option-cases (next a.core_id)) [
  | inl new ↦
      let none_yet : lookup a.core_id t.expected_seq ≡ none = g a.core_id ∙ ap wrapped new in
      let (d, r, m) = check_first_call a.core_id (a.number % u32_modulus) a.timestamp t none_yet in
      record {
        counted = rw new (d ∙ omega arith);
        in_order = r;
        moved =
            m
            ∙ ap (λ v. insert a.core_id v t.expected_seq)
                (ap (λ v. u32_add v 1) (u32_mod a.number) ∙ u32_add-mod a.number);
      }
  | inr (m, known) ↦
      let in_range : (m ≤ a.number) × (a.number < m + u32_half) = rw known at h in
      let expected : lookup a.core_id t.expected_seq ≡ some (m % u32_modulus) =
        g a.core_id ∙ ap wrapped known in
      let (d, r, v) =
        check_in_order a.core_id m a.number a.timestamp t expected in_range.0 in_range.1 in
      record { counted = rw known d; in_order = r; moved = v }
]

Agree-sent :
    (next : Sender) (a : Arrival) (t t' : SequenceTracker)
    → Agree next t
    → t'.expected_seq ≡ insert a.core_id ((a.number + 1) % u32_modulus) t.expected_seq
    → Agree (sent a next) t'
Agree-sent next a t t' g e c = elim (Bool-cases (a.core_id == c)) [
  | inl same ↦
      let at_c : a.core_id ≡ c = (==_iff a.core_id c).0 same in
      rw (e, same, at_c) (lookup-insert_self c ((a.number + 1) % u32_modulus) t.expected_seq)
  | inr other ↦
      rw (e, other)
        (lookup-insert_ne c a.core_id ((a.number + 1) % u32_modulus) t.expected_seq
            (λ eq. ground arith)
          ∙ g c)
]

deliver-Exact :
    (next : Sender) (rest : List Arrival) (t : SequenceTracker)
    → Agree next t
    → InOrder next rest
    → ((deliver rest t).total_dropped ≡ t.total_dropped + lost next rest)
      × ((deliver rest t).total_reorders ≡ t.total_reorders)
unfolding deliver
deliver-Exact next [] t g h = (omega arith, refl)
deliver-Exact next (a ∷ rest) t g h =
    let t' : SequenceTracker = (check a.core_id (a.number % u32_modulus) a.timestamp t).1 in
    let x = check-Exact next a t g h.0 in
    let (d, r) = deliver-Exact (sent a next) rest t' (Agree-sent next a t t' g x.moved) h.1 in
    (omega (arith, d, x.counted), r ∙ x.in_order)

-- The drop count is exact. From a new tracker, for any interleaving of cores whose traces come in
-- order with fewer than 2^31 of them lost in one run, the total of drops is the number of traces
-- that were lost between those that came, across wraps of the 32-bit number, and nothing is counted
-- as a late arrival.
pub total_dropped_exact :
    (arrivals : List Arrival)
    → InOrder (λ c. none) arrivals
    → let t = deliver arrivals new_tracker in
      (t.total_dropped ≡ lost (λ c. none) arrivals) × (t.total_reorders ≡ 0)
unfolding lookup
total_dropped_exact arrivals h =
    let (d, r) = deliver-Exact (λ c. none) arrivals new_tracker (λ c. refl) h in
    (omega (arith, d), r)

-- A late trace is never a drop. Where the tracker expects number n + k + 1 of a core (k < 2^31), the
-- arrival of number n is counted and noted as a reordering and returns no event; the drops and what
-- is expected of every core stay as they were.
pub late_arrival :
    (c n k ts : ℕ) (t : SequenceTracker)
    → k < u32_half
    → lookup c t.expected_seq ≡ some ((n + suc k) % u32_modulus)
    → let (event, t') = check c (n % u32_modulus) ts t in
      (event ≡ none)
      × (t'.total_dropped ≡ t.total_dropped)
      × (t'.drop_events ≡ t.drop_events)
      × (t'.total_reorders ≡ t.total_reorders + 1)
      × (t'.reorder_events
          ≡ t.reorder_events ++ (c, (n + suc k) % u32_modulus, n % u32_modulus, ts) ∷ [])
      × (t'.expected_seq ≡ t.expected_seq)
unfolding check_known late_branch
late_arrival c n k ts t h e =
    rw
      (
        check_known_call c (n % u32_modulus) ts ((n + suc k) % u32_modulus) t e,
        u32_mod n,
        u32_distance_behind n k h,
      )
      (refl, refl, refl, refl, refl, refl)
