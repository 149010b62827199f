-- ===== src/Audit/Verifier/Checks.antt =====
-- What a chained stream is, independently of the walk, and what each check of a round tells.
use sentinel_hft.Prelude.{
  ℕ, ◌+◌, ◌≡◌, refl, ◌↔◌, Bool, Option, none, some, List, [], ◌∷◌, ◌++◌, ◌==◌, arith,
}
use sentinel_hft.Prelude.Int.{ℤ, pos, negsuc, ◌≤ℤ◌}
use sentinel_hft.Prelude.Result.{ok}
use sentinel_hft.Prelude.Bytes.{bytes_eq_iff}
use sentinel_hft.Audit.Digest.{Blake2b}
use sentinel_hft.Audit.Record.{AuditRecord, hash_lo}
use sentinel_hft.Audit.Verifier.{ChainBreak, Walk, check_prev, check_seq, check_ts}

-- The number that follows the last one; the first record may have any.
abbrev pub Follows : Option ℕ → ℕ → Type 0
Follows none seq = Unit
Follows (some last) seq = seq ≡ last + 1

-- A stream whose pointers, numbers and clock fit what came before it; `final` is the hash of its
-- last record, or `prev` if it is empty.
abbrev pub Links : Blake2b → List ℕ → Option ℕ → ℤ → List ℕ → List AuditRecord → Type 0
Links h prev last ts final [] = final ≡ prev
Links h prev last ts final (r ∷ rs) =
    (r.prev_hash_lo ≡ prev)
    × Follows last r.seq_no
    × (ts ≤ℤ pos r.timestamp_ns)
    × ((next : List ℕ) × (hash_lo h r ≡ ok next)
        × Links h next (some r.seq_no) (pos r.timestamp_ns) final rs)

-- The whole stream, from the seed.
abbrev pub IsChained : Blake2b → List ℕ → List ℕ → List AuditRecord → Type 0
IsChained h seed final rs = Links h seed none (negsuc 0) final rs

-- Each check adds nothing exactly when its condition holds.
pub check_prev_iff :
    (seed : List ℕ) (first : Bool) (expected : List ℕ) (r : AuditRecord)
    → (check_prev seed first expected r ≡ []) ↔ (r.prev_hash_lo ≡ expected)
unfolding check_prev
check_prev_iff seed first expected r = ground (arith, bytes_eq_iff r.prev_hash_lo expected)

pub check_seq_iff :
    (last : Option ℕ) (r : AuditRecord) → (check_seq last r ≡ []) ↔ Follows last r.seq_no
unfolding check_seq
check_seq_iff none r = ground arith
check_seq_iff (some last) r = ground arith

pub check_ts_iff :
    (last : ℤ) (r : AuditRecord) → (check_ts last r ≡ []) ↔ (last ≤ℤ pos r.timestamp_ns)
unfolding check_ts
check_ts_iff last r = ground arith

pub append-eq-nil {ℓ} : {A : Type ℓ} (xs ys : List A) → xs ++ ys ≡ [] → (xs ≡ []) × (ys ≡ [])
append-eq-nil [] ys e = (refl, e)
append-eq-nil (x ∷ xs) ys e = cc

-- The breaks that the three checks of one round add.
abbrev pub found : List ℕ → Walk → AuditRecord → List ChainBreak
found seed w r =
    check_prev seed (w.total_records + 1 == 1) w.expected_prev r
    ++ (check_seq w.last_seq r ++ check_ts w.last_ts r)

pub found_iff :
    (seed : List ℕ) (w : Walk) (r : AuditRecord)
    → (found seed w r ≡ []) ↔ (
        (r.prev_hash_lo ≡ w.expected_prev)
        × Follows w.last_seq r.seq_no
        × (w.last_ts ≤ℤ pos r.timestamp_ns))
found_iff seed w r = (left, right)
  where
    left :
        found seed w r ≡ []
        → (r.prev_hash_lo ≡ w.expected_prev)
          × Follows w.last_seq r.seq_no
          × (w.last_ts ≤ℤ pos r.timestamp_ns)
    left e =
        let (a, bc) = append-eq-nil (check_prev _ _ _ r) _ e in
        let (b, c) = append-eq-nil (check_seq _ r) _ bc in
        ((check_prev_iff _ _ _ r).0 a, (check_seq_iff _ r).0 b, (check_ts_iff _ r).0 c)

    right :
        (r.prev_hash_lo ≡ w.expected_prev)
          × Follows w.last_seq r.seq_no
          × (w.last_ts ≤ℤ pos r.timestamp_ns)
        → found seed w r ≡ []
    right (a, b, c) = rw (
      (check_prev_iff seed (w.total_records + 1 == 1) w.expected_prev r).1 a,
      (check_seq_iff w.last_seq r).1 b,
      (check_ts_iff w.last_ts r).1 c,
    )
