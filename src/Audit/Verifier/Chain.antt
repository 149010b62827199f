-- ===== src/Audit/Verifier/Chain.antt =====
-- What a clean verdict of `verify` means: an independent description of a chained stream.
use sentinel_hft.Prelude.{
  ℕ, ◌+◌, ◌≡◌, refl, sym, ap, ◌∙◌, none, some, List, [], ◌∷◌, ◌++◌, length, ltb, if◌then◌else◌,
  arith,
}
use sentinel_hft.Prelude.Int.{pos}
use sentinel_hft.Prelude.Result.{ok, bind-eq-ok}
use sentinel_hft.Audit.Digest.{Blake2b}
use sentinel_hft.Audit.Record.{AuditRecord, hash_lo}
use sentinel_hft.Audit.Verifier.{
  VerificationResult, Walk, hash_broken, visit, walk, start, summary, verify,
}
use sentinel_hft.Audit.Verifier.Checks.{Links, IsChained, append-eq-nil, found, found_iff}

-- What a round does to the variables of the loop.
abbrev advance : List ℕ → Walk → AuditRecord → List ℕ → Walk
advance seed w r next = record {
  total_records = w.total_records + 1;
  verified_records =
      if hash_broken r.seq_no (w.breaks ++ found seed w r)
      then w.verified_records
      else w.verified_records + 1;
  breaks = w.breaks ++ found seed w r;
  expected_prev = next;
  last_seq = some r.seq_no;
  last_ts = pos r.timestamp_ns;
}

visit_parts :
    (h : Blake2b) (seed : List ℕ) (w w' : Walk) (r : AuditRecord)
    → visit h seed w r ≡ ok w'
    → (next : List ℕ) × (hash_lo h r ≡ ok next) × (w' ≡ advance seed w r next)
unfolding visit
visit_parts h seed w w' r e =
    let (next, p, q) = bind-eq-ok (hash_lo h r) _ e in (next, p, ground arith)

-- A break stays in the result to the end.
walk_keeps_breaks :
    (h : Blake2b) (seed : List ℕ) (w w' : Walk) (rs : List AuditRecord)
    → walk h seed w rs ≡ ok w'
    → w'.breaks ≡ []
    → w.breaks ≡ []
unfolding walk
walk_keeps_breaks h seed w w' [] e clean = let same : w ≡ w' = cc in rw same clean
walk_keeps_breaks h seed w w' (r ∷ rs) e clean =
    let (v, p, q) = bind-eq-ok (visit h seed w r) _ e in
    let (next, _, same) = visit_parts h seed w v r p in
    (append-eq-nil w.breaks (found seed w r)
      (rw same at (walk_keeps_breaks h seed v w' rs q clean))).0

walk-Links :
    (h : Blake2b) (seed : List ℕ) (w w' : Walk) (rs : List AuditRecord)
    → walk h seed w rs ≡ ok w'
    → w'.breaks ≡ []
    → Links h w.expected_prev w.last_seq w.last_ts w'.expected_prev rs
unfolding walk
walk-Links h seed w w' [] e clean = let same : w ≡ w' = cc in rw same
walk-Links h seed w w' (r ∷ rs) e clean =
    let (v, p, q) = bind-eq-ok (visit h seed w r) _ e in
    let (next, hashed, same) = visit_parts h seed w v r p in
    let none_so_far : w.breaks ++ found seed w r ≡ [] =
      rw same at (walk_keeps_breaks h seed v w' rs q clean) in
    let (a, b, c) =
      (found_iff seed w r).0 (append-eq-nil w.breaks (found seed w r) none_so_far).1 in
    (a, b, c, (next, hashed, rw same at (walk-Links h seed v w' rs q clean)))

-- The end of a walk without breaks.
record Clean (h : Blake2b) (seed : List ℕ) (w : Walk) (final : List ℕ) (rs : List AuditRecord)
    : Type 0 where
  last : Walk
  returned : walk h seed w rs ≡ ok last
  total : last.total_records ≡ w.total_records + length rs
  verified : last.verified_records ≡ w.verified_records + length rs
  clean : last.breaks ≡ []
  head : last.expected_prev ≡ final

visit_clean :
    (h : Blake2b) (seed : List ℕ) (w : Walk) (r : AuditRecord) (next : List ℕ)
    → w.breaks ≡ []
    → hash_lo h r ≡ ok next
    → found seed w r ≡ []
    → visit h seed w r
      ≡ ok (record {
        total_records = w.total_records + 1;
        verified_records = w.verified_records + 1;
        breaks = [];
        expected_prev = next;
        last_seq = some r.seq_no;
        last_ts = pos r.timestamp_ns;
      })
unfolding visit hash_broken
visit_clean h seed w r next none_so_far hashed nothing = rw (hashed, none_so_far, nothing)

walk_of_Links :
    (h : Blake2b) (seed : List ℕ) (w : Walk) (final : List ℕ) (rs : List AuditRecord)
    → w.breaks ≡ []
    → Links h w.expected_prev w.last_seq w.last_ts final rs
    → Clean h seed w final rs
unfolding walk
walk_of_Links h seed w final [] none_so_far l = record {
  last = w;
  returned = refl;
  total = omega arith;
  verified = omega arith;
  clean = none_so_far;
  head = sym l;
}
walk_of_Links h seed w final (r ∷ rs) none_so_far (a, b, c, (next, hashed, later)) =
    let v : Walk = record {
      total_records = w.total_records + 1;
      verified_records = w.verified_records + 1;
      breaks = [];
      expected_prev = next;
      last_seq = some r.seq_no;
      last_ts = pos r.timestamp_ns;
    } in
    let rest = walk_of_Links h seed v final rs refl later in
    let step : visit h seed w r ≡ ok v =
      visit_clean h seed w r next none_so_far hashed ((found_iff seed w r).1 (a, b, c)) in
    record {
      last = rest.last;
      returned = rw step rest.returned;
      total = omega (arith, rest.total);
      verified = omega (arith, rest.verified);
      clean = rest.clean;
      head = rest.head;
    }

-- What `verify` reports on a chained stream.
abbrev pub clean_result : List ℕ → List AuditRecord → VerificationResult
clean_result final rs = record {
  total_records = length rs;
  verified_records = length rs;
  breaks = [];
  head_hash_lo = if ltb 0 (length rs) then some final else none;
}

summary_clean :
    (w : Walk) (final : List ℕ) (rs : List AuditRecord)
    → w.total_records ≡ length rs
    → w.verified_records ≡ length rs
    → w.breaks ≡ []
    → w.expected_prev ≡ final
    → summary w ≡ clean_result final rs
summary_clean w final rs t v b e = rw (t, v, b, e)

-- Completeness. A chained stream is verified in full: no break, every record counted, and the head
-- is the hash of the last record.
pub verify_of_IsChained :
    (h : Blake2b) (seed final : List ℕ) (rs : List AuditRecord)
    → IsChained h seed final rs
    → verify h seed rs ≡ ok (clean_result final rs)
unfolding verify
verify_of_IsChained h seed final rs l =
    let c = walk_of_Links h seed (start seed) final rs refl l in
    rw (
      c.returned,
      summary_clean c.last final rs (omega (arith, c.total)) (omega (arith, c.verified)) c.clean
          c.head,
    )

-- Soundness. A stream on which `verify` reports no break is chained, every record of it is counted
-- as verified, and the head is the hash of the last record.
pub IsChained-of_verify :
    (h : Blake2b) (seed : List ℕ) (rs : List AuditRecord) (res : VerificationResult)
    → verify h seed rs ≡ ok res
    → res.breaks ≡ []
    → (final : List ℕ) × IsChained h seed final rs × (res ≡ clean_result final rs)
unfolding verify
IsChained-of_verify h seed rs res e clean =
    let (w, p, q) = bind-eq-ok (walk h seed (start seed) rs) _ e in
    let same : summary w ≡ res = ground arith in
    let none_left : w.breaks ≡ [] = ap (λ (x : VerificationResult). x.breaks) same ∙ clean in
    let l : IsChained h seed w.expected_prev rs = walk-Links h seed (start seed) w rs p none_left in
    let again : verify h seed rs ≡ ok (clean_result w.expected_prev rs) =
      verify_of_IsChained h seed w.expected_prev rs l in
    (w.expected_prev, l, cc)
