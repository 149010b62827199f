-- ===== src/Audit/Alert/Chain.antt =====
-- What a clean verdict on an alert log means, and that the writer's log has one.
use sentinel_hft.Prelude.{
  ℕ, suc, ◌+◌, ◌≡◌, ◌↔◌, refl, sym, ap, subst, ◌∙◌, true, Option, none, some, List, [], ◌∷◌, ◌++◌,
  length, arith, Bool-cases, inl, inr, if◌then◌else◌,
}
use sentinel_hft.Prelude.Bytes.{bytes_eq, bytes_eq→eq, bytes_eq_refl}
use sentinel_hft.Prelude.Result.{Result, ok, Error, ◌>>=◌, bind-eq-ok}
use sentinel_hft.Audit.Digest.{Blake2b}
use sentinel_hft.Audit.Alert.{
  AlertRecord, Alert, AlertChain, AlertVerifyResult, payload_bytes, encode, hash_lo, append,
  append_all, zeros, new_chain, full_hash_mismatch, prev_hash_mismatch, broken, verify_loop,
  verify_chain, record_of_alert,
}

-- Every pointer is the hash before it, and every record carries its own hash.
abbrev pub IsLinked : Blake2b → List ℕ → List AlertRecord → Type 0
IsLinked h prev [] = Unit
IsLinked h prev (r ∷ rs) =
    (r.prev_hash_lo ≡ prev) × (hash_lo h r ≡ ok r.full_hash_lo) × IsLinked h r.full_hash_lo rs

-- The hash of the last record, or what came before.
abbrev pub head_of : List ℕ → List AlertRecord → List ℕ
head_of last [] = last
head_of last (r ∷ rs) = head_of r.full_hash_lo rs

abbrev pub clean : ℕ → List ℕ → AlertVerifyResult
clean n head = record { chain_ok = true; n_records = n; head_hash_lo = head; bad = none }

verify_loop_of_IsLinked :
    (h : Blake2b) (prev last : List ℕ) (n : ℕ) (rs : List AlertRecord)
    → IsLinked h prev rs
    → verify_loop h prev last n rs none ≡ ok (clean (n + length rs) (head_of last rs))
unfolding verify_loop
verify_loop_of_IsLinked h prev last n [] l = ap (λ k. ok (clean k last)) (omega arith)
verify_loop_of_IsLinked h prev last n (r ∷ rs) (p, f, l) =
    let ih = verify_loop_of_IsLinked h r.full_hash_lo r.full_hash_lo (n + 1) rs l in
    let same : bytes_eq r.prev_hash_lo prev ≡ true =
      subst (λ x. bytes_eq r.prev_hash_lo x ≡ true) p (bytes_eq_refl r.prev_hash_lo) in
    let whole : bytes_eq r.full_hash_lo r.full_hash_lo ≡ true = bytes_eq_refl r.full_hash_lo in
    rw (same, f, whole) (ih ∙ ap (λ k. ok (clean k (head_of r.full_hash_lo rs))) (omega arith))

IsLinked-of_verify_loop :
    (h : Blake2b) (prev last : List ℕ) (n : ℕ) (rs : List AlertRecord) (ended : Option Error)
    (v : AlertVerifyResult)
    → verify_loop h prev last n rs ended ≡ ok v
    → v.chain_ok ≡ true
    → IsLinked h prev rs × (ended ≡ none)
unfolding verify_loop
IsLinked-of_verify_loop h prev last n [] none v e c = (tt, refl)
IsLinked-of_verify_loop h prev last n [] (some x) v e c = ground arith
IsLinked-of_verify_loop h prev last n (r ∷ rs) ended v e c =
    elim (Bool-cases (bytes_eq r.prev_hash_lo prev)) [
      | inr apart ↦ absurd (ground arith)
      | inl same ↦
          let next : List ℕ → Result AlertVerifyResult = λ lo.
            if bytes_eq r.full_hash_lo lo
            then verify_loop h lo lo (n + 1) rs ended
            else ok (broken n last full_hash_mismatch) in
          let gone : (hash_lo h r >>= next) ≡ ok v =
            subst
              (λ b.
                (if b then (hash_lo h r >>= next) else ok (broken n last prev_hash_mismatch))
                ≡ ok v)
              same e in
          let (lo, found, went) = bind-eq-ok (hash_lo h r) next gone in
          elim (Bool-cases (bytes_eq r.full_hash_lo lo)) [
            | inr other ↦ absurd (ground arith)
            | inl whole ↦
                let own : r.full_hash_lo ≡ lo = bytes_eq→eq r.full_hash_lo lo whole in
                let on : verify_loop h lo lo (n + 1) rs ended ≡ ok v =
                  subst
                    (λ b.
                      (if b
                        then verify_loop h lo lo (n + 1) rs ended
                        else ok (broken n last full_hash_mismatch))
                      ≡ ok v)
                    whole went in
                let (l, done) = IsLinked-of_verify_loop h lo lo (n + 1) rs ended v on c in
                (
                  (
                    bytes_eq→eq r.prev_hash_lo prev same,
                    found ∙ ap ok (sym own),
                    subst (λ x. IsLinked h x rs) (sym own) l,
                  ),
                  done,
                )
          ]
    ]

-- `verify_chain` calls a chain sound exactly when the file was read to its end, every record carries
-- its own hash, and every pointer is the hash of the record before it, 16 zero bytes at the start.
pub verify_chain_iff :
    (h : Blake2b) (rs : List AlertRecord) (ended : Option Error)
    → ((v : AlertVerifyResult) × (verify_chain h rs ended ≡ ok v) × (v.chain_ok ≡ true))
      ↔ (IsLinked h zeros rs × (ended ≡ none))
unfolding verify_chain
verify_chain_iff h rs ended = (
  λ (v, e, c). IsLinked-of_verify_loop h zeros [] 0 rs ended v e c,
  λ (l, done). (
    clean (0 + length rs) (head_of [] rs),
    ap (verify_loop h zeros [] 0 rs) done ∙ verify_loop_of_IsLinked h zeros [] 0 rs l,
    refl,
  ),
)

verify_chain_clean :
    (h : Blake2b) (rs : List AlertRecord)
    → IsLinked h zeros rs
    → verify_chain h rs none ≡ ok (clean (length rs) (head_of [] rs))
unfolding verify_chain
verify_chain_clean h rs l =
    verify_loop_of_IsLinked h zeros [] 0 rs l ∙ ap (λ k. ok (clean k (head_of [] rs))) (omega arith)

-- What the writer adds.
record Written (h : Blake2b) (c c' : AlertChain) (n : ℕ) (rs : List AlertRecord) : Type 0 where
  linked : IsLinked h c.prev_hash_lo rs
  many : length rs ≡ n
  pointer : c'.prev_hash_lo ≡ head_of c.prev_hash_lo rs

append_parts :
    (h : Blake2b) (c : AlertChain) (a : Alert) (r : AlertRecord) (c' : AlertChain)
    → append h c a ≡ ok (r, c')
    → (r.prev_hash_lo ≡ c.prev_hash_lo)
      × (hash_lo h r ≡ ok r.full_hash_lo)
      × (c'.prev_hash_lo ≡ r.full_hash_lo)
unfolding append hash_lo payload_bytes
append_parts h c a r c' e =
    let (lo, found, q) = bind-eq-ok (hash_lo h (record_of_alert c a)) _ e in
    let (buf, wrote, fin) =
      bind-eq-ok (encode (record (record_of_alert c a) { full_hash_lo = lo })) _ q in
    let made : record (record_of_alert c a) { full_hash_lo = lo } ≡ r = ground arith in
    let left : record { fp = c.fp ++ buf; seq_no = c.seq_no + 1; prev_hash_lo = lo } ≡ c' =
      ground arith in
    (
      sym (ap (λ x. x.prev_hash_lo) made),
      subst (λ x. hash_lo h x ≡ ok x.full_hash_lo) made found,
      sym (ap (λ x. x.prev_hash_lo) left) ∙ ap (λ x. x.full_hash_lo) made,
    )

append_all-Written :
    (h : Blake2b) (c : AlertChain) (alerts : List Alert) (rs : List AlertRecord) (c' : AlertChain)
    → append_all h c alerts ≡ ok (rs, c')
    → Written h c c' (length alerts) rs
unfolding append_all append hash_lo payload_bytes
append_all-Written h c [] rs c' e =
    let nil : rs ≡ [] = ground arith in
    let same : c' ≡ c = ground arith in
    record {
      linked = subst (IsLinked h c.prev_hash_lo) (sym nil) tt;
      many = ap length nil;
      pointer = ground arith;
    }
append_all-Written h c (a ∷ alerts) rs c' e =
    let ((r, c1), one, q) = bind-eq-ok (append h c a) _ e in
    let ((later, c2), more, fin) = bind-eq-ok (append_all h c1 alerts) _ q in
    let p = append_parts h c a r c1 one in
    let w = append_all-Written h c1 alerts later c2 more in
    let whole : rs ≡ r ∷ later = ground arith in
    let last : c' ≡ c2 = ground arith in
    let l : IsLinked h r.full_hash_lo later = subst (λ x. IsLinked h x later) p.2 w.linked in
    record {
      linked = subst (IsLinked h c.prev_hash_lo) (sym whole) (p.0, p.1, l);
      many = ap length whole ∙ ap suc w.many;
      pointer =
          ap (λ k. k.prev_hash_lo) last
          ∙ w.pointer
          ∙ ap (λ x. head_of x later) p.2
          ∙ ap (head_of c.prev_hash_lo) (sym whole);
    }

-- Every log that the writer makes from nothing is verified: it counts as many records as alerts were
-- appended, and its head is the pointer that the next record would carry, once there is a record.
pub append_all_verified :
    (h : Blake2b) (alerts : List Alert) (rs : List AlertRecord) (c : AlertChain)
    → append_all h new_chain alerts ≡ ok (rs, c)
    → (verify_chain h rs none ≡ ok (clean (length alerts) (head_of [] rs)))
      × (c.prev_hash_lo ≡ head_of zeros rs)
unfolding verify_chain
append_all_verified h alerts rs c e =
    let w = append_all-Written h new_chain alerts rs c e in
    (
      verify_loop_of_IsLinked h zeros [] 0 rs w.linked
          ∙ ap (λ k. ok (clean k (head_of [] rs))) (omega (arith, w.many)),
      w.pointer,
    )

IsLinked-prefix :
    (h : Blake2b) (prev : List ℕ) (rs ss : List AlertRecord)
    → IsLinked h prev (rs ++ ss)
    → IsLinked h prev rs
IsLinked-prefix h prev [] ss l = tt
IsLinked-prefix h prev (r ∷ rs) ss (p, f, l) = (p, f, IsLinked-prefix h r.full_hash_lo rs ss l)

-- Records deleted from the end are not noticed: if a log is sound, so is every beginning of it.
pub truncated_undetected :
    (h : Blake2b) (rs ss : List AlertRecord) (v : AlertVerifyResult)
    → verify_chain h (rs ++ ss) none ≡ ok v
    → v.chain_ok ≡ true
    → verify_chain h rs none ≡ ok (clean (length rs) (head_of [] rs))
truncated_undetected h rs ss v e c =
    let (l, _) = (verify_chain_iff h (rs ++ ss) none).0 (v, e, c) in
    verify_chain_clean h rs (IsLinked-prefix h zeros rs ss l)
