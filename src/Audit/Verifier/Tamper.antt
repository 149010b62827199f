-- ===== src/Audit/Verifier/Tamper.antt =====
-- Which changes of a stream the verifier notices.
use sentinel_hft.Prelude.{
  ℕ, ◌+◌, ◌≡◌, ◌≢◌, refl, sym, ap, ◌∙◌, ◌⊎◌, inl, inr, Option, none, some, List, [], ◌∷◌, ◌++◌,
  length, take, arith, append_assoc, length-append,
}
use sentinel_hft.Prelude.Int.{ℤ, pos, negsuc}
use sentinel_hft.Prelude.Result.{ok, bind-eq-ok}
use sentinel_hft.Prelude.Bytes.{bytes_discrete}
use sentinel_hft.Audit.Digest.{Blake2b, low128, length-low128}
use sentinel_hft.Audit.Record.{AuditRecord, encode, payload_bytes, hash_lo}
use sentinel_hft.Audit.Record.RoundTrip.{InRange, encode-split, encode_injective}
use sentinel_hft.Audit.Record.Payload.{hash_lo-repoint}
use sentinel_hft.Audit.Verifier.{VerificationResult, verify}
use sentinel_hft.Audit.Verifier.Checks.{Links}
use sentinel_hft.Audit.Verifier.Chain.{clean_result, verify_of_IsChained, IsChained-of_verify}

-- The record of a position, and the hash that the next record carries.
record Placed (h : Blake2b) (prev : List ℕ) (r s : AuditRecord) : Type 0 where
  pointer : r.prev_hash_lo ≡ prev
  hashed : hash_lo h r ≡ ok s.prev_hash_lo

-- The pointer expected behind the records `xs`.
Behind : Blake2b → List ℕ → List AuditRecord → List ℕ → Type 0
Behind h prev [] p = p ≡ prev
Behind h prev (x ∷ xs) p = (next : List ℕ) × (hash_lo h x ≡ ok next) × Behind h next xs p

Behind-unique :
    (h : Blake2b) (prev p q : List ℕ) (xs : List AuditRecord)
    → Behind h prev xs p
    → Behind h prev xs q
    → p ≡ q
unfolding Behind
Behind-unique h prev p q [] b c = b ∙ sym c
Behind-unique h prev p q (x ∷ xs) (n, e, b) (m, f, c) =
    let same : n ≡ m = cc in Behind-unique h m p q xs (rw same at b) c

Links-Behind :
    (h : Blake2b) (prev : List ℕ) (last : Option ℕ) (ts : ℤ) (final : List ℕ)
    (xs : List AuditRecord) (r s : AuditRecord) (ys : List AuditRecord)
    → Links h prev last ts final (xs ++ r ∷ s ∷ ys)
    → Behind h prev xs r.prev_hash_lo × (hash_lo h r ≡ ok s.prev_hash_lo)
unfolding Behind
Links-Behind h prev last ts final [] r s ys (a, b, c, (next, e, l)) = (a, e ∙ ap ok (sym l.0))
Links-Behind h prev last ts final (x ∷ xs) r s ys (a, b, c, (next, e, l)) =
    let (before, hashed) =
      Links-Behind h next (some x.seq_no) (pos x.timestamp_ns) final xs r s ys l in
    ((next, e, before), hashed)

-- The payloads of these two records differ, and the truncated hash does not tell them apart.
pub record PayloadsCollide (h : Blake2b) (r s : AuditRecord) : Type 0 where
  pub first : List ℕ
  pub second : List ℕ
  pub payload_r : payload_bytes r ≡ ok first
  pub payload_s : payload_bytes s ≡ ok second
  pub differ : first ≢ second
  pub collide : low128 h first ≡ low128 h second

-- Two records with one pointer and one hash are equal, or their payloads collide.
same_or_PayloadsCollide :
    (h : Blake2b) (r s : AuditRecord) (next : List ℕ)
    → InRange r
    → InRange s
    → r.prev_hash_lo ≡ s.prev_hash_lo
    → hash_lo h r ≡ ok next
    → hash_lo h s ≡ ok next
    → (r ≡ s) ⊎ PayloadsCollide h r s
unfolding hash_lo payload_bytes
same_or_PayloadsCollide h r s next hr hs pointer er es =
    let (p, ep, qp) = bind-eq-ok (payload_bytes r) _ er in
    let (q, eq, qq) = bind-eq-ok (payload_bytes s) _ es in
    let (br, fr, tr) = bind-eq-ok (encode r) _ ep in
    let (bs, fs, ts) = bind-eq-ok (encode s) _ eq in
    let cut_r : take 80 br ≡ p = ground arith in
    let cut_s : take 80 bs ≡ q = ground arith in
    elim (bytes_discrete p q) [
      | yes same ↦
          let wire : br ≡ bs =
            encode-split r br fr
            ∙ (ap (λ l. l ++ r.prev_hash_lo) (cut_r ∙ (same ∙ sym cut_s))
                ∙ (ap (λ l. take 80 bs ++ l) pointer ∙ sym (encode-split s bs fs))) in
          inl (encode_injective r s bs hr hs (rw wire at fr) fs)
      | no other ↦
          let one : low128 h p ≡ next = ground arith in
          let two : low128 h q ≡ next = ground arith in
          inr (record {
            first = p;
            second = q;
            payload_r = ep;
            payload_s = eq;
            differ = other;
            collide = one ∙ sym two;
          })
    ]

-- A record that is not the last cannot be replaced unnoticed: if the stream is clean with either of
-- two records whose fields are in range in one place, with another record behind it, then these are
-- one record, or their own two payloads differ and have one truncated hash.
pub replaced_record_detected :
    (h : Blake2b) (seed : List ℕ) (xs ys : List AuditRecord) (r r' s : AuditRecord)
    (a b : VerificationResult)
    → InRange r
    → InRange r'
    → verify h seed (xs ++ r ∷ s ∷ ys) ≡ ok a
    → a.breaks ≡ []
    → verify h seed (xs ++ r' ∷ s ∷ ys) ≡ ok b
    → b.breaks ≡ []
    → (r ≡ r') ⊎ PayloadsCollide h r r'
replaced_record_detected h seed xs ys r r' s a b hr hr' ea ca eb cb =
    let (f, l, _) = IsChained-of_verify h seed (xs ++ r ∷ s ∷ ys) a ea ca in
    let (f', l', _) = IsChained-of_verify h seed (xs ++ r' ∷ s ∷ ys) b eb cb in
    let (p, e) = Links-Behind h seed none (negsuc 0) f xs r s ys l in
    let (p', e') = Links-Behind h seed none (negsuc 0) f' xs r' s ys l' in
    same_or_PayloadsCollide h r r' s.prev_hash_lo hr hr' (Behind-unique h seed _ _ xs p p') e e'

-- The sequence number of the first record behind `xs`.
Links-seq :
    (h : Blake2b) (prev : List ℕ) (k : ℕ) (ts : ℤ) (final : List ℕ) (xs : List AuditRecord)
    (r : AuditRecord) (ys : List AuditRecord)
    → Links h prev (some k) ts final (xs ++ r ∷ ys)
    → r.seq_no ≡ k + 1 + length xs
Links-seq h prev k ts final [] r ys l = omega (arith, l.1)
Links-seq h prev k ts final (x ∷ xs) r ys (a, b, c, (next, e, l)) =
    omega (arith, b, Links-seq h next x.seq_no (pos x.timestamp_ns) final xs r ys l)

-- Records behind the first cannot be taken out or put in unnoticed, whatever the hash: of a stream
-- with a run of records between two others and the stream without that run, at most one is clean.
pub removed_records_detected :
    (h : Blake2b) (seed : List ℕ) (x : AuditRecord) (xs : List AuditRecord) (r : AuditRecord)
    (rs : List AuditRecord) (s : AuditRecord) (ys : List AuditRecord) (a b : VerificationResult)
    → verify h seed (x ∷ xs ++ ((r ∷ rs) ++ s ∷ ys)) ≡ ok a
    → a.breaks ≡ []
    → verify h seed (x ∷ xs ++ s ∷ ys) ≡ ok b
    → b.breaks ≢ []
removed_records_detected h seed x xs r rs s ys a b ea ca eb cb =
    let (f, (_, _, _, (n, _, l)), _) =
      IsChained-of_verify h seed (x ∷ xs ++ ((r ∷ rs) ++ s ∷ ys)) a ea ca in
    let (f', (_, _, _, (n', _, l')), _) = IsChained-of_verify h seed (x ∷ xs ++ s ∷ ys) b eb cb in
    let grouped : Links h n (some x.seq_no) (pos x.timestamp_ns) f ((xs ++ r ∷ rs) ++ s ∷ ys) =
      rw (append_assoc xs (r ∷ rs) (s ∷ ys)) l in
    let far = Links-seq h n x.seq_no (pos x.timestamp_ns) f (xs ++ r ∷ rs) s ys grouped in
    let near = Links-seq h n' x.seq_no (pos x.timestamp_ns) f' xs s ys l' in
    omega (arith, far, near, length-append xs (r ∷ rs))

length-hash_lo : (h : Blake2b) (r : AuditRecord) (n : List ℕ) → hash_lo h r ≡ ok n → length n ≡ 16
unfolding hash_lo
length-hash_lo h r n e =
    let (p, _, q) = bind-eq-ok (payload_bytes r) _ e in
    let same : low128 h p ≡ n = ground arith in rw (← same) (length-low128 h p)

same_result :
    (f : List ℕ) (xs : List AuditRecord) (r r' s s' : AuditRecord) (ys : List AuditRecord)
    → clean_result f (xs ++ r' ∷ s' ∷ ys) ≡ clean_result f (xs ++ r ∷ s ∷ ys)
same_result f xs r r' s s' ys = rw (length-append xs (r ∷ s ∷ ys), length-append xs (r' ∷ s' ∷ ys))

-- The hash of a record with another pointer, for a stream that is linked again behind a change.
module _ (h : Blake2b) (r' s : AuditRecord) (n' : List ℕ) where
  abbrev repointed : AuditRecord
  repointed = record s { prev_hash_lo = n' }

  Links-rewritten :
      (prev : List ℕ) (last : Option ℕ) (ts : ℤ) (final : List ℕ) (xs : List AuditRecord)
      (r : AuditRecord) (ys : List AuditRecord)
      → r'.prev_hash_lo ≡ r.prev_hash_lo
      → r'.seq_no ≡ r.seq_no
      → r'.timestamp_ns ≡ r.timestamp_ns
      → hash_lo h r' ≡ ok n'
      → length n' ≡ 16
      → Links h prev last ts final (xs ++ r ∷ s ∷ ys)
      → Links h prev last ts final (xs ++ r' ∷ repointed ∷ ys)
  Links-rewritten prev last ts final [] r ys p q t e len (a, b, c, (next, f, l)) =
      let (_, b', c', (next', f', l')) = l in
      (
        p ∙ a,
        rw q b,
        rw t c,
        (n', e, (refl, rw q b', rw t c', (next', hash_lo-repoint h s next' n' f' len, l'))),
      )
  Links-rewritten prev last ts final (x ∷ xs) r ys p q t e len (a, b, c, (next, f, l)) = (
    a,
    b,
    c,
    (
      next,
      f,
      Links-rewritten next (some x.seq_no) (pos x.timestamp_ns) final xs r ys p q t e len l,
    ),
  )

-- The chain does not commit to its history. In a clean stream any record but the last can be
-- replaced by one with the same number, time and pointer, if the pointer of the next record alone is
-- renewed: `verify` returns the very same clean result, count and head hash included.
pub rewritten_history_undetected :
    (h : Blake2b) (seed : List ℕ) (xs ys : List AuditRecord) (r r' s : AuditRecord) (n' : List ℕ)
    (res : VerificationResult)
    → r'.prev_hash_lo ≡ r.prev_hash_lo
    → r'.seq_no ≡ r.seq_no
    → r'.timestamp_ns ≡ r.timestamp_ns
    → hash_lo h r' ≡ ok n'
    → verify h seed (xs ++ r ∷ s ∷ ys) ≡ ok res
    → res.breaks ≡ []
    → verify h seed (xs ++ r' ∷ record s { prev_hash_lo = n' } ∷ ys) ≡ ok res
rewritten_history_undetected h seed xs ys r r' s n' res p q t e v clean =
    let (f, l, same) = IsChained-of_verify h seed (xs ++ r ∷ s ∷ ys) res v clean in
    let again = verify_of_IsChained h seed f (xs ++ r' ∷ record s { prev_hash_lo = n' } ∷ ys) (
      Links-rewritten h r' s n' seed none (negsuc 0) f xs r ys p q t e (length-hash_lo h r' n' e)
        l) in
    again ∙ ap ok (same_result f xs r r' s (record s { prev_hash_lo = n' }) ys ∙ sym same)
