-- ===== src/Audit/Alert/Reader/Written.antt =====
-- What the writer of the alert log leaves in its file, record by record.
use mathlib.Core.List.{append-nil}
use sentinel_hft.Prelude.{
  ℕ, ◌+◌, ◌≡◌, refl, ap, sym, subst, ◌∙◌, Bool, true, List, [], ◌∷◌, ◌++◌, length, arith,
  append_assoc, All,
}
use sentinel_hft.Prelude.Result.{ok, bind-eq-ok}
use sentinel_hft.Struct.Records.{encode_all}
use sentinel_hft.Audit.Digest.{Blake2b, low128, length-low128}
use sentinel_hft.Audit.Alert.{
  AlertRecord, Alert, AlertChain, hash_lo, payload_bytes, encode, append, append_all,
  record_of_alert,
}
use sentinel_hft.Prelude.Dict.{or_else}
use sentinel_hft.Audit.Alert.Reader.RoundTrip.{IsWritten}

-- The bytes that the records add to the file.
pub record Filed (c : AlertChain) (rs : List AlertRecord) (d : AlertChain) : Type 0 where
  pub body : List ℕ
  pub encoded : encode_all encode rs ≡ ok body
  pub file : d.fp ≡ c.fp ++ body

pub append_all-Filed :
    (h : Blake2b) (alerts : List Alert) (c : AlertChain) (x : List AlertRecord × AlertChain)
    → append_all h c alerts ≡ ok x
    → Filed c x.0 x.1
unfolding append_all append encode_all
append_all-Filed h [] c x e =
    let same : ([], c) ≡ x = ground arith in
    subst (λ (y : List AlertRecord × AlertChain). Filed c y.0 y.1) same
      (record { body = []; encoded = refl; file = sym (append-nil c.fp) })
append_all-Filed h (a ∷ alerts) c x e =
    let r = record_of_alert c a in
    let (step, one, p) = bind-eq-ok (append h c a) _ e in
    let (more, rest, q) = bind-eq-ok (append_all h step.1 alerts) _ p in
    let whole : (step.0 ∷ more.0, more.1) ≡ x = ground arith in
    let (lo, hashed, p1) = bind-eq-ok (hash_lo h r) _ one in
    let (buf, coded, q1) = bind-eq-ok (encode (record r { full_hash_lo = lo })) _ p1 in
    let written : record r { full_hash_lo = lo } ≡ step.0 = ground arith in
    let longer : c.fp ++ buf ≡ step.1.fp = ground arith in
    let later = append_all-Filed h alerts step.1 more rest in
    subst (λ (y : List AlertRecord × AlertChain). Filed c y.0 y.1) whole
      (record {
        body = buf ++ later.body;
        encoded = rw (← written, coded, later.encoded) refl;
        file =
            later.file ∙ ap (λ l. l ++ later.body) (sym longer) ∙ append_assoc c.fp buf later.body;
      })

module _ (is_utf8 : List ℕ → Bool) where
  -- The texts of an alert are texts.
  pub record IsAlert (a : Alert) : Type 0 where
    pub detector : is_utf8 a.detector ≡ true
    pub detail : is_utf8 a.detail ≡ true
    pub stage : is_utf8 (or_else a.stage []) ≡ true

  -- What the writer adds to the file.
  pub record Appended (c : AlertChain) (rs : List AlertRecord) (d : AlertChain) : Type 0 where
    pub body : List ℕ
    pub encoded : encode_all encode rs ≡ ok body
    pub file : d.fp ≡ c.fp ++ body
    pub written : All (IsWritten is_utf8) rs

  -- What one call of `append` leaves.
  record One (c : AlertChain) (x : AlertRecord × AlertChain) : Type 0 where
    buf : List ℕ
    coded : encode x.0 ≡ ok buf
    file : x.1.fp ≡ c.fp ++ buf
    written : IsWritten is_utf8 x.0
    sized : length x.1.prev_hash_lo ≡ 16

  hash_lo_size :
      (h : Blake2b) (r : AlertRecord) (lo : List ℕ) → hash_lo h r ≡ ok lo → length lo ≡ 16
  unfolding hash_lo
  hash_lo_size h r lo hashed =
      let (payload, p, q) = bind-eq-ok (payload_bytes r) _ hashed in
      let same : low128 h payload ≡ lo = ground arith in
      ap length (sym same) ∙ length-low128 h payload

  append-One :
      (h : Blake2b) (a : Alert) (c : AlertChain) (x : AlertRecord × AlertChain)
      → IsAlert a
      → length c.prev_hash_lo ≡ 16
      → append h c a ≡ ok x
      → One c x
  unfolding append
  append-One h a c x texts sized e =
      let r = record_of_alert c a in
      let (lo, hashed, p) = bind-eq-ok (hash_lo h r) _ e in
      let (buf, coded, q) = bind-eq-ok (encode (record r { full_hash_lo = lo })) _ p in
      let same : (
        record r { full_hash_lo = lo },
        record { fp = c.fp ++ buf; seq_no = c.seq_no + 1; prev_hash_lo = lo },
      )
          ≡ x =
        ground arith in
      subst (One c) same (record {
        buf = buf;
        coded = coded;
        file = refl;
        written = record {
          detector = texts.detector;
          detail = texts.detail;
          stage = texts.stage;
          prev_hash_lo = sized;
          full_hash_lo = hash_lo_size h r lo hashed;
        };
        sized = hash_lo_size h r lo hashed;
      })

  pub append_all-Appended :
      (h : Blake2b) (alerts : List Alert) (c : AlertChain) (x : List AlertRecord × AlertChain)
      → All IsAlert alerts
      → length c.prev_hash_lo ≡ 16
      → append_all h c alerts ≡ ok x
      → Appended c x.0 x.1
  unfolding append_all encode_all
  append_all-Appended h [] c x texts sized e =
      let same : ([], c) ≡ x = ground arith in
      subst (λ (y : List AlertRecord × AlertChain). Appended c y.0 y.1) same
        (record { body = []; encoded = refl; file = sym (append-nil c.fp); written = tt })
  append_all-Appended h (a ∷ alerts) c x texts sized e =
      let (step, one, p) = bind-eq-ok (append h c a) _ e in
      let (more, rest, q) = bind-eq-ok (append_all h step.1 alerts) _ p in
      let same : (step.0 ∷ more.0, more.1) ≡ x = ground arith in
      let o = append-One h a c step texts.0 sized one in
      let later = append_all-Appended h alerts step.1 more texts.1 o.sized rest in
      subst (λ (y : List AlertRecord × AlertChain). Appended c y.0 y.1) same
        (record {
          body = o.buf ++ later.body;
          encoded = rw (o.coded, later.encoded) refl;
          file = later.file ∙ ap (λ l. l ++ later.body) o.file ∙ append_assoc c.fp o.buf later.body;
          written = (o.written, later.written);
        })
