-- ===== src/Audit/Alert/Reader/RoundTrip.antt =====
-- What `encode` wrote, `decode` reads.
use sentinel_hft.Prelude.{
  ℕ, ◌%◌, ◌^◌, ◌≡◌, refl, ap, sym, ◌∙◌, Bool, true, false, ◌||◌, List, ◌++◌, length, arith, leb,
  ◌==◌, length-append,
}
use sentinel_hft.Prelude.Slices.{take-append, drop-append, take_all}
use sentinel_hft.Prelude.Result.{ok, bind-eq-ok}
use sentinel_hft.Struct.{pack, unpack}
use sentinel_hft.Struct.RoundTrip.{unpack-pack, length-pack}
use sentinel_hft.Audit.Alert.{
  AlertRecord, alert_prefix_struct, score_q32, stage_bytes, framing, prefix_fields, encode,
}
use sentinel_hft.Audit.Alert.Reader.{stage_of_bytes, decode_tail, decode_alert}

-- What the wire form keeps of a record: an empty stage is none, numbers have their widths.
abbrev pub stored : AlertRecord → AlertRecord
stored r = record r {
  severity = r.severity % 256;
  stage = stage_of_bytes (stage_bytes r);
  score = score_q32 r.score;
  window_n = r.window_n % 2 ^ 32;
  flags = r.flags % 2 ^ 32;
}

module _ (is_utf8 : List ℕ → Bool) where
  -- The texts are texts, and the two hashes have 16 bytes.
  pub record IsWritten (r : AlertRecord) : Type 0 where
    pub detector : is_utf8 r.detector ≡ true
    pub detail : is_utf8 r.detail ≡ true
    pub stage : is_utf8 (stage_bytes r) ≡ true
    pub prev_hash_lo : length r.prev_hash_lo ≡ 16
    pub full_hash_lo : length r.full_hash_lo ≡ 16

  or_text : (b c : Bool) → c ≡ true → (b || c) ≡ true
  or_text true c h = refl
  or_text false c h = h

  decode_tail-fields :
      (r : AlertRecord)
      → IsWritten r
      → decode_tail is_utf8
          (prefix_fields r r.prev_hash_lo)
          (r.detector ++ (stage_bytes r ++ (r.detail ++ r.full_hash_lo)))
        ≡ ok (stored r)
  unfolding decode_tail
  decode_tail-fields r w =
      let tail1 = stage_bytes r ++ (r.detail ++ r.full_hash_lo) in
      let tail2 = r.detail ++ r.full_hash_lo in
      rw
        (
          take-append (length r.detector) r.detector tail1 refl,
          drop-append (length r.detector) r.detector tail1 refl,
          take-append (length (stage_bytes r)) (stage_bytes r) tail2 refl,
          drop-append (length (stage_bytes r)) (stage_bytes r) tail2 refl,
          take-append (length r.detail) r.detail r.full_hash_lo refl,
          drop-append (length r.detail) r.detail r.full_hash_lo refl,
          take_all 16 r.full_hash_lo (omega (arith, w.full_hash_lo)),
          w.detector,
          w.detail,
          or_text (length (stage_bytes r) == 0) (is_utf8 (stage_bytes r)) w.stage,
        )
        refl

  pub decode_alert-encode :
      (r : AlertRecord) (buf : List ℕ)
      → IsWritten r
      → encode r ≡ ok buf
      → (length buf ≡ framing r) × (decode_alert is_utf8 buf ≡ ok (stored r))
  unfolding encode decode_alert
  decode_alert-encode r buf w h =
      let (prefix, p, q) =
        bind-eq-ok (pack alert_prefix_struct (prefix_fields r r.prev_hash_lo)) _ h in
      let tail = r.detector ++ (stage_bytes r ++ (r.detail ++ r.full_hash_lo)) in
      let joined : prefix ++ tail ≡ buf = ground arith in
      let len : length prefix ≡ 57 = length-pack alert_prefix_struct _ prefix p in
      let u : unpack alert_prefix_struct prefix ≡ ok (prefix_fields r r.prev_hash_lo) =
        unpack-pack alert_prefix_struct (prefix_fields r r.prev_hash_lo) prefix
          (omega arith, (w.prev_hash_lo, tt)) p in
      let whole : length (prefix ++ tail) ≡ framing r = omega (
        arith,
        len,
        w.full_hash_lo,
        length-append prefix tail,
        length-append r.detector (stage_bytes r ++ (r.detail ++ r.full_hash_lo)),
        length-append (stage_bytes r) (r.detail ++ r.full_hash_lo),
        length-append r.detail r.full_hash_lo,
      ) in
      let long : leb 73 (framing r) ≡ true = ground arith in
      let sized : (framing r == framing r) ≡ true = ground arith in
      (
        ap length (sym joined) ∙ whole,
        rw
            (
              ← joined,
              whole,
              long,
              take-append 57 prefix tail len,
              u,
              sized,
              drop-append 57 prefix tail len,
            )
            (decode_tail-fields r w),
      )
