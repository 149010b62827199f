-- ===== src/Audit/Alert/Reader/File.antt =====
-- The alert log that the writer leaves is read back in full.
use mathlib.Core.List.{append-nil}
use sentinel_hft.Prelude.{
  ℕ, zero, suc, ◌-◌, ◌≤◌, ◌<◌, ◌≡◌, refl, ap, sym, ◌∙◌, Bool, true, false, none, List, [], ◌∷◌,
  ◌++◌, map, length, take, drop, arith, ltb, ◌==◌, length-append, length-take, append_assoc,
  take-append-drop, All,
}
use sentinel_hft.Prelude.Slices.{take-append, drop-append}
use sentinel_hft.Prelude.Result.{ok, bind-eq-ok}
use sentinel_hft.Struct.{Values, of_le, pack, unpack, read}
use sentinel_hft.Struct.RoundTrip.{unpack-pack, read-pack, length-pack}
use sentinel_hft.Struct.Records.{encode_all}
use sentinel_hft.Audit.Digest.{Blake2b}
use sentinel_hft.Audit.Alert.{
  AlertRecord, Alert, AlertChain, alert_prefix_struct, stage_bytes, framing, prefix_fields, encode,
  append_all, new_chain,
}
use sentinel_hft.Audit.Alert.Reader.{
  alert_header, alert_header_struct, alert_magic, decode_alert, read_alert, read_from,
  check_alert_header, read_alerts,
}
use sentinel_hft.Audit.Alert.Reader.RoundTrip.{stored, IsWritten, decode_alert-encode}
use sentinel_hft.Audit.Alert.Reader.Written.{IsAlert, append_all-Appended}

module _ (is_utf8 : List ℕ → Bool) where
  -- One round of the reader on a record whose first four bytes tell its size.
  read_alert-record :
      (n : ℕ) (a d rest : List ℕ) (r : AlertRecord)
      → length a ≡ 4
      → of_le a ≡ n
      → 4 ≤ n
      → length d ≡ n - 4
      → decode_alert is_utf8 (a ++ d) ≡ ok r
      → read_alert is_utf8 (a ++ (d ++ rest)) ≡ ok (r, rest)
  unfolding read_alert
  read_alert-record n a d rest r four size least len whole =
      let enough : ltb n 4 ≡ false = ground arith in
      let exact : (n - 4 == n - 4) ≡ true = ground arith in
      rw
        (
          take-append 4 a (d ++ rest) four,
          drop-append 4 a (d ++ rest) four,
          four,
          size,
          take-append (n - 4) d rest len,
          drop-append (n - 4) d rest len,
          len,
          enough,
          exact,
          whole,
        )
        refl

  -- The wire form of a record, split behind its size.
  record Split (r : AlertRecord) (buf : List ℕ) : Type 0 where
    front : List ℕ
    back : List ℕ
    joined : buf ≡ front ++ back
    four : length front ≡ 4
    size : of_le front ≡ framing r

  encode-Split :
      (r : AlertRecord) (buf : List ℕ) → IsWritten is_utf8 r → encode r ≡ ok buf → Split r buf
  unfolding encode read
  encode-Split r buf w h =
      let (prefix, p, q) =
        bind-eq-ok (pack alert_prefix_struct (prefix_fields r r.prev_hash_lo)) _ h in
      let tail = r.detector ++ (stage_bytes r ++ (r.detail ++ r.full_hash_lo)) in
      let joined : prefix ++ tail ≡ buf = ground arith in
      let len : length prefix ≡ 57 = length-pack alert_prefix_struct _ prefix p in
      let fields : read alert_prefix_struct (prefix ++ []) ≡ prefix_fields r r.prev_hash_lo =
        read-pack alert_prefix_struct _ prefix [] (omega arith, (w.prev_hash_lo, tt)) p in
      let four : length (take 4 prefix) ≡ 4 = omega (arith, len, length-take 4 prefix) in
      let split : take 4 prefix ++ drop 4 prefix ≡ prefix = take-append-drop 4 prefix in
      record {
        front = take 4 prefix;
        back = drop 4 prefix ++ tail;
        joined =
            sym joined
            ∙ ap (λ l. l ++ tail) (sym split)
            ∙ append_assoc (take 4 prefix) (drop 4 prefix) tail;
        four = four;
        size =
            ap (λ l. of_le (take 4 l)) (sym (append-nil prefix))
            ∙ ap (λ (u : Values alert_prefix_struct). u.0) fields;
      }

  read_alert-encode :
      (r : AlertRecord) (buf rest : List ℕ)
      → IsWritten is_utf8 r
      → encode r ≡ ok buf
      → (read_alert is_utf8 (buf ++ rest) ≡ ok (stored r, rest)) × (73 ≤ length buf)
  read_alert-encode r buf rest w h =
      let (len, decoded) = decode_alert-encode is_utf8 r buf w h in
      let s = encode-Split r buf w h in
      let total : length (s.front ++ s.back) ≡ framing r = ap length (sym s.joined) ∙ len in
      (
        rw (s.joined, append_assoc)
            (read_alert-record (framing r) s.front s.back rest (stored r) s.four s.size
              (omega arith) (omega (arith, total, s.four, length-append s.front s.back))
              (ap (decode_alert is_utf8) (sym s.joined) ∙ decoded)),
        omega (arith, len),
      )

  read_from-cons :
      (k : ℕ) (bs rest : List ℕ) (r : AlertRecord)
      → 0 < length bs
      → read_alert is_utf8 bs ≡ ok (r, rest)
      → read_from is_utf8 (suc k) bs
        ≡ (r ∷ (read_from is_utf8 k rest).0, (read_from is_utf8 k rest).1)
  unfolding read_from
  read_from-cons k [] rest r some_byte one = absurd (omega arith)
  read_from-cons k (b ∷ bs) rest r some_byte one = rw (read_from, one) refl

  read_from-encode_all :
      (k : ℕ) (rs : List AlertRecord) (body : List ℕ)
      → All (IsWritten is_utf8) rs
      → encode_all encode rs ≡ ok body
      → length body ≤ k
      → read_from is_utf8 k body ≡ (map stored rs, none)
  unfolding encode_all read_from
  read_from-encode_all k [] body w h fuel = let nil : [] ≡ body = ground arith in rw (← nil) refl
  read_from-encode_all zero (r ∷ rs) body w h fuel =
      let (buf, p, q) = bind-eq-ok (encode r) _ h in
      let (later, p', q') = bind-eq-ok (encode_all encode rs) _ q in
      let joined : buf ++ later ≡ body = ground arith in
      let long = (read_alert-encode r buf later w.0 p).1 in
      absurd (omega (arith, long, ap length joined, length-append buf later))
  read_from-encode_all (suc k) (r ∷ rs) body w h fuel =
      let (buf, p, q) = bind-eq-ok (encode r) _ h in
      let (later, p', q') = bind-eq-ok (encode_all encode rs) _ q in
      let joined : buf ++ later ≡ body = ground arith in
      let (one, long) = read_alert-encode r buf later w.0 p in
      let size = length-append buf later in
      let rest =
        read_from-encode_all k rs later w.1 p' (omega (arith, long, ap length joined, size)) in
      rw (← joined) (
        read_from-cons k (buf ++ later) later (stored r) (omega (arith, long, size)) one
        ∙ ap (λ x. (stored r ∷ x.0, x.1)) rest)

  check_alert_header-written :
      (head : List ℕ)
      → alert_header ≡ ok head
      → (length head ≡ 16) × (check_alert_header is_utf8 head ≡ ok tt)
  unfolding check_alert_header alert_header
  check_alert_header-written head h =
      let len : length head ≡ 16 =
        length-pack alert_header_struct (alert_magic, (1, (0, tt))) head h in
      let u : unpack alert_header_struct head ≡ ok (alert_magic, (1, (0, tt))) =
        unpack-pack alert_header_struct (alert_magic, (1, (0, tt))) head (refl, tt) h in
      (len, rw (len, u) refl)

  -- The alert log is read back in full: behind the header that a new log is given, the reader yields
  -- every record that the writer returned, in order and without an exception, with the severity, the
  -- window, the flags and the score brought to their widths and an empty stage as none. The texts of
  -- the alerts have to be texts.
  pub read_alerts-append_all :
      (h : Blake2b) (alerts : List Alert) (rs : List AlertRecord) (c : AlertChain) (head : List ℕ)
      → All (IsAlert is_utf8) alerts
      → append_all h new_chain alerts ≡ ok (rs, c)
      → alert_header ≡ ok head
      → read_alerts is_utf8 (head ++ c.fp) ≡ (map stored rs, none)
  unfolding read_alerts
  read_alerts-append_all h alerts rs c head texts e made =
      let (len, checked) = check_alert_header-written head made in
      let a = append_all-Appended is_utf8 h alerts new_chain (rs, c) texts refl e in
      rw (read_alerts, take-append 16 head c.fp len, checked, drop-append 16 head c.fp len)
        (read_from-encode_all (length c.fp) rs c.fp a.written (a.encoded ∙ ap ok (sym a.file))
          (omega arith))
