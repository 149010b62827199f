-- ===== src/Audit/Alert/Reader.antt =====
-- sentinel_hft/audit/alert_log.py: AlertRecord.decode and read_alerts. Which bytes are the UTF-8 of a
-- text is a parameter; a score stays the integer of its 64 bits, which the code divides by 2^32.
pub mod RoundTrip
pub mod Written
pub mod File
use sentinel_hft.Prelude.{
  ℕ, zero, suc, ◌+◌, ◌-◌, ◌^◌, Bool, true, false, not, ◌&&◌, ◌||◌, Option, none, some, List, [],
  ◌∷◌, ◌++◌, length, take, drop, leb, ltb, ◌==◌, if◌then◌else◌,
}
use sentinel_hft.Prelude.Bytes.{bytes_eq}
use sentinel_hft.Prelude.Result.{Result, ok, err, Error, value_error, ◌>>=◌, ◌>>◌, guard}
use sentinel_hft.Struct.{Code, uint, chars, pad, Values, of_le, pack, unpack}
use sentinel_hft.Audit.Alert.{
  AlertRecord, alert_prefix_struct, alert_prefix_size, alert_trailer_size,
}

-- "<4sHH8x", the file header: magic b"SALT" and version.
abbrev pub alert_header_struct : List Code
alert_header_struct = chars 4 ∷ uint 2 ∷ uint 2 ∷ pad 8 ∷ []

abbrev pub alert_magic : List ℕ
alert_magic = b'S' ∷ b'A' ∷ b'L' ∷ b'T' ∷ []

-- The header that `_open` writes to a new file.
unfoldable pub alert_header : Result (List ℕ)
alert_header = pack alert_header_struct (alert_magic, (1, (0, tt)))

-- A stage of length 0 is none.
abbrev pub stage_of_bytes : List ℕ → Option (List ℕ)
stage_of_bytes [] = none
stage_of_bytes (b ∷ bs) = some (b ∷ bs)

abbrev pub alert_of_fields :
    Values alert_prefix_struct → List ℕ → List ℕ → List ℕ → List ℕ → AlertRecord
alert_of_fields (fr, (sq, (ts, (sv, (dl, (sl, (tl, (sc, (wn, (fl, (pv, _))))))))))) det stg dtl lo =
    record {
      seq_no = sq;
      timestamp_ns = ts;
      severity = sv;
      detector = det;
      stage = stage_of_bytes stg;
      detail = dtl;
      score = sc;
      window_n = wn;
      flags = fl;
      prev_hash_lo = pv;
      full_hash_lo = lo;
    }

-- The lengths of the three texts in the prefix, and the size of the record.
abbrev pub lengths : Values alert_prefix_struct → ℕ × ℕ × ℕ × ℕ
lengths (fr, (sq, (ts, (sv, (dl, (sl, (tl, _))))))) = (fr, dl, sl, tl)

module _ (is_utf8 : List ℕ → Bool) where
  -- The slices of `decode` behind the prefix.
  unfoldable pub decode_tail : Values alert_prefix_struct → List ℕ → Result AlertRecord
  decode_tail u tail =
      let (fr, dl, sl, tl) = lengths u in
      let det = take dl tail in
      let stg = take sl (drop dl tail) in
      let dtl = take tl (drop sl (drop dl tail)) in
      let lo = take alert_trailer_size (drop tl (drop sl (drop dl tail))) in
      do
        guard (is_utf8 det) value_error
        guard (is_utf8 dtl) value_error
        guard (sl == 0 || is_utf8 stg) value_error
        ok (alert_of_fields u det stg dtl lo)

  -- `decode`
  unfoldable pub decode_alert : List ℕ → Result AlertRecord
  decode_alert buf = do
    guard (leb (alert_prefix_size + alert_trailer_size) (length buf)) value_error
    u ← unpack alert_prefix_struct (take alert_prefix_size buf)
    guard (u.0 == length buf) value_error
    decode_tail u (drop alert_prefix_size buf)

  -- One round of the loop of `read_alerts`: the record and what is left of the file. `f.read` of a
  -- negative number reads all, which is no negative number of bytes.
  unfoldable pub read_alert : List ℕ → Result (AlertRecord × List ℕ)
  read_alert bs = do
    guard (length (take 4 bs) == 4) value_error
    let framing = of_le (take 4 bs)
    guard (not (ltb framing 4) && length (take (framing - 4) (drop 4 bs)) == framing - 4)
        value_error
    r ← decode_alert (take 4 bs ++ take (framing - 4) (drop 4 bs))
    ok (r, drop (framing - 4) (drop 4 bs))

  -- The loop: what it yields, and the exception that ends it. A round takes at least four bytes, so
  -- the length of the file is enough fuel.
  unfoldable pub read_from : ℕ → List ℕ → List AlertRecord × Option Error
  read_from k [] = ([], none)
  read_from zero (b ∷ bs) = ([], none)
  read_from (suc k) (b ∷ bs) = elim (read_alert (b ∷ bs)) [
    | ok x ↦ let later = read_from k x.1 in (x.0 ∷ later.0, later.1)
    | err e ↦ ([], some e)
  ]

  unfoldable pub check_alert_header : List ℕ → Result (Unit {0})
  check_alert_header head = do
    guard (leb 16 (length head)) value_error
    u ← unpack alert_header_struct head
    guard (bytes_eq u.0 alert_magic) value_error
    guard (u.1.0 == 1) value_error

  -- `read_alerts`
  unfoldable pub read_alerts : List ℕ → List AlertRecord × Option Error
  read_alerts file = elim (check_alert_header (take 16 file)) [
    | ok _ ↦ read_from (length (drop 16 file)) (drop 16 file)
    | err e ↦ ([], some e)
  ]
