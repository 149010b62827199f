-- ===== src/Audit/Alert.antt =====
-- sentinel_hft/audit/alert_log.py: the records of the alert log, the writer that chains them, and
-- the check of a chain. A text stands for its UTF-8 bytes, and a score for `int(round(v * 2**32))`.
-- The verifier takes what the reader makes of the file: its records, and the exception that ended it.
pub mod Chain
pub mod Reader
mod Tests
use sentinel_hft.Prelude.{
  ℕ, ◌+◌, ◌-◌, ◌%◌, ◌^◌, Bool, true, false, not, Option, none, some, List, [], ◌∷◌, ◌++◌, length,
  replicate, leb, ltb, if◌then◌else◌,
}
use sentinel_hft.Prelude.Int.{ℤ, pos, negsuc, ltb_ℤ}
use sentinel_hft.Prelude.Bytes.{bytes_eq}
use sentinel_hft.Prelude.Dict.{or_else}
use sentinel_hft.Prelude.Result.{Result, ok, err, Error, value_error, ◌>>=◌, ◌>>◌, guard}
use sentinel_hft.Struct.{Code, uint, sint, chars, Values, pack}
use sentinel_hft.Audit.Digest.{Blake2b, low128}

-- "<IQQBBBHqII16s", which is 57 bytes.
abbrev pub alert_prefix_struct : List Code
alert_prefix_struct =
    uint 4
    ∷ uint 8
    ∷ uint 8
    ∷ uint 1
    ∷ uint 1
    ∷ uint 1
    ∷ uint 2
    ∷ sint 8
    ∷ uint 4
    ∷ uint 4
    ∷ chars 16
    ∷ []

abbrev pub alert_prefix_size : ℕ
alert_prefix_size = 57

abbrev pub alert_trailer_size : ℕ
alert_trailer_size = 16

pub record AlertRecord : Type 0 where
  pub seq_no : ℕ
  pub timestamp_ns : ℕ
  pub severity : ℕ
  pub detector : List ℕ
  pub stage : Option (List ℕ)
  pub detail : List ℕ
  pub score : ℤ
  pub window_n : ℕ
  pub flags : ℕ
  pub prev_hash_lo : List ℕ
  pub full_hash_lo : List ℕ

-- The clamp of `_score_q32` to 64 bits with a sign.
unfoldable pub score_q32 : ℤ → ℤ
score_q32 q =
    if ltb_ℤ (pos (2 ^ 63 - 1)) q
    then pos (2 ^ 63 - 1)
    else if ltb_ℤ q (negsuc (2 ^ 63 - 1))
    then negsuc (2 ^ 63 - 1)
    else q

abbrev pub stage_bytes : AlertRecord → List ℕ
stage_bytes r = or_else r.stage []

abbrev pub framing : AlertRecord → ℕ
framing r =
    alert_prefix_size
    + length r.detector
    + length (stage_bytes r)
    + length r.detail
    + alert_trailer_size

-- The arguments of the prefix, with the pointer in the last slot.
abbrev pub prefix_fields : AlertRecord → List ℕ → Values alert_prefix_struct
prefix_fields r pointer = (
  framing r,
  (
    r.seq_no,
    (
      r.timestamp_ns,
      (
        r.severity % 256,
        (
          length r.detector,
          (
            length (stage_bytes r),
            (
              length r.detail,
              (score_q32 r.score, (r.window_n % 2 ^ 32, (r.flags % 2 ^ 32, (pointer, tt)))),
            ),
          ),
        ),
      ),
    ),
  ),
)

unfoldable pub payload_bytes : AlertRecord → Result (List ℕ)
payload_bytes r =
    guard (leb (length r.detector) 255) value_error
    >> (guard (leb (length (stage_bytes r)) 255) value_error
        >> (guard (leb (length r.detail) 65535) value_error
            >> (pack alert_prefix_struct (prefix_fields r (replicate 16 0)) >>= λ prefix.
                ok (prefix ++ (r.detector ++ (stage_bytes r ++ r.detail))))))

unfoldable pub encode : AlertRecord → Result (List ℕ)
encode r = pack alert_prefix_struct (prefix_fields r r.prev_hash_lo) >>= λ prefix.
    ok (prefix ++ (r.detector ++ (stage_bytes r ++ (r.detail ++ r.full_hash_lo))))

unfoldable pub hash_lo : Blake2b → AlertRecord → Result (List ℕ)
hash_lo h r = payload_bytes r >>= λ payload. ok (low128 h payload)

-- What a caller of `append` gives.
pub record Alert : Type 0 where
  pub detector : List ℕ
  pub severity : ℕ
  pub detail : List ℕ
  pub score : ℤ
  pub timestamp_ns : ℕ
  pub stage : Option (List ℕ)
  pub window_n : ℕ
  pub flags : ℕ

-- `fp` is what was written behind the header.
pub record AlertChain : Type 0 where
  pub fp : List ℕ
  pub seq_no : ℕ
  pub prev_hash_lo : List ℕ

abbrev pub zeros : List ℕ
zeros = replicate 16 0

abbrev pub new_chain : AlertChain
new_chain = record { fp = []; seq_no = 0; prev_hash_lo = zeros }

-- `_open` on a file with records: the chain goes on behind the last one.
abbrev pub last_of : List AlertRecord → Option AlertRecord
last_of [] = none
last_of (r ∷ []) = some r
last_of (r ∷ (s ∷ rs)) = last_of (s ∷ rs)

unfoldable pub reopen : List ℕ → List AlertRecord → AlertChain
reopen file rs = elim (last_of rs) [
  | none ↦ record { fp = file; seq_no = 0; prev_hash_lo = zeros }
  | some r ↦ record { fp = file; seq_no = r.seq_no + 1; prev_hash_lo = r.full_hash_lo }
]

abbrev pub record_of_alert : AlertChain → Alert → AlertRecord
record_of_alert c a = record {
  seq_no = c.seq_no;
  timestamp_ns = a.timestamp_ns;
  severity = a.severity;
  detector = a.detector;
  stage = a.stage;
  detail = a.detail;
  score = a.score;
  window_n = a.window_n;
  flags = a.flags;
  prev_hash_lo = c.prev_hash_lo;
  full_hash_lo = zeros;
}

unfoldable pub append : Blake2b → AlertChain → Alert → Result (AlertRecord × AlertChain)
append h c a = do
  lo ← hash_lo h (record_of_alert c a)
  buf ← encode (record (record_of_alert c a) { full_hash_lo = lo })
  ok (
    record (record_of_alert c a) { full_hash_lo = lo },
    record { fp = c.fp ++ buf; seq_no = c.seq_no + 1; prev_hash_lo = lo },
  )

-- A client's loop over alerts: the records that it gets back.
unfoldable pub append_all :
    Blake2b → AlertChain → List Alert → Result (List AlertRecord × AlertChain)
append_all h c [] = ok ([], c)
append_all h c (a ∷ as_) = do
  step ← append h c a
  later ← append_all h step.1 as_
  ok (step.0 ∷ later.0, later.1)

pub data BadReason : Type 0 where
  decode_error : Error → BadReason
  prev_hash_mismatch full_hash_mismatch : BadReason

pub record AlertVerifyResult : Type 0 where
  pub chain_ok : Bool
  pub n_records : ℕ
  pub head_hash_lo : List ℕ
  pub bad : Option (ℕ × BadReason)

abbrev pub broken : ℕ → List ℕ → BadReason → AlertVerifyResult
broken n last reason = record {
  chain_ok = false;
  n_records = n;
  head_hash_lo = last;
  bad = some (n, reason);
}

-- The loop of `verify_chain`; `n` and `i` of the source are always equal.
unfoldable pub verify_loop :
    Blake2b → List ℕ → List ℕ → ℕ → List AlertRecord → Option Error → Result AlertVerifyResult
verify_loop h prev last n [] none =
    ok (record { chain_ok = true; n_records = n; head_hash_lo = last; bad = none })
verify_loop h prev last n [] (some e) = ok (broken n last (decode_error e))
verify_loop h prev last n (r ∷ rs) ended =
    if bytes_eq r.prev_hash_lo prev
    then (hash_lo h r >>= λ lo.
        if bytes_eq r.full_hash_lo lo
        then verify_loop h lo lo (n + 1) rs ended
        else ok (broken n last full_hash_mismatch))
    else ok (broken n last prev_hash_mismatch)

unfoldable pub verify_chain : Blake2b → List AlertRecord → Option Error → Result AlertVerifyResult
verify_chain h rs ended = verify_loop h zeros [] 0 rs ended
