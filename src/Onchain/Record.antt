-- ===== src/Onchain/Record.antt =====
-- sentinel_hft/onchain/record.py: the 80-byte record with its derived latencies, and the file of
-- analyzer.py that holds them.
pub mod File
use Prim.Native.Nat.{bit_and}
use sentinel_hft.Prelude.{
  ℕ, ◌+◌, ◌-◌, ◌%◌, Bool, not, Option, none, some, List, [], ◌∷◌, ◌++◌, length, take, drop, leb,
  ◌==◌,
}
use sentinel_hft.Prelude.Int.{ℤ}
use sentinel_hft.Prelude.Bytes.{bytes_eq}
use sentinel_hft.Prelude.Reads.{reads}
use sentinel_hft.Prelude.Result.{Result, ok, err, Error, value_error, ◌>>=◌, ◌>>◌, guard}
use sentinel_hft.Struct.{Code, uint, sint, chars, pad, Values, pack, unpack}
use sentinel_hft.Struct.Records.{encode_all, decode_all}

pub record OnchainRecord : Type 0 where
  pub version : ℕ
  pub venue : ℕ
  pub action : ℕ
  pub flags : ℕ
  pub seq_no : ℕ
  pub client_ts_ns : ℕ
  pub signed_ts_ns : ℕ
  pub submitted_ts_ns : ℕ
  pub included_ts_ns : ℕ
  pub symbol_hash : ℕ
  pub d_rpc_ns : ℕ
  pub d_quote_ns : ℕ
  pub d_sign_ns : ℕ
  pub d_submit_ns : ℕ
  pub d_inclusion_ns : ℕ
  pub notional_usd_e4 : ℕ
  pub slippage_bps : ℤ
  pub reserved : ℕ

-- "<BBBBIQQQQQIIIIIIiI"
abbrev pub onchain_struct : List Code
onchain_struct =
    uint 1
    ∷ uint 1
    ∷ uint 1
    ∷ uint 1
    ∷ uint 4
    ∷ uint 8
    ∷ uint 8
    ∷ uint 8
    ∷ uint 8
    ∷ uint 8
    ∷ uint 4
    ∷ uint 4
    ∷ uint 4
    ∷ uint 4
    ∷ uint 4
    ∷ uint 4
    ∷ sint 4
    ∷ uint 4
    ∷ []

abbrev pub onchain_record_size : ℕ
onchain_record_size = 80

-- The arguments of `pack`, the times and hash apart from the deltas behind them.
abbrev pub delta_fields :
    OnchainRecord
    → Values (uint 4 ∷ uint 4 ∷ uint 4 ∷ uint 4 ∷ uint 4 ∷ uint 4 ∷ sint 4 ∷ uint 4 ∷ [])
delta_fields r = (
  r.d_rpc_ns,
  (
    r.d_quote_ns,
    (
      r.d_sign_ns,
      (r.d_submit_ns, (r.d_inclusion_ns, (r.notional_usd_e4, (r.slippage_bps, (r.reserved, tt))))),
    ),
  ),
)

abbrev pub onchain_fields : OnchainRecord → Values onchain_struct
onchain_fields r = (
  r.version,
  (
    r.venue,
    (
      r.action,
      (
        r.flags,
        (
          r.seq_no,
          (
            r.client_ts_ns,
            (
              r.signed_ts_ns,
              (r.submitted_ts_ns, (r.included_ts_ns, (r.symbol_hash, delta_fields r))),
            ),
          ),
        ),
      ),
    ),
  ),
)

unfoldable pub encode_onchain : OnchainRecord → Result (List ℕ)
encode_onchain r = pack onchain_struct (onchain_fields r)

abbrev pub from_onchain_fields : Values onchain_struct → OnchainRecord
from_onchain_fields
      (
        v,
        (
          ve,
          (
            ac,
            (
              fl,
              (sq, (t0, (t1, (t2, (t3, (sh, (d0, (d1, (d2, (d3, (d4, (nt, (sl, (re, _)))))))))))))),
            ),
          ),
        ),
      ) =
    record {
      version = v;
      venue = ve;
      action = ac;
      flags = fl;
      seq_no = sq;
      client_ts_ns = t0;
      signed_ts_ns = t1;
      submitted_ts_ns = t2;
      included_ts_ns = t3;
      symbol_hash = sh;
      d_rpc_ns = d0;
      d_quote_ns = d1;
      d_sign_ns = d2;
      d_submit_ns = d3;
      d_inclusion_ns = d4;
      notional_usd_e4 = nt;
      slippage_bps = sl;
      reserved = re;
    }

unfoldable pub decode_onchain : List ℕ → Result OnchainRecord
decode_onchain data_in = do
  guard (length data_in == onchain_record_size) value_error
  u ← unpack onchain_struct data_in
  ok (from_onchain_fields u)

-- The properties: `max(0, a - b)` is the difference of natural numbers.
abbrev pub total_ns : OnchainRecord → ℕ
total_ns r = r.included_ts_ns - r.client_ts_ns

abbrev pub stage_sum_ns : OnchainRecord → ℕ
stage_sum_ns r = r.d_rpc_ns + r.d_quote_ns + r.d_sign_ns + r.d_submit_ns + r.d_inclusion_ns

abbrev pub overhead_ns : OnchainRecord → ℕ
overhead_ns r = total_ns r - stage_sum_ns r

abbrev pub flag_set : ℕ → OnchainRecord → Bool
flag_set mask r = not (bit_and r.flags mask == 0)

abbrev pub flag_rejected : ℕ
flag_rejected = 0x01

abbrev pub flag_timeout : ℕ
flag_timeout = 0x02

abbrev pub flag_reorg : ℕ
flag_reorg = 0x04

abbrev pub flag_landed : ℕ
flag_landed = 0x08

-- "<4sHH8x", the file header: magic b"SOCH", version and record size.
abbrev pub onchain_file_header_struct : List Code
onchain_file_header_struct = chars 4 ∷ uint 2 ∷ uint 2 ∷ pad 8 ∷ []

abbrev pub onchain_magic : List ℕ
onchain_magic = b'S' ∷ b'O' ∷ b'C' ∷ b'H' ∷ []

-- `write_records`, which returns the number of bytes: here the bytes themselves.
unfoldable pub write_onchain : List OnchainRecord → Result (List ℕ)
write_onchain rs = do
  head ← pack onchain_file_header_struct (onchain_magic, (1, (onchain_record_size, tt)))
  body ← encode_all encode_onchain rs
  ok (head ++ body)

-- The header's checks in `iter_file`; the version is read and not tested.
unfoldable pub check_onchain_header : List ℕ → Result (Unit {0})
check_onchain_header head = do
  guard (leb 16 (length head)) value_error
  u ← unpack onchain_file_header_struct head
  guard (bytes_eq u.0 onchain_magic) value_error
  guard (u.1.1.0 == onchain_record_size) value_error

-- `iter_file`: what the generator yields, and the exception that ends it, if any.
unfoldable pub iter_file : List ℕ → List OnchainRecord × Option Error
iter_file file = elim (check_onchain_header (take 16 file)) [
  | ok _ ↦ decode_all onchain_record_size decode_onchain (reads onchain_record_size (drop 16 file))
  | err e ↦ ([], some e)
]
