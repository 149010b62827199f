-- ===== src/Audit/Record.antt =====
-- sentinel_hft/audit/record.py: the 96-byte record of a risk decision, its wire form and its hash,
-- and the log file.
pub mod RoundTrip
pub mod File
pub mod Payload
use Prim.Native.Nat.{bit_and}
use sentinel_hft.Prelude.{
  ℕ, zero, suc, ◌+◌, ◌-◌, ◌%◌, ◌^◌, Bool, true, false, not, Option, none, some, List, [], ◌∷◌, ◌++◌,
  length, take, drop, ltb, leb, ◌==◌, if◌then◌else◌,
}
use sentinel_hft.Prelude.Int.{ℤ, pos, negsuc, sub_ℕ}
use sentinel_hft.Prelude.Result.{Result, ok, err, Error, value_error, ◌>>=◌, ◌>>◌, guard}
use sentinel_hft.Prelude.Bytes.{bytes_eq}
use sentinel_hft.Prelude.Reads.{reads}
use sentinel_hft.Struct.Records.{encode_all, decode_all}
use sentinel_hft.Struct.{Code, uint, chars, pad, Values, pack, unpack}
use sentinel_hft.Audit.Digest.{Blake2b, low128}

-- Why the gate refused an order, and the code of each reason.
pub data RejectReason : Type 0 where
  accepted rate_limited position_limit notional_limit order_size kill_switch : RejectReason
  invalid_order toxic_flow disabled : RejectReason

abbrev pub reason_code : RejectReason → ℕ
reason_code accepted = 0x00
reason_code rate_limited = 0x01
reason_code position_limit = 0x02
reason_code notional_limit = 0x03
reason_code order_size = 0x04
reason_code kill_switch = 0x05
reason_code invalid_order = 0x06
reason_code toxic_flow = 0x07
reason_code disabled = 0xff

abbrev pub flag_passed : ℕ
flag_passed = 0x0001

abbrev pub flag_kill_triggered : ℕ
flag_kill_triggered = 0x0002

abbrev pub flag_rate_hit : ℕ
flag_rate_hit = 0x0004

abbrev pub flag_pos_hit : ℕ
flag_pos_hit = 0x0008

pub record AuditRecord : Type 0 where
  pub seq_no : ℕ
  pub timestamp_ns : ℕ
  pub order_id : ℕ
  pub symbol_id : ℕ
  pub reject_reason : ℕ
  pub flags : ℕ
  pub quantity : ℕ
  pub price : ℕ
  pub notional : ℕ
  pub position_after : ℤ
  pub notional_after : ℕ
  pub tokens_remaining : ℕ
  pub reserved : ℕ
  pub prev_hash_lo : List ℕ

-- "<QQQIHHQQQQQII16s"
abbrev pub audit_struct : List Code
audit_struct =
    uint 8
    ∷ uint 8
    ∷ uint 8
    ∷ uint 4
    ∷ uint 2
    ∷ uint 2
    ∷ uint 8
    ∷ uint 8
    ∷ uint 8
    ∷ uint 8
    ∷ uint 8
    ∷ uint 4
    ∷ uint 4
    ∷ chars 16
    ∷ []

abbrev pub audit_record_size : ℕ
audit_record_size = 96

-- `position_after & 0xFFFFFFFFFFFFFFFF`
unfoldable pub mask64 : ℤ → ℕ
mask64 (pos n) = n % 2 ^ 64
mask64 (negsuc n) = 2 ^ 64 - 1 - n % 2 ^ 64

-- `if pos >= (1 << 63): pos -= (1 << 64)`
unfoldable pub signed64 : ℕ → ℤ
signed64 n = if leb (2 ^ 63) n then sub_ℕ n (2 ^ 64) else pos n

abbrev pub fields : AuditRecord → Values audit_struct
fields r = (
  r.seq_no,
  (
    r.timestamp_ns,
    (
      r.order_id,
      (
        r.symbol_id,
        (
          r.reject_reason,
          (
            r.flags,
            (
              r.quantity,
              (
                r.price,
                (
                  r.notional,
                  (
                    mask64 r.position_after,
                    (r.notional_after, (r.tokens_remaining, (r.reserved, (r.prev_hash_lo, tt)))),
                  ),
                ),
              ),
            ),
          ),
        ),
      ),
    ),
  ),
)

unfoldable pub encode : AuditRecord → Result (List ℕ)
encode r = guard (length r.prev_hash_lo == 16) value_error >> pack audit_struct (fields r)

abbrev pub from_fields : Values audit_struct → AuditRecord
from_fields (a, (b, (c, (d, (e, (f, (g, (h, (i, (j, (k, (l, (m, (n, _)))))))))))))) = record {
  seq_no = a;
  timestamp_ns = b;
  order_id = c;
  symbol_id = d;
  reject_reason = e;
  flags = f;
  quantity = g;
  price = h;
  notional = i;
  position_after = signed64 j;
  notional_after = k;
  tokens_remaining = l;
  reserved = m;
  prev_hash_lo = n;
}

unfoldable pub decode : List ℕ → Result AuditRecord
decode data_in = do
  guard (length data_in == audit_record_size) value_error
  u ← unpack audit_struct data_in
  ok (from_fields u)

-- All but the pointer to the previous record.
unfoldable pub payload_bytes : AuditRecord → Result (List ℕ)
payload_bytes r = do buf ← encode r; ok (take 80 buf)

-- `hash_lo`: the low 128 bits of the payload's hash.
unfoldable pub hash_lo : Blake2b → AuditRecord → Result (List ℕ)
hash_lo h r = do payload ← payload_bytes r; ok (low128 h payload)

-- The properties `passed` and `kill_triggered`.
abbrev pub passed : AuditRecord → Bool
passed r = not (bit_and r.flags flag_passed == 0)

abbrev pub kill_triggered : AuditRecord → Bool
kill_triggered r = not (bit_and r.flags flag_kill_triggered == 0)

-- "<4sHH8x", the file header: magic b"SAUD", version and record size.
abbrev pub audit_file_header_struct : List Code
audit_file_header_struct = chars 4 ∷ uint 2 ∷ uint 2 ∷ pad 8 ∷ []

abbrev pub audit_magic : List ℕ
audit_magic = b'S' ∷ b'A' ∷ b'U' ∷ b'D' ∷ []

-- `write_records`: the bytes of the file, or the exception that stopped the writing.
unfoldable pub write_records : List AuditRecord → Result (List ℕ)
write_records rs = do
  head ← pack audit_file_header_struct (audit_magic, (1, (audit_record_size, tt)))
  body ← encode_all encode rs
  ok (head ++ body)

-- The header's checks; the version is read and not tested.
unfoldable pub check_header : List ℕ → Result (Unit {0})
check_header head = do
  guard (leb 16 (length head)) value_error
  u ← unpack audit_file_header_struct head
  guard (bytes_eq u.0 audit_magic) value_error
  guard (u.1.1.0 == audit_record_size) value_error

unfoldable pub read_records : List ℕ → List AuditRecord × Option Error
read_records file = elim (check_header (take 16 file)) [
  | ok _ ↦ decode_all audit_record_size decode (reads audit_record_size (drop 16 file))
  | err e ↦ ([], some e)
]
