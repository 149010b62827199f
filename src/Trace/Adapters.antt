-- ===== src/Trace/Adapters.antt =====
-- sentinel_hft/adapters: the normalised trace and the three binary adapters.
pub mod RoundTrip
use sentinel_hft.Prelude.{
  ℕ, ◌+◌, Bool, Option, none, some, List, [], ◌∷◌, ◌++◌, length, take, replicate, ltb, leb, ◌==◌,
  if◌then◌else◌,
}
use sentinel_hft.Prelude.Int.{ℤ, pos, negsuc, sub_ℕ, ltb_ℤ}
use sentinel_hft.Prelude.Result.{Result, ok, err, value_error, ◌>>=◌, ◌>>◌, guard}
use sentinel_hft.Struct.{Code, uint, pad, Values, pack, unpack}

-- `StandardTrace` (base.py).
pub record StandardTrace : Type 0 where
  pub version : ℕ
  pub record_type : ℕ
  pub core_id : ℕ
  pub seq_no : ℕ
  pub t_ingress : ℕ
  pub t_egress : ℕ
  pub payload : ℕ
  pub flags : ℕ
  pub tx_id : ℕ

-- The property `latency`.
abbrev pub latency : StandardTrace → ℤ
latency t = sub_ℕ t.t_egress t.t_ingress

-- The two complaints of `TraceAdapter.validate`.
pub data Complaint : Type 0 where
  egress_before_ingress : ℕ → ℕ → Complaint
  high_latency : ℤ → Complaint

unfoldable pub validate : StandardTrace → Option Complaint
validate t =
    if ltb t.t_egress t.t_ingress
    then some (egress_before_ingress t.t_egress t.t_ingress)
    else if ltb_ℤ (pos 10000000) (latency t)
    then some (high_latency (latency t))
    else none

-- v1.0: '<QQQHHI', 32 bytes.
abbrev pub v10_struct : List Code
v10_struct = uint 8 ∷ uint 8 ∷ uint 8 ∷ uint 2 ∷ uint 2 ∷ uint 4 ∷ []

abbrev pub from_v10 : Values v10_struct → StandardTrace
from_v10 (t_in, (t_out, (d, (fl, (tx, _))))) = record {
  version = 0;
  record_type = 0x01;
  core_id = 0;
  seq_no = 0;
  t_ingress = t_in;
  t_egress = t_out;
  payload = d;
  flags = fl;
  tx_id = tx;
}

unfoldable pub decode_v10 : List ℕ → Result StandardTrace
decode_v10 raw = do
  guard (leb 32 (length raw)) value_error
  u ← unpack v10_struct (take 32 raw)
  ok (from_v10 u)

unfoldable pub encode_v10 : StandardTrace → Result (List ℕ)
encode_v10 t =
    pack v10_struct (t.t_ingress, (t.t_egress, (t.payload, (t.flags, (t.tx_id, (0, tt))))))

-- v1.1: '<BBHIQQQHH', the first 36 of 48 bytes.
abbrev pub v11_struct : List Code
v11_struct = uint 1 ∷ uint 1 ∷ uint 2 ∷ uint 4 ∷ uint 8 ∷ uint 8 ∷ uint 8 ∷ uint 2 ∷ uint 2 ∷ []

abbrev pub from_v11 : Values v11_struct → StandardTrace
from_v11 (v, (ty, (c, (s, (t_in, (t_out, (d, (fl, (tx, _))))))))) = record {
  version = v;
  record_type = ty;
  core_id = c;
  seq_no = s;
  t_ingress = t_in;
  t_egress = t_out;
  payload = d;
  flags = fl;
  tx_id = tx;
}

unfoldable pub decode_v11 : List ℕ → Result StandardTrace
decode_v11 raw = do
  guard (leb 48 (length raw)) value_error
  u ← unpack v11_struct (take 36 raw)
  ok (from_v11 u)

abbrev pub fields_v11 : StandardTrace → Values v11_struct
fields_v11 t = (
  t.version,
  (
    t.record_type,
    (t.core_id, (t.seq_no, (t.t_ingress, (t.t_egress, (t.payload, (t.flags, (t.tx_id, tt))))))),
  ),
)

unfoldable pub encode_v11 : StandardTrace → Result (List ℕ)
encode_v11 t = do packed ← pack v11_struct (fields_v11 t); ok (packed ++ replicate 12 0)

-- v1.2: '<BBHIQQQHH12xIIII', 64 bytes; `tx_id` stands before `flags` here.
abbrev pub v12_struct : List Code
v12_struct =
    uint 1
    ∷ uint 1
    ∷ uint 2
    ∷ uint 4
    ∷ uint 8
    ∷ uint 8
    ∷ uint 8
    ∷ uint 2
    ∷ uint 2
    ∷ pad 12
    ∷ uint 4
    ∷ uint 4
    ∷ uint 4
    ∷ uint 4
    ∷ []

pub record TraceRecordV12 : Type 0 where
  pub version : ℕ
  pub record_type : ℕ
  pub core_id : ℕ
  pub seq_no : ℕ
  pub t_ingress : ℕ
  pub t_egress : ℕ
  pub t_host : ℕ
  pub tx_id : ℕ
  pub flags : ℕ
  pub d_ingress : ℕ
  pub d_core : ℕ
  pub d_risk : ℕ
  pub d_egress : ℕ

abbrev pub from_v12 : Values v12_struct → TraceRecordV12
from_v12 (v, (ty, (c, (s, (t_in, (t_out, (th, (tx, (fl, (di, (dc, (dr, (de, _))))))))))))) =
    record {
      version = v;
      record_type = ty;
      core_id = c;
      seq_no = s;
      t_ingress = t_in;
      t_egress = t_out;
      t_host = th;
      tx_id = tx;
      flags = fl;
      d_ingress = di;
      d_core = dc;
      d_risk = dr;
      d_egress = de;
    }

-- `to_standard`: the payload is not carried over.
abbrev pub to_standard : TraceRecordV12 → StandardTrace
to_standard r = record {
  version = r.version;
  record_type = r.record_type;
  core_id = r.core_id;
  seq_no = r.seq_no;
  t_ingress = r.t_ingress;
  t_egress = r.t_egress;
  payload = 0;
  flags = r.flags;
  tx_id = r.tx_id;
}

unfoldable pub decode_record : List ℕ → Result TraceRecordV12
decode_record raw = do
  guard (length raw == 64) value_error
  u ← unpack v12_struct raw
  ok (from_v12 u)

unfoldable pub decode_v12 : List ℕ → Result StandardTrace
decode_v12 raw = do r ← decode_record raw; ok (to_standard r)

abbrev pub fields_v12 : StandardTrace → Values v12_struct
fields_v12 t = (
  t.version,
  (
    t.record_type,
    (
      t.core_id,
      (t.seq_no, (t.t_ingress, (t.t_egress, (0, (t.tx_id, (t.flags, (0, (0, (0, (0, tt)))))))))),
    ),
  ),
)

unfoldable pub encode_v12 : StandardTrace → Result (List ℕ)
encode_v12 t = pack v12_struct (fields_v12 t)

-- The stages of a record in cycles (`from_cycles`, before the scaling to nanoseconds): the
-- overhead is what the total has over the sum of the stages.
pub record Stages : Type 0 where
  pub total : ℤ
  pub ingress : ℕ
  pub core : ℕ
  pub risk : ℕ
  pub egress : ℕ
  pub overhead : ℕ

unfoldable pub attribution : TraceRecordV12 → Stages
attribution r =
    let sum = r.d_ingress + r.d_core + r.d_risk + r.d_egress in
    record {
      total = sub_ℕ r.t_egress r.t_ingress;
      ingress = r.d_ingress;
      core = r.d_core;
      risk = r.d_risk;
      egress = r.d_egress;
      overhead = elim (sub_ℕ r.t_egress (r.t_ingress + sum)) [ pos n ↦ n | negsuc n ↦ 0 ];
    }

-- The binary adapters by the size of their records.
pub data Adapter : Type 0 where
  v10 v11 v12 : Adapter

abbrev pub record_size : Adapter → ℕ
record_size v10 = 32
record_size v11 = 48
record_size v12 = 64

unfoldable pub decode : Adapter → List ℕ → Result StandardTrace
decode v10 raw = decode_v10 raw
decode v11 raw = decode_v11 raw
decode v12 raw = decode_v12 raw

unfoldable pub encode : Adapter → StandardTrace → Result (List ℕ)
encode v10 t = encode_v10 t
encode v11 t = encode_v11 t
encode v12 t = encode_v12 t
