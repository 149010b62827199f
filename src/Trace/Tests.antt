-- ===== src/Trace/Tests.antt =====
-- Runs of the adapters, the detection and the reader.
use sentinel_hft.Prelude.{
  ℕ, ◌+◌, ◌≡◌, refl, false, none, some, List, [], ◌∷◌, ◌++◌, arith, replicate,
}
use sentinel_hft.Prelude.Int.{pos}
use sentinel_hft.Prelude.Result.{from_ok, ok}
use sentinel_hft.Struct.{to_le, fit, pack}
use sentinel_hft.Trace.Adapters.{
  StandardTrace, TraceRecordV12, Adapter, v10, v11, v12, encode, encode_v11, encode_v12, decode,
  attribution, validate, high_latency,
}
use sentinel_hft.Trace.Adapters.RoundTrip.{kept-decode-encode}
use sentinel_hft.Trace.Header.{
  magic_bytes, FileHeader, encode_header, probe, TracePath, binary, of_size, auto_detect,
}
use sentinel_hft.Trace.Reader.{Yield, TraceFile, open_trace, read_path}
use sentinel_hft.Trace.Reader.Laws.{encode_traces, read_path-written}

abbrev trace : ℕ → StandardTrace
trace n = record {
  version = 1;
  record_type = 1;
  core_id = 2;
  seq_no = n;
  t_ingress = 100;
  t_egress = 350;
  payload = 77;
  flags = 5;
  tx_id = n + 9;
}

abbrev wire : Adapter → List ℕ
wire a = from_ok [] (encode a (trace 3))

wire_v12 : encode v12 (trace 3) ≡ ok (wire v12)
unfolding encode encode_v12 pack to_le
wire_v12 = refl

kept-decode-encode_example : decode v12 (wire v12) ≡ ok (record (trace 3) { payload = 0 })
kept-decode-encode_example = kept-decode-encode v12 (trace 3) (wire v12) wire_v12

abbrev staged : TraceRecordV12
staged = record {
  version = 2;
  record_type = 1;
  core_id = 0;
  seq_no = 1;
  t_ingress = 100;
  t_egress = 130;
  t_host = 0;
  tx_id = 4;
  flags = 0;
  d_ingress = 3;
  d_core = 10;
  d_risk = 4;
  d_egress = 3;
}

attribution-staged : (attribution staged).overhead ≡ 10
unfolding attribution
attribution-staged = refl

validate-high :
    validate (record (trace 1) { t_egress = 20000000 }) ≡ some (high_latency (pos 19999900))
unfolding validate
validate-high = refl

abbrev header : FileHeader
header = record {
  magic = magic_bytes;
  version = 1;
  endianness = 0;
  record_size = 48;
  clock_mhz = 100;
  run_id = 6;
  record_count = 0;
}

abbrev header_bytes : List ℕ
header_bytes = from_ok [] (encode_header header)

header_written : encode_header header ≡ ok header_bytes
unfolding encode_header pack to_le fit
header_written = refl

-- Two v1.1 records with no header are taken for three v1.0 records.
abbrev two_v11 : TracePath
two_v11 = record { is_csv = false; bytes = replicate 96 1 }

-- No CSV in these tests.
abbrev no_csv : List ℕ → Yield
no_csv bs = ([], none)

abbrev traces : List StandardTrace
traces = trace 1 ∷ trace 2 ∷ []

abbrev body : List ℕ
body = from_ok [] (encode_traces v11 traces)

body_written : encode_traces v11 traces ≡ ok body
unfolding encode_traces encode encode_v11 pack to_le
body_written = refl

read_path-written_example :
    read_path no_csv (record { is_csv = false; bytes = header_bytes ++ (body ++ 7 ∷ []) })
    ≡ (trace 1 ∷ trace 2 ∷ [], none)
read_path-written_example =
    read_path-written no_csv v11 header traces header_bytes body (7 ∷ []) refl refl refl
      (omega arith) header_written body_written

abbrev opened : TraceFile
opened = record { path = two_v11; header = none; adapter = binary v10; data_offset = 0 }

opens : open_trace two_v11 ≡ ok opened
unfolding open_trace auto_detect probe of_size
opens = refl
