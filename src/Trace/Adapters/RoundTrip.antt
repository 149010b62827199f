-- ===== src/Trace/Adapters/RoundTrip.antt =====
-- What each adapter reads back of what it wrote.
use sentinel_hft.Prelude.{
  ℕ, ◌+◌, ◌≤◌, ◌≡◌, List, [], ◌∷◌, ◌++◌, length, take, replicate, arith, length-append, length-take,
}
use sentinel_hft.Prelude.Result.{ok, bind-eq-ok}
use sentinel_hft.Prelude.Slices.{take-append, take_all}
use sentinel_hft.Prelude.Int.{pos}
use sentinel_hft.Struct.Join.{Parts, pack-join-Parts}
use sentinel_hft.Struct.{Code, uint, pad, Values, size, pack, read, unpack}
use sentinel_hft.Struct.RoundTrip.{unpack-pack, length-pack}
use sentinel_hft.Trace.Adapters.{
  StandardTrace, v10_struct, v11_struct, v12_struct, fields_v11, fields_v12, from_v10, from_v11,
  from_v12, decode_v10, encode_v10, decode_v11, encode_v11, decode_record, decode_v12, encode_v12,
  to_standard, TraceRecordV12, attribution, Adapter, v10, v11, v12, record_size, decode, encode,
}

-- What a format keeps of a trace: v1.0 has no version, type, core and number, and v1.2 no payload.
abbrev pub kept : Adapter → StandardTrace → StandardTrace
kept v10 t = record t { version = 0; record_type = 1; core_id = 0; seq_no = 0 }
kept v11 t = t
kept v12 t = record t { payload = 0 }

pub length-encode :
    (a : Adapter) (t : StandardTrace) (bs : List ℕ) → encode a t ≡ ok bs → length bs ≡ record_size a
unfolding encode encode_v10 encode_v11 encode_v12
length-encode v10 t bs h = length-pack v10_struct _ bs h
length-encode v11 t bs h =
    let (p, e, q) = bind-eq-ok (pack v11_struct (fields_v11 t)) _ h in
    let joined : p ++ replicate 12 0 ≡ bs = ground arith in
    rw (← joined, length-append, length-pack v11_struct (fields_v11 t) p e)
length-encode v12 t bs h = length-pack v12_struct (fields_v12 t) bs h

-- Decoding gives the trace back, but for the fields that its format does not carry.
pub kept-decode-encode :
    (a : Adapter) (t : StandardTrace) (bs : List ℕ)
    → encode a t ≡ ok bs
    → decode a bs ≡ ok (kept a t)
unfolding encode decode encode_v10 encode_v11 encode_v12 decode_v10 decode_v11 decode_v12
    decode_record
kept-decode-encode v10 t bs h =
    let vs : Values v10_struct =
      (t.t_ingress, (t.t_egress, (t.payload, (t.flags, (t.tx_id, (0, tt)))))) in
    let len : length bs ≡ 32 = length-pack v10_struct vs bs h in
    let u : unpack v10_struct bs ≡ ok vs = unpack-pack v10_struct vs bs tt h in
    rw (len, take_all 32 bs (omega arith), u)
kept-decode-encode v11 t bs h =
    let (p, e, q) = bind-eq-ok (pack v11_struct (fields_v11 t)) _ h in
    let joined : bs ≡ p ++ replicate 12 0 = ground arith in
    let len : length p ≡ 36 = length-pack v11_struct (fields_v11 t) p e in
    let u : unpack v11_struct p ≡ ok (fields_v11 t) =
      unpack-pack v11_struct (fields_v11 t) p tt e in
    rw (joined, length-append, len, take-append 36 p (replicate 12 0) len, u)
kept-decode-encode v12 t bs h =
    let len : length bs ≡ 64 = length-pack v12_struct (fields_v12 t) bs h in
    let u : unpack v12_struct bs ≡ ok (fields_v12 t) =
      unpack-pack v12_struct (fields_v12 t) bs tt h in
    rw (len, u)

unpack_total : (f : List Code) (bs : List ℕ) → length bs ≡ size f → unpack f bs ≡ ok (read f bs)
unfolding unpack
unpack_total f bs h = ground arith

length-take_le : (n : ℕ) (bs : List ℕ) → n ≤ length bs → length (take n bs) ≡ n
length-take_le n bs h = omega (arith, length-take n bs)

-- Any buffer of the size of a record is decoded.
pub decode_total :
    (a : Adapter) (bs : List ℕ)
    → length bs ≡ record_size a
    → (t : StandardTrace) × (decode a bs ≡ ok t)
unfolding decode decode_v10 decode_v11 decode_v12 decode_record
decode_total v10 bs h = (
  from_v10 (read v10_struct (take 32 bs)),
  rw (h, unpack_total v10_struct (take 32 bs) (length-take_le 32 bs (omega arith))),
)
decode_total v11 bs h = (
  from_v11 (read v11_struct (take 36 bs)),
  rw (h, unpack_total v11_struct (take 36 bs) (length-take_le 36 bs (omega arith))),
)
decode_total v12 bs h =
    (to_standard (from_v12 (read v12_struct bs)), rw (h, unpack_total v12_struct bs h))

-- The part of the v1.2 format behind the 36 bytes that v1.1 reads.
abbrev v12_rest : List Code
v12_rest = pad 12 ∷ uint 4 ∷ uint 4 ∷ uint 4 ∷ uint 4 ∷ []

abbrev swapped : StandardTrace → StandardTrace
swapped t = record t { payload = 0; flags = t.tx_id; tx_id = t.flags }

-- The first 48 bytes of a v1.2 record are not a v1.1 record of the same trace: the v1.1 adapter
-- takes the transaction number for the flags and the flags for the transaction number.
pub decode_v11-encode_v12 :
    (t : StandardTrace) (bs : List ℕ)
    → encode v12 t ≡ ok bs
    → decode v11 bs ≡ ok (record t { payload = 0; flags = t.tx_id; tx_id = t.flags })
unfolding encode decode encode_v12 decode_v11
decode_v11-encode_v12 t bs h =
    let vs : Values v11_struct = fields_v11 (swapped t) in
    let p : Parts v11_struct v12_rest vs (0, (0, (0, (0, tt)))) bs =
      pack-join-Parts v11_struct v12_rest vs (0, (0, (0, (0, tt)))) bs h in
    let len : length p.front ≡ 36 = length-pack v11_struct vs p.front p.packed_front in
    let u : unpack v11_struct p.front ≡ ok vs =
      unpack-pack v11_struct vs p.front tt p.packed_front in
    let whole : length bs ≡ 64 = length-pack v12_struct (fields_v12 t) bs h in
    rw (whole, p.joined, take-append 36 p.front p.back len, u)

-- No cycle is unaccounted for. Where the stages fit into the total, they and the overhead make it
-- up; where they do not, the overhead is 0.
pub attribution_accounts :
    (r : TraceRecordV12)
    → let s = attribution r in
      let sum = s.ingress + s.core + s.risk + s.egress in
      (r.t_ingress + sum ≤ r.t_egress → s.total ≡ pos (sum + s.overhead))
      × (r.t_egress ≤ r.t_ingress + sum → s.overhead ≡ 0)
unfolding attribution
attribution_accounts r = (λ h. ground arith, λ h. ground arith)
