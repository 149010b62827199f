-- ===== src/Trace/Header/Laws.antt =====
-- Headers round trip, and what detection makes of a file.
use mathlib.Core.List.{append-nil}
use sentinel_hft.Prelude.{
  ℕ, ◌%◌, ◌<◌, ◌≡◌, ◌≢◌, ap, ◌∙◌, true, false, Option, none, some, List, [], ◌++◌, length, take,
  ltb, leb, arith, length-append, Option-cases, inl, inr, ◌⊎◌,
}
use sentinel_hft.Prelude.Bytes.{bytes_eq_refl}
use sentinel_hft.Prelude.Result.{ok, err, value_error}
use sentinel_hft.Prelude.Slices.{take-append}
use sentinel_hft.Struct.{Values, read, unpack}
use sentinel_hft.Struct.RoundTrip.{unpack-pack, read-pack, length-pack}
use sentinel_hft.Trace.Adapters.{Adapter, v10, v11, v12, record_size}
use sentinel_hft.Trace.Header.{
  magic_bytes, FileHeader, header_struct, header_fields, encode_header, decode_header, probe,
  TracePath, FileAdapter, binary, of_header, of_size, auto_detect,
}

pub length-encode_header : (h : FileHeader) (bs : List ℕ) → encode_header h ≡ ok bs → length bs ≡ 32
unfolding encode_header
length-encode_header h bs e = length-pack header_struct (header_fields h) bs e

-- A header that was written in front of anything is decoded to itself.
pub decode_header-encode_header :
    (h : FileHeader) (bs rest : List ℕ)
    → h.magic ≡ magic_bytes
    → encode_header h ≡ ok bs
    → decode_header (bs ++ rest) ≡ ok h
unfolding encode_header decode_header
decode_header-encode_header h bs rest m e =
    let len : length bs ≡ 32 = length-pack header_struct (header_fields h) bs e in
    let four : length h.magic ≡ 4 = rw m in
    let u : unpack header_struct bs ≡ ok (header_fields h) =
      unpack-pack header_struct (header_fields h) bs (four, tt) e in
    let enough : leb 32 (length (bs ++ rest)) ≡ true = ground (arith, length-append bs rest) in
    rw (enough, take-append 32 bs rest len, u, m)

take_four :
    (h : FileHeader) (bs : List ℕ)
    → h.magic ≡ magic_bytes
    → encode_header h ≡ ok bs
    → take 4 bs ≡ magic_bytes
unfolding encode_header read
take_four h bs m e =
    let fits : length h.magic ≡ 4 = rw m in
    let p : read header_struct bs ≡ header_fields h =
      rw append-nil at (read-pack header_struct (header_fields h) bs [] (fits, tt) e) in
    let q : take 4 bs ≡ h.magic = ap (λ (v : Values header_struct). v.0) p in q ∙ m

-- A file that begins with a written header is recognised by it.
pub probe-encode_header :
    (h : FileHeader) (bs rest : List ℕ)
    → h.magic ≡ magic_bytes
    → encode_header h ≡ ok bs
    → probe (bs ++ rest) ≡ some h
unfolding probe
probe-encode_header h bs rest m e =
    let len : length bs ≡ 32 = length-encode_header h bs e in
    let enough : ltb (length (bs ++ rest)) 32 ≡ false = ground (arith, length-append bs rest) in
    let d : decode_header bs ≡ ok h = rw append-nil at (decode_header-encode_header h bs [] m e) in
    rw (enough, take-append 32 bs rest len, take_four h bs m e, bytes_eq_refl magic_bytes, d)

-- The version that the header of each format has.
abbrev pub header_version : Adapter → ℕ
header_version v10 = 1
header_version v11 = 1
header_version v12 = 2

of_header-Adapter :
    (a : Adapter) (h : FileHeader)
    → h.version ≡ header_version a
    → h.record_size ≡ record_size a
    → of_header h ≡ ok (binary a, some h)
unfolding of_header
of_header-Adapter v10 h v r = rw (v, r)
of_header-Adapter v11 h v r = rw (v, r)
of_header-Adapter v12 h v r = rw (v, r)

-- Detection finds the format that a written header names.
pub auto_detect-encode_header :
    (a : Adapter) (h : FileHeader) (bs rest : List ℕ)
    → h.magic ≡ magic_bytes
    → h.version ≡ header_version a
    → h.record_size ≡ record_size a
    → encode_header h ≡ ok bs
    → auto_detect (record { is_csv = false; bytes = bs ++ rest }) ≡ ok (binary a, some h)
unfolding auto_detect
auto_detect-encode_header a h bs rest m v r e =
    rw (probe-encode_header h bs rest m e) (of_header-Adapter a h v r)

auto_detect-of_size :
    (p : TracePath)
    → p.is_csv ≡ false
    → probe p.bytes ≡ none
    → auto_detect p ≡ of_size (length p.bytes)
unfolding auto_detect
auto_detect-of_size p c n = rw (auto_detect, c, n)

-- The format of a file with no header, by its size n: v1.0 where 32 divides n > 0, so for every
-- whole number of v1.2 records and every even number of v1.1 records too; v1.1 where n is an odd
-- multiple of 48; and an error for any other size.
pub auto_detect_headerless :
    (p : TracePath)
    → p.is_csv ≡ false
    → probe p.bytes ≡ none
    → let n = length p.bytes in
      (0 < n → n % 32 ≡ 0 → auto_detect p ≡ ok (binary v10, none))
      × (n % 96 ≡ 48 → auto_detect p ≡ ok (binary v11, none))
      × ((n ≡ 0) ⊎ ((n % 32 ≢ 0) × (n % 96 ≢ 48)) → auto_detect p ≡ err value_error)
unfolding of_size
auto_detect_headerless p c e =
    rw (auto_detect-of_size p c e) (λ h k. ground arith, λ h. ground arith, λ h. ground arith)

of_header-some :
    (h : FileHeader) (a : FileAdapter) (o : Option FileHeader)
    → of_header h ≡ ok (a, o)
    → o ≡ some h
unfolding of_header
of_header-some h a o e = ground arith

of_size-ne-v12 : (n : ℕ) (o : Option FileHeader) → of_size n ≢ ok (binary v12, o)
unfolding of_size
of_size-ne-v12 n o = ground arith

-- No file without a header is ever taken for v1.2, though the code has a branch for it.
pub headerless_v12_undetected : (p : TracePath) → auto_detect p ≢ ok (binary v12, none)
unfolding auto_detect
headerless_v12_undetected p e = elim (Option-cases (probe p.bytes)) [
  | inl no_header ↦ ground (arith, of_size-ne-v12 (length p.bytes) none)
  | inr (h, found) ↦ ground (arith, of_header-some h (binary v12) none)
]
