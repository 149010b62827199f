-- ===== src/Trace/Header.antt =====
-- sentinel_hft/formats/file_header.py: the 32-byte header of a trace file; and `auto_detect`
-- (sentinel_hft/adapters/__init__.py), which chooses the adapter.
pub mod Laws
use sentinel_hft.Prelude.{
  ℕ, ◌+◌, ◌%◌, Bool, true, false, not, ◌&&◌, ◌||◌, Option, none, some, List, [], ◌∷◌, ◌++◌, length,
  take, ltb, leb, ◌==◌, if◌then◌else◌,
}
use sentinel_hft.Prelude.Bytes.{bytes_eq}
use sentinel_hft.Prelude.Result.{Result, ok, err, value_error, ◌>>=◌, ◌>>◌, guard}
use sentinel_hft.Struct.{Code, uint, chars, pad, Values, pack, unpack}
use sentinel_hft.Trace.Adapters.{Adapter, v10, v11, v12}

-- b"SNTL"
abbrev pub magic_bytes : List ℕ
magic_bytes = b'S' ∷ b'N' ∷ b'T' ∷ b'L' ∷ []

abbrev pub header_size : ℕ
header_size = 32

pub record FileHeader : Type 0 where
  pub magic : List ℕ
  pub version : ℕ
  pub endianness : ℕ
  pub record_size : ℕ
  pub clock_mhz : ℕ
  pub run_id : ℕ
  pub record_count : ℕ

-- '<4sBBHIIQ8x'
abbrev pub header_struct : List Code
header_struct = chars 4 ∷ uint 1 ∷ uint 1 ∷ uint 2 ∷ uint 4 ∷ uint 4 ∷ uint 8 ∷ pad 8 ∷ []

abbrev pub header_fields : FileHeader → Values header_struct
header_fields h = (
  h.magic,
  (h.version, (h.endianness, (h.record_size, (h.clock_mhz, (h.run_id, (h.record_count, tt)))))),
)

unfoldable pub encode_header : FileHeader → Result (List ℕ)
encode_header h = pack header_struct (header_fields h)

abbrev pub from_header : Values header_struct → FileHeader
from_header (m, (v, (e, (r, (c, (i, (n, _))))))) = record {
  magic = m;
  version = v;
  endianness = e;
  record_size = r;
  clock_mhz = c;
  run_id = i;
  record_count = n;
}

-- `FileHeader.decode`, with the check of `__post_init__`.
unfoldable pub decode_header : List ℕ → Result FileHeader
decode_header bs = do
  guard (leb header_size (length bs)) value_error
  u ← unpack header_struct (take header_size bs)
  guard (bytes_eq u.0 magic_bytes) value_error
  guard (length u.0 == 4) value_error
  ok (from_header u)

-- `FileHeader.probe` on the bytes of a file that exists: every exception gives `None`.
unfoldable pub probe : List ℕ → Option FileHeader
probe file =
    if ltb (length file) header_size
    then none
    else if bytes_eq (take 4 (take header_size file)) magic_bytes
    then elim (decode_header (take header_size file)) [ ok h ↦ some h | err e ↦ none ]
    else none

-- The complaints of `validate`, in order.
pub data HeaderIssue : Type 0 where
  invalid_magic : List ℕ → HeaderIssue
  invalid_version unusual_record_size invalid_clock : ℕ → HeaderIssue

abbrev pub issue_if : Bool → HeaderIssue → List HeaderIssue
issue_if true i = i ∷ []
issue_if false i = []

unfoldable pub validate_header : FileHeader → List HeaderIssue
validate_header h =
    issue_if (not (bytes_eq h.magic magic_bytes)) (invalid_magic h.magic)
    ++ (issue_if (ltb h.version 1) (invalid_version h.version)
        ++ (issue_if (not (h.record_size == 32 || (h.record_size == 48 || h.record_size == 64)))
              (unusual_record_size h.record_size)
            ++ issue_if (leb h.clock_mhz 0) (invalid_clock h.clock_mhz)))

-- What a path leads to: the bytes, and whether the suffix is '.csv'.
pub record TracePath : Type 0 where
  pub is_csv : Bool
  pub bytes : List ℕ

-- An adapter for a file; that of CSV is not a binary one.
pub data FileAdapter : Type 0 where
  csv : FileAdapter
  binary : Adapter → FileAdapter

-- The adapter for a header.
unfoldable pub of_header : FileHeader → Result (FileAdapter × Option FileHeader)
of_header h =
    if h.version == 1 && h.record_size == 48
    then ok (binary v11, some h)
    else if h.version == 1 && h.record_size == 32
    then ok (binary v10, some h)
    else if h.version == 2 && h.record_size == 64
    then ok (binary v12, some h)
    else err value_error

-- The adapter for a file of n bytes with no header.
unfoldable pub of_size : ℕ → Result (FileAdapter × Option FileHeader)
of_size n =
    if ltb 0 n && n % 32 == 0
    then ok (binary v10, none)
    else if ltb 0 n && n % 48 == 0
    then ok (binary v11, none)
    else if ltb 0 n && n % 64 == 0
    then ok (binary v12, none)
    else err value_error

unfoldable pub auto_detect : TracePath → Result (FileAdapter × Option FileHeader)
auto_detect p =
    if p.is_csv
    then ok (csv, none)
    else elim (probe p.bytes) [ some h ↦ of_header h | none ↦ of_size (length p.bytes) ]
