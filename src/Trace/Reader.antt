-- ===== src/Trace/Reader.antt =====
-- sentinel_hft/formats/reader.py: opening a trace file, reading its records and counting them. A
-- path stands for a file that exists. Reading CSV is a parameter: it is a program of its own.
pub mod Laws
pub mod Loop
use sentinel_hft.Prelude.{
  ℕ, ◌+◌, ◌-◌, ◌/◌, Bool, Option, none, some, List, [], ◌∷◌, ◌++◌, length, drop, ltb, leb, ◌==◌,
  if◌then◌else◌, ◌&&◌,
}
use sentinel_hft.Prelude.Reads.{reads}
use sentinel_hft.Prelude.Result.{Result, ok, err, Error, ◌>>=◌}
use sentinel_hft.Trace.Adapters.{StandardTrace, Adapter, record_size, decode}
use sentinel_hft.Trace.Header.{
  FileHeader, header_size, TracePath, FileAdapter, csv, binary, auto_detect,
}

pub record TraceFile : Type 0 where
  pub path : TracePath
  pub header : Option FileHeader
  pub adapter : FileAdapter
  pub data_offset : ℕ

-- The property `clock_mhz`.
abbrev pub clock_mhz : TraceFile → ℕ
clock_mhz f = elim f.header [ none ↦ 100 | some h ↦ h.clock_mhz ]

abbrev pub offset_of : Option FileHeader → ℕ
offset_of none = 0
offset_of (some h) = header_size

-- `TraceReader.open`
unfoldable pub open_trace : TracePath → Result TraceFile
open_trace p = do
  found ← auto_detect p
  ok (record { path = p; header = found.1; adapter = found.0; data_offset = offset_of found.1 })

-- What a generator yields, and the exception that ends it.
abbrev pub Yield : Type 0
Yield = List StandardTrace × Option Error

-- The loop over the buffers: it ends at the first short one.
unfoldable pub read_loop : Adapter → List (List ℕ) → Yield
read_loop a [] = ([], none)
read_loop a (raw ∷ bufs) =
    let later = read_loop a bufs in
    if ltb (length raw) (record_size a)
    then ([], none)
    else (elim (decode a raw) [ ok t ↦ (t ∷ later.0, later.1) | err e ↦ ([], some e) ])

-- The header's count if it has one, else the given one.
unfoldable pub count_of : Option FileHeader → ℕ → ℕ
count_of none n = n
count_of (some h) n = if ltb 0 h.record_count then h.record_count else n

module _ (read_csv : List ℕ → Yield) where
  -- `TraceReader.read`
  unfoldable pub read_trace : TraceFile → Yield
  read_trace f = elim f.adapter [
    | csv ↦ read_csv f.path.bytes
    | binary a ↦ read_loop a (reads (record_size a) (drop f.data_offset f.path.bytes))
  ]

  -- `TraceReader.read_path`
  unfoldable pub read_path : TracePath → Yield
  read_path p = elim (open_trace p) [ ok f ↦ read_trace f | err e ↦ ([], some e) ]

  -- The records of a file when the header does not say: by its size, or by reading CSV.
  unfoldable pub count_data : TraceFile → ℕ
  count_data f = elim f.adapter [
    | csv ↦ length (read_trace f).0
    | binary a ↦ (length f.path.bytes - f.data_offset) / record_size a
  ]

  -- `TraceReader.count`
  unfoldable pub count : TracePath → Result ℕ
  count p = do f ← open_trace p; ok (count_of f.header (count_data f))
