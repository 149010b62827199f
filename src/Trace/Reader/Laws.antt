-- ===== src/Trace/Reader/Laws.antt =====
-- What reading a file yields, and that counting agrees with it.
use sentinel_hft.Prelude.{
  ℕ, ◌/◌, ◌<◌, ◌≡◌, refl, sym, ap, ◌∙◌, false, Option, none, some, List, [], ◌∷◌, ◌++◌, map, length,
  drop, ltb, if◌then◌else◌, arith, length-drop,
}
use sentinel_hft.Prelude.Reads.{concat, AllLength, last_read, reads-concat}
use sentinel_hft.Prelude.Slices.{drop-append}
use sentinel_hft.Prelude.Result.{Result, ok, ◌>>=◌, bind-eq-ok}
use sentinel_hft.Trace.Adapters.{StandardTrace, Adapter, record_size, encode}
use sentinel_hft.Trace.Adapters.RoundTrip.{kept, length-encode, kept-decode-encode}
use sentinel_hft.Trace.Header.{magic_bytes, FileHeader, encode_header, TracePath, binary}
use sentinel_hft.Trace.Header.Laws.{length-encode_header, header_version, auto_detect-encode_header}
use sentinel_hft.Trace.Reader.{
  TraceFile, Yield, open_trace, read_loop, read_trace, read_path, count_data, count_of, count,
}
use sentinel_hft.Trace.Reader.Loop.{read_loop-cons, read_loop_short, read_loop-reads}

-- The records of a body of traces, one after another.
unfoldable pub encode_traces : Adapter → List StandardTrace → Result (List ℕ)
encode_traces a [] = ok []
encode_traces a (t ∷ ts) = do buf ← encode a t; later ← encode_traces a ts; ok (buf ++ later)

-- The buffers of such a body, and what the loop yields on them.
record Written (a : Adapter) (ts : List StandardTrace) (body rest : List ℕ) : Type 0 where
  bufs : List (List ℕ)
  whole : body ≡ concat bufs
  sizes : AllLength (record_size a) bufs
  decoded : read_loop a (bufs ++ last_read rest) ≡ (map (kept a) ts, none)

read_loop-last_read :
    (a : Adapter) (rest : List ℕ)
    → length rest < record_size a
    → read_loop a (last_read rest) ≡ ([], none)
unfolding read_loop
read_loop-last_read a [] h = refl
read_loop-last_read a (b ∷ rest) h = read_loop_short a (b ∷ rest) [] h

encode_traces-Written :
    (a : Adapter) (ts : List StandardTrace) (body rest : List ℕ)
    → length rest < record_size a
    → encode_traces a ts ≡ ok body
    → Written a ts body rest
unfolding encode_traces
encode_traces-Written a [] body rest lt e = record {
  bufs = [];
  whole = ground arith;
  sizes = tt;
  decoded = read_loop-last_read a rest lt;
}
encode_traces-Written a (t ∷ ts) body rest lt e =
    let (buf, p, q) = bind-eq-ok (encode a t) _ e in
    let (later, p', q') = bind-eq-ok (encode_traces a ts) _ q in
    let w = encode_traces-Written a ts later rest lt p' in
    let joined : body ≡ buf ++ later = ground arith in
    let len = length-encode a t buf p in
    record {
      bufs = buf ∷ w.bufs;
      whole = joined ∙ ap (λ l. buf ++ l) w.whole;
      sizes = (len, w.sizes);
      decoded = rw (
        read_loop-cons a buf (w.bufs ++ last_read rest) (kept a t) len
            (kept-decode-encode a t buf p),
        w.decoded,
      );
    }

-- The number of records that the header declares; 0 if it does not, or is not there.
abbrev pub declared : Option FileHeader → ℕ
declared none = 0
declared (some h) = h.record_count

count_of-declared :
    (o : Option FileHeader) (n : ℕ) → count_of o n ≡ (if ltb 0 (declared o) then declared o else n)
unfolding count_of
count_of-declared none n = refl
count_of-declared (some h) n = refl

module _ (read_csv : List ℕ → Yield) where
  -- Counting by size counts what is read.
  count_data-read_trace :
      (f : TraceFile) (a : Adapter)
      → f.adapter ≡ binary a
      → (count_data read_csv f ≡ length (read_trace read_csv f).0)
        × ((read_trace read_csv f).1 ≡ none)
  unfolding count_data read_trace
  count_data-read_trace f a e =
      let (n, ended) = read_loop-reads a (drop f.data_offset f.path.bytes) in
      let left = length-drop f.data_offset f.path.bytes in
      rw (count_data, read_trace, e) (ap (λ m. m / record_size a) (sym left) ∙ sym n, ended)

  read_path-open :
      (p : TracePath) (f : TraceFile)
      → open_trace p ≡ ok f
      → read_path read_csv p ≡ read_trace read_csv f
  unfolding read_path
  read_path-open p f e = rw (read_path, e)

  count-open :
      (p : TracePath) (f : TraceFile)
      → open_trace p ≡ ok f
      → count read_csv p
        ≡ ok (if ltb 0 (declared f.header) then declared f.header else count_data read_csv f)
  unfolding count
  count-open p f e = rw e (ap ok (count_of-declared f.header (count_data read_csv f)))

  -- For a binary file `count` returns the header's count if that is not 0, whatever the file
  -- holds, and else the number of records that reading yields; and reading never raises.
  pub count-read_path :
      (p : TracePath) (f : TraceFile) (a : Adapter)
      → open_trace p ≡ ok f
      → f.adapter ≡ binary a
      → (count read_csv p
          ≡ ok (
              if ltb 0 (declared f.header)
              then declared f.header
              else length (read_path read_csv p).0))
        × ((read_path read_csv p).1 ≡ none)
  count-read_path p f a e b =
      let (n, ended) = count_data-read_trace f a b in
      rw (count-open p f e, read_path-open p f e, n) (refl, ended)

  -- A file of a header, whole records and a shorter rest is read back: the format is found from the
  -- header, the header is skipped, every record is yielded in order with the fields that its format
  -- carries, and the rest is passed over in silence.
  pub read_path-written :
      (a : Adapter) (h : FileHeader) (ts : List StandardTrace) (head body rest : List ℕ)
      → h.magic ≡ magic_bytes
      → h.version ≡ header_version a
      → h.record_size ≡ record_size a
      → length rest < record_size a
      → encode_header h ≡ ok head
      → encode_traces a ts ≡ ok body
      → read_path read_csv (record { is_csv = false; bytes = head ++ (body ++ rest) })
        ≡ (map (kept a) ts, none)
  unfolding open_trace read_trace
  read_path-written a h ts head body rest m v r lt eh et =
      let p : TracePath = record { is_csv = false; bytes = head ++ (body ++ rest) } in
      let f : TraceFile = record {
        path = p;
        header = some h;
        adapter = binary a;
        data_offset = 32;
      } in
      let opened : open_trace p ≡ ok f =
        rw (auto_detect-encode_header a h head (body ++ rest) m v r eh) in
      let w = encode_traces-Written a ts body rest lt et in
      rw
        (
          read_path-open p f opened,
          drop-append 32 head (body ++ rest) (length-encode_header h head eh),
          w.whole,
          reads-concat (record_size a) w.bufs rest lt w.sizes,
        )
        w.decoded
