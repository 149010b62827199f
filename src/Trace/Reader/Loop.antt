-- ===== src/Trace/Reader/Loop.antt =====
-- The loop of the reader yields as many records as fit into the bytes, and raises nothing.
use sentinel_hft.Prelude.{
  ℕ, zero, suc, ◌-◌, ◌/◌, ◌≤◌, ◌<◌, ◌≡◌, refl, sym, ap, ◌∙◌, true, false, none, List, [], ◌∷◌,
  length, take, drop, ltb, arith, length-take, length-drop, Bool-cases, inl, inr, ltb→lt,
}
use sentinel_hft.Prelude.Reads.{reads, reads_from}
use sentinel_hft.Prelude.Result.{ok}
use sentinel_hft.Trace.Adapters.{StandardTrace, Adapter, v10, v11, v12, record_size, decode}
use sentinel_hft.Trace.Adapters.RoundTrip.{decode_total}
use sentinel_hft.Trace.Reader.{Yield, read_loop}

pub read_loop-cons :
    (a : Adapter) (raw : List ℕ) (bufs : List (List ℕ)) (t : StandardTrace)
    → length raw ≡ record_size a
    → decode a raw ≡ ok t
    → read_loop a (raw ∷ bufs) ≡ (t ∷ (read_loop a bufs).0, (read_loop a bufs).1)
unfolding read_loop
read_loop-cons a raw bufs t len d =
    let long : ltb (length raw) (record_size a) ≡ false = ground arith in rw (long, d)

pub read_loop_short :
    (a : Adapter) (raw : List ℕ) (bufs : List (List ℕ))
    → length raw < record_size a
    → read_loop a (raw ∷ bufs) ≡ ([], none)
unfolding read_loop
read_loop_short a raw bufs h =
    let short : ltb (length raw) (record_size a) ≡ true = ground arith in rw short

-- One whole record more in the file is one record more in the quotient.
div-record_size :
    (a : Adapter) (n : ℕ)
    → record_size a ≤ n
    → n / record_size a ≡ suc ((n - record_size a) / record_size a)
div-record_size v10 n h = omega arith
div-record_size v11 n h = omega arith
div-record_size v12 n h = omega arith

div-record_size_small : (a : Adapter) (n : ℕ) → n < record_size a → n / record_size a ≡ 0
div-record_size_small v10 n h = omega arith
div-record_size_small v11 n h = omega arith
div-record_size_small v12 n h = omega arith

record_size_pos : (a : Adapter) → 0 < record_size a
record_size_pos v10 = omega arith
record_size_pos v11 = omega arith
record_size_pos v12 = omega arith

-- The loop never raises, and yields as many records as fit into the bytes.
abbrev Counted : Adapter → ℕ → Yield → Type 0
Counted a n y = (length y.0 ≡ n / record_size a) × (y.1 ≡ none)

Counted-nil : (a : Adapter) → Counted a 0 (read_loop a [])
unfolding read_loop
Counted-nil v10 = (refl, refl)
Counted-nil v11 = (refl, refl)
Counted-nil v12 = (refl, refl)

Counted-short :
    (a : Adapter) (bs : List ℕ) (bufs : List (List ℕ))
    → length bs < record_size a
    → Counted a (length bs) (read_loop a (take (record_size a) bs ∷ bufs))
Counted-short a bs bufs h =
    rw
      (read_loop_short a (take (record_size a) bs) bufs
        (omega (arith, length-take (record_size a) bs)))
      (sym (div-record_size_small a (length bs) h), refl)

Counted-long :
    (a : Adapter) (bs : List ℕ) (bufs : List (List ℕ))
    → record_size a ≤ length bs
    → Counted a (length (drop (record_size a) bs)) (read_loop a bufs)
    → Counted a (length bs) (read_loop a (take (record_size a) bs ∷ bufs))
Counted-long a bs bufs h (n, e) =
    let len : length (take (record_size a) bs) ≡ record_size a =
      omega (arith, length-take (record_size a) bs) in
    let (t, d) = decode_total a (take (record_size a) bs) len in
    let same : length (read_loop a bufs).0 ≡ (length bs - record_size a) / record_size a =
      n ∙ ap (λ m. m / record_size a) (length-drop (record_size a) bs) in
    rw (read_loop-cons a (take (record_size a) bs) bufs t len d)
      (ap suc same ∙ sym (div-record_size a (length bs) h), e)

read_loop-reads_from :
    (a : Adapter) (k : ℕ) (bs : List ℕ)
    → length bs ≤ k
    → Counted a (length bs) (read_loop a (reads_from k (record_size a) bs))
unfolding reads_from
read_loop-reads_from a zero [] h = Counted-nil a
read_loop-reads_from a zero (b ∷ bs) h = absurd (omega arith)
read_loop-reads_from a (suc k) [] h = Counted-nil a
read_loop-reads_from a (suc k) (b ∷ bs) h =
    elim (Bool-cases (ltb (length (b ∷ bs)) (record_size a))) [
      | inl short ↦
          Counted-short a (b ∷ bs) (reads_from k (record_size a) (drop (record_size a) (b ∷ bs)))
            (ltb→lt _ _ short)
      | inr long ↦
          Counted-long a (b ∷ bs) (reads_from k (record_size a) (drop (record_size a) (b ∷ bs)))
            (ground arith) (read_loop-reads_from a k (drop (record_size a) (b ∷ bs)) shorter)
    ]
  where
    shorter : length (drop (record_size a) (b ∷ bs)) ≤ k
    shorter = omega (arith, length-drop (record_size a) (b ∷ bs), record_size_pos a)

-- Reading a file's bytes never raises, and yields as many records as fit into them.
pub read_loop-reads :
    (a : Adapter) (bs : List ℕ)
    → (length (read_loop a (reads (record_size a) bs)).0 ≡ length bs / record_size a)
      × ((read_loop a (reads (record_size a) bs)).1 ≡ none)
unfolding reads
read_loop-reads a bs = read_loop-reads_from a (length bs) bs (omega arith)
