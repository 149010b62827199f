-- ===== src/Struct/Records.antt =====
-- A file of records of one size, as the audit log and the on-chain traces are: the loops that write
-- and read its body, and that a written body is read back.
use sentinel_hft.Prelude.{
  ℕ, ◌<◌, ◌≡◌, refl, ap, ◌∙◌, Option, none, some, List, [], ◌∷◌, ◌++◌, length, arith, if◌then◌else◌,
  ◌==◌, true, false,
}
use sentinel_hft.Prelude.Result.{Result, ok, err, Error, value_error, ◌>>=◌, bind-eq-ok}
use sentinel_hft.Prelude.Reads.{concat, AllLength, last_read, reads, reads-concat}

-- The bytes of all records, or the exception that stopped the writing.
unfoldable pub encode_all : {A : Type 0} → (A → Result (List ℕ)) → List A → Result (List ℕ)
encode_all encode [] = ok []
encode_all encode (r ∷ rs) = do buf ← encode r; rest ← encode_all encode rs; ok (buf ++ rest)

-- What a generator yields on the buffers that it reads, and the exception that ends it, if any: a
-- buffer of another size than n is an error.
unfoldable pub decode_all :
    {A : Type 0} → ℕ → (List ℕ → Result A) → List (List ℕ) → List A × Option Error
decode_all n decode [] = ([], none)
decode_all n decode (buf ∷ bufs) =
    let later = decode_all n decode bufs in
    if length buf == n
    then elim (decode buf) [ ok r ↦ (r ∷ later.0, later.1) | err e ↦ ([], some e) ]
    else ([], some value_error)

-- How a file ends after its whole records: a partial record is an error.
abbrev pub end_of : List ℕ → Option Error
end_of [] = none
end_of (b ∷ bs) = some value_error

module _ {A : Type 0} (n : ℕ) (encode : A → Result (List ℕ)) (decode : List ℕ → Result A) where
  -- The wire form has n bytes and is decoded to the record.
  pub record RoundTrips (r : A) : Type 0 where
    pub sized : (bs : List ℕ) → encode r ≡ ok bs → length bs ≡ n
    pub decoded : (bs : List ℕ) → encode r ≡ ok bs → decode bs ≡ ok r

  abbrev pub AllRoundTrip : List A → Type 0
  AllRoundTrip [] = Unit
  AllRoundTrip (r ∷ rs) = RoundTrips r × AllRoundTrip rs

  decode_all-rest :
      (rest : List ℕ) → length rest < n → decode_all n decode (last_read rest) ≡ ([], end_of rest)
  unfolding decode_all
  decode_all-rest [] h = refl
  decode_all-rest (b ∷ rest) h =
      let short : (length (b ∷ rest) == n) ≡ false = ground arith in rw short refl

  -- The buffers of a written file, and what the generator yields on them.
  record Buffers (rs : List A) (body rest : List ℕ) : Type 0 where
    bufs : List (List ℕ)
    whole : body ≡ concat bufs
    sizes : AllLength n bufs
    yielded : decode_all n decode (bufs ++ last_read rest) ≡ (rs, end_of rest)

  decode_all-cons :
      (r : A) (rs : List A) (e : Option Error) (buf : List ℕ) (bufs : List (List ℕ))
      → length buf ≡ n
      → decode buf ≡ ok r
      → decode_all n decode bufs ≡ (rs, e)
      → decode_all n decode (buf ∷ bufs) ≡ (r ∷ rs, e)
  unfolding decode_all
  decode_all-cons r rs e buf bufs len d h =
      let whole : (length buf == n) ≡ true = ground (arith, len) in rw (whole, d, h)

  encode_all-Buffers :
      (rs : List A) (body rest : List ℕ)
      → length rest < n
      → AllRoundTrip rs
      → encode_all encode rs ≡ ok body
      → Buffers rs body rest
  unfolding encode_all
  encode_all-Buffers [] body rest lt a h = record {
    bufs = [];
    whole = ground arith;
    sizes = tt;
    yielded = decode_all-rest rest lt;
  }
  encode_all-Buffers (r ∷ rs) body rest lt a h =
      let (buf, p, q) = bind-eq-ok (encode r) _ h in
      let (later, p', q') = bind-eq-ok (encode_all encode rs) _ q in
      let b = encode_all-Buffers rs later rest lt a.1 p' in
      let joined : body ≡ buf ++ later = ground arith in
      record {
        bufs = buf ∷ b.bufs;
        whole = joined ∙ ap (λ l. buf ++ l) b.whole;
        sizes = (a.0.sized buf p, b.sizes);
        yielded =
            decode_all-cons r rs (end_of rest) buf (b.bufs ++ last_read rest) (a.0.sized buf p)
              (a.0.decoded buf p) b.yielded;
      }

  -- Reading a written body, and bytes of a record that was cut short, yields the records.
  pub decode_all-encode_all :
      (rs : List A) (body rest : List ℕ)
      → length rest < n
      → AllRoundTrip rs
      → encode_all encode rs ≡ ok body
      → decode_all n decode (reads n (body ++ rest)) ≡ (rs, end_of rest)
  decode_all-encode_all rs body rest lt a h =
      let b = encode_all-Buffers rs body rest lt a h in
      rw (b.whole, reads-concat n b.bufs rest lt b.sizes) b.yielded
