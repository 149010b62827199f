-- ===== src/Struct/RoundTrip.antt =====
-- `unpack` undoes `pack`, for every format, and `pack` fills exactly the size of the format.
use mathlib.Core.List.{append_assoc, append-nil}
use sentinel_hft.Prelude.{
  ℕ, ◌*◌, ◌^◌, ◌<◌, zero, suc, ◌≡◌, refl, List, [], ◌∷◌, ◌++◌, length, arith, length-append,
  length-replicate, replicate,
}
use sentinel_hft.Prelude.Int.{ℤ}
use sentinel_hft.Prelude.Result.{ok, bind-eq-ok}
use sentinel_hft.Prelude.Slices.{take-append, drop-append}
use sentinel_hft.Struct.{
  Code, uint, sint, chars, pad, Values, size, to_le, to_twos, fit, magnitude, pack, read, unpack,
}
use sentinel_hft.Struct.Words.{
  length-to_le, of_le-to_le, length-fit, fit_exact, to_twos-lt, of_twos-to_twos,
}

-- What `pack` takes unchanged: byte strings of the exact length. (No signed field has width 0.)
abbrev pub Fits : (f : List Code) → Values f → Type 0
Fits [] vs = Unit
Fits (uint w ∷ f) (v, vs) = Fits f vs
Fits (sint w ∷ f) (v, vs) = (0 < w) × Fits f vs
Fits (chars n ∷ f) (v, vs) = (length v ≡ n) × Fits f vs
Fits (pad n ∷ f) vs = Fits f vs

-- A call of `pack` that succeeds, taken apart at the first code.
pub pack-uint :
    (w : ℕ) (f : List Code) (v : ℕ) (vs : Values f) (bs : List ℕ)
    → pack (uint w ∷ f) (v, vs) ≡ ok bs
    → (r : List ℕ) × (pack f vs ≡ ok r) × (v < 256 ^ w) × (bs ≡ to_le w v ++ r)
unfolding pack
pack-uint w f v vs bs h =
    let (r, p, q) = bind-eq-ok (pack f vs) _ h in (r, p, ground arith, ground arith)

pub pack-sint :
    (w : ℕ) (f : List Code) (v : ℤ) (vs : Values f) (bs : List ℕ)
    → pack (sint w ∷ f) (v, vs) ≡ ok bs
    → (r : List ℕ) × (pack f vs ≡ ok r)
      × (2 * magnitude v < 256 ^ w)
      × (bs ≡ to_le w (to_twos w v) ++ r)
unfolding pack
pack-sint w f v vs bs h =
    let (r, p, q) = bind-eq-ok (pack f vs) _ h in (r, p, ground arith, ground arith)

pub pack-chars :
    (n : ℕ) (f : List Code) (v : List ℕ) (vs : Values f) (bs : List ℕ)
    → pack (chars n ∷ f) (v, vs) ≡ ok bs
    → (r : List ℕ) × (pack f vs ≡ ok r) × (bs ≡ fit n v ++ r)
unfolding pack
pack-chars n f v vs bs h = let (r, p, q) = bind-eq-ok (pack f vs) _ h in (r, p, ground arith)

pub pack-pad :
    (n : ℕ) (f : List Code) (vs : Values f) (bs : List ℕ)
    → pack (pad n ∷ f) vs ≡ ok bs
    → (r : List ℕ) × (pack f vs ≡ ok r) × (bs ≡ replicate n 0 ++ r)
unfolding pack
pack-pad n f vs bs h = let (r, p, q) = bind-eq-ok (pack f vs) _ h in (r, p, ground arith)

-- The length of what `pack` returns, whatever the arguments.
pub length-pack :
    (f : List Code) (vs : Values f) (bs : List ℕ) → pack f vs ≡ ok bs → length bs ≡ size f
length-pack [] vs bs h = unfold pack in ground arith
length-pack (uint w ∷ f) (v, vs) bs h =
    let (r, p, _, q) = pack-uint w f v vs bs h in
    rw (q, length-append, length-to_le, length-pack f vs r p)
length-pack (sint w ∷ f) (v, vs) bs h =
    let (r, p, _, q) = pack-sint w f v vs bs h in
    rw (q, length-append, length-to_le, length-pack f vs r p)
length-pack (chars n ∷ f) (v, vs) bs h =
    let (r, p, e) = pack-chars n f v vs bs h in
    rw (e, length-append, length-fit, length-pack f vs r p)
length-pack (pad n ∷ f) vs bs h =
    let (r, p, e) = pack-pad n f vs bs h in
    rw (e, length-append, length-replicate, length-pack f vs r p)

pub read-pack :
    (f : List Code) (vs : Values f) (bs rest : List ℕ)
    → Fits f vs
    → pack f vs ≡ ok bs
    → read f (bs ++ rest) ≡ vs
unfolding read
read-pack [] vs bs rest fits h = refl
read-pack (uint w ∷ f) (v, vs) bs rest fits h =
    let (r, p, lt, q) = pack-uint w f v vs bs h in
    rw (
      q,
      append_assoc,
      take-append w (to_le w v) (r ++ rest) (length-to_le w v),
      drop-append w (to_le w v) (r ++ rest) (length-to_le w v),
      of_le-to_le w v lt,
      read-pack f vs r rest fits p,
    )
read-pack (sint zero ∷ f) (v, vs) bs rest fits h = absurd (omega arith)
read-pack (sint (suc w) ∷ f) (v, vs) bs rest fits h =
    let (r, p, lt, q) = pack-sint (suc w) f v vs bs h in
    rw (
      q,
      append_assoc,
      take-append (suc w) (to_le (suc w) (to_twos (suc w) v)) (r ++ rest) (length-to_le _ _),
      drop-append (suc w) (to_le (suc w) (to_twos (suc w) v)) (r ++ rest) (length-to_le _ _),
      of_le-to_le (suc w) (to_twos (suc w) v) (to_twos-lt (suc w) v lt),
      of_twos-to_twos w v lt,
      read-pack f vs r rest fits.1 p,
    )
read-pack (chars n ∷ f) (v, vs) bs rest fits h =
    let (r, p, e) = pack-chars n f v vs bs h in
    rw (
      e,
      append_assoc,
      fit_exact n v fits.0,
      take-append n v (r ++ rest) fits.0,
      drop-append n v (r ++ rest) fits.0,
      read-pack f vs r rest fits.1 p,
    )
read-pack (pad n ∷ f) vs bs rest fits h =
    let (r, p, e) = pack-pad n f vs bs h in
    rw (
      e,
      append_assoc,
      drop-append n (replicate n 0) (r ++ rest) (length-replicate n 0),
      read-pack f vs r rest fits p,
    )

-- `unpack` returns the very values that were packed.
pub unpack-pack :
    (f : List Code) (vs : Values f) (bs : List ℕ)
    → Fits f vs
    → pack f vs ≡ ok bs
    → unpack f bs ≡ ok vs
unfolding unpack
unpack-pack f vs bs fits h =
    let r : read f bs ≡ vs = rw append-nil at (read-pack f vs bs [] fits h) in
    ground (arith, length-pack f vs bs h)
