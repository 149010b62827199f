-- ===== src/Struct.antt =====
-- Python's `struct` as the source uses it: little-endian format strings with no alignment, the
-- codes B, H, I, Q (unsigned), q (signed), `<n>s` (bytes) and `<n>x` (padding). A byte string is a
-- list of numbers. Unsigned fields are naturals: Python's check of their sign has no counterpart.
pub mod Words
pub mod RoundTrip
pub mod Total
pub mod Join
pub mod Records
pub mod Raises
use sentinel_hft.Prelude.{
  ℕ, zero, suc, ◌+◌, ◌*◌, ◌-◌, ◌/◌, ◌%◌, ◌^◌, Bool, List, [], ◌∷◌, ◌++◌, length, take, drop,
  replicate, ltb, ◌==◌, if◌then◌else◌,
}
use sentinel_hft.Prelude.Int.{ℤ, pos, negsuc}
use sentinel_hft.Prelude.Result.{Result, ok, err, struct_error, ◌>>=◌}

-- One item of a format string; sizes are in bytes.
pub data Code : Type 0 where
  uint sint chars pad : ℕ → Code

-- The arguments of `pack`, which are the items of the tuple that `unpack` returns.
abbrev pub Values : List Code → Type 0
Values [] = Unit
Values (uint w ∷ f) = ℕ × Values f
Values (sint w ∷ f) = ℤ × Values f
Values (chars n ∷ f) = List ℕ × Values f
Values (pad n ∷ f) = Values f

-- `struct.calcsize`
abbrev pub size : List Code → ℕ
size [] = 0
size (uint w ∷ f) = w + size f
size (sint w ∷ f) = w + size f
size (chars n ∷ f) = n + size f
size (pad n ∷ f) = n + size f

-- The w bytes of a number, least significant first, and back.
unfoldable pub to_le : ℕ → ℕ → List ℕ
to_le zero v = []
to_le (suc w) v = (v % 256) ∷ to_le w (v / 256)

unfoldable pub of_le : List ℕ → ℕ
of_le [] = 0
of_le (b ∷ bs) = b + 256 * of_le bs

-- Two's complement of w bytes, and the range that it covers.
unfoldable pub to_twos : ℕ → ℤ → ℕ
to_twos w (pos n) = n
to_twos w (negsuc n) = 256 ^ w - 1 - n

unfoldable pub of_twos : ℕ → ℕ → ℤ
of_twos w v = if ltb (2 * v) (256 ^ w) then pos v else negsuc (256 ^ w - 1 - v)

abbrev pub magnitude : ℤ → ℕ
magnitude (pos n) = n
magnitude (negsuc n) = n

-- `<n>s` cuts a longer string and fills a shorter one with zero bytes.
unfoldable pub fit : ℕ → List ℕ → List ℕ
fit zero bs = []
fit (suc n) [] = 0 ∷ fit n []
fit (suc n) (b ∷ bs) = b ∷ fit n bs

-- `Struct(f).pack(*vs)`: a number out of range is an error.
unfoldable pub pack : (f : List Code) → Values f → Result (List ℕ)
unfolding to_le to_twos fit
pack [] vs = ok []
pack (uint w ∷ f) (v, vs) = do
  rest ← pack f vs
  if ltb v (256 ^ w) then ok (to_le w v ++ rest) else err struct_error
pack (sint w ∷ f) (v, vs) = do
  rest ← pack f vs
  if ltb (2 * magnitude v) (256 ^ w) then ok (to_le w (to_twos w v) ++ rest) else err struct_error
pack (chars n ∷ f) (v, vs) = do rest ← pack f vs; ok (fit n v ++ rest)
pack (pad n ∷ f) vs = do rest ← pack f vs; ok (replicate n 0 ++ rest)

-- The fields at the front of a buffer that is long enough.
unfoldable pub read : (f : List Code) → List ℕ → Values f
unfolding of_le of_twos
read [] bs = tt
read (uint w ∷ f) bs = (of_le (take w bs), read f (drop w bs))
read (sint w ∷ f) bs = (of_twos w (of_le (take w bs)), read f (drop w bs))
read (chars n ∷ f) bs = (take n bs, read f (drop n bs))
read (pad n ∷ f) bs = read f (drop n bs)

-- `Struct(f).unpack(bs)`: the buffer has the exact size.
unfoldable pub unpack : (f : List Code) → List ℕ → Result (Values f)
unfolding read
unpack f bs = if length bs == size f then ok (read f bs) else err struct_error
