-- ===== src/Struct/Total.antt =====
-- `pack` succeeds on every argument in range.
use sentinel_hft.Prelude.{ℕ, ◌*◌, ◌^◌, ◌<◌, ◌≡◌, refl, List, [], ◌∷◌, ◌++◌, replicate, lt→ltb}
use sentinel_hft.Prelude.Result.{ok}
use sentinel_hft.Struct.{Code, uint, sint, chars, pad, Values, to_le, to_twos, fit, magnitude, pack}

-- The range that each code demands.
abbrev pub Ranged : (f : List Code) → Values f → Type 0
Ranged [] vs = Unit
Ranged (uint w ∷ f) (v, vs) = (v < 256 ^ w) × Ranged f vs
Ranged (sint w ∷ f) (v, vs) = (2 * magnitude v < 256 ^ w) × Ranged f vs
Ranged (chars n ∷ f) (v, vs) = Ranged f vs
Ranged (pad n ∷ f) vs = Ranged f vs

pub pack_total : (f : List Code) (vs : Values f) → Ranged f vs → (bs : List ℕ) × (pack f vs ≡ ok bs)
unfolding pack
pack_total [] vs h = ([], refl)
pack_total (uint w ∷ f) (v, vs) h =
    let (bs, p) = pack_total f vs h.1 in (to_le w v ++ bs, rw (p, lt→ltb v _ h.0))
pack_total (sint w ∷ f) (v, vs) h =
    let (bs, p) = pack_total f vs h.1 in
    (to_le w (to_twos w v) ++ bs, rw (p, lt→ltb (2 * magnitude v) _ h.0))
pack_total (chars n ∷ f) (v, vs) h = let (bs, p) = pack_total f vs h in (fit n v ++ bs, rw p)
pack_total (pad n ∷ f) vs h = let (bs, p) = pack_total f vs h in (replicate n 0 ++ bs, rw p)
