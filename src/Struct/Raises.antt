-- ===== src/Struct/Raises.antt =====
-- Packing raises `struct.error` and nothing else: no lookup error comes out of it.
use sentinel_hft.Prelude.{◌*◌, ◌^◌, List, [], ◌∷◌, ◌++◌, ltb}
use sentinel_hft.Prelude.Result.{
  struct_error, IsNumeric, OnlyRaises, bind-OnlyRaises, bind-OnlyRaises_ok, test-OnlyRaises,
}
use sentinel_hft.Struct.{Code, uint, sint, chars, pad, Values, magnitude, to_le, to_twos, pack}

pub pack-OnlyRaises : (f : List Code) (vs : Values f) → OnlyRaises IsNumeric (pack f vs)
unfolding pack
pack-OnlyRaises [] vs = tt
pack-OnlyRaises (uint w ∷ f) (v, vs) =
    bind-OnlyRaises IsNumeric (pack f vs) _ (pack-OnlyRaises f vs)
      (λ rest e. test-OnlyRaises IsNumeric struct_error (ltb v (256 ^ w)) (to_le w v ++ rest) tt)
pack-OnlyRaises (sint w ∷ f) (v, vs) =
    bind-OnlyRaises IsNumeric (pack f vs) _ (pack-OnlyRaises f vs) (λ rest e.
      test-OnlyRaises IsNumeric struct_error (ltb (2 * magnitude v) (256 ^ w))
        (to_le w (to_twos w v) ++ rest) tt)
pack-OnlyRaises (chars n ∷ f) (v, vs) =
    bind-OnlyRaises_ok IsNumeric (pack f vs) _ (pack-OnlyRaises f vs)
pack-OnlyRaises (pad n ∷ f) vs = bind-OnlyRaises_ok IsNumeric (pack f vs) _ (pack-OnlyRaises f vs)
