-- ===== src/Struct/Words.antt =====
-- Little-endian numbers and two's complement: what is written is what is read.
use native.Mathlib.Nat.{pow-suc}
use sentinel_hft.Prelude.{
  ℕ, zero, suc, ◌*◌, ◌/◌, ◌^◌, ◌<◌, ◌≡◌, refl, ap, List, [], ◌∷◌, length, arith,
}
use sentinel_hft.Prelude.Int.{ℤ, pos, negsuc}
use sentinel_hft.Struct.{to_le, of_le, to_twos, of_twos, fit, magnitude}

pub length-to_le : (w v : ℕ) → length (to_le w v) ≡ w
unfolding to_le
length-to_le zero v = refl
length-to_le (suc w) v = ap suc (length-to_le w (v / 256))

pub of_le-to_le : (w v : ℕ) → v < 256 ^ w → of_le (to_le w v) ≡ v
unfolding to_le of_le
of_le-to_le zero v h = omega arith
of_le-to_le (suc w) v h = omega (arith, of_le-to_le w (v / 256) (omega (arith, pow-suc 256 w)))

pub length-fit : (n : ℕ) (bs : List ℕ) → length (fit n bs) ≡ n
unfolding fit
length-fit zero bs = refl
length-fit (suc n) [] = ap suc (length-fit n [])
length-fit (suc n) (b ∷ bs) = ap suc (length-fit n bs)

pub fit_exact : (n : ℕ) (bs : List ℕ) → length bs ≡ n → fit n bs ≡ bs
unfolding fit
fit_exact zero [] h = refl
fit_exact zero (b ∷ bs) h = absurd (omega arith)
fit_exact (suc n) [] h = absurd (omega arith)
fit_exact (suc n) (b ∷ bs) h = ap (λ l. b ∷ l) (fit_exact n bs (omega arith))

pub to_twos-lt : (w : ℕ) (v : ℤ) → 2 * magnitude v < 256 ^ w → to_twos w v < 256 ^ w
unfolding to_twos
to_twos-lt w (pos n) h = omega arith
to_twos-lt w (negsuc n) h = omega arith

-- The width is not 0, so the modulus is even.
pub of_twos-to_twos :
    (w : ℕ) (v : ℤ) → 2 * magnitude v < 256 ^ suc w → of_twos (suc w) (to_twos (suc w) v) ≡ v
unfolding to_twos of_twos
of_twos-to_twos w (pos n) h = ground arith
of_twos-to_twos w (negsuc n) h = ground (arith, pow-suc 256 w)
