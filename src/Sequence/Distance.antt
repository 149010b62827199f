-- ===== src/Sequence/Distance.antt =====
-- The signed distance is right wherever the true distance fits 32 bits.
use sentinel_hft.Prelude.{ℕ, suc, ◌+◌, ◌-◌, ◌%◌, ◌≤◌, ◌<◌, ◌≡◌, ap, ◌∙◌, arith}
use sentinel_hft.Prelude.Int.{ℤ, pos, negsuc, pos_part, neg_part}
use sentinel_hft.Sequence.{u32_half, u32_modulus, u32, u32_distance}

-- From a true number to one that is k behind it on the line, k < 2^31.
pub u32_distance_ahead :
    (n k : ℕ) → k < u32_half → u32_distance (n % u32_modulus) ((n + k) % u32_modulus) ≡ pos k
unfolding u32_distance
u32_distance_ahead n k h = ground arith

-- The same for two numbers in order.
pub u32_distance_between :
    (m n : ℕ)
    → m ≤ n
    → n < m + u32_half
    → u32_distance (m % u32_modulus) (n % u32_modulus) ≡ pos (n - m)
u32_distance_between m n le lt =
    let e : n ≡ m + (n - m) = omega arith in
    ap (λ v. u32_distance (m % u32_modulus) (v % u32_modulus)) e
    ∙ u32_distance_ahead m (n - m) (omega arith)

pub u32_distance_behind :
    (n k : ℕ) → k < u32_half → u32_distance ((n + suc k) % u32_modulus) (n % u32_modulus) ≡ negsuc k
unfolding u32_distance
u32_distance_behind n k h = ground arith

-- What a distance that is not negative says: it is below 2^31, and leads from the one number to the
-- other on the circle.
pub u32_distance_pos :
    (a b d : ℕ)
    → u32_distance a b ≡ pos d
    → (d < u32_half) × ((a + d) % u32_modulus ≡ b % u32_modulus)
unfolding u32_distance
u32_distance_pos a b d h = ground arith

pub u32-lt : (z : ℤ) → u32 z < u32_modulus
unfolding u32
u32-lt (pos n) = omega arith
u32-lt (negsuc n) = omega arith

-- The range of the distance is that of a signed 32-bit number.
pub u32_distance_range :
    (a b : ℕ) → (pos_part (u32_distance a b) < u32_half) × (neg_part (u32_distance a b) ≤ u32_half)
unfolding u32_distance
u32_distance_range a b = ground arith
