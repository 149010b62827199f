-- ===== src/Prelude/Integral.antt =====
-- Numbers that meet the laws of `Float`: the integers, with a division that rounds to zero.
use sentinel_hft.Prelude.{some, ℕ, suc, ◌*◌, ◌/◌, ◌≡◌, false, true, arith}
use sentinel_hft.Prelude.Int.{ℤ, pos, negsuc, sub_ℕ, ltb_ℤ, ◌+ℤ◌, ◌-ℤ◌}
use sentinel_hft.Prelude.Float.{Float}

abbrev pub mul_ℤ : ℤ → ℤ → ℤ
mul_ℤ (pos a) (pos b) = pos (a * b)
mul_ℤ (pos a) (negsuc b) = sub_ℕ 0 (a * suc b)
mul_ℤ (negsuc a) (pos b) = sub_ℕ 0 (suc a * b)
mul_ℤ (negsuc a) (negsuc b) = pos (suc a * suc b)

abbrev pub div_ℤ : ℤ → ℤ → ℤ
div_ℤ (pos a) (pos b) = pos (a / b)
div_ℤ (pos a) (negsuc b) = sub_ℕ 0 (a / suc b)
div_ℤ (negsuc a) (pos b) = sub_ℕ 0 (suc a / b)
div_ℤ (negsuc a) (negsuc b) = pos (suc a / suc b)

pub mul_nonneg :
    (a b : ℤ)
    → ltb_ℤ a (pos 0) ≡ false
    → ltb_ℤ b (pos 0) ≡ false
    → ltb_ℤ (mul_ℤ a b) (pos 0) ≡ false
mul_nonneg (pos a) (pos b) ha hb = ground arith
mul_nonneg (pos a) (negsuc b) ha hb = absurd (ground arith)
mul_nonneg (negsuc a) b ha hb = absurd (ground arith)

pub div_nonneg :
    (a b : ℤ)
    → ltb_ℤ a (pos 0) ≡ false
    → ltb_ℤ b (pos 0) ≡ false
    → ltb_ℤ (div_ℤ a b) (pos 0) ≡ false
div_nonneg (pos a) (pos b) ha hb = ground arith
div_nonneg (pos a) (negsuc b) ha hb = absurd (ground arith)
div_nonneg (negsuc a) b ha hb = absurd (ground arith)

pub sub_le : (a q : ℤ) → ltb_ℤ q (pos 0) ≡ false → ltb_ℤ a (a -ℤ q) ≡ false
unfolding ◌-ℤ◌
sub_le a q h = ground arith

pub add_ge : (a q : ℤ) → ltb_ℤ q (pos 0) ≡ false → ltb_ℤ (a +ℤ q) a ≡ false
unfolding ◌+ℤ◌
add_ge a q h = ground arith

pub sub_nonneg : (a b : ℤ) → ltb_ℤ a b ≡ false → ltb_ℤ (a -ℤ b) (pos 0) ≡ false
unfolding ◌-ℤ◌
sub_nonneg a b h = ground arith

pub add_nonneg :
    (a b : ℤ) → ltb_ℤ a (pos 0) ≡ false → ltb_ℤ b (pos 0) ≡ false → ltb_ℤ (a +ℤ b) (pos 0) ≡ false
unfolding ◌+ℤ◌
add_nonneg a b h k = ground arith

pub lt_irrefl : (a : ℤ) → ltb_ℤ a a ≡ false
lt_irrefl a = ground arith

pub lt_asym : (a b : ℤ) → ltb_ℤ a b ≡ true → ltb_ℤ b a ≡ false
lt_asym a b h = ground arith

pub ge_trans : (a b c : ℤ) → ltb_ℤ a b ≡ false → ltb_ℤ b c ≡ false → ltb_ℤ a c ≡ false
ge_trans a b c h k = ground arith

pub of_nat_nonneg : (n : ℕ) → ltb_ℤ (pos n) (pos 0) ≡ false
of_nat_nonneg n = ground arith

abbrev pub integral : Float
integral = record {
  Num = ℤ;
  of_nat = pos;
  add = ◌+ℤ◌;
  sub = ◌-ℤ◌;
  mul = mul_ℤ;
  div = div_ℤ;
  lt = ltb_ℤ;
  trunc = λ a. a;
  to_int = some;
  fixed = λ k a. some (mul_ℤ (pos k) a);
  lt_irrefl = lt_irrefl;
  lt_asym = lt_asym;
  ge_trans = ge_trans;
  sub_le = sub_le;
  add_ge = add_ge;
  sub_nonneg = sub_nonneg;
  of_nat_nonneg = of_nat_nonneg;
  add_nonneg = add_nonneg;
  mul_nonneg = mul_nonneg;
  div_nonneg = div_nonneg;
}
