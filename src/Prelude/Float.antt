-- ===== src/Prelude/Float.antt =====
-- Python floats as an interface: a type of numbers with its arithmetic and one comparison. The laws
-- are those that IEEE 754 doubles have under rounding, on values that are not NaN. Exact laws, such
-- as associativity, are not among them.
use sentinel_hft.Prelude.{ℕ, ◌≡◌, Bool, true, false, not, ◌&&◌, Option, none, some, if◌then◌else◌}
use sentinel_hft.Prelude.Int.{ℤ}
use sentinel_hft.Prelude.Result.{Result, ok, err, overflow_error}

pub record Float : Type 1 where
  pub Num : Type 0
  pub of_nat : ℕ → Num
  pub add : Num → Num → Num
  pub sub : Num → Num → Num
  pub mul : Num → Num → Num
  pub div : Num → Num → Num
  -- `a < b`
  pub lt : Num → Num → Bool
  -- `int(a)` of a number that is finite.
  pub trunc : Num → ℤ
  -- `int(a)`, and `int(round(a * scale))`: none for an infinite number, where Python raises
  -- `OverflowError`.
  pub to_int : Num → Option ℤ
  pub fixed : ℕ → Num → Option ℤ
  pub lt_irrefl : (a : Num) → lt a a ≡ false
  pub lt_asym : (a b : Num) → lt a b ≡ true → lt b a ≡ false
  pub ge_trans : (a b c : Num) → lt a b ≡ false → lt b c ≡ false → lt a c ≡ false
  pub sub_le : (a q : Num) → lt q (of_nat 0) ≡ false → lt a (sub a q) ≡ false
  pub add_ge : (a q : Num) → lt q (of_nat 0) ≡ false → lt (add a q) a ≡ false
  pub sub_nonneg : (a b : Num) → lt a b ≡ false → lt (sub a b) (of_nat 0) ≡ false
  pub of_nat_nonneg : (n : ℕ) → lt (of_nat n) (of_nat 0) ≡ false
  pub add_nonneg :
      (a b : Num)
      → lt a (of_nat 0) ≡ false
      → lt b (of_nat 0) ≡ false
      → lt (add a b) (of_nat 0) ≡ false
  pub mul_nonneg :
      (a b : Num)
      → lt a (of_nat 0) ≡ false
      → lt b (of_nat 0) ≡ false
      → lt (mul a b) (of_nat 0) ≡ false
  pub div_nonneg :
      (a b : Num)
      → lt a (of_nat 0) ≡ false
      → lt b (of_nat 0) ≡ false
      → lt (div a b) (of_nat 0) ≡ false

module _ (F : Float) where
  open F use {Num, of_nat, sub, lt}

  -- `a >= b` on values that are not NaN.
  abbrev pub geb : Num → Num → Bool
  geb a b = not (lt a b)

  -- `a == 0`
  abbrev pub is_zero : Num → Bool
  is_zero a = not (lt a (of_nat 0)) && not (lt (of_nat 0) a)

  -- Python's `max(a, b)` and `min(a, b)`: the first argument unless the second is beyond it.
  abbrev pub max : Num → Num → Num
  max a b = if lt a b then b else a

  abbrev pub min : Num → Num → Num
  min a b = if lt b a then b else a

  -- Python's `abs(a)`.
  abbrev pub abs : Num → Num
  abs a = if lt a (of_nat 0) then sub (of_nat 0) a else a

-- A conversion to `int`, which raises on an infinite number.
abbrev pub finite : Option ℤ → Result ℤ
finite (some z) = ok z
finite none = err overflow_error
