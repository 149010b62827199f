-- ===== src/Risk/Bounds.antt =====
-- The exposure and the tokens of the risk gate stay within their limits.
use sentinel_hft.Prelude.{ℕ, ◌-◌, ◌≡◌, ◌==◌, Bool, true, false, if_split, arith}
use sentinel_hft.Prelude.Float.{Float, geb, max, min}
use sentinel_hft.Risk.{
  Side, buy, sell, PositionTracker, TokenBucket, refill, try_consume, apply, release,
}
use sentinel_hft.Risk.Admission.{fits}

module _ (F : Float) where
  open F use {
    Num, of_nat, add, sub, mul, div, lt, lt_irrefl, lt_asym, ge_trans, sub_le, sub_nonneg,
    of_nat_nonneg, add_nonneg, mul_nonneg, div_nonneg,
  }

  -- a ≤ b
  abbrev pub Le : Num → Num → Type 0
  Le a b = lt b a ≡ false

  abbrev pub NonNeg : Num → Type 0
  NonNeg a = lt a (of_nat 0) ≡ false

  -- Each exposure is between zero and its limit.
  pub record IsWithin (p : PositionTracker Num) : Type 0 where
    pub long : NonNeg p.long_qty × Le p.long_qty p.max_long_qty
    pub short : NonNeg p.short_qty × Le p.short_qty p.max_short_qty
    pub notional : NonNeg p.notional × Le p.notional p.max_notional

  -- So is the number of tokens, while the rate is not negative.
  pub record IsFilled (b : TokenBucket Num) : Type 0 where
    pub tokens : NonNeg b.tokens × Le b.tokens (of_nat b.max_tokens)
    pub rate : NonNeg b.refill_per_second

  not_lt : (a b : Num) → geb F a b ≡ true → lt a b ≡ false
  not_lt a b h = ground arith

  -- Zero is below a limit that is above something not negative.
  pub floor-bounds :
      (a q m : Num)
      → NonNeg a × Le a m
      → NonNeg q
      → NonNeg (max F (of_nat 0) (sub a q)) × Le (max F (of_nat 0) (sub a q)) m
  floor-bounds a q m (low, high) hq =
      if_split (λ x. NonNeg x × Le x m) (lt (of_nat 0) (sub a q))
        (λ positive. (lt_asym _ _ positive, ge_trans m a (sub a q) high (sub_le a q hq)))
        (λ other. (lt_irrefl _, ge_trans m a (of_nat 0) high low))

  pub release-IsWithin :
      (side : Side) (qty n : Num) (p : PositionTracker Num)
      → NonNeg qty
      → NonNeg n
      → IsWithin p
      → IsWithin (release F side qty n p)
  unfolding release
  release-IsWithin buy qty n p hq hn w = record {
    long = floor-bounds p.long_qty qty p.max_long_qty w.long hq;
    short = w.short;
    notional = floor-bounds p.notional n p.max_notional w.notional hn;
  }
  release-IsWithin sell qty n p hq hn w = record {
    long = w.long;
    short = floor-bounds p.short_qty qty p.max_short_qty w.short hq;
    notional = floor-bounds p.notional n p.max_notional w.notional hn;
  }

  refill-IsFilled : (now : ℕ) (b : TokenBucket Num) → IsFilled b → IsFilled (refill F now b)
  unfolding refill
  refill-IsFilled now b f =
      if_split IsFilled (b.last_refill_ns == 0)
        (λ first. record { tokens = f.tokens; rate = f.rate })
        (λ later. record { tokens = filled; rate = f.rate })
    where
      dt : Num
      dt = div (of_nat (now - b.last_refill_ns)) (of_nat 1000000000)

      sum : Num
      sum = add b.tokens (mul dt b.refill_per_second)

      filled :
          NonNeg (min F (of_nat b.max_tokens) sum)
          × Le (min F (of_nat b.max_tokens) sum) (of_nat b.max_tokens)
      filled =
          if_split (λ x. NonNeg x × Le x (of_nat b.max_tokens)) (lt sum (of_nat b.max_tokens))
            (λ below. (
              add_nonneg _ _ f.tokens.0
                  (mul_nonneg _ _ (div_nonneg _ _ (of_nat_nonneg _) (of_nat_nonneg _)) f.rate),
              lt_asym _ _ below,
            ))
            (λ above. (of_nat_nonneg _, lt_irrefl _))

  pub try_consume-IsFilled :
      (now n : ℕ) (b : TokenBucket Num) → IsFilled b → IsFilled (try_consume F now n b).1
  unfolding try_consume
  try_consume-IsFilled now n b f =
      let r = refill F now b in
      let g = refill-IsFilled now b f in
      if_split (λ (x : Bool × TokenBucket Num). IsFilled x.1) (geb F r.tokens (of_nat n))
        (λ enough. record {
          tokens = (
            sub_nonneg _ _ (not_lt _ _ enough),
            ge_trans _ _ _ g.tokens.1 (sub_le _ _ (of_nat_nonneg n)),
          );
          rate = g.rate;
        })
        (λ short. g)

  pub apply-IsWithin :
      (side : Side) (qty n : Num) (p : PositionTracker Num)
      → NonNeg qty
      → NonNeg n
      → fits F side qty n p ≡ true
      → IsWithin p
      → IsWithin (apply F side qty n p)
  unfolding apply
  apply-IsWithin buy qty n p hq hn h w = record {
    long = (add_nonneg _ _ w.long.0 hq, ground arith);
    short = w.short;
    notional = (add_nonneg _ _ w.notional.0 hn, ground arith);
  }
  apply-IsWithin sell qty n p hq hn h w = record {
    long = w.long;
    short = (add_nonneg _ _ w.short.0 hq, ground arith);
    notional = (add_nonneg _ _ w.notional.0 hn, ground arith);
  }
