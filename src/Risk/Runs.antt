-- ===== src/Risk/Runs.antt =====
-- Over any stream of intents, the exposure and the tokens stay within their limits.
use sentinel_hft.Prelude.{ℕ, ◌≡◌, refl, sym, subst, ◌∙◌, Bool, true, false, List, [], ◌∷◌, if_split}
use sentinel_hft.Prelude.Float.{Float}
use sentinel_hft.Audit.Record.{RejectReason}
use sentinel_hft.Risk.{
  IntentAction, new, cancel, QuoteIntent, RiskGateConfig, RiskGate, Decision, try_consume, apply,
  accept, limits, rated, submit, withdraw, dispatch, evaluate, evaluate_all, new_gate, counted,
  kill_check,
}
use sentinel_hft.Risk.Outcome.{
  IsVerdict, verdict_accepted, verdict_order_size, verdict_position, verdict_notional,
  check-IsVerdict, is_accepted,
}
use sentinel_hft.Risk.Admission.{accepted-check}
use sentinel_hft.Risk.Bounds.{
  NonNeg, IsWithin, IsFilled, release-IsWithin, apply-IsWithin, try_consume-IsFilled,
}

module _ (F : Float) where
  open F use {
    Num, of_nat, add, sub, mul, div, lt, lt_irrefl, lt_asym, ge_trans, sub_le, sub_nonneg,
    of_nat_nonneg, add_nonneg, mul_nonneg, div_nonneg,
  }

  -- The quantities of an intent.
  pub record IsOrder (i : QuoteIntent Num) : Type 0 where
    pub quantity : NonNeg F i.quantity
    pub notional : NonNeg F i.notional

  pub limits-IsWithin :
      (i : QuoteIntent Num) (now : ℕ) (r : RejectReason) (g : RiskGate Num)
      → IsVerdict r
      → (is_accepted r ≡ true → IsWithin F (apply F i.side i.quantity i.notional g.positions))
      → IsWithin F g.positions
      → IsWithin F (limits F r i now g).1.positions
  unfolding limits accept
  limits-IsWithin i now r g verdict_accepted passed w = passed refl
  limits-IsWithin i now r g verdict_order_size passed w = w
  limits-IsWithin i now r g verdict_position passed w = w
  limits-IsWithin i now r g verdict_notional passed w = w

  pub rated-IsWithin :
      (taken : Bool) (i : QuoteIntent Num) (now : ℕ) (g : RiskGate Num)
      → IsOrder i
      → IsWithin F g.positions
      → IsWithin F (rated F taken i now g).1.positions
  unfolding rated
  rated-IsWithin true i now g o w =
      limits-IsWithin i now _ g (check-IsVerdict F i.side i.quantity i.notional g.positions)
        (λ passed.
          apply-IsWithin F i.side i.quantity i.notional g.positions o.quantity o.notional
            (sym (accepted-check F i.side i.quantity i.notional g.positions) ∙ passed) w)
        w
  rated-IsWithin false i now g o w = w

  pub dispatch-IsWithin :
      (a : IntentAction) (i : QuoteIntent Num) (now : ℕ) (g : RiskGate Num)
      → IsOrder i
      → IsWithin F g.positions
      → IsWithin F (dispatch F a i now g).1.positions
  unfolding dispatch submit withdraw
  dispatch-IsWithin cancel i now g o w =
      release-IsWithin F i.side i.quantity i.notional g.positions o.quantity o.notional w
  dispatch-IsWithin new i now g o w =
      let (taken, b) = try_consume F now 1 g.bucket in
      if_split (λ (x : Decision × RiskGate Num). IsWithin F x.1.positions) (kill_check F g.kill)
        (λ clear. rated-IsWithin taken i now (record g { bucket = b }) o w) (λ killed. w)

  limits-bucket :
      (i : QuoteIntent Num) (now : ℕ) (r : RejectReason) (g : RiskGate Num)
      → IsVerdict r
      → (limits F r i now g).1.bucket ≡ g.bucket
  unfolding limits accept
  limits-bucket i now r g verdict_accepted = refl
  limits-bucket i now r g verdict_order_size = refl
  limits-bucket i now r g verdict_position = refl
  limits-bucket i now r g verdict_notional = refl

  rated-IsFilled :
      (taken : Bool) (i : QuoteIntent Num) (now : ℕ) (g : RiskGate Num)
      → IsFilled F g.bucket
      → IsFilled F (rated F taken i now g).1.bucket
  unfolding rated
  rated-IsFilled true i now g f =
      subst (IsFilled F)
        (sym (limits-bucket i now _ g (check-IsVerdict F i.side i.quantity i.notional g.positions)))
        f
  rated-IsFilled false i now g f = f

  dispatch-IsFilled :
      (a : IntentAction) (i : QuoteIntent Num) (now : ℕ) (g : RiskGate Num)
      → IsFilled F g.bucket
      → IsFilled F (dispatch F a i now g).1.bucket
  unfolding dispatch submit withdraw
  dispatch-IsFilled cancel i now g f = f
  dispatch-IsFilled new i now g f =
      let (taken, b) = try_consume F now 1 g.bucket in
      if_split (λ (x : Decision × RiskGate Num). IsFilled F x.1.bucket) (kill_check F g.kill)
        (λ clear.
          rated-IsFilled taken i now (record g { bucket = b })
            (try_consume-IsFilled F now 1 g.bucket f))
        (λ killed. f)

  abbrev pub AllOrders : List (QuoteIntent Num × ℕ) → Type 0
  AllOrders [] = Unit
  AllOrders ((i, now) ∷ is) = IsOrder i × AllOrders is

  evaluate_all_from-IsWithin :
      (is : List (QuoteIntent Num × ℕ)) (g : RiskGate Num)
      → AllOrders is
      → IsWithin F g.positions × IsFilled F g.bucket
      → IsWithin F (evaluate_all F is g).1.positions × IsFilled F (evaluate_all F is g).1.bucket
  unfolding evaluate_all evaluate
  evaluate_all_from-IsWithin [] g os h = h
  evaluate_all_from-IsWithin ((i, now) ∷ is) g (o, os) (w, f) =
      evaluate_all_from-IsWithin is (dispatch F i.action i now (counted F g)).1 os (
        dispatch-IsWithin i.action i now (counted F g) o w,
        dispatch-IsFilled i.action i now (counted F g) f,
      )

  -- A gate that is configured with limits and a rate that are not negative keeps, over any stream
  -- of intents whose quantities and notionals are not negative, each side's exposure and the
  -- notional between zero and its limit, and the tokens between zero and `max_tokens`.
  pub evaluate_all-IsWithin :
      (c : RiskGateConfig Num) (is : List (QuoteIntent Num × ℕ))
      → NonNeg F c.max_long_qty
      → NonNeg F c.max_short_qty
      → NonNeg F c.max_notional
      → NonNeg F c.refill_per_second
      → AllOrders is
      → let g = (evaluate_all F is (new_gate F c)).1 in IsWithin F g.positions × IsFilled F g.bucket
  unfolding new_gate
  evaluate_all-IsWithin c is long short notional rate os =
      evaluate_all_from-IsWithin is (new_gate F c) os (
        record {
          long = (lt_irrefl _, long);
          short = (lt_irrefl _, short);
          notional = (lt_irrefl _, notional);
        },
        record { tokens = (of_nat_nonneg _, lt_irrefl _); rate = rate },
      )
