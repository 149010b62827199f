-- ===== src/Risk/Stamps.antt =====
-- Whose decision it is: the time and the order number that a decision of the risk gate carries.
use sentinel_hft.Prelude.{if_split, ℕ, ◌≡◌, refl, Bool, true, false}
use sentinel_hft.Prelude.Float.{Float}
use sentinel_hft.Audit.Record.{RejectReason}
use sentinel_hft.Risk.{
  IntentAction, new, cancel, QuoteIntent, RiskGate, Decision, try_consume, build, accept, limits,
  rated, submit, withdraw, dispatch, evaluate, counted, kill_check,
}
use sentinel_hft.Risk.Outcome.{
  IsVerdict, verdict_accepted, verdict_order_size, verdict_position, verdict_notional,
  check-IsVerdict,
}

module _ (F : Float) where
  open F use {Num}

  abbrev pub Stamped : QuoteIntent Num → ℕ → Decision × RiskGate Num → Type 0
  Stamped i now (d, g) = (d.timestamp_ns ≡ now) × (d.order_id ≡ i.order_id)

  limits-Stamped :
      (i : QuoteIntent Num) (now : ℕ) (r : RejectReason) (g : RiskGate Num)
      → IsVerdict r
      → Stamped i now (limits F r i now g)
  unfolding limits accept build
  limits-Stamped i now r g verdict_accepted = (refl, refl)
  limits-Stamped i now r g verdict_order_size = (refl, refl)
  limits-Stamped i now r g verdict_position = (refl, refl)
  limits-Stamped i now r g verdict_notional = (refl, refl)

  rated-Stamped :
      (taken : Bool) (i : QuoteIntent Num) (now : ℕ) (g : RiskGate Num)
      → Stamped i now (rated F taken i now g)
  unfolding rated build
  rated-Stamped true i now g =
      limits-Stamped i now _ g (check-IsVerdict F i.side i.quantity i.notional g.positions)
  rated-Stamped false i now g = (refl, refl)

  dispatch-Stamped :
      (a : IntentAction) (i : QuoteIntent Num) (now : ℕ) (g : RiskGate Num)
      → Stamped i now (dispatch F a i now g)
  unfolding dispatch withdraw submit build
  dispatch-Stamped cancel i now g = (refl, refl)
  dispatch-Stamped new i now g =
      let (taken, b) = try_consume F now 1 g.bucket in
      if_split (Stamped i now) (kill_check F g.kill)
        (λ clear. rated-Stamped taken i now (record g { bucket = b })) (λ killed. (refl, refl))

  pub evaluate-Stamped :
      (i : QuoteIntent Num) (now : ℕ) (g : RiskGate Num) → Stamped i now (evaluate F i now g)
  unfolding evaluate
  evaluate-Stamped i now g = dispatch-Stamped i.action i now (counted F g)
