-- ===== src/Risk/Admission.antt =====
-- Which orders the risk gate lets through, and that it keeps its state when it rejects one.
use sentinel_hft.Prelude.{
  if_split, ℕ, ◌≡◌, refl, Bool, true, false, not, ◌&&◌, if◌then◌else◌, arith, ap, ◌∙◌,
}
use sentinel_hft.Prelude.Float.{Float, geb}
use sentinel_hft.Audit.Record.{RejectReason}
use sentinel_hft.Risk.{
  Side, buy, sell, IntentAction, new, cancel, QuoteIntent, PositionTracker, TokenBucket, RiskGate,
  Decision, refill, try_consume, check, build, accept, limits, rated, submit, withdraw, dispatch,
  evaluate, counted, kill_check,
}
use sentinel_hft.Risk.Outcome.{
  IsVerdict, verdict_accepted, verdict_order_size, verdict_position, verdict_notional, is_accepted,
  check-IsVerdict,
}

module _ (F : Float) where
  open F use {Num, of_nat, add, lt}

  -- What the position check asks for, as one conjunction: `room` is the exposure of its side.
  abbrev pub fits : Side → Num → Num → PositionTracker Num → Bool
  fits side qty n p =
      not (lt p.max_order_qty qty) && (room side && not (lt p.max_notional (add p.notional n)))
    where
      room : Side → Bool
      room buy = not (lt p.max_long_qty (add p.long_qty qty))
      room sell = not (lt p.max_short_qty (add p.short_qty qty))

  pub accepted-check :
      (side : Side) (qty n : Num) (p : PositionTracker Num)
      → is_accepted (check F side qty n p) ≡ fits side qty n p
  unfolding check
  accepted-check buy qty n p = ground arith
  accepted-check sell qty n p = ground arith

  passed-limits :
      (i : QuoteIntent Num) (now : ℕ) (r : RejectReason) (g : RiskGate Num)
      → IsVerdict r
      → (limits F r i now g).0.passed ≡ is_accepted r
  unfolding limits accept build
  passed-limits i now r g verdict_accepted = refl
  passed-limits i now r g verdict_order_size = refl
  passed-limits i now r g verdict_position = refl
  passed-limits i now r g verdict_notional = refl

  passed-rated :
      (taken : Bool) (i : QuoteIntent Num) (now : ℕ) (g : RiskGate Num)
      → (rated F taken i now g).0.passed ≡ taken && fits i.side i.quantity i.notional g.positions
  unfolding rated build
  passed-rated true i now g =
      passed-limits i now _ g (check-IsVerdict F i.side i.quantity i.notional g.positions)
      ∙ accepted-check i.side i.quantity i.notional g.positions
  passed-rated false i now g = refl

  taken-try_consume :
      (now : ℕ) (b : TokenBucket Num)
      → (try_consume F now 1 b).0 ≡ geb F (refill F now b).tokens (of_nat 1)
  unfolding try_consume
  taken-try_consume now b = ground arith

  passed-if :
      (b c : Bool) (x y : Decision × RiskGate Num)
      → x.0.passed ≡ c
      → y.0.passed ≡ false
      → (if b then x else y).0.passed ≡ b && c
  passed-if true c x y px py = px
  passed-if false c x y px py = py

  passed-submit :
      (i : QuoteIntent Num) (now : ℕ) (g : RiskGate Num)
      → (submit F i now g).0.passed
        ≡ not g.kill.triggered
          && (geb F (refill F now g.bucket).tokens (of_nat 1)
              && fits i.side i.quantity i.notional g.positions)
  unfolding submit build
  passed-submit i now g =
      let (taken, b) = try_consume F now 1 g.bucket in
      passed-if (kill_check F g.kill) _ _ _
        (passed-rated taken i now (record g { bucket = b })
          ∙ ap (λ t. t && fits i.side i.quantity i.notional g.positions)
              (taken-try_consume now g.bucket))
        refl

  -- A new order passes exactly when the kill switch is clear, the refilled bucket holds a token,
  -- and its quantity, its side's exposure and the notional stay within their limits.
  pub passed-evaluate_new :
      (i : QuoteIntent Num) (now : ℕ) (g : RiskGate Num)
      → i.action ≡ new
      → (evaluate F i now g).0.passed
        ≡ not g.kill.triggered
          && (geb F (refill F now g.bucket).tokens (of_nat 1)
              && fits i.side i.quantity i.notional g.positions)
  unfolding evaluate dispatch
  passed-evaluate_new i now g h =
      ap (λ a. (dispatch F a i now (counted F g)).0.passed) h ∙ passed-submit i now (counted F g)

  abbrev Kept : RiskGate Num → Decision × RiskGate Num → Type 0
  Kept g (d, g') = d.passed ≡ false → (g'.positions ≡ g.positions) × (g'.kill ≡ g.kill)

  Kept-limits :
      (i : QuoteIntent Num) (now : ℕ) (r : RejectReason) (g : RiskGate Num)
      → IsVerdict r
      → Kept g (limits F r i now g)
  unfolding limits accept build
  Kept-limits i now r g verdict_accepted h = cc
  Kept-limits i now r g verdict_order_size h = (refl, refl)
  Kept-limits i now r g verdict_position h = (refl, refl)
  Kept-limits i now r g verdict_notional h = (refl, refl)

  Kept-rated :
      (taken : Bool) (i : QuoteIntent Num) (now : ℕ) (g : RiskGate Num)
      → Kept g (rated F taken i now g)
  unfolding rated
  Kept-rated true i now g h =
      Kept-limits i now _ g (check-IsVerdict F i.side i.quantity i.notional g.positions) h
  Kept-rated false i now g h = (refl, refl)

  Kept-dispatch :
      (a : IntentAction) (i : QuoteIntent Num) (now : ℕ) (g : RiskGate Num)
      → Kept g (dispatch F a i now g)
  unfolding dispatch submit withdraw build
  Kept-dispatch cancel i now g h = cc
  Kept-dispatch new i now g h =
      let (taken, b) = try_consume F now 1 g.bucket in
      if_split (Kept g) (kill_check F g.kill)
        (λ clear. Kept-rated taken i now (record g { bucket = b }))
        (λ killed rejected. (refl, refl)) h

  -- A rejected intent leaves the exposure and the kill switch as they were.
  pub Kept-evaluate :
      (i : QuoteIntent Num) (now : ℕ) (g : RiskGate Num)
      → (evaluate F i now g).0.passed ≡ false
      → ((evaluate F i now g).1.positions ≡ g.positions) × ((evaluate F i now g).1.kill ≡ g.kill)
  unfolding evaluate
  Kept-evaluate i now g = Kept-dispatch i.action i now (counted F g)
