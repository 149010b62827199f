-- ===== src/Risk/AutoKill.antt =====
-- When the kill switch of the risk gate can trip by itself.
use sentinel_hft.Prelude.{
  ℕ, ◌≡◌, refl, Bool, true, false, ◌&&◌, List, [], ◌∷◌, if_split, arith, Bool-cases, inl, inr, ap,
  ◌∙◌,
}
use sentinel_hft.Prelude.Float.{Float, geb}
use sentinel_hft.Audit.Record.{RejectReason}
use sentinel_hft.Risk.{
  IntentAction, new, cancel, QuoteIntent, PositionTracker, KillSwitch, RiskGateConfig, RiskGate,
  Decision, Side, buy, sell, try_consume, apply, release, accept, limits, rated, submit, withdraw,
  dispatch, evaluate, evaluate_all, new_gate, counted, kill_check, on_notional,
}
use sentinel_hft.Risk.Outcome.{
  IsVerdict, verdict_accepted, verdict_order_size, verdict_position, verdict_notional,
  check-IsVerdict,
}
use sentinel_hft.Risk.Bounds.{NonNeg, Le, IsWithin}
use sentinel_hft.Risk.Runs.{IsOrder, AllOrders, dispatch-IsWithin, rated-IsWithin}

module _ (F : Float) where
  open F use {Num, of_nat, lt, lt_irrefl, ge_trans}

  -- The limit of the notional is below the threshold of the switch, which has not tripped.
  record IsQuiet (g : RiskGate Num) : Type 0 where
    gap : lt g.positions.max_notional g.kill.auto_notional_drop ≡ true
    clear : g.kill.triggered ≡ false

  below_gap : (n m a : Num) → Le F n m → lt m a ≡ true → lt n a ≡ true
  below_gap n m a h gap = elim (Bool-cases (lt n a)) [
    | inl below ↦ below
    | inr above ↦ absurd (ground (arith, ge_trans m n a h above))
  ]

  on_notional_quiet :
      (n : Num) (k : KillSwitch Num) → lt n k.auto_notional_drop ≡ true → on_notional F n k ≡ k
  unfolding on_notional
  on_notional_quiet n k h =
      if_split (λ x. x ≡ k) (k.armed && geb F n k.auto_notional_drop)
        (λ trips. absurd (ground arith)) (λ still. refl)

  -- `apply` changes no limit.
  max_notional-apply :
      (side : Side) (qty n : Num) (p : PositionTracker Num)
      → (apply F side qty n p).max_notional ≡ p.max_notional
  unfolding apply
  max_notional-apply buy qty n p = refl
  max_notional-apply sell qty n p = refl

  max_notional-release :
      (side : Side) (qty n : Num) (p : PositionTracker Num)
      → (release F side qty n p).max_notional ≡ p.max_notional
  unfolding release
  max_notional-release buy qty n p = refl
  max_notional-release sell qty n p = refl

  limits-IsQuiet :
      (i : QuoteIntent Num) (now : ℕ) (r : RejectReason) (g : RiskGate Num)
      → IsVerdict r
      → IsWithin F (limits F r i now g).1.positions
      → IsQuiet g
      → IsQuiet (limits F r i now g).1
  unfolding limits accept
  limits-IsQuiet i now r g verdict_accepted w q =
      let p = apply F i.side i.quantity i.notional g.positions in
      let same : p.max_notional ≡ g.positions.max_notional =
        max_notional-apply i.side i.quantity i.notional g.positions in
      let gap : lt p.max_notional g.kill.auto_notional_drop ≡ true =
        ap (λ m. lt m g.kill.auto_notional_drop) same ∙ q.gap in
      let still : on_notional F p.notional g.kill ≡ g.kill =
        on_notional_quiet p.notional g.kill (below_gap _ _ _ w.notional.1 gap) in
      record {
        gap = ap (λ k. lt p.max_notional k.auto_notional_drop) still ∙ gap;
        clear = ap (λ k. k.triggered) still ∙ q.clear;
      }
  limits-IsQuiet i now r g verdict_order_size w q = record { gap = q.gap; clear = q.clear }
  limits-IsQuiet i now r g verdict_position w q = record { gap = q.gap; clear = q.clear }
  limits-IsQuiet i now r g verdict_notional w q = record { gap = q.gap; clear = q.clear }

  rated-IsQuiet :
      (taken : Bool) (i : QuoteIntent Num) (now : ℕ) (g : RiskGate Num)
      → IsWithin F (rated F taken i now g).1.positions
      → IsQuiet g
      → IsQuiet (rated F taken i now g).1
  unfolding rated
  rated-IsQuiet true i now g w q =
      limits-IsQuiet i now _ g (check-IsVerdict F i.side i.quantity i.notional g.positions) w q
  rated-IsQuiet false i now g w q = record { gap = q.gap; clear = q.clear }

  dispatch-IsQuiet :
      (a : IntentAction) (i : QuoteIntent Num) (now : ℕ) (g : RiskGate Num)
      → IsOrder F i
      → IsWithin F g.positions
      → IsQuiet g
      → IsQuiet (dispatch F a i now g).1
  unfolding dispatch submit withdraw
  dispatch-IsQuiet cancel i now g o w q = record {
    gap =
        ap (λ m. lt m g.kill.auto_notional_drop)
          (max_notional-release i.side i.quantity i.notional g.positions)
        ∙ q.gap;
    clear = q.clear;
  }
  dispatch-IsQuiet new i now g o w q =
      let (taken, b) = try_consume F now 1 g.bucket in
      let g1 : RiskGate Num = record g { bucket = b } in
      if_split (λ (x : Decision × RiskGate Num). IsQuiet x.1) (kill_check F g.kill)
        (λ clear.
          rated-IsQuiet taken i now g1 (rated-IsWithin F taken i now g1 o w)
            (record { gap = q.gap; clear = q.clear }))
        (λ killed. record { gap = q.gap; clear = q.clear })

  quiet-evaluate_all_from :
      (is : List (QuoteIntent Num × ℕ)) (g : RiskGate Num)
      → AllOrders F is
      → IsWithin F g.positions
      → IsQuiet g
      → (evaluate_all F is g).1.kill.triggered ≡ false
  unfolding evaluate_all evaluate
  quiet-evaluate_all_from [] g os w q = q.clear
  quiet-evaluate_all_from ((i, now) ∷ is) g (o, os) w q =
      let g0 = counted F g in
      let q0 : IsQuiet g0 = record { gap = q.gap; clear = q.clear } in
      quiet-evaluate_all_from is (dispatch F i.action i now g0).1 os
        (dispatch-IsWithin F i.action i now g0 o w) (dispatch-IsQuiet i.action i now g0 o w q0)

  -- When `max_notional` is below `auto_kill_notional`, as in the default configuration, and no limit
  -- is negative, no stream of intents whose quantities and notionals are not negative trips the kill
  -- switch: the notional limit rejects the orders that would.
  pub quiet-evaluate_all :
      (c : RiskGateConfig Num) (is : List (QuoteIntent Num × ℕ))
      → lt c.max_notional c.auto_kill_notional ≡ true
      → NonNeg F c.max_long_qty
      → NonNeg F c.max_short_qty
      → NonNeg F c.max_notional
      → AllOrders F is
      → (evaluate_all F is (new_gate F c)).1.kill.triggered ≡ false
  unfolding new_gate
  quiet-evaluate_all c is gap long short notional os =
      quiet-evaluate_all_from is (new_gate F c) os
        (record {
          long = (lt_irrefl _, long);
          short = (lt_irrefl _, short);
          notional = (lt_irrefl _, notional);
        })
        (record { gap = gap; clear = refl })
