-- ===== src/Risk/Outcome.antt =====
-- What a decision of the risk gate says and what it leaves behind, on every branch.
use sentinel_hft.Prelude.{
  if_split, ℕ, suc, ◌+◌, ◌≡◌, refl, Bool, true, false, List, [], ◌∷◌, length, arith, ap, ◌∙◌,
}
use sentinel_hft.Prelude.Float.{Float}
use sentinel_hft.Audit.Record.{
  RejectReason, accepted, rate_limited, position_limit, notional_limit, order_size, kill_switch,
}
use sentinel_hft.Risk.{
  Side, IntentAction, new, cancel, QuoteIntent, PositionTracker, Counters, RiskGate, Decision,
  try_consume, check, build, accept, limits, rated, submit, withdraw, dispatch, evaluate,
  evaluate_all, counted, kill_check,
}

-- The four answers of the position check.
pub data IsVerdict : RejectReason → Type 0 where
  verdict_accepted : IsVerdict accepted
  verdict_order_size : IsVerdict order_size
  verdict_position : IsVerdict position_limit
  verdict_notional : IsVerdict notional_limit

-- The counters that a list of reasons gives, with no gate in sight.
abbrev pub note : RejectReason → Counters → Counters
note accepted c = record c { passed = c.passed + 1 }
note rate_limited c = record c { rejected_rate = c.rejected_rate + 1 }
note position_limit c = record c { rejected_pos = c.rejected_pos + 1 }
note notional_limit c = record c { rejected_notional = c.rejected_notional + 1 }
note order_size c = record c { rejected_order_size = c.rejected_order_size + 1 }
note kill_switch c = record c { rejected_kill = c.rejected_kill + 1 }
note _ c = c

abbrev pub tally : List Decision → Counters → Counters
tally [] c = c
tally (d ∷ ds) c = tally ds (note d.reject_reason (record c { total = c.total + 1 }))

abbrev pub is_accepted : RejectReason → Bool
is_accepted accepted = true
is_accepted _ = false

-- A decision passes when it has no reason for a rejection.
abbrev pub Consistent : List Decision → Type 0
Consistent [] = Unit
Consistent (d ∷ ds) = (d.passed ≡ is_accepted d.reject_reason) × Consistent ds

-- The evaluations that are counted under an outcome.
abbrev pub settled : Counters → ℕ
settled c =
    c.passed + c.rejected_rate + c.rejected_pos + c.rejected_notional + c.rejected_order_size
    + c.rejected_kill

module _ (F : Float) where
  open F use {Num, of_nat, add, lt}

  pub check-IsVerdict :
      (side : Side) (qty notional : Num) (p : PositionTracker Num)
      → IsVerdict (check F side qty notional p)
  unfolding check
  check-IsVerdict side qty n p =
      if_split IsVerdict (lt p.max_order_qty qty) (λ large. verdict_order_size)
        (λ small.
          if_split IsVerdict _ (λ over. verdict_position)
            (λ under.
              if_split IsVerdict (lt p.max_notional (add p.notional n)) (λ over. verdict_notional)
                (λ under. verdict_accepted)))

  -- What one evaluation does to the counters, and what its flag says.
  abbrev Tallied : RiskGate Num → Decision × RiskGate Num → Type 0
  Tallied g (d, g') =
      (g'.counters ≡ note d.reject_reason g.counters)
      × (d.passed ≡ is_accepted d.reject_reason)
      × (g'.counters.total ≡ g.counters.total)
      × (settled g'.counters ≡ settled g.counters + 1)

  limits-Tallied :
      (i : QuoteIntent Num) (now : ℕ) (r : RejectReason) (g : RiskGate Num)
      → IsVerdict r
      → Tallied g (limits F r i now g)
  unfolding limits accept build
  limits-Tallied i now r g verdict_accepted = (refl, refl, refl, omega arith)
  limits-Tallied i now r g verdict_order_size = (refl, refl, refl, omega arith)
  limits-Tallied i now r g verdict_position = (refl, refl, refl, omega arith)
  limits-Tallied i now r g verdict_notional = (refl, refl, refl, omega arith)

  rated-Tallied :
      (taken : Bool) (i : QuoteIntent Num) (now : ℕ) (g : RiskGate Num)
      → Tallied g (rated F taken i now g)
  unfolding rated build
  rated-Tallied true i now g =
      limits-Tallied i now _ g (check-IsVerdict i.side i.quantity i.notional g.positions)
  rated-Tallied false i now g = (refl, refl, refl, omega arith)

  submit-Tallied : (i : QuoteIntent Num) (now : ℕ) (g : RiskGate Num) → Tallied g (submit F i now g)
  unfolding submit build
  submit-Tallied i now g =
      let (taken, b) = try_consume F now 1 g.bucket in
      if_split (Tallied g) (kill_check F g.kill)
        (λ clear. rated-Tallied taken i now (record g { bucket = b }))
        (λ killed. (refl, refl, refl, omega arith))

  dispatch-Tallied :
      (a : IntentAction) (i : QuoteIntent Num) (now : ℕ) (g : RiskGate Num)
      → Tallied g (dispatch F a i now g)
  unfolding dispatch withdraw build
  dispatch-Tallied cancel i now g = (refl, refl, refl, omega arith)
  dispatch-Tallied new i now g = submit-Tallied i now g

  -- One evaluation adds one to the outcomes.
  pub settled-evaluate :
      (i : QuoteIntent Num) (now : ℕ) (g : RiskGate Num)
      → settled (evaluate F i now g).1.counters ≡ settled g.counters + 1
  unfolding evaluate
  settled-evaluate i now g =
      let (_, _, _, more) = dispatch-Tallied i.action i now (counted F g) in more

  -- Over any stream of intents: there is one decision for each, a decision is marked as passed
  -- exactly when it has no reason for a rejection, the counters are what the decisions alone tell,
  -- and when every earlier evaluation is under one outcome, so is every later one.
  pub evaluate_all-tally :
      (is : List (QuoteIntent Num × ℕ)) (g : RiskGate Num)
      → let (ds, g') = evaluate_all F is g in
        (length ds ≡ length is)
        × Consistent ds
        × (g'.counters ≡ tally ds g.counters)
        × (g'.counters.total + settled g.counters ≡ settled g'.counters + g.counters.total)
  unfolding evaluate_all evaluate
  evaluate_all-tally [] g = (refl, tt, refl, omega arith)
  evaluate_all-tally ((i, now) ∷ is) g =
      let (one, flag, same, more) = dispatch-Tallied i.action i now (counted F g) in
      let (d, g1) = dispatch F i.action i now (counted F g) in
      let (len, flags, counts, sum) = evaluate_all-tally is g1 in
      (
        ap suc len,
        (flag, flags),
        counts ∙ ap (tally (evaluate_all F is g1).0) one,
        omega (arith, sum, same, more),
      )
