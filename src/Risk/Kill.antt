-- ===== src/Risk/Kill.antt =====
-- The kill switch of the risk gate: what it stops, and when it can trip by itself.
use sentinel_hft.Prelude.{ℕ, ◌≡◌, refl, true, false, List, [], ◌∷◌, if_split, arith, ap, ◌∙◌}
use sentinel_hft.Prelude.Float.{Float}
use sentinel_hft.Audit.Record.{accepted, kill_switch}
use sentinel_hft.Risk.{
  Side, buy, sell, IntentAction, new, cancel, QuoteIntent, PositionTracker, RiskGate, Decision,
  release, build, submit, withdraw, dispatch, evaluate, evaluate_all, counted, kill_check,
}
use sentinel_hft.Risk.Bounds.{NonNeg, Le, IsWithin, floor-bounds}
use sentinel_hft.Risk.Runs.{IsOrder, AllOrders, dispatch-IsWithin}

-- The answer to an intent while the switch is triggered.
abbrev pub Halted : IntentAction → Decision → Type 0
Halted new d = (d.passed ≡ false) × (d.reject_reason ≡ kill_switch) × (d.kill_triggered ≡ true)
Halted cancel d = (d.passed ≡ true) × (d.reject_reason ≡ accepted)

module _ (F : Float) where
  open F use {Num, of_nat, add, sub, lt, lt_irrefl, lt_asym, ge_trans, sub_le}

  abbrev pub AllHalted : List (QuoteIntent Num × ℕ) → List Decision → Type 0
  AllHalted [] [] = Unit
  AllHalted ((i, now) ∷ is) (d ∷ ds) = Halted i.action d × AllHalted is ds
  AllHalted _ _ = ⊥

  -- The exposure of `p` is at most that of `q`, on either side and in notional.
  pub record IsBelow (p q : PositionTracker Num) : Type 0 where
    pub long : Le F p.long_qty q.long_qty
    pub short : Le F p.short_qty q.short_qty
    pub notional : Le F p.notional q.notional

  IsBelow-refl : (p : PositionTracker Num) → IsBelow p p
  IsBelow-refl p = record { long = lt_irrefl _; short = lt_irrefl _; notional = lt_irrefl _ }

  IsBelow-trans : (p q r : PositionTracker Num) → IsBelow p q → IsBelow q r → IsBelow p r
  IsBelow-trans p q r a b = record {
    long = ge_trans _ _ _ b.long a.long;
    short = ge_trans _ _ _ b.short a.short;
    notional = ge_trans _ _ _ b.notional a.notional;
  }

  release-IsBelow :
      (side : Side) (qty n : Num) (p : PositionTracker Num)
      → NonNeg F qty
      → NonNeg F n
      → IsWithin F p
      → IsBelow (release F side qty n p) p
  unfolding release
  release-IsBelow buy qty n p hq hn w = record {
    long = (floor-bounds F p.long_qty qty p.long_qty (w.long.0, lt_irrefl _) hq).1;
    short = lt_irrefl _;
    notional = (floor-bounds F p.notional n p.notional (w.notional.0, lt_irrefl _) hn).1;
  }
  release-IsBelow sell qty n p hq hn w = record {
    long = lt_irrefl _;
    short = (floor-bounds F p.short_qty qty p.short_qty (w.short.0, lt_irrefl _) hq).1;
    notional = (floor-bounds F p.notional n p.notional (w.notional.0, lt_irrefl _) hn).1;
  }

  -- What a triggered switch guarantees of one evaluation.
  record IsHeld (a : IntentAction) (g : RiskGate Num) (x : Decision × RiskGate Num) : Type 0 where
    halted : Halted a x.0
    kill : x.1.kill ≡ g.kill
    bucket : x.1.bucket ≡ g.bucket
    below : IsBelow x.1.positions g.positions

  dispatch-IsHeld :
      (a : IntentAction) (i : QuoteIntent Num) (now : ℕ) (g : RiskGate Num)
      → g.kill.triggered ≡ true
      → IsOrder F i
      → IsWithin F g.positions
      → IsHeld a g (dispatch F a i now g)
  unfolding dispatch submit withdraw build
  dispatch-IsHeld cancel i now g t o w = record {
    halted = (refl, refl);
    kill = refl;
    bucket = refl;
    below = release-IsBelow i.side i.quantity i.notional g.positions o.quantity o.notional w;
  }
  dispatch-IsHeld new i now g t o w =
      if_split (IsHeld new g) (kill_check F g.kill) (λ clear. absurd (ground arith))
        (λ killed. record {
          halted = (refl, refl, refl);
          kill = refl;
          bucket = refl;
          below = IsBelow-refl g.positions;
        })

  -- While the kill switch is triggered and the exposures are within their limits, over any stream
  -- of intents whose quantities and notionals are not negative: every new order is rejected with
  -- `kill_switch`, every cancel passes, the switch stays triggered, no token is taken, and no
  -- exposure grows.
  pub killed-evaluate_all :
      (is : List (QuoteIntent Num × ℕ)) (g : RiskGate Num)
      → g.kill.triggered ≡ true
      → IsWithin F g.positions
      → AllOrders F is
      → let (ds, g') = evaluate_all F is g in
        AllHalted is ds
        × (g'.kill ≡ g.kill)
        × (g'.bucket ≡ g.bucket)
        × IsBelow g'.positions g.positions
  unfolding evaluate_all evaluate
  killed-evaluate_all [] g t w os = (tt, refl, refl, IsBelow-refl g.positions)
  killed-evaluate_all ((i, now) ∷ is) g t w (o, os) =
      let h = dispatch-IsHeld i.action i now (counted F g) t o w in
      let g1 = (dispatch F i.action i now (counted F g)).1 in
      let (all, k, b, below) =
        killed-evaluate_all is g1 (ap (λ k. k.triggered) h.kill ∙ t)
          (dispatch-IsWithin F i.action i now (counted F g) o w) os in
      ((h.halted, all), k ∙ h.kill, b ∙ h.bucket, IsBelow-trans _ _ _ below h.below)
