-- ===== src/Risk.antt =====
-- sentinel_hft/deribit/risk.py: the token bucket, the position tracker, the kill switch, and the
-- gate that composes them. Quantities are floats (the interface `Float`), times are integers.
pub mod Admission
pub mod AutoKill
pub mod Bounds
pub mod Kill
pub mod Outcome
pub mod Runs
pub mod Stamps
mod Tests
use sentinel_hft.Prelude.{
  Option, none, some, ℕ, ◌+◌, ◌-◌, Bool, true, false, not, ◌&&◌, ◌==◌, if◌then◌else◌, List, [], ◌∷◌,
}
use sentinel_hft.Prelude.Int.{ℤ, ◌-ℤ◌}
use sentinel_hft.Prelude.Float.{Float, geb, max, min}
use sentinel_hft.Audit.Record.{
  RejectReason, accepted, rate_limited, position_limit, notional_limit, order_size, kill_switch,
}

-- strategy.py
pub data Side : Type 0 where
  buy sell : Side

pub data IntentAction : Type 0 where
  new cancel : IntentAction

pub record QuoteIntent (N : Type 0) : Type 0 where
  pub order_id : ℕ
  pub symbol_id : ℕ
  pub side : Side
  pub price : N
  pub quantity : N
  pub notional : N
  pub generated_ts_ns : ℕ
  pub action : IntentAction
  pub replaces_order_id : ℕ

pub record TokenBucket (N : Type 0) : Type 0 where
  pub max_tokens : ℕ
  pub refill_per_second : N
  pub tokens : N
  pub last_refill_ns : ℕ

pub record PositionTracker (N : Type 0) : Type 0 where
  pub max_long_qty : N
  pub max_short_qty : N
  pub max_notional : N
  pub max_order_qty : N
  pub long_qty : N
  pub short_qty : N
  pub notional : N

pub record KillSwitch (N : Type 0) : Type 0 where
  pub armed : Bool
  pub triggered : Bool
  pub auto_notional_drop : N

pub record RiskGateConfig (N : Type 0) : Type 0 where
  pub max_tokens : ℕ
  pub refill_per_second : N
  pub max_long_qty : N
  pub max_short_qty : N
  pub max_notional : N
  pub max_order_qty : N
  pub auto_kill_notional : N

-- The counters of the gate.
pub record Counters : Type 0 where
  pub total : ℕ
  pub passed : ℕ
  pub rejected_rate : ℕ
  pub rejected_pos : ℕ
  pub rejected_notional : ℕ
  pub rejected_order_size : ℕ
  pub rejected_kill : ℕ

pub record RiskGate (N : Type 0) : Type 0 where
  pub bucket : TokenBucket N
  pub positions : PositionTracker N
  pub kill : KillSwitch N
  pub counters : Counters

-- The decision as `_build` fills it in; its numbers are Python integers of either sign. A number is
-- none where its conversion to `int` raises `OverflowError`, and a decision with such a number stands
-- for that exception: `_build` is the last step of an evaluation, which has changed the gate by then,
-- and `decision_of`, the first reader of a decision, raises it.
pub record Decision : Type 0 where
  pub timestamp_ns : ℕ
  pub order_id : ℕ
  pub symbol_id : ℕ
  pub quantity : Option ℤ
  pub price : Option ℤ
  pub notional : Option ℤ
  pub passed : Bool
  pub reject_reason : RejectReason
  pub kill_triggered : Bool
  pub tokens_remaining : Option ℤ
  pub position_after : Option ℤ
  pub notional_after : Option ℤ

-- `long_qty_fp - short_qty_fp`
abbrev pub minus : Option ℤ → Option ℤ → Option ℤ
minus (some long) (some short) = some (long -ℤ short)
minus none short = none
minus (some long) none = none

module _ (F : Float) where
  open F use {Num, of_nat, add, sub, mul, div, lt, to_int, fixed}

  -- `TokenBucket._refill`. `max(0, now - last)` is the subtraction of naturals.
  unfoldable pub refill : ℕ → TokenBucket Num → TokenBucket Num
  refill now b =
      if b.last_refill_ns == 0
      then record b { last_refill_ns = now }
      else (let dt = div (of_nat (now - b.last_refill_ns)) (of_nat 1000000000) in
          record b {
            tokens = min F (of_nat b.max_tokens) (add b.tokens (mul dt b.refill_per_second));
            last_refill_ns = now;
          })

  unfoldable pub try_consume : ℕ → ℕ → TokenBucket Num → Bool × TokenBucket Num
  try_consume now n b =
      let r = refill now b in
      if geb F r.tokens (of_nat n)
      then (true, record r { tokens = sub r.tokens (of_nat n) })
      else (false, r)

  -- `PositionTracker.check`
  unfoldable pub check : Side → Num → Num → PositionTracker Num → RejectReason
  check side qty notional p =
      if lt p.max_order_qty qty
      then order_size
      else if over side
      then position_limit
      else if lt p.max_notional (add p.notional notional)
      then notional_limit
      else accepted
    where
      over : Side → Bool
      over buy = lt p.max_long_qty (add p.long_qty qty)
      over sell = lt p.max_short_qty (add p.short_qty qty)

  unfoldable pub apply : Side → Num → Num → PositionTracker Num → PositionTracker Num
  apply buy qty notional p = record p {
    long_qty = add p.long_qty qty;
    notional = add p.notional notional;
  }
  apply sell qty notional p = record p {
    short_qty = add p.short_qty qty;
    notional = add p.notional notional;
  }

  unfoldable pub release : Side → Num → Num → PositionTracker Num → PositionTracker Num
  release buy qty notional p = record p {
    long_qty = max F (of_nat 0) (sub p.long_qty qty);
    notional = max F (of_nat 0) (sub p.notional notional);
  }
  release sell qty notional p = record p {
    short_qty = max F (of_nat 0) (sub p.short_qty qty);
    notional = max F (of_nat 0) (sub p.notional notional);
  }

  -- `KillSwitch`
  unfoldable pub on_notional : Num → KillSwitch Num → KillSwitch Num
  on_notional total k =
      if k.armed && geb F total k.auto_notional_drop then record k { triggered = true } else k

  unfoldable pub trip : KillSwitch Num → KillSwitch Num
  trip k = if k.armed then record k { triggered = true } else k

  unfoldable pub reset : KillSwitch Num → KillSwitch Num
  reset k = record k { triggered = false }

  abbrev pub kill_check : KillSwitch Num → Bool
  kill_check k = not k.triggered

  -- `RiskGate.__init__`, with the bucket full and the kill switch armed.
  unfoldable pub new_gate : RiskGateConfig Num → RiskGate Num
  new_gate c = record {
    bucket = record {
      max_tokens = c.max_tokens;
      refill_per_second = c.refill_per_second;
      tokens = of_nat c.max_tokens;
      last_refill_ns = 0;
    };
    positions = record {
      max_long_qty = c.max_long_qty;
      max_short_qty = c.max_short_qty;
      max_notional = c.max_notional;
      max_order_qty = c.max_order_qty;
      long_qty = of_nat 0;
      short_qty = of_nat 0;
      notional = of_nat 0;
    };
    kill = record { armed = true; triggered = false; auto_notional_drop = c.auto_kill_notional };
    counters = record {
      total = 0;
      passed = 0;
      rejected_rate = 0;
      rejected_pos = 0;
      rejected_notional = 0;
      rejected_order_size = 0;
      rejected_kill = 0;
    };
  }

  -- `RiskGate._build`, on the state that the evaluation leaves, with its exception as a number that is
  -- none.
  unfoldable pub build : QuoteIntent Num → ℕ → Bool → RejectReason → Bool → RiskGate Num → Decision
  build i now passed reason killed g =
      let p = g.positions in
      record {
        timestamp_ns = now;
        order_id = i.order_id;
        symbol_id = i.symbol_id;
        quantity = fixed 1000000 i.quantity;
        price = fixed 100000000 i.price;
        notional = fixed 100000000 i.notional;
        passed = passed;
        reject_reason = reason;
        kill_triggered = killed;
        tokens_remaining = to_int g.bucket.tokens;
        position_after = minus (fixed 1000000 p.long_qty) (fixed 1000000 p.short_qty);
        notional_after = fixed 100000000 p.notional;
      }

  -- The counter of a reason; other reasons of `check` have none.
  abbrev pub count_reason : RejectReason → Counters → Counters
  count_reason order_size c = record c { rejected_order_size = c.rejected_order_size + 1 }
  count_reason position_limit c = record c { rejected_pos = c.rejected_pos + 1 }
  count_reason notional_limit c = record c { rejected_notional = c.rejected_notional + 1 }
  count_reason _ c = c

  abbrev pub count_passed : Counters → Counters
  count_passed c = record c { passed = c.passed + 1 }

  -- Step 4 of `evaluate`: the order passes and may trip the kill switch.
  unfoldable pub accept : QuoteIntent Num → ℕ → RiskGate Num → Decision × RiskGate Num
  accept i now g =
      let p = apply i.side i.quantity i.notional g.positions in
      let k = on_notional p.notional g.kill in
      let g' : RiskGate Num = record g {
        positions = p;
        kill = k;
        counters = count_passed g.counters;
      } in
      (build i now true accepted k.triggered g', g')

  -- Step 3: position, notional and order size, after the token was taken.
  unfoldable pub limits :
      RejectReason → QuoteIntent Num → ℕ → RiskGate Num → Decision × RiskGate Num
  limits accepted i now g = accept i now g
  limits reason i now g =
      let g' : RiskGate Num = record g { counters = count_reason reason g.counters } in
      (build i now false reason false g', g')

  -- Step 2: the rate limiter, with the outcome of `try_consume`.
  unfoldable pub rated : Bool → QuoteIntent Num → ℕ → RiskGate Num → Decision × RiskGate Num
  rated true i now g = limits (check i.side i.quantity i.notional g.positions) i now g
  rated false i now g =
      let c = g.counters in
      let g' : RiskGate Num = record g {
        counters = record c { rejected_rate = c.rejected_rate + 1 };
      } in
      (build i now false rate_limited false g', g')

  -- Step 1: the kill switch.
  unfoldable pub submit : QuoteIntent Num → ℕ → RiskGate Num → Decision × RiskGate Num
  submit i now g =
      if kill_check g.kill
      then (let (taken, b) = try_consume now 1 g.bucket in
          rated taken i now (record g { bucket = b }))
      else (let c = g.counters in
          let g' : RiskGate Num = record g {
            counters = record c { rejected_kill = c.rejected_kill + 1 };
          } in
          (build i now false kill_switch true g', g'))

  unfoldable pub withdraw : QuoteIntent Num → ℕ → RiskGate Num → Decision × RiskGate Num
  withdraw i now g =
      let g' : RiskGate Num = record g {
        positions = release i.side i.quantity i.notional g.positions;
        counters = count_passed g.counters;
      } in
      (build i now true accepted false g', g')

  abbrev pub counted : RiskGate Num → RiskGate Num
  counted g = let c = g.counters in record g { counters = record c { total = c.total + 1 } }

  unfoldable pub dispatch :
      IntentAction → QuoteIntent Num → ℕ → RiskGate Num → Decision × RiskGate Num
  dispatch cancel i now g = withdraw i now g
  dispatch new i now g = submit i now g

  -- `RiskGate.evaluate`
  unfoldable pub evaluate : QuoteIntent Num → ℕ → RiskGate Num → Decision × RiskGate Num
  evaluate i now g = dispatch i.action i now (counted g)

  -- The stream of intents and times that `DeribitPipeline` evaluates, one after another.
  unfoldable pub evaluate_all :
      List (QuoteIntent Num × ℕ) → RiskGate Num → List Decision × RiskGate Num
  evaluate_all [] g = ([], g)
  evaluate_all ((i, now) ∷ is) g =
      let (d, g') = evaluate i now g in let (ds, g'') = evaluate_all is g' in (d ∷ ds, g'')
