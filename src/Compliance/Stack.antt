-- ===== src/Compliance/Stack.antt =====
-- sentinel_hft/compliance/stack.py: the observer that hands every intent to the five others.
pub mod Agreement
pub mod Streams
use sentinel_hft.Prelude.{
  ℕ, ◌+◌, Bool, true, false, Option, none, some, List, [], ◌∷◌, ◌==◌, if◌then◌else◌,
}
use sentinel_hft.Prelude.Dict.{or_else}
use sentinel_hft.Prelude.Result.{Result, ok, err, ◌>>=◌}
use sentinel_hft.Prelude.Float.{Float}
use sentinel_hft.Audit.Record.{RejectReason}
use sentinel_hft.Compliance.Mar.{SpoofLayerDetector, MarAlert, on_new, on_cancel}
use sentinel_hft.Compliance.Otr.{OtrCounter}
use sentinel_hft.Compliance.Otr.{observe as observe_otr, on_trade as on_trade_otr}
use sentinel_hft.Compliance.SelfTrade.{
  SelfTradeGuard, RestingOrder, add_resting, cancel, check as check_self,
}
use sentinel_hft.Compliance.FatFinger.{
  FatFingerGuard, on_trade as on_trade_price, check as check_price,
}
use sentinel_hft.Compliance.Cat.{
  CatRecord, CatExporter, CatEvent, meno, meor, mecr, SideName, side_b, side_s, side_unknown, emit,
}

-- What the stack reads of an intent: side 1 = buy, 2 = sell; action 1 = new, 2 = cancel.
pub record Intent (N : Type 0) : Type 0 where
  pub side : ℕ
  pub action : ℕ
  pub symbol_id : ℕ
  pub price : N
  pub quantity : N
  pub order_id : ℕ

-- And of a decision.
pub record GateDecision : Type 0 where
  pub passed : Bool
  pub reject_reason : RejectReason

pub record Warnings : Type 0 where
  pub would_reject_otr : Bool
  pub would_reject_self_trade : Bool
  pub would_reject_fat_finger : Bool
  pub mar_alert : Bool

pub record ComplianceStack (N : Type 0) : Type 0 where
  pub default_trader_id : ℕ
  pub otr : OtrCounter N
  pub self_trade : SelfTradeGuard N
  pub fat_finger : FatFingerGuard N
  pub mar : SpoofLayerDetector
  pub cat : CatExporter N

abbrev pub side_name : ℕ → SideName
side_name side = if side == 1 then side_b else if side == 2 then side_s else side_unknown

-- `getattr(decision, "passed", True)`, and its use where a decision is given.
abbrev pub passed_or : Bool → Option GateDecision → Bool
passed_or default none = default
passed_or default (some d) = d.passed

abbrev pub reason_of : Option GateDecision → RejectReason
reason_of none = RejectReason.accepted
reason_of (some d) = d.reject_reason

abbrev pub quiet : Warnings
quiet = record {
  would_reject_otr = false;
  would_reject_self_trade = false;
  would_reject_fat_finger = false;
  mar_alert = false;
}

abbrev pub is_some {ℓ} : {A : Type ℓ} → Option A → Bool
is_some none = false
is_some (some a) = true

module _ (F : Float) where
  open F use {Num, of_nat, lt}

  -- `on_trade`: a public trade.
  unfoldable pub on_trade : ℕ → Num → ComplianceStack Num → ComplianceStack Num
  on_trade symbol price k = record k {
    fat_finger = on_trade_price F symbol price k.fat_finger;
    otr = on_trade_otr F symbol k.otr;
  }

  abbrev pub cat_record_of : CatEvent → Option RejectReason → Intent Num → ℕ → CatRecord Num
  cat_record_of event reason i ts = record {
    event_type = event;
    event_timestamp_ns = ts;
    order_id = i.order_id;
    symbol = i.symbol_id;
    side = side_name i.side;
    price = i.price;
    quantity = i.quantity;
    reject_reason = reason;
  }

  abbrev pub resting_of : Intent Num → RestingOrder Num
  resting_of i = record {
    order_id = i.order_id;
    symbol_id = i.symbol_id;
    side = i.side;
    price = i.price;
    quantity = i.quantity;
  }

  -- The record of a new order, by the decision.
  abbrev pub new_record : Option GateDecision → Intent Num → ℕ → CatRecord Num
  new_record decision i ts =
      if passed_or true decision
      then cat_record_of meno none i ts
      else cat_record_of meor (some (reason_of decision)) i ts

  -- The two price checks of a new order, and its place in the book: fat finger, self trade.
  unfoldable pub check_priced :
      ℕ
      → Intent Num
      → Option GateDecision
      → ComplianceStack Num
      → (Bool × Bool) × ComplianceStack Num
  check_priced tid i decision k =
      let (fat, fat_finger') = check_price F i.symbol_id i.price k.fat_finger in
      let (self, self_trade') = check_self F tid i.symbol_id i.side i.price k.self_trade in
      let rests : SelfTradeGuard Num =
        if passed_or false decision
        then add_resting tid (resting_of i) self_trade'
        else self_trade' in
      ((fat, self), record k { fat_finger = fat_finger'; self_trade = rests })

  unfoldable pub observe_new :
      ℕ
      → Intent Num
      → Option GateDecision
      → ℕ
      → ComplianceStack Num
      → Warnings × ComplianceStack Num
  observe_new tid i decision ts k =
      let (would_otr, otr') = observe_otr F i.symbol_id false k.otr in
      let k' : ComplianceStack Num = record k { otr = otr' } in
      let ((would_fat, would_self), k'') =
        (if lt (of_nat 0) i.price then check_priced tid i decision k' else ((false, false), k')) in
      (
        record {
          would_reject_otr = would_otr;
          would_reject_self_trade = would_self;
          would_reject_fat_finger = would_fat;
          mar_alert = false;
        },
        record k'' {
          mar = on_new (tid, i.symbol_id, i.side) i.order_id ts k''.mar;
          cat = emit (new_record decision i ts) k''.cat;
        },
      )

  unfoldable pub observe_cancel :
      ℕ → Intent Num → ℕ → ComplianceStack Num → Result (Warnings × ComplianceStack Num)
  observe_cancel tid i ts k = do
    step ← on_cancel (tid, i.symbol_id, i.side) i.order_id ts k.mar
    ok (
      record quiet { mar_alert = is_some step.0 },
      record k {
        self_trade = cancel tid i.order_id k.self_trade;
        mar = step.1;
        cat = emit (cat_record_of mecr none i ts) k.cat;
      },
    )

  -- `observe`
  unfoldable pub observe :
      Intent Num
      → Option GateDecision
      → ℕ
      → Option ℕ
      → ComplianceStack Num
      → Result (Warnings × ComplianceStack Num)
  observe i decision ts trader k =
      let tid = or_else trader k.default_trader_id in
      if i.action == 1
      then ok (observe_new tid i decision ts k)
      else if i.action == 2
      then observe_cancel tid i ts k
      else ok (quiet, k)
