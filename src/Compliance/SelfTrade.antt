-- ===== src/Compliance/SelfTrade.antt =====
-- sentinel_hft/compliance/self_trade_guard.py: the register of resting orders of each trader.
pub mod Crossing
use sentinel_hft.Prelude.{
  ℕ, ◌+◌, Bool, true, false, not, ◌&&◌, ◌||◌, Option, none, some, List, [], ◌∷◌, ◌++◌, ◌==◌,
  if◌then◌else◌,
}
use sentinel_hft.Prelude.Eq.{nat_eq}
use sentinel_hft.Prelude.Dict.{Dict, lookup, insert, or_else}
use sentinel_hft.Prelude.Float.{Float, geb}

-- Sides: 1 = buy, 2 = sell.
pub record RestingOrder (N : Type 0) : Type 0 where
  pub order_id : ℕ
  pub symbol_id : ℕ
  pub side : ℕ
  pub price : N
  pub quantity : N

pub record SelfTradeGuard (N : Type 0) : Type 0 where
  pub book : Dict ℕ (List (RestingOrder N))
  pub rejects : ℕ
  pub checked : ℕ

module _ {N : Type 0} where
  unfoldable pub add_resting : ℕ → RestingOrder N → SelfTradeGuard N → SelfTradeGuard N
  add_resting trader o g = record g {
    book = insert trader (or_else (lookup trader g.book) [] ++ o ∷ []) g.book;
  }

  -- The list without the orders of a number.
  unfoldable pub without : ℕ → List (RestingOrder N) → List (RestingOrder N)
  without i [] = []
  without i (o ∷ os) = let rest = without i os in if not (o.order_id == i) then o ∷ rest else rest

  abbrev pub cancel_from :
      ℕ → ℕ → Option (List (RestingOrder N)) → SelfTradeGuard N → SelfTradeGuard N
  cancel_from trader i none g = g
  cancel_from trader i (some []) g = g
  cancel_from trader i (some (o ∷ os)) g = record g {
    book = insert trader (without i (o ∷ os)) g.book;
  }

  unfoldable pub cancel : ℕ → ℕ → SelfTradeGuard N → SelfTradeGuard N
  cancel trader i g = cancel_from trader i (lookup trader g.book) g

module _ (F : Float) where
  open F use {Num}

  -- The test of one resting order, as the loop makes it.
  abbrev pub crosses : ℕ → Num → RestingOrder Num → Bool
  crosses side price r =
      ((side == 1) && ((r.side == 2) && geb F price r.price))
      || ((side == 2) && ((r.side == 1) && geb F r.price price))

  unfoldable pub any_crosses : ℕ → ℕ → Num → List (RestingOrder Num) → Bool
  any_crosses symbol side price [] = false
  any_crosses symbol side price (r ∷ rs) =
      let later = any_crosses symbol side price rs in
      if not (r.symbol_id == symbol)
      then later
      else if r.side == side
      then later
      else if crosses side price r
      then true
      else later

  -- `check`; the quantity is not looked at.
  unfoldable pub check : ℕ → ℕ → ℕ → Num → SelfTradeGuard Num → Bool × SelfTradeGuard Num
  check trader symbol side price g =
      let g' : SelfTradeGuard Num = record g { checked = g.checked + 1 } in
      if any_crosses symbol side price (or_else (lookup trader g.book) [])
      then (true, record g' { rejects = g.rejects + 1 })
      else (false, g')
