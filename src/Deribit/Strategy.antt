-- ===== src/Deribit/Strategy.antt =====
-- sentinel_hft/deribit/strategy.py: the market maker that quotes a pair around the mid price. The
-- side, the action and the intent are those of the risk gate.
pub mod Live
pub mod Raises
use sentinel_hft.Prelude.{
  ℕ, ◌+◌, Bool, true, false, not, ◌&&◌, ◌||◌, Option, none, some, List, [], ◌∷◌, ◌++◌, map, ltb,
  ◌==◌, if◌then◌else◌,
}
use sentinel_hft.Prelude.Dict.{Dict, lookup, insert, or_else}
use sentinel_hft.Prelude.Eq.{nat_eq}
use sentinel_hft.Prelude.Float.{Float, abs, is_zero}
use sentinel_hft.Prelude.Result.{Result, ok, err, zero_division_error, ◌>>=◌}
use sentinel_hft.Risk.{Side, buy, sell, new, cancel, QuoteIntent}
use sentinel_hft.Deribit.Book.{
  InstrumentKind, perpetual, future, option, Instrument, TopOfBook, mid,
}

pub record OutstandingQuote (N : Type 0) : Type 0 where
  pub order_id : ℕ
  pub side : Side
  pub quantity : N
  pub notional : N

pub record SymbolState (N : Type 0) : Type 0 where
  pub last_mid : N
  pub last_paper_ns : ℕ
  pub order_counter : ℕ
  pub outstanding : List (OutstandingQuote N)

pub record SpreadMmStrategy (N : Type 0) : Type 0 where
  pub state : Dict ℕ (SymbolState N)
  pub skew_perp : N
  pub skew_opt : N
  pub qty_perp : N
  pub qty_opt : N
  pub repaper_ns : ℕ
  pub repaper_mult : N
  pub global_order_id : ℕ

module _ {N : Type 0} where
  abbrev pub skew_of : InstrumentKind → SpreadMmStrategy N → N
  skew_of option s = s.skew_opt
  skew_of perpetual s = s.skew_perp
  skew_of future s = s.skew_perp

  abbrev pub qty_of : InstrumentKind → SpreadMmStrategy N → N
  qty_of option s = s.qty_opt
  qty_of perpetual s = s.qty_perp
  qty_of future s = s.qty_perp

module _ (F : Float) where
  open F use {Num, of_nat, add, sub, mul, div, lt}

  abbrev pub fresh : SymbolState Num
  fresh = record { last_mid = of_nat 0; last_paper_ns = 0; order_counter = 0; outstanding = [] }

  -- The quote of this symbol is recent and the mid price has not moved enough. `now - last` is
  -- compared without the subtraction, which may be negative. The move is counted in ticks.
  unfoldable pub too_soon :
      SpreadMmStrategy Num → Instrument Num → Num → ℕ → SymbolState Num → Result Bool
  too_soon s ins m now st =
      if not (st.last_paper_ns == 0) && ltb now (st.last_paper_ns + s.repaper_ns)
      then (if lt (of_nat 0) st.last_mid
          then (if is_zero F ins.tick_size
              then err zero_division_error
              else ok (lt (div (abs F (sub m st.last_mid)) ins.tick_size) s.repaper_mult))
          else ok true)
      else ok false

  unfoldable pub cancel_of : ℕ → ℕ → OutstandingQuote Num → QuoteIntent Num
  cancel_of symbol now out = record {
    order_id = out.order_id;
    symbol_id = symbol;
    side = out.side;
    price = of_nat 0;
    quantity = out.quantity;
    notional = out.notional;
    generated_ts_ns = now;
    action = cancel;
    replaces_order_id = out.order_id;
  }

  -- A new order with its notional, `px * qty * lot_size`.
  unfoldable pub order : ℕ → Side → Num → Num → Instrument Num → ℕ → QuoteIntent Num
  order id side px qty ins now = record {
    order_id = id;
    symbol_id = ins.symbol_id;
    side = side;
    price = px;
    quantity = qty;
    notional = mul (mul px qty) ins.lot_size;
    generated_ts_ns = now;
    action = new;
    replaces_order_id = 0;
  }

  -- The pair of orders around the mid price, with the two next order numbers.
  unfoldable pub quote_pair :
      SpreadMmStrategy Num → Instrument Num → Num → ℕ → List (QuoteIntent Num)
  quote_pair s ins m now =
      let half = mul ins.tick_size (skew_of ins.kind s) in
      let qty = qty_of ins.kind s in
      order (s.global_order_id + 1) buy (sub m half) qty ins now
      ∷ order (s.global_order_id + 2) sell (add m half) qty ins now
      ∷ []

  -- The state of a symbol when its quotes have been replaced.
  abbrev pub papered : Num → ℕ → SymbolState Num → SymbolState Num
  papered m now st = record {
    last_mid = m;
    last_paper_ns = now;
    order_counter = st.order_counter + 1;
    outstanding = [];
  }

  -- `SpreadMmStrategy.on_tick`. The state that `setdefault` adds stays when no quote follows.
  unfoldable pub on_tick :
      TopOfBook Num
      → ℕ
      → SpreadMmStrategy Num
      → Result (List (QuoteIntent Num) × SpreadMmStrategy Num)
  on_tick book now s =
      let ins = book.instrument in
      let m = mid F book in
      let st = or_else (lookup ins.symbol_id s.state) fresh in
      let kept : SpreadMmStrategy Num = record s { state = insert ins.symbol_id st s.state } in
      if not (lt (of_nat 0) m)
      then ok ([], s)
      else too_soon s ins m now st >>= λ soon. ok (
          if soon || not (lt (of_nat 0) (sub m (mul ins.tick_size (skew_of ins.kind s))))
          then ([], kept)
          else (
            map (cancel_of ins.symbol_id now) st.outstanding ++ quote_pair s ins m now,
            record s {
              state = insert ins.symbol_id (papered m now st) s.state;
              global_order_id = s.global_order_id + 2;
            },
          ))

  -- `confirm_new`
  unfoldable pub confirm_new : QuoteIntent Num → SpreadMmStrategy Num → SpreadMmStrategy Num
  confirm_new i s = elim (lookup i.symbol_id s.state) [
    | none ↦ s
    | some st ↦ record s {
      state =
          insert i.symbol_id
            (record st {
              outstanding =
                  st.outstanding
                  ++ record {
                    order_id = i.order_id;
                    side = i.side;
                    quantity = i.quantity;
                    notional = i.notional;
                  }
                    ∷ [];
            })
            s.state;
    }
  ]
