-- ===== src/Hyperliquid/Fixture.antt =====
-- sentinel_hft/hyperliquid/fixture.py: the tick that the scorer and the runner read. The generator of
-- random ticks is left out.
use sentinel_hft.Prelude.{ℕ, Bool, true, false}
use sentinel_hft.Prelude.Float.{Float}
use sentinel_hft.Deribit.Book.{Instrument, TickKind, quote, trade, TickEvent}

pub data TakerProfile : Type 0 where
  toxic neutral benign : TakerProfile

abbrev pub is_toxic : TakerProfile → Bool
is_toxic toxic = true
is_toxic _ = false

pub record HlTickEvent (N : Type 0) : Type 0 where
  pub wire_ts_ns : ℕ
  pub host_ts_ns : ℕ
  pub seq_no : ℕ
  pub instrument : Instrument N
  pub kind : TickKind
  pub bid_price : N
  pub ask_price : N
  pub bid_size : N
  pub ask_size : N
  pub trade_price : N
  pub taker_id : ℕ

abbrev pub is_trade : TickKind → Bool
is_trade trade = true
is_trade quote = false

unfoldable pub as_deribit_event : {N : Type 0} → HlTickEvent N → TickEvent N
as_deribit_event ev = record {
  wire_ts_ns = ev.wire_ts_ns;
  host_ts_ns = ev.host_ts_ns;
  seq_no = ev.seq_no;
  instrument = ev.instrument;
  kind = ev.kind;
  bid_price = ev.bid_price;
  ask_price = ev.ask_price;
  bid_size = ev.bid_size;
  ask_size = ev.ask_size;
  trade_price = ev.trade_price;
}

module _ (F : Float) where
  open F use {Num, of_nat, add, div}

  -- Halving is a division by two.
  abbrev pub tick_mid : HlTickEvent Num → Num
  tick_mid ev = div (add ev.bid_price ev.ask_price) (of_nat 2)
