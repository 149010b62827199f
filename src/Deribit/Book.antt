-- ===== src/Deribit/Book.antt =====
-- sentinel_hft/deribit/book.py, and the types of fixture.py and instruments.py that it reads. An
-- instrument keeps the fields that the pipeline reads; its texts and the numbers that only the
-- random fixture uses are left out.
use sentinel_hft.Prelude.{ℕ, Bool, ◌||◌, Option, if◌then◌else◌, not}
use sentinel_hft.Prelude.Dict.{Dict, lookup, insert, or_else}
use sentinel_hft.Prelude.Eq.{nat_eq}
use sentinel_hft.Prelude.Float.{Float}

pub data InstrumentKind : Type 0 where
  perpetual future option : InstrumentKind

abbrev pub kind_code : InstrumentKind → ℕ
kind_code perpetual = 1
kind_code future = 2
kind_code option = 3

pub record Instrument (N : Type 0) : Type 0 where
  pub symbol_id : ℕ
  pub kind : InstrumentKind
  pub tick_size : N
  pub lot_size : N

pub data TickKind : Type 0 where
  quote trade : TickKind

pub record TickEvent (N : Type 0) : Type 0 where
  pub wire_ts_ns : ℕ
  pub host_ts_ns : ℕ
  pub seq_no : ℕ
  pub instrument : Instrument N
  pub kind : TickKind
  pub bid_price : N
  pub ask_price : N
  pub bid_size : N
  pub ask_size : N
  pub trade_price : N

pub record TopOfBook (N : Type 0) : Type 0 where
  pub instrument : Instrument N
  pub bid : N
  pub ask : N
  pub bid_size : N
  pub ask_size : N
  pub last_trade : N
  pub last_trade_ts_ns : ℕ
  pub updated_at_ns : ℕ

-- `BookState`: a book for each symbol.
abbrev pub BookState : Type 0 → Type 0
BookState N = Dict ℕ (TopOfBook N)

module _ (F : Float) where
  open F use {Num, of_nat, add, sub, div, lt}

  abbrev pub no_price : TopOfBook Num → Bool
  no_price b = not (lt (of_nat 0) b.bid) || not (lt (of_nat 0) b.ask)

  -- Halving is a division by two: for floats it is the same as the product with 0.5.
  unfoldable pub mid : TopOfBook Num → Num
  mid b = if no_price b then of_nat 0 else div (add b.bid b.ask) (of_nat 2)

  unfoldable pub spread : TopOfBook Num → Num
  spread b = if no_price b then of_nat 0 else sub b.ask b.bid

  abbrev pub new_book : Instrument Num → TopOfBook Num
  new_book ins = record {
    instrument = ins;
    bid = of_nat 0;
    ask = of_nat 0;
    bid_size = of_nat 0;
    ask_size = of_nat 0;
    last_trade = of_nat 0;
    last_trade_ts_ns = 0;
    updated_at_ns = 0;
  }

  abbrev pub note_trade : TickKind → TickEvent Num → TopOfBook Num → TopOfBook Num
  note_trade quote ev b = b
  note_trade trade ev b = record b { last_trade = ev.trade_price; last_trade_ts_ns = ev.host_ts_ns }

  -- `BookState.apply`: the updated book and the state that holds it.
  unfoldable pub apply : TickEvent Num → BookState Num → TopOfBook Num × BookState Num
  apply ev books =
      let symbol = ev.instrument.symbol_id in
      let old = or_else (lookup symbol books) (new_book ev.instrument) in
      let quoted : TopOfBook Num = record old {
        bid = ev.bid_price;
        ask = ev.ask_price;
        bid_size = ev.bid_size;
        ask_size = ev.ask_size;
        updated_at_ns = ev.host_ts_ns;
      } in
      let book = note_trade ev.kind ev quoted in (book, insert symbol book books)

  -- `BookState.get`
  abbrev pub get : ℕ → BookState Num → Option (TopOfBook Num)
  get symbol books = lookup symbol books
