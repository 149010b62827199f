-- ===== src/Compliance/Otr/Counts.antt =====
-- The ratio counter counts: each symbol's orders and trades, the totals, and the warnings.
use sentinel_hft.Prelude.{
  ℕ, suc, ◌+◌, ◌≡◌, refl, sym, ap, ap₂, Bool, true, false, List, [], ◌∷◌, length, ◌==◌, arith,
  if_split, if◌then◌else◌, ◌++◌, length-append,
}
use sentinel_hft.Prelude.Eq.{nat_eq}
use sentinel_hft.Prelude.Dict.{lookup, or_else}
use sentinel_hft.Prelude.Float.{Float}
use sentinel_hft.Compliance.Otr.{
  OtrCounter, sum_values, on_order, on_trade, quotient, ratio, global_ratio, traded, observe,
}
use sentinel_hft.Compliance.Otr.Bumps.{lookup-bump, sum_values-bump}

-- How often a symbol stands in a list.
abbrev pub occurrences : ℕ → List ℕ → ℕ
occurrences j [] = 0
occurrences j (k ∷ ks) = (if k == j then 1 else 0) + occurrences j ks

-- What the counter is told: an order, which may be filled at once, or a trade.
pub data Event : Type 0 where
  ordered : ℕ → Bool → Event
  executed : ℕ → Event

abbrev pub orders_of : List Event → List ℕ
orders_of [] = []
orders_of (ordered k filled ∷ es) = k ∷ orders_of es
orders_of (executed k ∷ es) = orders_of es

abbrev pub cons_if : Bool → ℕ → List ℕ → List ℕ
cons_if true k ks = k ∷ ks
cons_if false k ks = ks

abbrev pub trades_of : List Event → List ℕ
trades_of [] = []
trades_of (ordered k filled ∷ es) = cons_if filled k (trades_of es)
trades_of (executed k ∷ es) = k ∷ trades_of es

abbrev pub count_true : List Bool → ℕ
count_true [] = 0
count_true (true ∷ bs) = suc (count_true bs)
count_true (false ∷ bs) = count_true bs

module _ (F : Float) where
  open F use {Num, of_nat, lt}

  -- The warnings that a sequence of events gives, and the counter behind it.
  unfoldable pub run : List Event → OtrCounter Num → List Bool × OtrCounter Num
  run [] c = ([], c)
  run (ordered k filled ∷ es) c =
      let (warned, c') = observe F k filled c in
      let (later, c'') = run es c' in (warned ∷ later, c'')
  run (executed k ∷ es) c = run es (on_trade F k c)

  -- One counter holds `os` more orders and `ts` more trades than another, and `n` more warnings.
  pub record Gained (os ts : List ℕ) (n : ℕ) (c c' : OtrCounter Num) : Type 0 where
    pub orders :
        (j : ℕ) → or_else (lookup j c'.orders) 0 ≡ occurrences j os + or_else (lookup j c.orders) 0
    pub trades :
        (j : ℕ) → or_else (lookup j c'.trades) 0 ≡ occurrences j ts + or_else (lookup j c.trades) 0
    pub all_orders : sum_values c'.orders ≡ length os + sum_values c.orders
    pub all_trades : sum_values c'.trades ≡ length ts + sum_values c.trades
    pub warnings : c'.rejects_would_trip ≡ n + c.rejects_would_trip

  pub on_trade-Gained : (k : ℕ) (c : OtrCounter Num) → Gained [] (k ∷ []) 0 c (on_trade F k c)
  unfolding on_trade
  on_trade-Gained k c = record {
    orders = λ j. omega arith;
    trades = λ j. omega (arith, lookup-bump j k c.trades);
    all_orders = omega arith;
    all_trades = omega (arith, sum_values-bump k c.trades);
    warnings = omega arith;
  }

  on_order-Gained : (k : ℕ) (c : OtrCounter Num) → Gained (k ∷ []) [] 0 c (on_order F k c)
  unfolding on_order
  on_order-Gained k c = record {
    orders = λ j. omega (arith, lookup-bump j k c.orders);
    trades = λ j. omega arith;
    all_orders = omega (arith, sum_values-bump k c.orders);
    all_trades = omega arith;
    warnings = omega arith;
  }

  occurrences-append :
      (j : ℕ) (ks ls : List ℕ) → occurrences j (ks ++ ls) ≡ occurrences j ks + occurrences j ls
  occurrences-append j [] ls = omega arith
  occurrences-append j (k ∷ ks) ls = omega (arith, occurrences-append j ks ls)

  Gained-trans :
      (os os' ts ts' us : List ℕ) (n n' m : ℕ) (a b c : OtrCounter Num)
      → us ≡ ts ++ ts'
      → m ≡ n + n'
      → Gained os ts n a b
      → Gained os' ts' n' b c
      → Gained (os ++ os') us m a c
  Gained-trans os os' ts ts' us n n' m a b c eu em g h =
      let occ : (j : ℕ) → occurrences j us ≡ occurrences j (ts ++ ts') =
        λ j. ap (occurrences j) eu in
      let len : length us ≡ length (ts ++ ts') = ap length eu in
      record {
        orders = λ j. omega (arith, g.orders j, h.orders j, occurrences-append j os os');
        trades = λ j. omega (arith, g.trades j, h.trades j, occurrences-append j ts ts', occ j);
        all_orders = omega (arith, g.all_orders, h.all_orders, length-append os os');
        all_trades = omega (arith, g.all_trades, h.all_trades, length-append ts ts', len);
        warnings = omega (arith, g.warnings, h.warnings, em);
      }

  traded-Gained :
      (filled : Bool) (k : ℕ) (c : OtrCounter Num)
      → Gained [] (cons_if filled k []) 0 c (traded F filled k c)
  traded-Gained true k c = on_trade-Gained k c
  traded-Gained false k c = record {
    orders = λ j. omega arith;
    trades = λ j. omega arith;
    all_orders = omega arith;
    all_trades = omega arith;
    warnings = omega arith;
  }

  pub observe-Gained :
      (k : ℕ) (filled : Bool) (c : OtrCounter Num)
      → let (warned, c') = observe F k filled c in
        Gained (k ∷ []) (cons_if filled k []) (count_true (warned ∷ [])) c c'
  unfolding observe
  observe-Gained k filled c =
      let c1 = on_order F k c in
      let c2 = traded F filled k c1 in
      let g =
        Gained-trans (k ∷ []) [] [] (cons_if filled k []) (cons_if filled k []) 0 0 0 c c1 c2 refl
          refl (on_order-Gained k c) (traded-Gained filled k c1) in
      if_split
        (λ (x : Bool × OtrCounter Num).
          Gained (k ∷ []) (cons_if filled k []) (count_true (x.0 ∷ [])) c x.1)
        (lt c2.max_ratio_per_symbol (ratio F k c2))
        (λ warned. record {
          orders = g.orders;
          trades = g.trades;
          all_orders = g.all_orders;
          all_trades = g.all_trades;
          warnings = omega (arith, g.warnings);
        })
        (λ silent. g)

  count_true-cons :
      (b : Bool) (bs : List Bool) → count_true (b ∷ bs) ≡ count_true (b ∷ []) + count_true bs
  count_true-cons true bs = omega arith
  count_true-cons false bs = omega arith

  cons_if-append : (b : Bool) (k : ℕ) (ks : List ℕ) → cons_if b k [] ++ ks ≡ cons_if b k ks
  cons_if-append true k ks = refl
  cons_if-append false k ks = refl

  run-Gained :
      (es : List Event) (c : OtrCounter Num)
      → let (warned, c') = run es c in Gained (orders_of es) (trades_of es) (count_true warned) c c'
  unfolding run
  run-Gained [] c = record {
    orders = λ j. omega arith;
    trades = λ j. omega arith;
    all_orders = omega arith;
    all_trades = omega arith;
    warnings = omega arith;
  }
  run-Gained (executed k ∷ es) c =
      Gained-trans [] (orders_of es) (k ∷ []) (trades_of es) (k ∷ trades_of es) 0 _ _ c
        (on_trade F k c) _ refl (omega arith) (on_trade-Gained k c) (run-Gained es (on_trade F k c))
  run-Gained (ordered k filled ∷ es) c =
      let (warned, c') = observe F k filled c in
      Gained-trans (k ∷ []) (orders_of es) (cons_if filled k []) (trades_of es) _ _ _ _ c c' _
        (sym (cons_if-append filled k (trades_of es))) (count_true-cons warned _)
        (observe-Gained k filled c) (run-Gained es c')

  abbrev pub new_counter : Num → OtrCounter Num
  new_counter m = record {
    max_ratio_per_symbol = m;
    orders = [];
    trades = [];
    rejects_would_trip = 0;
  }

  -- After any events on a new counter: a symbol's ratio is that of its orders and its trades among
  -- the events, the global ratio is that of all orders and all trades, and the warnings that were
  -- returned are counted.
  pub ratio-run :
      (m : Num) (es : List Event)
      → let (warned, c) = run es (new_counter m) in
        ((j : ℕ)
          → ratio F j c ≡ quotient F (occurrences j (orders_of es)) (occurrences j (trades_of es)))
        × (global_ratio F c ≡ quotient F (length (orders_of es)) (length (trades_of es)))
        × (c.rejects_would_trip ≡ count_true warned)
  unfolding ratio global_ratio lookup
  ratio-run m es =
      let g = run-Gained es (new_counter m) in
      (
        λ j. ap₂ (quotient F) (omega (arith, g.orders j)) (omega (arith, g.trades j)),
        ap₂ (quotient F) (omega (arith, g.all_orders)) (omega (arith, g.all_trades)),
        omega (arith, g.warnings),
      )
