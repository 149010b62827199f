-- ===== src/Compliance/Stack/Streams.antt =====
-- The stack on a stream of intents and public trades: it raises nothing and loses nothing.
use sentinel_hft.Prelude.{
  ℕ, ◌+◌, ◌≤◌, ◌≡◌, refl, sym, ap, ◌∙◌, Bool, true, false, Option, none, List, [], ◌∷◌, ◌==◌, arith,
  Bool-cases, inl, inr,
}
use sentinel_hft.Prelude.Dict.{or_else}
use sentinel_hft.Prelude.Result.{Result, ok, ◌>>=◌}
use sentinel_hft.Prelude.Float.{Float}
use sentinel_hft.Compliance.Mar.Calls.{on_cancel-Fired}
use sentinel_hft.Compliance.Mar.Firing.{new_detector}
use sentinel_hft.Compliance.Mar.Seen.{on_cancel-seen}
use sentinel_hft.Compliance.Otr.Counts.{new_counter, on_trade-Gained}
use sentinel_hft.Compliance.FatFinger.Deviation.{new_guard, on_trade-IsChecked, checked-on_trade}
use sentinel_hft.Compliance.Cat.{mecr}
use sentinel_hft.Compliance.Stack.{
  Intent, GateDecision, Warnings, ComplianceStack, quiet, is_some, cat_record_of, observe_new,
  observe_cancel, observe, on_trade,
}
use sentinel_hft.Compliance.Stack.Agreement.{
  Agrees, observe_new-Agrees, orders-observe_new, by_types-emit, count-emit, checked-cancel,
}

abbrev pub one_if : Bool → ℕ
one_if true = 1
one_if false = 0

module _ (F : Float) where
  open F use {Num, of_nat}

  -- What the runner hands to the stack.
  pub data Feed : Type 0 where
    intent : Intent Num → Option GateDecision → ℕ → Option ℕ → Feed
    public_trade : ℕ → Num → Feed

  -- The number of intents of an action in a stream: 1 = new, 2 = cancel.
  abbrev pub intents : ℕ → List Feed → ℕ
  intents a [] = 0
  intents a (intent i d ts trader ∷ fs) = one_if (i.action == a) + intents a fs
  intents a (public_trade symbol price ∷ fs) = intents a fs

  unfoldable pub run : List Feed → ComplianceStack Num → Result (ComplianceStack Num)
  run [] k = ok k
  run (intent i d ts trader ∷ fs) k = do step ← observe F i d ts trader k; run fs step.1
  run (public_trade symbol price ∷ fs) k = run fs (on_trade F symbol price k)

  -- A stack behind another by `n` new orders and `c` cancels.
  pub record Reached (low high : ℕ) (m : Num) (n c : ℕ) (k : ComplianceStack Num)
      (r : Result (ComplianceStack Num)) : Type 0 where
    pub after : ComplianceStack Num
    pub returned : r ≡ ok after
    pub agrees : Agrees F low high m after
    pub news : after.mar.orders_seen ≡ n + k.mar.orders_seen
    pub cancels : after.mar.cancels_seen ≡ c + k.mar.cancels_seen

  -- What one intent does to the stack.
  pub record Observed (low high : ℕ) (m : Num) (n c : ℕ) (k : ComplianceStack Num)
      (r : Result (Warnings × ComplianceStack Num)) : Type 0 where
    pub warnings : Warnings
    pub after : ComplianceStack Num
    pub returned : r ≡ ok (warnings, after)
    pub agrees : Agrees F low high m after
    pub news : after.mar.orders_seen ≡ n + k.mar.orders_seen
    pub cancels : after.mar.cancels_seen ≡ c + k.mar.cancels_seen

  observe_cancel-Observed :
      (low high : ℕ) (m : Num) (tid : ℕ) (i : Intent Num) (ts : ℕ) (k : ComplianceStack Num)
      → 1 ≤ low
      → Agrees F low high m k
      → Observed low high m 0 1 k (observe_cancel F tid i ts k)
  unfolding observe_cancel
  observe_cancel-Observed low high m tid i ts k pos_low a =
      let f =
        on_cancel-Fired low high (tid, i.symbol_id, i.side) i.order_id ts k.mar pos_low a.watch in
      let (same, seen) =
        on_cancel-seen (tid, i.symbol_id, i.side) i.order_id ts k.mar f.alert f.after f.returned in
      let r = cat_record_of F mecr none i ts in
      rw (observe_cancel, f.returned)
        (record {
          warnings = record quiet { mar_alert = is_some f.alert };
          after = _;
          returned = refl;
          agrees = record {
            watch = f.watch;
            prices = a.prices;
            orders = a.orders ∙ sym same;
            checks = a.checks ∙ sym (checked-cancel tid i.order_id k.self_trade);
            records = omega (arith, count-emit r k.cat, same, seen, a.records);
            types = omega (arith, by_types-emit r k.cat, count-emit r k.cat, a.types);
          };
          news = omega (arith, same);
          cancels = omega (arith, seen);
        })

  pub observe-Observed :
      (low high : ℕ) (m : Num) (i : Intent Num) (d : Option GateDecision) (ts : ℕ)
      (trader : Option ℕ) (k : ComplianceStack Num)
      → 1 ≤ low
      → Agrees F low high m k
      → Observed low high m
          (one_if (i.action == 1))
          (one_if (i.action == 2))
          k
          (observe F i d ts trader k)
  unfolding observe
  observe-Observed low high m i d ts trader k pos_low a =
      let tid = or_else trader k.default_trader_id in
      elim (Bool-cases (i.action == 1)) [
        | inl is_new ↦
            let other : (i.action == 2) ≡ false = ground arith in
            let (n, c) = orders-observe_new F tid i d ts k in
            rw (is_new, other)
              (record {
                warnings = (observe_new F tid i d ts k).0;
                after = (observe_new F tid i d ts k).1;
                returned = refl;
                agrees = observe_new-Agrees F low high m tid i d ts k a;
                news = omega (arith, n);
                cancels = omega (arith, c);
              })
        | inr not_new ↦ elim (Bool-cases (i.action == 2)) [
          | inl is_cancel ↦
              rw (not_new, is_cancel) (observe_cancel-Observed low high m tid i ts k pos_low a)
          | inr neither ↦
              rw (not_new, neither)
                (record {
                  warnings = quiet;
                  after = k;
                  returned = refl;
                  agrees = a;
                  news = omega arith;
                  cancels = omega arith;
                })
        ]
      ]

  pub on_trade-Agrees :
      (low high : ℕ) (m : Num) (symbol : ℕ) (price : Num) (k : ComplianceStack Num)
      → Agrees F low high m k
      → Agrees F low high m (on_trade F symbol price k)
  unfolding on_trade
  on_trade-Agrees low high m symbol price k a = record {
    watch = a.watch;
    prices = on_trade-IsChecked F m symbol price k.fat_finger a.prices;
    orders = omega (arith, (on_trade-Gained F symbol k.otr).all_orders, a.orders);
    checks = checked-on_trade F symbol price k.fat_finger ∙ a.checks;
    records = a.records;
    types = a.types;
  }

  mar-on_trade :
      (symbol : ℕ) (price : Num) (k : ComplianceStack Num)
      → ((on_trade F symbol price k).mar.orders_seen ≡ k.mar.orders_seen)
        × ((on_trade F symbol price k).mar.cancels_seen ≡ k.mar.cancels_seen)
  unfolding on_trade
  mar-on_trade symbol price k = (refl, refl)

  run-Reached :
      (low high : ℕ) (m : Num) (fs : List Feed) (k : ComplianceStack Num)
      → 1 ≤ low
      → Agrees F low high m k
      → Reached low high m (intents 1 fs) (intents 2 fs) k (run fs k)
  unfolding run
  run-Reached low high m [] k pos_low a = record {
    after = k;
    returned = refl;
    agrees = a;
    news = omega arith;
    cancels = omega arith;
  }
  run-Reached low high m (intent i d ts trader ∷ fs) k pos_low a =
      let o = observe-Observed low high m i d ts trader k pos_low a in
      let r = run-Reached low high m fs o.after pos_low o.agrees in
      record {
        after = r.after;
        returned = ap (λ x. x >>= λ step. run fs step.1) o.returned ∙ r.returned;
        agrees = r.agrees;
        news = omega (arith, o.news, r.news);
        cancels = omega (arith, o.cancels, r.cancels);
      }
  run-Reached low high m (public_trade symbol price ∷ fs) k pos_low a =
      let k' = on_trade F symbol price k in
      let (n, c) = mar-on_trade symbol price k in
      let r = run-Reached low high m fs k' pos_low (on_trade-Agrees low high m symbol price k a) in
      record {
        after = r.after;
        returned = r.returned;
        agrees = r.agrees;
        news = omega (arith, r.news, n);
        cancels = omega (arith, r.cancels, c);
      }

  abbrev pub new_stack : ℕ → ℕ → ℕ → ℕ → Num → Num → ComplianceStack Num
  new_stack low window on_book high max_ratio m = record {
    default_trader_id = 1;
    otr = new_counter F max_ratio;
    self_trade = record { book = []; rejects = 0; checked = 0 };
    fat_finger = new_guard F m;
    mar = new_detector low window on_book high;
    cat = record { fh = none; count = 0; by_type = [] };
  }

  pub new_stack-Agrees :
      (low window on_book high : ℕ) (max_ratio m : Num)
      → Agrees F low high m (new_stack low window on_book high max_ratio m)
  new_stack-Agrees low window on_book high max_ratio m = record {
    watch = record {
      low_kept = refl;
      high_kept = refl;
      sound = record { once = omega arith; small = tt };
      bounded = tt;
    };
    prices = record { limit = refl; prices = tt; rejects_le = omega arith; worst = inl refl };
    orders = refl;
    checks = refl;
    records = omega arith;
    types = refl;
  }

  pub run-Agrees :
      (low window on_book high : ℕ) (max_ratio m : Num) (fs : List Feed)
      → 1 ≤ low
      → (k : ComplianceStack Num) × (run fs (new_stack low window on_book high max_ratio m) ≡ ok k)
        × Agrees F low high m k
        × (k.mar.orders_seen ≡ intents 1 fs)
        × (k.cat.count ≡ intents 1 fs + intents 2 fs)
  run-Agrees low window on_book high max_ratio m fs pos_low =
      let r =
        run-Reached low high m fs (new_stack low window on_book high max_ratio m) pos_low
          (new_stack-Agrees low window on_book high max_ratio m) in
      (
        r.after,
        r.returned,
        r.agrees,
        omega (arith, r.news),
        omega (arith, r.agrees.records, r.news, r.cancels),
      )
