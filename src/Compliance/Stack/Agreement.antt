-- ===== src/Compliance/Stack/Agreement.antt =====
-- The observers of the stack agree with each other, over any stream.
use sentinel_hft.Prelude.{
  ℕ, ◌+◌, ◌≡◌, refl, sym, ap, subst, Bool, false, Option, none, some, List, [], ◌∷◌, if◌then◌else◌,
  if_split, arith,
}
use sentinel_hft.Prelude.Eq.{nat_eq}
use sentinel_hft.Prelude.Dict.{lookup, or_else}
use sentinel_hft.Prelude.Dict.Values.{total, weight, total-insert}
use sentinel_hft.Prelude.Float.{Float}
use sentinel_hft.Compliance.Mar.Calls.{IsWatch, on_new-IsWatch}
use sentinel_hft.Compliance.Mar.Seen.{on_new-seen}
use sentinel_hft.Compliance.Otr.{sum_values}
use sentinel_hft.Compliance.Otr.{observe as observe_otr}
use sentinel_hft.Compliance.Otr.Counts.{observe-Gained}
use sentinel_hft.Compliance.SelfTrade.{
  SelfTradeGuard, RestingOrder, add_resting, cancel, cancel_from, check as check_self,
}
use sentinel_hft.Compliance.SelfTrade.Crossing.{check_iff}
use sentinel_hft.Compliance.FatFinger.Deviation.{IsChecked, check-IsChecked, checked-check}
use sentinel_hft.Compliance.Cat.{CatRecord, CatExporter, event_eq, emit}
use sentinel_hft.Compliance.Stack.{
  Intent, GateDecision, ComplianceStack, passed_or, resting_of, new_record, check_priced,
  observe_new,
}

-- The records by their types.
abbrev pub by_types : {N : Type 0} → CatExporter N → ℕ
by_types c = total (λ v. v) c.by_type

pub by_types-emit :
    {N : Type 0} → (r : CatRecord N) (c : CatExporter N) → by_types (emit r c) ≡ by_types c + 1
unfolding emit
by_types-emit r c =
    let old : weight (λ v. v) (lookup r.event_type c.by_type)
        ≡ or_else (lookup r.event_type c.by_type) 0 =
      weight_or (lookup r.event_type c.by_type) in
    omega (
      arith,
      total-insert (λ v. v) r.event_type (or_else (lookup r.event_type c.by_type) 0 + 1) c.by_type,
      old,
    )
  where
    weight_or : (o : Option ℕ) → weight (λ v. v) o ≡ or_else o 0
    weight_or none = refl
    weight_or (some n) = refl

pub count-emit :
    {N : Type 0} → (r : CatRecord N) (c : CatExporter N) → (emit r c).count ≡ c.count + 1
unfolding emit
count-emit r c = refl

pub checked-cancel :
    {N : Type 0} → (t i : ℕ) (g : SelfTradeGuard N) → (cancel t i g).checked ≡ g.checked
unfolding cancel
checked-cancel {N = N} t i g = from (lookup t g.book)
  where
    from : (o : Option (List (RestingOrder N))) → (cancel_from t i o g).checked ≡ g.checked
    from none = refl
    from (some []) = refl
    from (some (o ∷ os)) = refl

module _ (F : Float) where
  open F use {Num, of_nat, lt}

  -- What the observers have to agree on.
  pub record Agrees (low high : ℕ) (m : Num) (k : ComplianceStack Num) : Type 0 where
    pub watch : IsWatch low high k.mar
    pub prices : IsChecked F m k.fat_finger
    pub orders : sum_values k.otr.orders ≡ k.mar.orders_seen
    pub checks : k.fat_finger.checked ≡ k.self_trade.checked
    pub records : k.cat.count ≡ k.mar.orders_seen + k.mar.cancels_seen
    pub types : by_types k.cat ≡ k.cat.count

  -- What the price checks change.
  record Priced (m : Num) (k : ComplianceStack Num) (x : (Bool × Bool) × ComplianceStack Num)
      : Type 0 where
    prices : IsChecked F m x.1.fat_finger
    checks : x.1.fat_finger.checked ≡ x.1.self_trade.checked
    otr : x.1.otr ≡ k.otr
    mar : x.1.mar ≡ k.mar
    cat : x.1.cat ≡ k.cat

  check_priced-Priced :
      (m : Num) (tid : ℕ) (i : Intent Num) (d : Option GateDecision) (k : ComplianceStack Num)
      → IsChecked F m k.fat_finger
      → k.fat_finger.checked ≡ k.self_trade.checked
      → Priced m k (check_priced F tid i d k)
  unfolding check_priced add_resting
  check_priced-Priced m tid i d k c e =
      let (_, _, counted, _) = check_iff F tid i.symbol_id i.side i.price k.self_trade in
      let g = (check_self F tid i.symbol_id i.side i.price k.self_trade).1 in
      let placed : (if passed_or false d then add_resting tid (resting_of F i) g else g).checked
          ≡ g.checked =
        if_split (λ (x : SelfTradeGuard Num). x.checked ≡ g.checked) (passed_or false d) (λ p. refl)
          (λ p. refl) in
      record {
        prices = check-IsChecked F m i.symbol_id i.price k.fat_finger c;
        checks =
            omega (arith, checked-check F i.symbol_id i.price k.fat_finger, counted, placed, e);
        otr = refl;
        mar = refl;
        cat = refl;
      }

  pub observe_new-Agrees :
      (low high : ℕ) (m : Num) (tid : ℕ) (i : Intent Num) (d : Option GateDecision) (ts : ℕ)
      (k : ComplianceStack Num)
      → Agrees low high m k
      → Agrees low high m (observe_new F tid i d ts k).1
  unfolding observe_new
  observe_new-Agrees low high m tid i d ts k a =
      let k' : ComplianceStack Num = record k { otr = (observe_otr F i.symbol_id false k.otr).1 } in
      let step =
        (if lt (of_nat 0) i.price then check_priced F tid i d k' else ((false, false), k')) in
      let p : Priced m k' step =
        if_split (Priced m k') (lt (of_nat 0) i.price)
          (λ h. check_priced-Priced m tid i d k' a.prices a.checks)
          (λ h. record {
            prices = a.prices;
            checks = a.checks;
            otr = refl;
            mar = refl;
            cat = refl;
          }) in
      let g = observe-Gained F i.symbol_id false k.otr in
      let (seen, same) = on_new-seen (tid, i.symbol_id, i.side) i.order_id ts step.1.mar in
      let mar_same : step.1.mar.orders_seen ≡ k.mar.orders_seen = ap (λ r. r.orders_seen) p.mar in
      let mar_same' : step.1.mar.cancels_seen ≡ k.mar.cancels_seen =
        ap (λ r. r.cancels_seen) p.mar in
      let cat_same : step.1.cat.count ≡ k.cat.count = ap (λ r. r.count) p.cat in
      let cat_same' : by_types step.1.cat ≡ by_types k.cat = ap by_types p.cat in
      let otr_same : sum_values step.1.otr.orders ≡ sum_values k'.otr.orders =
        ap (λ r. sum_values r.orders) p.otr in
      let r = new_record F d i ts in
      record {
        watch =
            on_new-IsWatch low high (tid, i.symbol_id, i.side) i.order_id ts step.1.mar
              (subst (IsWatch low high) (sym p.mar) a.watch);
        prices = p.prices;
        orders = omega (arith, g.all_orders, otr_same, seen, mar_same, a.orders);
        checks = p.checks;
        records =
            omega (
              arith,
              count-emit r step.1.cat,
              cat_same,
              seen,
              same,
              mar_same,
              mar_same',
              a.records,
            );
        types = omega (
          arith,
          by_types-emit r step.1.cat,
          count-emit r step.1.cat,
          cat_same,
          cat_same',
          a.types,
        );
      }

  -- A new order is one more that the detector has seen.
  pub orders-observe_new :
      (tid : ℕ) (i : Intent Num) (d : Option GateDecision) (ts : ℕ) (k : ComplianceStack Num)
      → let k' = (observe_new F tid i d ts k).1 in
        (k'.mar.orders_seen ≡ k.mar.orders_seen + 1) × (k'.mar.cancels_seen ≡ k.mar.cancels_seen)
  unfolding observe_new check_priced
  orders-observe_new tid i d ts k =
      let k' : ComplianceStack Num = record k { otr = (observe_otr F i.symbol_id false k.otr).1 } in
      let step =
        (if lt (of_nat 0) i.price then check_priced F tid i d k' else ((false, false), k')) in
      let same : step.1.mar ≡ k.mar =
        if_split (λ (x : (Bool × Bool) × ComplianceStack Num). x.1.mar ≡ k.mar)
          (lt (of_nat 0) i.price) (λ h. refl) (λ h. refl) in
      let (n, c) = on_new-seen (tid, i.symbol_id, i.side) i.order_id ts step.1.mar in
      (
        omega (arith, n, ap (λ r. r.orders_seen) same),
        omega (arith, c, ap (λ r. r.cancels_seen) same),
      )
