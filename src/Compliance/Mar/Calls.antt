-- ===== src/Compliance/Mar/Calls.antt =====
-- Each call of the detector keeps its invariant.
use sentinel_hft.Prelude.{
  ℕ, ◌+◌, ◌≤◌, ◌≡◌, refl, sym, ap, subst, ◌∙◌, Option, none, some, List, [], ◌∷◌, ◌++◌, length,
  arith, Bool-cases, inl, inr, ltb,
}
use sentinel_hft.Prelude.Eq.{triple_eq}
use sentinel_hft.Prelude.Dict.{lookup, or_else, lookup-insert_self}
use sentinel_hft.Prelude.Dict.Values.{weight, total-insert, AllValues-insert}
use sentinel_hft.Prelude.Result.{Result, ok}
use sentinel_hft.Compliance.Mar.{
  MarAlert, OrderEvent, Key, SpoofLayerDetector, bucket, store, on_new, mark_cancelled, layered,
  first, alert_of, fire, maybe_fire, on_cancel, on_fill,
}
use sentinel_hft.Compliance.Mar.Memory.{
  reported-append, Fits, IsSound, bucket-Bucketed, store-IsSound, on_new-IsSound, on_fill-IsSound,
  length-mark_cancelled, length-layered,
}

-- Every alert reports a number of orders between the two bounds.
abbrev pub AllBetween : ℕ → ℕ → List MarAlert → Type 0
AllBetween low high [] = Unit
AllBetween low high (a ∷ rest) =
    ((low ≤ a.n_orders) × (a.n_orders ≤ high)) × AllBetween low high rest

AllBetween-append :
    (low high : ℕ) (rest : List MarAlert) (a : MarAlert)
    → AllBetween low high rest
    → low ≤ a.n_orders
    → a.n_orders ≤ high
    → AllBetween low high (rest ++ a ∷ [])
AllBetween-append low high [] a all l h = ((l, h), tt)
AllBetween-append low high (b ∷ rest) a all l h =
    (all.0, AllBetween-append low high rest a all.1 l h)

-- The settings stay, the memory is sound, and the alerts are within bounds.
pub record IsWatch (low high : ℕ) (d : SpoofLayerDetector) : Type 0 where
  pub low_kept : d.min_cancelled ≡ low
  pub high_kept : d.max_history ≡ high
  pub sound : IsSound 0 d
  pub bounded : AllBetween low high d.alerts

first_total : (l : List OrderEvent) → 1 ≤ length l → (e : OrderEvent) × (first l ≡ ok e)
first_total [] h = absurd (omega arith)
first_total (e ∷ es) h = (e, refl)

pub record Fired (low high : ℕ) (r : Result (Option MarAlert × SpoofLayerDetector)) : Type 0 where
  pub alert : Option MarAlert
  pub after : SpoofLayerDetector
  pub returned : r ≡ ok (alert, after)
  pub watch : IsWatch low high after

fire-IsWatch :
    (low high : ℕ) (key : Key) (now ts : ℕ) (d : SpoofLayerDetector) (dq : List OrderEvent)
    → IsWatch low high d
    → lookup key d.hist ≡ some dq
    → low ≤ length (layered d now dq)
    → length dq ≤ high
    → IsWatch low high (fire key (alert_of key (length (layered d now dq)) d.window_ns ts now) d).1
unfolding store
fire-IsWatch low high key now ts d dq w found enough fits =
    let n = length-layered d now dq in
    let a = alert_of key (length (layered d now dq)) d.window_ns ts now in
    let old : weight length (lookup key d.hist) ≡ length dq = ap (weight length) found in
    record {
      low_kept = w.low_kept;
      high_kept = w.high_kept;
      sound = record {
        once = omega (
          arith,
          w.sound.once,
          reported-append d.alerts a,
          total-insert length key [] d.hist,
          old,
          n,
        );
        small = AllValues-insert (Fits d.max_history) key [] d.hist (omega arith) w.sound.small;
      };
      bounded = AllBetween-append low high d.alerts a w.bounded enough (omega (arith, n));
    }

maybe_fire-Fired :
    (low high : ℕ) (key : Key) (now : ℕ) (d : SpoofLayerDetector) (dq : List OrderEvent)
    → 1 ≤ low
    → IsWatch low high d
    → lookup key d.hist ≡ some dq
    → length dq ≤ high
    → Fired low high (maybe_fire key now d)
unfolding maybe_fire
maybe_fire-Fired low high key now d dq pos_low w found fits =
    elim (Bool-cases (ltb (length (layered d now dq)) d.min_cancelled)) [
      | inl few ↦
          rw (maybe_fire, found, few)
            (record { alert = none; after = d; returned = refl; watch = w })
      | inr many ↦
          let enough : low ≤ length (layered d now dq) = ground (arith, w.low_kept) in
          let (e, head) = first_total (layered d now dq) (omega arith) in
          rw (maybe_fire, found, many, head)
            (record {
              alert = some (alert_of key (length (layered d now dq)) d.window_ns e.ts_ns now);
              after =
                  (fire key (alert_of key (length (layered d now dq)) d.window_ns e.ts_ns now) d).1;
              returned = refl;
              watch = fire-IsWatch low high key now e.ts_ns d dq w found enough fits;
            })
    ]

store-IsWatch :
    (low high : ℕ) (key : Key) (d : SpoofLayerDetector) (dq : List OrderEvent)
    → IsSound 0 (store key dq d)
    → d.min_cancelled ≡ low
    → d.max_history ≡ high
    → AllBetween low high d.alerts
    → IsWatch low high (store key dq d)
unfolding store
store-IsWatch low high key d dq s l h b = record {
  low_kept = l;
  high_kept = h;
  sound = s;
  bounded = b;
}

lookup-store :
    (key : Key) (dq : List OrderEvent) (d : SpoofLayerDetector)
    → lookup key (store key dq d).hist ≡ some dq
unfolding store
lookup-store key dq d = lookup-insert_self key dq d.hist

pub on_cancel-Fired :
    (low high : ℕ) (key : Key) (i now : ℕ) (d : SpoofLayerDetector)
    → 1 ≤ low
    → IsWatch low high d
    → Fired low high (on_cancel key i now d)
unfolding on_cancel
on_cancel-Fired low high key i now d pos_low w =
    let seen : SpoofLayerDetector = record d { cancels_seen = d.cancels_seen + 1 } in
    let b = bucket-Bucketed 0 key seen (record { once = w.sound.once; small = w.sound.small }) in
    let (dq, d') = bucket key seen in
    let marked = or_else (mark_cancelled i now dq) dq in
    let len = length-mark_cancelled i now dq in
    let fits : length marked ≤ high = omega (arith, len, b.fits, w.high_kept) in
    maybe_fire-Fired low high key now (store key marked d') marked pos_low
      (store-IsWatch low high key d' marked
        (store-IsSound 0 key d' dq marked b.sound b.found (omega (arith, fits, b.max, w.high_kept))
          (omega (arith, len)))
        (b.least ∙ w.low_kept) (b.max ∙ w.high_kept)
        (subst (AllBetween low high) (sym b.same_alerts) w.bounded))
      (lookup-store key marked d') fits

pub on_new-IsWatch :
    (low high : ℕ) (key : Key) (i ts : ℕ) (d : SpoofLayerDetector)
    → IsWatch low high d
    → IsWatch low high (on_new key i ts d)
unfolding on_new
on_new-IsWatch low high key i ts d w =
    let seen : SpoofLayerDetector = record d { orders_seen = d.orders_seen + 1 } in
    let b =
      bucket-Bucketed 1 key seen
        (record { once = omega (arith, w.sound.once); small = w.sound.small }) in
    store-IsWatch low high key (bucket key seen).1 _ (on_new-IsSound key i ts d w.sound)
      (b.least ∙ w.low_kept) (b.max ∙ w.high_kept)
      (subst (AllBetween low high) (sym b.same_alerts) w.bounded)

pub on_fill-IsWatch :
    (low high : ℕ) (key : Key) (i : ℕ) (d : SpoofLayerDetector)
    → IsWatch low high d
    → IsWatch low high (on_fill key i d)
unfolding on_fill
on_fill-IsWatch low high key i d w =
    let seen : SpoofLayerDetector = record d { fills_seen = d.fills_seen + 1 } in
    let b = bucket-Bucketed 0 key seen (record { once = w.sound.once; small = w.sound.small }) in
    store-IsWatch low high key (bucket key seen).1 _ (on_fill-IsSound key i d w.sound)
      (b.least ∙ w.low_kept) (b.max ∙ w.high_kept)
      (subst (AllBetween low high) (sym b.same_alerts) w.bounded)
