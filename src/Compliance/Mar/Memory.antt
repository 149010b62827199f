-- ===== src/Compliance/Mar/Memory.antt =====
-- What the detector remembers: bounded buckets, and every order in at most one alert.
use sentinel_hft.Prelude.{
  ℕ, suc, ◌+◌, ◌-◌, ◌≤◌, ◌≡◌, refl, ap, false, Option, none, some, List, [], ◌∷◌, ◌++◌, length,
  length-append, length-drop, arith, Option-cases, inl, inr, if_split, ◌==◌,
}
use sentinel_hft.Prelude.Eq.{triple_eq}
use sentinel_hft.Prelude.Dict.{lookup, or_else, lookup-insert_self}
use sentinel_hft.Prelude.Dict.Values.{
  total, weight, total-insert, AllValues, AllValues-insert, AllValues-lookup,
}
use sentinel_hft.Compliance.Mar.{
  MarAlert, OrderEvent, Key, SpoofLayerDetector, push, bucket, store, on_new, is_pending,
  mark_cancelled, mark_filled, is_layered, layered, on_fill,
}

-- The orders that alerts report.
abbrev pub reported : List MarAlert → ℕ
reported [] = 0
reported (a ∷ later) = a.n_orders + reported later

pub reported-append :
    (later : List MarAlert) (a : MarAlert)
    → reported (later ++ a ∷ []) ≡ reported later + a.n_orders
reported-append [] a = omega arith
reported-append (x ∷ later) a = omega (arith, reported-append later a)

abbrev pub Fits : ℕ → List OrderEvent → Type 0
Fits cap dq = length dq ≤ cap

-- With `spare` orders that are seen and neither remembered nor reported yet.
pub record IsSound (spare : ℕ) (d : SpoofLayerDetector) : Type 0 where
  pub once : reported d.alerts + total length d.hist + spare ≤ d.orders_seen
  pub small : AllValues (Fits d.max_history) d.hist

length-push :
    (cap : ℕ) (dq : List OrderEvent) (e : OrderEvent)
    → (length (push cap dq e) ≤ cap) × (length (push cap dq e) ≤ length dq + 1)
unfolding push
length-push cap dq e =
    let longer = dq ++ e ∷ [] in
    (
      omega (arith, length-drop (length longer - cap) longer),
      omega (arith, length-drop (length longer - cap) longer, length-append dq (e ∷ [])),
    )

pub length-mark_filled : (i : ℕ) (dq : List OrderEvent) → length (mark_filled i dq) ≡ length dq
unfolding mark_filled
length-mark_filled i [] = refl
length-mark_filled i (e ∷ es) =
    if_split (λ (l : List OrderEvent). length l ≡ suc (length es)) (e.order_id == i) (λ h. refl)
      (λ h. ap suc (length-mark_filled i es))

-- The length of a deque that a mark may replace.
pub length-mark_cancelled :
    (i ts : ℕ) (dq : List OrderEvent) → length (or_else (mark_cancelled i ts dq) dq) ≡ length dq
unfolding mark_cancelled
length-mark_cancelled i ts [] = refl
length-mark_cancelled i ts (e ∷ es) =
    let ih = length-mark_cancelled i ts es in
    elim (Option-cases (mark_cancelled i ts es)) [
      | inl none_left ↦ rw none_left (
          if_split (λ (o : Option (List OrderEvent)). length (or_else o (e ∷ es)) ≡ suc (length es))
            (is_pending i e) (λ h. refl) (λ h. refl))
      | inr (es', marked) ↦ rw marked (ap suc (ground (arith, ih)))
    ]

pub length-layered :
    (d : SpoofLayerDetector) (now : ℕ) (dq : List OrderEvent)
    → length (layered d now dq) ≤ length dq
unfolding layered
length-layered d now [] = omega arith
length-layered d now (e ∷ es) =
    let ih = length-layered d now es in
    if_split (λ (l : List OrderEvent). length l ≤ suc (length es)) (is_layered d now e)
      (λ h. omega arith) (λ h. omega arith)

-- After `_bucket` the deque is that of the key.
pub record Bucketed (spare : ℕ) (key : Key) (d : SpoofLayerDetector) (dq : List OrderEvent)
    (d' : SpoofLayerDetector) : Type 0 where
  pub found : lookup key d'.hist ≡ some dq
  pub sound : IsSound spare d'
  pub fits : Fits d.max_history dq
  pub max : d'.max_history ≡ d.max_history
  pub least : d'.min_cancelled ≡ d.min_cancelled
  pub same_alerts : d'.alerts ≡ d.alerts

pub bucket-Bucketed :
    (spare : ℕ) (key : Key) (d : SpoofLayerDetector)
    → IsSound spare d
    → Bucketed spare key d (bucket key d).0 (bucket key d).1
unfolding bucket
bucket-Bucketed spare key d s = elim (Option-cases (lookup key d.hist)) [
  | inl missing ↦
      rw (bucket, missing)
        (record {
          found = lookup-insert_self key [] d.hist;
          sound = record {
            once =
                let w : weight (λ (l : List OrderEvent). length l) (lookup key d.hist) ≡ 0 =
                  ap (weight length) missing in
                omega (arith, s.once, total-insert length key [] d.hist, w);
            small = AllValues-insert (Fits d.max_history) key [] d.hist (omega arith) s.small;
          };
          fits = omega arith;
          max = refl;
          least = refl;
          same_alerts = refl;
        })
  | inr (dq, known) ↦
      rw (bucket, known)
        (record {
          found = known;
          sound = s;
          fits = AllValues-lookup (Fits d.max_history) key dq d.hist s.small known;
          max = refl;
          least = refl;
          same_alerts = refl;
        })
]

pub store-IsSound :
    (spare : ℕ) (key : Key) (d : SpoofLayerDetector) (dq dq' : List OrderEvent)
    → IsSound spare d
    → lookup key d.hist ≡ some dq
    → length dq' ≤ d.max_history
    → length dq' ≤ length dq + spare
    → IsSound 0 (store key dq' d)
unfolding store
store-IsSound spare key d dq dq' s found fits grown =
    let w : weight length (lookup key d.hist) ≡ length dq = ap (weight length) found in
    record {
      once = omega (arith, s.once, total-insert length key dq' d.hist, w);
      small = AllValues-insert (Fits d.max_history) key dq' d.hist fits s.small;
    }

pub on_new-IsSound :
    (key : Key) (i ts : ℕ) (d : SpoofLayerDetector) → IsSound 0 d → IsSound 0 (on_new key i ts d)
unfolding on_new
on_new-IsSound key i ts d s =
    let seen : SpoofLayerDetector = record d { orders_seen = d.orders_seen + 1 } in
    let b = bucket-Bucketed 1 key seen (record { once = omega (arith, s.once); small = s.small }) in
    let (dq, d') = bucket key seen in
    let e : OrderEvent = record { ts_ns = ts; order_id = i; filled = false; cancelled_ns = none } in
    let (capped, grown) = length-push d.max_history dq e in
    store-IsSound 1 key d' dq (push d.max_history dq e) b.sound b.found
      (omega (arith, capped, b.max)) grown

pub on_fill-IsSound :
    (key : Key) (i : ℕ) (d : SpoofLayerDetector) → IsSound 0 d → IsSound 0 (on_fill key i d)
unfolding on_fill
on_fill-IsSound key i d s =
    let seen : SpoofLayerDetector = record d { fills_seen = d.fills_seen + 1 } in
    let b = bucket-Bucketed 0 key seen (record { once = s.once; small = s.small }) in
    let (dq, d') = bucket key seen in
    let len = length-mark_filled i dq in
    store-IsSound 0 key d' dq (mark_filled i dq) b.sound b.found (omega (arith, len, b.fits, b.max))
      (omega (arith, len))
