-- ===== src/Compliance/Mar/Seen.antt =====
-- What the detector counts.
use sentinel_hft.Prelude.{
  ℕ, ◌+◌, ◌≡◌, refl, ◌∙◌, Option, [], length, ltb, Bool-cases, Option-cases, inl, inr, arith,
}
use sentinel_hft.Prelude.Eq.{triple_eq}
use sentinel_hft.Prelude.Dict.{lookup, or_else}
use sentinel_hft.Prelude.Result.{ok}
use sentinel_hft.Compliance.Mar.{
  MarAlert, Key, SpoofLayerDetector, bucket, store, on_new, layered, maybe_fire, on_cancel,
}

abbrev Same : SpoofLayerDetector → SpoofLayerDetector → Type 0
Same d d' = (d'.orders_seen ≡ d.orders_seen) × (d'.cancels_seen ≡ d.cancels_seen)

bucket-Same : (key : Key) (d : SpoofLayerDetector) → Same d (bucket key d).1
unfolding bucket
bucket-Same key d = elim (Option-cases (lookup key d.hist)) [
  | inl missing ↦ rw (bucket, missing) (refl, refl)
  | inr (dq, known) ↦ rw (bucket, known) (refl, refl)
]

maybe_fire-Same :
    (key : Key) (now : ℕ) (d : SpoofLayerDetector) (o : Option MarAlert) (d' : SpoofLayerDetector)
    → maybe_fire key now d ≡ ok (o, d')
    → Same d d'
unfolding maybe_fire store
maybe_fire-Same key now d o d' h =
    elim (Bool-cases
      (ltb (length (layered d now (or_else (lookup key d.hist) []))) d.min_cancelled)) [
        | inl few ↦ ground arith
        | inr many ↦ ground (arith)
      ]

pub on_new-seen :
    (key : Key) (i ts : ℕ) (d : SpoofLayerDetector)
    → ((on_new key i ts d).orders_seen ≡ d.orders_seen + 1)
      × ((on_new key i ts d).cancels_seen ≡ d.cancels_seen)
unfolding on_new store
on_new-seen key i ts d = bucket-Same key (record d { orders_seen = d.orders_seen + 1 })

pub on_cancel-seen :
    (key : Key) (i ts : ℕ) (d : SpoofLayerDetector) (o : Option MarAlert) (d' : SpoofLayerDetector)
    → on_cancel key i ts d ≡ ok (o, d')
    → (d'.orders_seen ≡ d.orders_seen) × (d'.cancels_seen ≡ d.cancels_seen + 1)
unfolding on_cancel store
on_cancel-seen key i ts d o d' h =
    let seen : SpoofLayerDetector = record d { cancels_seen = d.cancels_seen + 1 } in
    let (a, b) = bucket-Same key seen in
    let (a', b') = maybe_fire-Same key ts _ o d' h in (a' ∙ a, b' ∙ b)
