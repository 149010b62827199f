-- ===== src/Compliance/FatFinger.antt =====
-- sentinel_hft/compliance/price_sanity.py: the check of a price against the last trade.
pub mod Deviation
pub mod Verdict
use sentinel_hft.Prelude.{
  ℕ, ◌+◌, Bool, true, false, not, ◌||◌, Option, none, some, List, [], if◌then◌else◌,
}
use sentinel_hft.Prelude.Eq.{nat_eq}
use sentinel_hft.Prelude.Dict.{Dict, lookup, insert}
use sentinel_hft.Prelude.Float.{Float, abs, geb}

pub record FatFingerGuard (N : Type 0) : Type 0 where
  pub max_deviation_bps : N
  pub last_px : Dict ℕ N
  pub rejects : ℕ
  pub checked : ℕ
  pub max_observed_bps : N

module _ (F : Float) where
  open F use {Num, of_nat, sub, mul, div, lt}

  -- `on_trade`, and `seed`.
  unfoldable pub on_trade : ℕ → Num → FatFingerGuard Num → FatFingerGuard Num
  on_trade symbol price g =
      if lt (of_nat 0) price then record g { last_px = insert symbol price g.last_px } else g

  unfoldable pub deviation : Num → Num → Num
  deviation price last = mul (div (abs F (sub price last)) last) (of_nat 10000)

  abbrev pub observed : Num → FatFingerGuard Num → FatFingerGuard Num
  observed dev g = if lt g.max_observed_bps dev then record g { max_observed_bps = dev } else g

  -- The end of `check`, with the deviation from a known price.
  unfoldable pub judge : Num → FatFingerGuard Num → Bool × FatFingerGuard Num
  judge dev g =
      let g' = observed dev g in
      if lt g'.max_deviation_bps dev
      then (true, record g' { rejects = g'.rejects + 1 })
      else (false, g')

  -- What `check` does with the price that it found; `a <= 0` is `0 >= a`.
  unfoldable pub compare_with : Option Num → Num → FatFingerGuard Num → Bool × FatFingerGuard Num
  compare_with none price g = (false, g)
  compare_with (some last) price g =
      if geb F (of_nat 0) last || geb F (of_nat 0) price
      then (false, g)
      else judge (deviation price last) g

  unfoldable pub check : ℕ → Num → FatFingerGuard Num → Bool × FatFingerGuard Num
  check symbol price g =
      let g' : FatFingerGuard Num = record g { checked = g.checked + 1 } in
      compare_with (lookup symbol g.last_px) price g'
