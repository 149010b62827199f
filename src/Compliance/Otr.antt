-- ===== src/Compliance/Otr.antt =====
-- sentinel_hft/compliance/mifid_otr.py: the ratio of orders to trades, per symbol.
pub mod Counts
pub mod Bumps
use sentinel_hft.Prelude.{ℕ, ◌+◌, Bool, true, false, List, [], ◌∷◌, ◌==◌, ltb, if◌then◌else◌}
use sentinel_hft.Prelude.Eq.{nat_eq}
use sentinel_hft.Prelude.Dict.{Dict, lookup, insert, or_else}
use sentinel_hft.Prelude.Float.{Float}

pub record OtrCounter (N : Type 0) : Type 0 where
  pub max_ratio_per_symbol : N
  pub orders : Dict ℕ ℕ
  pub trades : Dict ℕ ℕ
  pub rejects_would_trip : ℕ

-- `d[k] += 1` on a `defaultdict(int)`.
unfoldable pub bump : ℕ → Dict ℕ ℕ → Dict ℕ ℕ
bump k d = insert k (or_else (lookup k d) 0 + 1) d

-- `sum(d.values())`
abbrev pub sum_values : Dict ℕ ℕ → ℕ
sum_values [] = 0
sum_values ((k, v) ∷ d) = v + sum_values d

module _ (F : Float) where
  open F use {Num, of_nat, div, lt}

  unfoldable pub on_order : ℕ → OtrCounter Num → OtrCounter Num
  on_order symbol c = record c { orders = bump symbol c.orders }

  unfoldable pub on_trade : ℕ → OtrCounter Num → OtrCounter Num
  on_trade symbol c = record c { trades = bump symbol c.trades }

  -- `o / max(t, 1)`, or 0.0
  unfoldable pub quotient : ℕ → ℕ → Num
  quotient o t = if o == 0 then of_nat 0 else div (of_nat o) (of_nat (if ltb t 1 then 1 else t))

  unfoldable pub ratio : ℕ → OtrCounter Num → Num
  ratio symbol c =
      quotient (or_else (lookup symbol c.orders) 0) (or_else (lookup symbol c.trades) 0)

  unfoldable pub global_ratio : OtrCounter Num → Num
  global_ratio c = quotient (sum_values c.orders) (sum_values c.trades)

  abbrev pub traded : Bool → ℕ → OtrCounter Num → OtrCounter Num
  traded true symbol c = on_trade symbol c
  traded false symbol c = c

  unfoldable pub observe : ℕ → Bool → OtrCounter Num → Bool × OtrCounter Num
  observe symbol filled c =
      let c' = traded filled symbol (on_order symbol c) in
      if lt c'.max_ratio_per_symbol (ratio symbol c')
      then (true, record c' { rejects_would_trip = c'.rejects_would_trip + 1 })
      else (false, c')
