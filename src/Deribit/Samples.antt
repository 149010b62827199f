-- ===== src/Deribit/Samples.antt =====
-- Fixed draws, limits and a strategy, on integers for floats, for the runs of the pipelines.
use sentinel_hft.Prelude.{ℕ, ◌+◌, []}
use sentinel_hft.Prelude.Int.{ℤ, pos}
use sentinel_hft.Risk.{RiskGateConfig}
use sentinel_hft.Deribit.Strategy.{SpreadMmStrategy}
use sentinel_hft.Deribit.Pipeline.{Random, LatencyBudget}

-- Every latency is its base, no cancel races a fill.
abbrev pub fixed_draws : Random ℤ
fixed_draws = record {
  State = ℕ;
  lognormvariate = λ mu sigma s. (mu, s + 1);
  expovariate = λ rate s. (rate, s + 1);
  random = λ s. (pos 1, s + 1);
  log = λ x. x;
}

abbrev pub budget : ℕ → LatencyBudget ℤ
budget n = record { base_cycles = n; sigma = pos 0; burst_prob = pos 0; burst_factor = pos 4 }

abbrev pub risk : RiskGateConfig ℤ
risk = record {
  max_tokens = 9;
  refill_per_second = pos 1;
  max_long_qty = pos 10;
  max_short_qty = pos 10;
  max_notional = pos 5000;
  max_order_qty = pos 6;
  auto_kill_notional = pos 20000;
}

abbrev pub strategy : SpreadMmStrategy ℤ
strategy = record {
  state = [];
  skew_perp = pos 2;
  skew_opt = pos 4;
  qty_perp = pos 1;
  qty_opt = pos 1;
  repaper_ns = 2000000;
  repaper_mult = pos 3;
  global_order_id = 1000000;
}
