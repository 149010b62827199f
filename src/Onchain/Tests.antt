-- ===== src/Onchain/Tests.antt =====
-- A file of two on-chain traces, and their metrics on integers for floats.
use sentinel_hft.Prelude.{ℕ, ◌≡◌, refl, false, List, [], ◌∷◌, ◌++◌, arith}
use sentinel_hft.Prelude.Int.{ℤ, pos, negsuc, ◌-ℤ◌, ltb_ℤ}
use sentinel_hft.Prelude.Integral.{integral}
use sentinel_hft.Prelude.Float.{abs}
use sentinel_hft.Prelude.Result.{from_ok, ok}
use sentinel_hft.Struct.{to_le, to_twos, fit, pack}
use sentinel_hft.Struct.Records.{encode_all, end_of}
use sentinel_hft.Streaming.Sketch.{Maths, sketch_of}
use sentinel_hft.Onchain.Record.{OnchainRecord, encode_onchain, write_onchain, iter_file}
use sentinel_hft.Onchain.Record.File.{iter_file-write_onchain}
use sentinel_hft.Onchain.Analyzer.{OnchainMetrics, metrics_of, add_onchain, add_many}
use sentinel_hft.Onchain.Analyzer.Totals.{Reflects, add_many-Reflects}

abbrev trace : ℕ → ℕ → OnchainRecord
trace n flags = record {
  version = 1;
  venue = 1;
  action = n;
  flags = flags;
  seq_no = n;
  client_ts_ns = 1000;
  signed_ts_ns = 1100;
  submitted_ts_ns = 1200;
  included_ts_ns = 1900;
  symbol_hash = 77;
  d_rpc_ns = 10;
  d_quote_ns = 20;
  d_sign_ns = 30;
  d_submit_ns = n;
  d_inclusion_ns = 600;
  notional_usd_e4 = 5;
  slippage_bps = negsuc 3;
  reserved = 0;
}

abbrev traces : List OnchainRecord
traces = trace 1 8 ∷ trace 2 3 ∷ []

abbrev file : List ℕ
file = from_ok [] (write_onchain traces)

file_written : write_onchain traces ≡ ok file
unfolding write_onchain encode_all encode_onchain pack to_le to_twos fit
file_written = refl

iter_file-write_onchain_example : iter_file (file ++ 1 ∷ 2 ∷ []) ≡ (traces, end_of (1 ∷ 2 ∷ []))
iter_file-write_onchain_example =
    iter_file-write_onchain traces file (1 ∷ 2 ∷ []) (omega arith) file_written

same_is_small : (a : ℤ) → ltb_ℤ (pos 0) (abs integral (a -ℤ a)) ≡ false
unfolding ◌-ℤ◌
same_is_small a = ground arith

abbrev maths : Maths integral
maths = record {
  inf = pos 1000000000;
  neg_inf = negsuc 1000000000;
  log = λ a. a;
  sqrt = λ a. a;
  pow = λ a k. a;
  ceil = λ a. a;
  sub_self = same_is_small;
}

abbrev metrics : OnchainMetrics ℤ
metrics = add_many integral maths traces (metrics_of (sketch_of integral maths (pos 0)))

add_many-Reflects_example : Reflects integral maths traces metrics
add_many-Reflects_example = add_many-Reflects integral maths (pos 0) traces

-- One of the traces landed, one was rejected and timed out.
flags_counted : (metrics.landed ≡ 1) × (metrics.rejected ≡ 1) × (metrics.timed_out ≡ 1)
unfolding add_many add_onchain
flags_counted = (refl, refl, refl)
