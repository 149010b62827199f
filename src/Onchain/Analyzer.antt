-- ===== src/Onchain/Analyzer.antt =====
-- sentinel_hft/onchain/analyzer.py: OnchainMetrics and the sketch of one stage. The name of a venue or
-- an action is a text made from its code alone, and stands here for the code.
pub mod Stages
pub mod Totals
use sentinel_hft.Prelude.{ℕ, ◌+◌, Bool, Option, none, some, List, [], ◌∷◌, if◌then◌else◌}
use Prim.Native.Nat.{min, max}
use sentinel_hft.Prelude.Dict.{Dict, bump_by}
use sentinel_hft.Prelude.Eq.{nat_eq}
use sentinel_hft.Prelude.Float.{Float}
use sentinel_hft.Prelude.Result.{Result, ok, ◌>>=◌}
use sentinel_hft.Streaming.Sketch.{Maths, DdSketch, new_sketch, add_value}
use sentinel_hft.Onchain.Record.{
  OnchainRecord, total_ns, overhead_ns, flag_set, flag_rejected, flag_timeout, flag_reorg,
  flag_landed,
}

-- `_StageSketch`
pub record StageSketch (N : Type 0) : Type 0 where
  pub sketch : DdSketch N
  pub count : ℕ
  pub sum_ns : ℕ
  pub min_ns : Option ℕ
  pub max_ns : Option ℕ

pub record OnchainMetrics (N : Type 0) : Type 0 where
  pub rpc : StageSketch N
  pub quote : StageSketch N
  pub sign : StageSketch N
  pub submit : StageSketch N
  pub inclusion : StageSketch N
  pub total : StageSketch N
  pub overhead : StageSketch N
  pub count : ℕ
  pub landed : ℕ
  pub rejected : ℕ
  pub timed_out : ℕ
  pub reorged : ℕ
  pub per_venue : Dict ℕ ℕ
  pub per_action : Dict ℕ ℕ

abbrev pub count_if : Bool → ℕ → ℕ
count_if test n = if test then n + 1 else n

abbrev pub extreme : (ℕ → ℕ → ℕ) → Option ℕ → ℕ → Option ℕ
extreme f none v = some v
extreme f (some m) v = some (f m v)

abbrev pub stage_of : {N : Type 0} → DdSketch N → StageSketch N
stage_of s = record { sketch = s; count = 0; sum_ns = 0; min_ns = none; max_ns = none }

abbrev pub metrics_of : {N : Type 0} → DdSketch N → OnchainMetrics N
metrics_of s = record {
  rpc = stage_of s;
  quote = stage_of s;
  sign = stage_of s;
  submit = stage_of s;
  inclusion = stage_of s;
  total = stage_of s;
  overhead = stage_of s;
  count = 0;
  landed = 0;
  rejected = 0;
  timed_out = 0;
  reorged = 0;
  per_venue = [];
  per_action = [];
}

module _ (F : Float) (M : Maths F) where
  open F use {Num, of_nat}

  -- `_StageSketch.add`: the latencies of a record are not negative, so the value is never skipped.
  unfoldable pub add_latency : ℕ → StageSketch Num → StageSketch Num
  add_latency v s = record {
    sketch = add_value F M (of_nat (max 1 v)) s.sketch;
    count = s.count + 1;
    sum_ns = s.sum_ns + v;
    min_ns = extreme min s.min_ns v;
    max_ns = extreme max s.max_ns v;
  }

  -- `OnchainMetrics.__init__`: all sketches have the same precision.
  unfoldable pub new_onchain_metrics : Num → Result (OnchainMetrics Num)
  new_onchain_metrics alpha = do s ← new_sketch F M alpha; ok (metrics_of s)

  -- `OnchainMetrics.add`
  unfoldable pub add_onchain : OnchainRecord → OnchainMetrics Num → OnchainMetrics Num
  add_onchain r m = record {
    rpc = add_latency r.d_rpc_ns m.rpc;
    quote = add_latency r.d_quote_ns m.quote;
    sign = add_latency r.d_sign_ns m.sign;
    submit = add_latency r.d_submit_ns m.submit;
    inclusion = add_latency r.d_inclusion_ns m.inclusion;
    total = add_latency (total_ns r) m.total;
    overhead = add_latency (overhead_ns r) m.overhead;
    count = m.count + 1;
    landed = count_if (flag_set flag_landed r) m.landed;
    rejected = count_if (flag_set flag_rejected r) m.rejected;
    timed_out = count_if (flag_set flag_timeout r) m.timed_out;
    reorged = count_if (flag_set flag_reorg r) m.reorged;
    per_venue = bump_by 1 r.venue m.per_venue;
    per_action = bump_by 1 r.action m.per_action;
  }

  unfoldable pub add_many : List OnchainRecord → OnchainMetrics Num → OnchainMetrics Num
  add_many [] m = m
  add_many (r ∷ rs) m = add_many rs (add_onchain r m)
