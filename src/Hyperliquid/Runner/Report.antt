-- ===== src/Hyperliquid/Runner/Report.antt =====
-- sentinel_hft/hyperliquid/runner.py: what `run_stream` returns. The files, the quantiles and the label
-- are left out.
use sentinel_hft.Prelude.{ℕ, ◌+◌, Bool, List}
use sentinel_hft.Prelude.Float.{Float}
use sentinel_hft.Prelude.Result.{Result, ok, ◌>>=◌}
use sentinel_hft.Audit.Digest.{Blake2b}
use sentinel_hft.Audit.Logger.{seed_prev_hash}
use sentinel_hft.Audit.Verifier.{verify, is_ok}
use sentinel_hft.Deribit.Pipeline.{Random}
use sentinel_hft.Hyperliquid.Fixture.{HlTickEvent}
use sentinel_hft.Hyperliquid.Scorer.{summarise}
use sentinel_hft.Hyperliquid.Runner.{HlRunConfig, HlRunner}
use sentinel_hft.Hyperliquid.Runner.Loop.{take_ticks}

pub record HlRunArtifacts : Type 0 where
  pub ticks_consumed : ℕ
  pub intents_generated : ℕ
  pub decisions_logged : ℕ
  pub passed : ℕ
  pub rejected : ℕ
  pub rejected_toxic : ℕ
  pub kill_triggered : Bool
  pub head_hash_lo : List ℕ
  pub chain_ok : Bool
  pub taker_population : ℕ
  pub takers_classified_toxic : ℕ
  pub takers_classified_neutral : ℕ
  pub takers_classified_benign : ℕ

-- The artifacts of a runner, given whether its audit log was verified.
unfoldable pub report : {N S : Type 0} → HlRunner N S → Bool → HlRunArtifacts
report r chain_ok =
    let demo = r.demo in
    let n = demo.gate.counters in
    let s = summarise r.scorer in
    record {
      ticks_consumed = demo.ticks_consumed;
      intents_generated = demo.intents_generated;
      decisions_logged = demo.decisions_logged;
      passed = n.passed;
      rejected =
          n.rejected_rate + n.rejected_pos + n.rejected_notional + n.rejected_order_size
          + n.rejected_kill + r.rejected_toxic;
      rejected_toxic = r.rejected_toxic;
      kill_triggered = demo.gate.kill.triggered;
      head_hash_lo = demo.audit.prev_hash_lo;
      chain_ok = chain_ok;
      taker_population = s.takers;
      takers_classified_toxic = s.toxic_takers;
      takers_classified_neutral = s.neutral_takers;
      takers_classified_benign = s.benign_takers;
    }

module _ (F : Float) (R : Random (F.Num)) where
  open F use {Num}
  open R use {State}

  -- `run_stream`
  unfoldable pub run_stream :
      Blake2b
      → HlRunConfig Num
      → List (HlTickEvent Num)
      → HlRunner Num State
      → Result HlRunArtifacts
  run_stream h cfg evs start = do
    r ← take_ticks F R h cfg evs start
    verification ← verify h seed_prev_hash r.demo.audit.records
    ok (report r (is_ok verification))
