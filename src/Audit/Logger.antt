-- ===== src/Audit/Logger.antt =====
-- sentinel_hft/audit/logger.py: the logger that turns decisions into records and chains them.
use Prim.Native.Nat.{bit_or}
use sentinel_hft.Prelude.{
  ℕ, ◌+◌, Bool, ◌||◌, Option, none, some, List, [], ◌∷◌, ◌++◌, replicate, ◌==◌, if◌then◌else◌,
}
use sentinel_hft.Prelude.Int.{ℤ}
use sentinel_hft.Prelude.Result.{Result, ok, ◌>>=◌}
use sentinel_hft.Audit.Digest.{Blake2b}
use sentinel_hft.Audit.Record.{
  AuditRecord, reason_code, rate_limited, position_limit, notional_limit, order_size, flag_passed,
  flag_kill_triggered, flag_rate_hit, flag_pos_hit, hash_lo,
}

-- 16 zero bytes, the pointer of the first record.
abbrev pub seed_prev_hash : List ℕ
seed_prev_hash = replicate 16 0

pub record RiskDecision : Type 0 where
  pub timestamp_ns : ℕ
  pub order_id : ℕ
  pub symbol_id : ℕ
  pub quantity : ℕ
  pub price : ℕ
  pub notional : ℕ
  pub passed : Bool
  pub reject_reason : ℕ
  pub kill_triggered : Bool
  pub tokens_remaining : ℕ
  pub position_after : ℤ
  pub notional_after : ℕ

-- `sink` is what the callback has been given, if there is one.
pub record AuditLogger : Type 0 where
  pub seq : ℕ
  pub prev_hash_lo : List ℕ
  pub sink : Option (List AuditRecord)
  pub records : List AuditRecord

unfoldable pub new_logger : Option (List AuditRecord) → AuditLogger
new_logger sink = record { seq = 0; prev_hash_lo = seed_prev_hash; sink = sink; records = [] }

-- `if b: flags |= flag`
abbrev pub raise_flag : Bool → ℕ → ℕ → ℕ
raise_flag b flag flags = if b then bit_or flags flag else flags

abbrev pub is_pos_reason : ℕ → Bool
is_pos_reason code =
    code == reason_code position_limit
    || (code == reason_code notional_limit || code == reason_code order_size)

unfoldable pub flags_of : RiskDecision → ℕ
flags_of d = raise_flag (is_pos_reason d.reject_reason) flag_pos_hit (
    raise_flag (d.reject_reason == reason_code rate_limited) flag_rate_hit
      (raise_flag d.kill_triggered flag_kill_triggered (raise_flag d.passed flag_passed 0)))

-- The record that `log` builds.
unfoldable pub record_of : AuditLogger → RiskDecision → AuditRecord
record_of l d = record {
  seq_no = l.seq;
  timestamp_ns = d.timestamp_ns;
  order_id = d.order_id;
  symbol_id = d.symbol_id;
  reject_reason = d.reject_reason;
  flags = flags_of d;
  quantity = d.quantity;
  price = d.price;
  notional = d.notional;
  position_after = d.position_after;
  notional_after = d.notional_after;
  tokens_remaining = d.tokens_remaining;
  reserved = 0;
  prev_hash_lo = l.prev_hash_lo;
}

abbrev pub deliver : AuditRecord → Option (List AuditRecord) → Option (List AuditRecord)
deliver rec none = none
deliver rec (some given) = some (given ++ rec ∷ [])

-- `AuditLogger.log`. Hashing encodes the record, so a field out of range raises before the state
-- changes.
unfoldable pub log : Blake2b → AuditLogger → RiskDecision → Result (AuditRecord × AuditLogger)
log h l d =
    let rec = record_of l d in
    do
      next ← hash_lo h rec
      ok (
        rec,
        record l {
          prev_hash_lo = next;
          seq = l.seq + 1;
          records = l.records ++ rec ∷ [];
          sink = deliver rec l.sink;
        },
      )

-- A client's loop over a stream of decisions.
unfoldable pub log_all : Blake2b → AuditLogger → List RiskDecision → Result AuditLogger
log_all h l [] = ok l
log_all h l (d ∷ ds) = do step ← log h l d; log_all h step.1 ds
