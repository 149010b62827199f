-- ===== src/Audit/Tests.antt =====
-- Runs of the audit trail on small inputs, with a stand-in for BLAKE2b.
use sentinel_hft.Prelude.{
  ℕ, ◌≡◌, ◌≢◌, refl, ◌⊎◌, Bool, true, false, none, some, List, [], ◌∷◌, ◌++◌, arith, replicate,
}
use sentinel_hft.Prelude.Int.{negsuc}
use sentinel_hft.Prelude.Result.{from_ok, ok, value_error}
use sentinel_hft.Struct.{to_le, of_le, to_twos, fit, pack}
use sentinel_hft.Audit.Digest.Padded.{padded}
use sentinel_hft.Audit.Digest.{low128}
use sentinel_hft.Struct.Records.{encode_all}
use sentinel_hft.Audit.Record.{
  AuditRecord, accepted, rate_limited, reason_code, mask64, encode, payload_bytes, hash_lo,
  write_records, read_records,
}
use sentinel_hft.Audit.Record.File.{read_records-write_records}
use sentinel_hft.Audit.Logger.{
  RiskDecision, AuditLogger, seed_prev_hash, new_logger, flags_of, record_of, log, log_all,
}
use sentinel_hft.Audit.Verifier.{
  VerificationResult, check_prev, check_seq, check_ts, hash_broken, visit, walk, verify,
}
use sentinel_hft.Audit.Verifier.Checks.{IsChained}
use sentinel_hft.Audit.Verifier.Chain.{clean_result, IsChained-of_verify}
use sentinel_hft.Audit.Verifier.Logged.{log_all_verified}
use sentinel_hft.Audit.Verifier.Tamper.{
  PayloadsCollide, replaced_record_detected, removed_records_detected, rewritten_history_undetected,
}

abbrev order : ℕ → ℕ → Bool → ℕ → RiskDecision
order t id pass reason = record {
  timestamp_ns = t;
  order_id = id;
  symbol_id = 7;
  quantity = 1000;
  price = 5;
  notional = 50;
  passed = pass;
  reject_reason = reason;
  kill_triggered = false;
  tokens_remaining = 3;
  position_after = negsuc 4;
  notional_after = 50;
}

abbrev stream : List RiskDecision
stream =
    order 10 1 true (reason_code accepted)
    ∷ order 10 2 false (reason_code rate_limited)
    ∷ order 12 3 true (reason_code accepted)
    ∷ []

abbrev logger : AuditLogger
logger = from_ok (new_logger none) (log_all padded (new_logger none) stream)

logger_runs : log_all padded (new_logger none) stream ≡ ok logger
unfolding log_all log new_logger record_of flags_of hash_lo payload_bytes encode low128 pack to_le
    of_le to_twos fit mask64
logger_runs = refl

log_all_verified_example :
    (l : AuditLogger) × (log_all padded (new_logger none) stream ≡ ok l)
    × (verify padded seed_prev_hash l.records ≡ ok (clean_result l.prev_hash_lo l.records))
log_all_verified_example =
    log_all_verified padded none stream (omega arith) (omega arith) (omega arith)

-- Under the stand-in the hash of a record is its number and its time.
abbrev link : ℕ → ℕ → List ℕ
link seq t = seq ∷ (replicate 7 0 ++ t ∷ replicate 7 0)

abbrev entry : ℕ → ℕ → ℕ → List ℕ → AuditRecord
entry seq t id prev = record {
  seq_no = seq;
  timestamp_ns = t;
  order_id = id;
  symbol_id = 7;
  reject_reason = 0;
  flags = 1;
  quantity = 1000;
  price = 5;
  notional = 50;
  position_after = negsuc 4;
  notional_after = 50;
  tokens_remaining = 3;
  reserved = 0;
  prev_hash_lo = prev;
}

abbrev first : AuditRecord
first = entry 0 10 1 seed_prev_hash

abbrev second : AuditRecord
second = entry 1 11 2 (link 0 10)

abbrev other : AuditRecord
other = entry 1 11 9 (link 0 10)

abbrev third : AuditRecord
third = entry 2 12 3 (link 1 11)

verifies :
    verify padded seed_prev_hash (first ∷ second ∷ third ∷ [])
    ≡ ok (clean_result (link 2 12) (first ∷ second ∷ third ∷ []))
unfolding verify walk visit check_prev check_seq check_ts hash_broken hash_lo payload_bytes encode
    low128 pack to_le of_le to_twos fit mask64
verifies = refl

IsChained-of_verify_example :
    (final : List ℕ) × IsChained padded seed_prev_hash final (first ∷ second ∷ third ∷ [])
    × (clean_result (link 2 12) (first ∷ second ∷ third ∷ [])
        ≡ clean_result final (first ∷ second ∷ third ∷ []))
IsChained-of_verify_example =
    IsChained-of_verify padded seed_prev_hash (first ∷ second ∷ third ∷ [])
      (clean_result (link 2 12) (first ∷ second ∷ third ∷ [])) verifies refl

other_verifies :
    verify padded seed_prev_hash (first ∷ other ∷ third ∷ [])
    ≡ ok (clean_result (link 2 12) (first ∷ other ∷ third ∷ []))
unfolding verify walk visit check_prev check_seq check_ts hash_broken hash_lo payload_bytes encode
    low128 pack to_le of_le to_twos fit mask64
other_verifies = refl

-- The stand-in is weak: the two records in the second place collide.
replaced_record_detected_example : (second ≡ other) ⊎ PayloadsCollide padded second other
replaced_record_detected_example =
    replaced_record_detected padded seed_prev_hash (first ∷ []) [] second other third
      (clean_result (link 2 12) (first ∷ second ∷ third ∷ []))
      (clean_result (link 2 12) (first ∷ other ∷ third ∷ [])) (omega arith) (omega arith) verifies
      refl other_verifies refl

abbrev gap : VerificationResult
gap = from_ok (clean_result [] []) (verify padded seed_prev_hash (first ∷ third ∷ []))

gap_returned : verify padded seed_prev_hash (first ∷ third ∷ []) ≡ ok gap
unfolding verify walk visit check_prev check_seq check_ts hash_broken hash_lo payload_bytes encode
    low128 pack to_le of_le to_twos fit mask64
gap_returned = refl

removed_records_detected_example : gap.breaks ≢ []
removed_records_detected_example =
    removed_records_detected padded seed_prev_hash first [] second [] third []
      (clean_result (link 2 12) (first ∷ second ∷ third ∷ [])) gap verifies refl gap_returned

other_hash : hash_lo padded other ≡ ok (link 1 11)
unfolding hash_lo payload_bytes encode low128 pack to_le of_le to_twos fit mask64
other_hash = refl

rewritten_history_undetected_example :
    verify padded seed_prev_hash (first ∷ other ∷ third ∷ [])
    ≡ ok (clean_result (link 2 12) (first ∷ second ∷ third ∷ []))
rewritten_history_undetected_example =
    rewritten_history_undetected padded seed_prev_hash (first ∷ []) [] second other third
      (link 1 11) (clean_result (link 2 12) (first ∷ second ∷ third ∷ [])) refl refl refl other_hash
      verifies refl

abbrev file : List ℕ
file = from_ok [] (write_records (first ∷ second ∷ []))

file_written : write_records (first ∷ second ∷ []) ≡ ok file
unfolding write_records encode_all encode pack to_le to_twos fit mask64
file_written = refl

read_records-write_records_example :
    read_records (file ++ 9 ∷ []) ≡ (first ∷ second ∷ [], some value_error)
read_records-write_records_example =
    read_records-write_records (first ∷ second ∷ []) file (9 ∷ []) (omega arith) (omega arith)
      file_written

abbrev wire : List ℕ
wire = from_ok [] (encode second)
