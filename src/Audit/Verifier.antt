-- ===== src/Audit/Verifier.antt =====
-- sentinel_hft/audit/verifier.py: the walk over a record stream that checks the chain, the sequence
-- numbers and the clock. The arguments of a break's message stand for its text.
pub mod Chain
pub mod Checks
pub mod Logged
pub mod Tamper
use sentinel_hft.Prelude.{
  ℕ, ◌+◌, Bool, true, false, not, ◌&&◌, ◌||◌, Option, none, some, List, [], ◌∷◌, ◌++◌, ltb, ◌==◌,
  if◌then◌else◌,
}
use sentinel_hft.Prelude.Int.{ℤ, pos, negsuc, ltb_ℤ}
use sentinel_hft.Prelude.Result.{Result, ok, err, ◌>>=◌}
use sentinel_hft.Prelude.Bytes.{bytes_eq}
use sentinel_hft.Audit.Digest.{Blake2b}
use sentinel_hft.Audit.Record.{AuditRecord, hash_lo}
use sentinel_hft.Audit.Logger.{seed_prev_hash}

pub data BreakKind : Type 0 where
  intact prev_hash_mismatch non_monotonic_seq non_monotonic_timestamp truncated_seed : BreakKind

pub data Detail : Type 0 where
  seed_expected : List ℕ → Detail
  hash_expected : List ℕ → List ℕ → Detail
  seq_expected : ℕ → ℕ → Detail
  ts_before : ℕ → ℤ → Detail

pub record ChainBreak : Type 0 where
  pub seq_no : ℕ
  pub kind : BreakKind
  pub detail : Detail

pub record VerificationResult : Type 0 where
  pub total_records : ℕ
  pub verified_records : ℕ
  pub breaks : List ChainBreak
  pub head_hash_lo : Option (List ℕ)

-- The property `ok`.
abbrev pub is_ok : VerificationResult → Bool
is_ok r = elim r.breaks [ [] ↦ true | _ ∷ _ ↦ false ]

-- The variables of the loop of `verify`.
pub record Walk : Type 0 where
  pub total_records : ℕ
  pub verified_records : ℕ
  pub breaks : List ChainBreak
  pub expected_prev : List ℕ
  pub last_seq : Option ℕ
  pub last_ts : ℤ

-- The three checks, each with the breaks that it adds. `first` is `total_records == 1`.
unfoldable pub check_prev : List ℕ → Bool → List ℕ → AuditRecord → List ChainBreak
check_prev seed first expected rec =
    if bytes_eq rec.prev_hash_lo expected
    then []
    else if first && bytes_eq rec.prev_hash_lo seed_prev_hash
    then record { seq_no = rec.seq_no; kind = truncated_seed; detail = seed_expected seed } ∷ []
    else record {
      seq_no = rec.seq_no;
      kind = prev_hash_mismatch;
      detail = hash_expected rec.prev_hash_lo expected;
    }
      ∷ []

unfoldable pub check_seq : Option ℕ → AuditRecord → List ChainBreak
check_seq none rec = []
check_seq (some last) rec =
    if rec.seq_no == last + 1
    then []
    else record {
      seq_no = rec.seq_no;
      kind = non_monotonic_seq;
      detail = seq_expected (last + 1) rec.seq_no;
    }
      ∷ []

unfoldable pub check_ts : ℤ → AuditRecord → List ChainBreak
check_ts last rec =
    if ltb_ℤ (pos rec.timestamp_ns) last
    then record {
      seq_no = rec.seq_no;
      kind = non_monotonic_timestamp;
      detail = ts_before rec.timestamp_ns last;
    }
      ∷ []
    else []

abbrev pub is_mismatch : BreakKind → Bool
is_mismatch prev_hash_mismatch = true
is_mismatch _ = false

-- `any(b.seq_no == rec.seq_no and b.kind == PREV_HASH_MISMATCH for b in result.breaks)`
unfoldable pub hash_broken : ℕ → List ChainBreak → Bool
hash_broken seq [] = false
hash_broken seq (b ∷ bs) = (b.seq_no == seq && is_mismatch b.kind) || hash_broken seq bs

-- One round of the loop. Hashing may raise.
unfoldable pub visit : Blake2b → List ℕ → Walk → AuditRecord → Result Walk
visit h seed w rec =
    let total = w.total_records + 1 in
    let breaks =
      w.breaks
      ++ (check_prev seed (total == 1) w.expected_prev rec
          ++ (check_seq w.last_seq rec ++ check_ts w.last_ts rec)) in
    do
      next ← hash_lo h rec
      ok (record {
        total_records = total;
        verified_records =
            if hash_broken rec.seq_no breaks then w.verified_records else w.verified_records + 1;
        breaks = breaks;
        expected_prev = next;
        last_seq = some rec.seq_no;
        last_ts = pos rec.timestamp_ns;
      })

unfoldable pub walk : Blake2b → List ℕ → Walk → List AuditRecord → Result Walk
walk h seed w [] = ok w
walk h seed w (r ∷ rs) = do w' ← visit h seed w r; walk h seed w' rs

abbrev pub start : List ℕ → Walk
start seed = record {
  total_records = 0;
  verified_records = 0;
  breaks = [];
  expected_prev = seed;
  last_seq = none;
  last_ts = negsuc 0;
}

abbrev pub summary : Walk → VerificationResult
summary w = record {
  total_records = w.total_records;
  verified_records = w.verified_records;
  breaks = w.breaks;
  head_hash_lo = if ltb 0 w.total_records then some w.expected_prev else none;
}

-- `verify(records, expected_seed)`
unfoldable pub verify : Blake2b → List ℕ → List AuditRecord → Result VerificationResult
verify h seed rs = do w ← walk h seed (start seed) rs; ok (summary w)
