-- ===== src/Audit/Verifier/Logged.antt =====
-- What the logger emits, the verifier accepts.
use Prim.Native.Nat.{bit_and}
use sentinel_hft.Prelude.{
  not, ℕ, suc, ◌+◌, ◌^◌, ◌≤◌, ◌<◌, ◌≡◌, refl, ap, ◌∙◌, Bool, Option, none, some, List, [], ◌∷◌,
  ◌++◌, length, take, ◌==◌, arith, append_assoc, append-nil,
}
use sentinel_hft.Prelude.Int.{ℤ, pos, negsuc, ◌≤ℤ◌}
use sentinel_hft.Prelude.Result.{ok, bind-eq-ok}
use sentinel_hft.Struct.Total.{Ranged, pack_total}
use sentinel_hft.Audit.Digest.{Blake2b, low128, length-low128}
use sentinel_hft.Audit.Record.{
  AuditRecord, audit_struct, fields, mask64, encode, payload_bytes, hash_lo, passed, kill_triggered,
  reason_code, rate_limited,
}
use sentinel_hft.Audit.Logger.{
  RiskDecision, AuditLogger, seed_prev_hash, new_logger, raise_flag, is_pos_reason, flags_of,
  record_of, deliver, log, log_all,
}
use sentinel_hft.Audit.Verifier.{verify}
use sentinel_hft.Audit.Verifier.Checks.{Follows, Links}
use sentinel_hft.Audit.Verifier.Chain.{clean_result, verify_of_IsChained}

-- The decisions' clock does not run backwards.
abbrev pub Clocked : ℤ → List RiskDecision → Type 0
Clocked ts [] = Unit
Clocked ts (d ∷ ds) = (ts ≤ℤ pos d.timestamp_ns) × Clocked (pos d.timestamp_ns) ds

-- What a run of the logger adds to its records.
record Logged (h : Blake2b) (l l' : AuditLogger) (last : Option ℕ) (ts : ℤ) (n : ℕ) : Type 0 where
  added : List AuditRecord
  appended : l'.records ≡ l.records ++ added
  linked : Links h l.prev_hash_lo last ts l'.prev_hash_lo added
  counted : length added ≡ n

pub log_parts :
    (h : Blake2b) (l : AuditLogger) (d : RiskDecision) (s : AuditRecord × AuditLogger)
    → log h l d ≡ ok s
    → (next : List ℕ) × (hash_lo h (record_of l d) ≡ ok next)
      × (s.1 ≡ record l {
        prev_hash_lo = next;
        seq = l.seq + 1;
        records = l.records ++ record_of l d ∷ [];
        sink = deliver (record_of l d) l.sink;
      })
unfolding log
log_parts h l d s e =
    let (next, p, q) = bind-eq-ok (hash_lo h (record_of l d)) _ e in (next, p, ground arith)

log_all-Logged :
    (h : Blake2b) (l l' : AuditLogger) (last : Option ℕ) (ts : ℤ) (ds : List RiskDecision)
    → Follows last l.seq
    → Clocked ts ds
    → log_all h l ds ≡ ok l'
    → Logged h l l' last ts (length ds)
unfolding log_all record_of
log_all-Logged h l l' last ts [] fol c e =
    let same : l ≡ l' = cc in
    record { added = []; appended = rw (append-nil, same); linked = rw same; counted = refl }
log_all-Logged h l l' last ts (d ∷ ds) fol c e =
    let (s, p, q) = bind-eq-ok (log h l d) _ e in
    let (next, hashed, same) = log_parts h l d s p in
    let follows : Follows (some l.seq) s.1.seq = ap (λ (x : AuditLogger). x.seq) same in
    let rest = log_all-Logged h s.1 l' (some l.seq) (pos d.timestamp_ns) ds follows c.1 q in
    let grown : s.1.records ≡ l.records ++ record_of l d ∷ [] =
      ap (λ (x : AuditLogger). x.records) same in
    let pointed : s.1.prev_hash_lo ≡ next = ap (λ (x : AuditLogger). x.prev_hash_lo) same in
    record {
      added = record_of l d ∷ rest.added;
      appended = rest.appended ∙ rw (grown, append_assoc);
      linked = (refl, fol, c.0, (next, hashed, rw pointed at rest.linked));
      counted = ap suc rest.counted;
    }

-- A log made by the logger from decisions in the order of their clock is verified in full: no
-- break, as many verified records as decisions, and the logger's head hash as the head.
pub verify-log_all :
    (h : Blake2b) (sink : Option (List AuditRecord)) (ds : List RiskDecision) (l : AuditLogger)
    → Clocked (negsuc 0) ds
    → log_all h (new_logger sink) ds ≡ ok l
    → (length l.records ≡ length ds)
      × (verify h seed_prev_hash l.records ≡ ok (clean_result l.prev_hash_lo l.records))
unfolding new_logger
verify-log_all h sink ds l c e =
    let made = log_all-Logged h (new_logger sink) l none (negsuc 0) ds tt c e in
    (
      rw made.appended made.counted,
      verify_of_IsChained h seed_prev_hash l.prev_hash_lo l.records (rw made.appended made.linked),
    )

-- A decision whose numbers fit the fields of the record.
pub record Fits (d : RiskDecision) : Type 0 where
  pub timestamp_ns : d.timestamp_ns < 2 ^ 64
  pub order_id : d.order_id < 2 ^ 64
  pub symbol_id : d.symbol_id < 2 ^ 32
  pub reject_reason : d.reject_reason < 2 ^ 16
  pub quantity : d.quantity < 2 ^ 64
  pub price : d.price < 2 ^ 64
  pub notional : d.notional < 2 ^ 64
  pub notional_after : d.notional_after < 2 ^ 64
  pub tokens_remaining : d.tokens_remaining < 2 ^ 32

abbrev pub AllFits : List RiskDecision → Type 0
AllFits [] = Unit
AllFits (d ∷ ds) = Fits d × AllFits ds

-- Four tests set four different bits.
flags_bits :
    (a b c e : Bool)
    → let f = raise_flag e 8 (raise_flag c 4 (raise_flag b 2 (raise_flag a 1 0))) in
      (f < 2 ^ 16) × (not (bit_and f 1 == 0) ≡ a) × (not (bit_and f 2 == 0) ≡ b)
flags_bits a b c e = ground arith

-- The flags of a logged record tell whether the order passed and whether the kill switch was
-- triggered, whatever the reason code.
pub flags_of-record_of :
    (l : AuditLogger) (d : RiskDecision)
    → (passed (record_of l d) ≡ d.passed) × (kill_triggered (record_of l d) ≡ d.kill_triggered)
unfolding record_of flags_of
flags_of-record_of l d =
    let (_, p, k) =
      flags_bits d.passed d.kill_triggered (d.reject_reason == reason_code rate_limited)
        (is_pos_reason d.reject_reason) in
    (p, k)

mask64-lt : (z : ℤ) → mask64 z < 2 ^ 64
unfolding mask64
mask64-lt (pos n) = omega arith
mask64-lt (negsuc n) = omega arith

flags_of-lt : (d : RiskDecision) → flags_of d < 2 ^ 16
unfolding flags_of
flags_of-lt d = (flags_bits d.passed d.kill_triggered _ _).0

record_of-Ranged :
    (l : AuditLogger) (d : RiskDecision)
    → l.seq < 2 ^ 64
    → Fits d
    → Ranged audit_struct (fields (record_of l d))
unfolding record_of
record_of-Ranged l d s f = (
  s,
  (
    f.timestamp_ns,
    (
      f.order_id,
      (
        f.symbol_id,
        (
          f.reject_reason,
          (
            flags_of-lt d,
            (
              f.quantity,
              (
                f.price,
                (
                  f.notional,
                  (
                    mask64-lt d.position_after,
                    (f.notional_after, (f.tokens_remaining, (omega arith, tt))),
                  ),
                ),
              ),
            ),
          ),
        ),
      ),
    ),
  ),
)

hash_lo_total :
    (h : Blake2b) (r : AuditRecord)
    → length r.prev_hash_lo ≡ 16
    → Ranged audit_struct (fields r)
    → (next : List ℕ) × (hash_lo h r ≡ ok next) × (length next ≡ 16)
unfolding hash_lo payload_bytes encode
hash_lo_total h r len range =
    let (bs, p) = pack_total audit_struct (fields r) range in
    (low128 h (take 80 bs), rw (len, p), length-low128 h (take 80 bs))

-- What a call of `log` leaves behind when it does not raise.
log_total :
    (h : Blake2b) (l : AuditLogger) (d : RiskDecision)
    → length l.prev_hash_lo ≡ 16
    → l.seq < 2 ^ 64
    → Fits d
    → (s : AuditRecord × AuditLogger) × (log h l d ≡ ok s)
      × (s.1.seq ≡ l.seq + 1)
      × (length s.1.prev_hash_lo ≡ 16)
unfolding log
log_total h l d len s f =
    let (next, hashed, len') =
      hash_lo_total h (record_of l d) (unfold record_of in len) (record_of-Ranged l d s f) in
    (
      (
        record_of l d,
        record l {
          prev_hash_lo = next;
          seq = l.seq + 1;
          records = l.records ++ record_of l d ∷ [];
          sink = deliver (record_of l d) l.sink;
        },
      ),
      rw hashed,
      refl,
      len',
    )

-- The logger never raises on decisions that fit the record, as long as the sequence number does.
log_all_total :
    (h : Blake2b) (l : AuditLogger) (ds : List RiskDecision)
    → length l.prev_hash_lo ≡ 16
    → l.seq + length ds ≤ 2 ^ 64
    → AllFits ds
    → (l' : AuditLogger) × (log_all h l ds ≡ ok l')
unfolding log_all
log_all_total h l [] len s f = (l, refl)
log_all_total h l (d ∷ ds) len s f =
    let (step, done, count, len') = log_total h l d len (omega arith) f.0 in
    let (l', rest) = log_all_total h step.1 ds len' (omega (arith, count)) f.1 in (l', rw done rest)

-- From the start the logger takes up to 2^64 decisions that fit the record and whose clock never
-- runs backwards without raising, and what it has logged is verified in full.
pub log_all_verified :
    (h : Blake2b) (sink : Option (List AuditRecord)) (ds : List RiskDecision)
    → length ds ≤ 2 ^ 64
    → AllFits ds
    → Clocked (negsuc 0) ds
    → (l : AuditLogger) × (log_all h (new_logger sink) ds ≡ ok l)
      × (verify h seed_prev_hash l.records ≡ ok (clean_result l.prev_hash_lo l.records))
log_all_verified h sink ds n f c =
    let (l, e) =
      log_all_total h (new_logger sink) ds (unfold new_logger in refl)
        (unfold new_logger in omega arith) f in
    (l, e, (verify-log_all h sink ds l c e).1)
