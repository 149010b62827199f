-- ===== src/Deribit/Pipeline/Raises.antt =====
-- What the stages of the event loops raise: `struct.error` for a number out of range, or
-- `OverflowError` for an infinite one.
use sentinel_hft.Prelude.{ℕ, ◌≡◌, refl, Option, none, some, List, [], ◌∷◌, length, arith}
use sentinel_hft.Prelude.Int.{ℤ, pos, negsuc}
use sentinel_hft.Prelude.Float.{finite}
use sentinel_hft.Prelude.Result.{
  Result, ok, ◌>>=◌, bind-eq-ok, IsNumeric, OnlyRaises, bind-OnlyRaises, bind-OnlyRaises_ok,
}
use sentinel_hft.Struct.{pack}
use sentinel_hft.Struct.Raises.{pack-OnlyRaises}
use sentinel_hft.Trace.Adapters.{v12_struct}
use sentinel_hft.Audit.Digest.{Blake2b, low128, length-low128}
use sentinel_hft.Audit.Record.{AuditRecord, audit_struct, fields, encode, payload_bytes, hash_lo}
use sentinel_hft.Audit.Logger.{RiskDecision, AuditLogger, new_logger, record_of, log, log_all}
use sentinel_hft.Risk.{Decision}
use sentinel_hft.Deribit.Book.{TickEvent}
use sentinel_hft.Deribit.Pipeline.{
  DeribitDemo, Cycles, unsigned, decision_of, trace_fields, append_trace_record,
}
use sentinel_hft.Deribit.Pipeline.Loop.{log_decision}

-- A chain that starts with a conversion, or with a field.
finite-OnlyRaises :
    {B : Type 0}
    → (o : Option ℤ) (next : ℤ → Result B) → ((z : ℤ) → OnlyRaises IsNumeric (next z))
    → OnlyRaises IsNumeric (finite o >>= next)
finite-OnlyRaises (some z) next rest = rest z
finite-OnlyRaises none next rest = tt

field-OnlyRaises :
    {B : Type 0}
    → (z : ℤ) (next : ℕ → Result B) → ((n : ℕ) → OnlyRaises IsNumeric (next n))
    → OnlyRaises IsNumeric (unsigned z >>= next)
field-OnlyRaises (pos n) next rest = rest n
field-OnlyRaises (negsuc n) next rest = tt

decision_of-OnlyRaises : (d : Decision) → OnlyRaises IsNumeric (decision_of d)
unfolding decision_of
decision_of-OnlyRaises d = finite-OnlyRaises d.price _ (λ price.
    finite-OnlyRaises d.notional _ (λ notional. finite-OnlyRaises d.quantity _ (λ quantity.
      finite-OnlyRaises d.position_after _ (λ net. finite-OnlyRaises d.notional_after _ (λ after.
        finite-OnlyRaises d.tokens_remaining _ (λ tokens. field-OnlyRaises quantity _ (λ q.
          field-OnlyRaises price _ (λ p.
            field-OnlyRaises notional _
              (λ n. field-OnlyRaises tokens _ (λ t. field-OnlyRaises after _ (λ a. tt)))))))))))

-- The hash of a record whose pointer has 16 bytes.
hash_lo-OnlyRaises :
    (h : Blake2b) (r : AuditRecord)
    → length r.prev_hash_lo ≡ 16
    → OnlyRaises IsNumeric (hash_lo h r)
unfolding hash_lo payload_bytes encode
hash_lo-OnlyRaises h r len =
    bind-OnlyRaises_ok IsNumeric (payload_bytes r) _
      (bind-OnlyRaises_ok IsNumeric (encode r) _ (rw len (pack-OnlyRaises audit_struct (fields r))))

log-OnlyRaises :
    (h : Blake2b) (l : AuditLogger) (d : RiskDecision)
    → length l.prev_hash_lo ≡ 16
    → OnlyRaises IsNumeric (log h l d)
unfolding log record_of
log-OnlyRaises h l d len =
    bind-OnlyRaises_ok IsNumeric (hash_lo h (record_of l d)) _
      (hash_lo-OnlyRaises h (record_of l d) len)

-- The pointer of a logger keeps its 16 bytes.
length-log :
    (h : Blake2b) (l : AuditLogger) (d : RiskDecision) (s : AuditRecord × AuditLogger)
    → log h l d ≡ ok s
    → length s.1.prev_hash_lo ≡ 16
unfolding log hash_lo
length-log h l d s e =
    let (next, p, q) = bind-eq-ok (hash_lo h (record_of l d)) _ e in
    let (payload, p', q') = bind-eq-ok (payload_bytes (record_of l d)) _ p in
    let hashed : low128 h payload ≡ next = ground arith in
    let same : next ≡ s.1.prev_hash_lo = ground arith in
    rw (← same, ← hashed) (length-low128 h payload)

length-log_all :
    (h : Blake2b) (l l' : AuditLogger) (ds : List RiskDecision)
    → length l.prev_hash_lo ≡ 16
    → log_all h l ds ≡ ok l'
    → length l'.prev_hash_lo ≡ 16
unfolding log_all
length-log_all h l l' [] len e = let same : l ≡ l' = ground arith in rw (← same) len
length-log_all h l l' (d ∷ ds) len e =
    let (s, p, q) = bind-eq-ok (log h l d) _ e in
    length-log_all h s.1 l' ds (length-log h l d s p) q

module _ {N S : Type 0} where
  pub log_decision-OnlyRaises :
      (h : Blake2b) (d : Decision) (demo : DeribitDemo N S) (ds : List RiskDecision)
      → log_all h (new_logger none) ds ≡ ok demo.audit
      → OnlyRaises IsNumeric (log_decision h d demo)
  unfolding log_decision
  log_decision-OnlyRaises h d demo ds e =
      let len = length-log_all h (new_logger none) demo.audit ds (unfold new_logger in refl) e in
      bind-OnlyRaises IsNumeric (decision_of d) _ (decision_of-OnlyRaises d) (λ r p.
        bind-OnlyRaises_ok IsNumeric (log h demo.audit r) _ (log-OnlyRaises h demo.audit r len))

  pub append_trace_record-OnlyRaises :
      (ev : TickEvent N) (t_ingress t_egress : ℕ) (c : Cycles) (tx_id flags : ℕ)
      (demo : DeribitDemo N S)
      → OnlyRaises IsNumeric (append_trace_record ev t_ingress t_egress c tx_id flags demo)
  unfolding append_trace_record
  append_trace_record-OnlyRaises ev t_in t_out c tx fl demo =
      bind-OnlyRaises_ok IsNumeric (pack v12_struct (trace_fields ev t_in t_out c tx fl)) _
        (pack-OnlyRaises v12_struct (trace_fields ev t_in t_out c tx fl))
