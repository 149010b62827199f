-- ===== src/Audit/Record/Payload.antt =====
-- The payload leaves the pointer out: two records that differ only in `prev_hash_lo` have one hash.
use sentinel_hft.Prelude.{ℕ, ◌≡◌, refl, sym, ap, ◌∙◌, List, [], ◌∷◌, ◌++◌, length, take, arith}
use sentinel_hft.Prelude.Result.{ok, bind-eq-ok}
use sentinel_hft.Prelude.Slices.{take-append}
use sentinel_hft.Struct.{Code, uint, chars, Values, fit, pack}
use sentinel_hft.Struct.RoundTrip.{length-pack}
use sentinel_hft.Struct.Join.{Parts, pack-join, pack-join-Parts}
use sentinel_hft.Audit.Digest.{Blake2b}
use sentinel_hft.Audit.Record.{AuditRecord, mask64, encode, payload_bytes, hash_lo}
use sentinel_hft.Audit.Record.RoundTrip.{encode_parts}

-- The struct without its last item.
abbrev payload_struct : List Code
payload_struct =
    uint 8
    ∷ uint 8
    ∷ uint 8
    ∷ uint 4
    ∷ uint 2
    ∷ uint 2
    ∷ uint 8
    ∷ uint 8
    ∷ uint 8
    ∷ uint 8
    ∷ uint 8
    ∷ uint 4
    ∷ uint 4
    ∷ []

abbrev payload_fields : AuditRecord → Values payload_struct
payload_fields r = (
  r.seq_no,
  (
    r.timestamp_ns,
    (
      r.order_id,
      (
        r.symbol_id,
        (
          r.reject_reason,
          (
            r.flags,
            (
              r.quantity,
              (
                r.price,
                (
                  r.notional,
                  (
                    mask64 r.position_after,
                    (r.notional_after, (r.tokens_remaining, (r.reserved, tt))),
                  ),
                ),
              ),
            ),
          ),
        ),
      ),
    ),
  ),
)

pack-chars16 : (v : List ℕ) → pack (chars 16 ∷ []) (v, tt) ≡ ok (fit 16 v ++ [])
unfolding pack
pack-chars16 v = refl

-- The payload does not depend on the pointer.
payload-repoint :
    (r : AuditRecord) (payload p : List ℕ)
    → payload_bytes r ≡ ok payload
    → length p ≡ 16
    → payload_bytes (record r { prev_hash_lo = p }) ≡ ok payload
unfolding payload_bytes encode
payload-repoint r payload p h len =
    let (bs, e, q) = bind-eq-ok (encode r) _ h in
    let (_, packed) = encode_parts r bs e in
    let t : Parts payload_struct (chars 16 ∷ []) (payload_fields r) (r.prev_hash_lo, tt) bs =
      pack-join-Parts payload_struct (chars 16 ∷ []) (payload_fields r) (r.prev_hash_lo, tt) bs
        packed in
    let size : length t.front ≡ 80 =
      length-pack payload_struct (payload_fields r) t.front t.packed_front in
    let again =
      pack-join payload_struct (chars 16 ∷ []) (payload_fields r) (p, tt) t.front _ t.packed_front
        (pack-chars16 p) in
    let cut : take 80 bs ≡ t.front = rw t.joined (take-append 80 t.front t.back size) in
    let same : take 80 bs ≡ payload = ground arith in
    rw (len, again, take-append 80 t.front (fit 16 p ++ []) size) (ap ok (sym cut ∙ same))

-- So the hash does not commit to the pointer.
pub hash_lo-repoint :
    (h : Blake2b) (r : AuditRecord) (next p : List ℕ)
    → hash_lo h r ≡ ok next
    → length p ≡ 16
    → hash_lo h (record r { prev_hash_lo = p }) ≡ ok next
unfolding hash_lo
hash_lo-repoint h r next p e len =
    let (payload, q, same) = bind-eq-ok (payload_bytes r) _ e in
    rw (payload-repoint r payload p q len) same
