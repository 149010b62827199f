-- ===== src/Audit/Record/RoundTrip.antt =====
-- The wire form of a record determines it.
use mathlib.Core.List.{append-nil}
use sentinel_hft.Prelude.{
  ℕ, ◌^◌, ◌<◌, ◌≡◌, sym, ap, ◌∙◌, List, [], ◌++◌, length, take, drop, arith, take-append-drop,
  length-drop,
}
use sentinel_hft.Prelude.Int.{ℤ, pos, negsuc}
use sentinel_hft.Prelude.Result.{ok}
use sentinel_hft.Prelude.Slices.{take_all, drop-drop}
use sentinel_hft.Struct.{Values, magnitude, pack, unpack, read}
use sentinel_hft.Struct.RoundTrip.{unpack-pack, read-pack, length-pack}
use sentinel_hft.Audit.Record.{AuditRecord, audit_struct, fields, mask64, signed64, encode, decode}

-- The 64-bit two's complement range of `position_after`.
abbrev pub InRange : AuditRecord → Type 0
InRange r = magnitude r.position_after < 2 ^ 63

pub signed64-mask64 : (z : ℤ) → magnitude z < 2 ^ 63 → signed64 (mask64 z) ≡ z
unfolding signed64 mask64
signed64-mask64 (pos n) h = ground arith
signed64-mask64 (negsuc n) h = ground arith

-- What a successful `encode` went through.
pub encode_parts :
    (r : AuditRecord) (bs : List ℕ)
    → encode r ≡ ok bs
    → (length r.prev_hash_lo ≡ 16) × (pack audit_struct (fields r) ≡ ok bs)
unfolding encode
encode_parts r bs h = ground arith

pub length-encode : (r : AuditRecord) (bs : List ℕ) → encode r ≡ ok bs → length bs ≡ 96
length-encode r bs h = length-pack audit_struct (fields r) bs (encode_parts r bs h).1

-- A record that was encoded is decoded to itself, if its position is a 64-bit number.
pub decode-encode :
    (r : AuditRecord) (bs : List ℕ) → InRange r → encode r ≡ ok bs → decode bs ≡ ok r
unfolding decode
decode-encode r bs range h =
    let (len, packed) = encode_parts r bs h in
    let u : unpack audit_struct bs ≡ ok (fields r) =
      unpack-pack audit_struct (fields r) bs (len, tt) packed in
    rw (length-encode r bs h, u, signed64-mask64 r.position_after range)

-- Two records with the same wire form are the same record.
pub encode_injective :
    (r s : AuditRecord) (bs : List ℕ)
    → InRange r
    → InRange s
    → encode r ≡ ok bs
    → encode s ≡ ok bs
    → r ≡ s
encode_injective r s bs hr hs er es =
    let p : decode bs ≡ ok r = decode-encode r bs hr er in
    let q : decode bs ≡ ok s = decode-encode s bs hs es in cc

abbrev prev_field : Values audit_struct → List ℕ
prev_field (a, (b, (c, (d, (e, (f, (g, (h, (i, (j, (k, (l, (m, (n, _)))))))))))))) = n

-- The pointer to the previous record is the last 16 bytes of the wire form.
drop-encode : (r : AuditRecord) (bs : List ℕ) → encode r ≡ ok bs → drop 80 bs ≡ r.prev_hash_lo
unfolding read
drop-encode r bs h =
    let (len, packed) = encode_parts r bs h in
    let p : read audit_struct bs ≡ fields r =
      rw append-nil at (read-pack audit_struct (fields r) bs [] (len, tt) packed) in
    let q : take 16 (
          drop 4 (
            drop 4 (
              drop 8 (
                drop 8 (
                  drop 8
                    (drop 8 (drop 8 (drop 2 (drop 2 (drop 4 (drop 8 (drop 8 (drop 8 bs)))))))))))))
        ≡ r.prev_hash_lo =
      ap prev_field p in
    let e : take 16 (drop 80 bs) ≡ r.prev_hash_lo = simp drop-drop at q in
    sym (take_all 16 (drop 80 bs) (omega (arith, length-drop 80 bs, length-encode r bs h))) ∙ e

-- The wire form is the payload and the pointer to the previous record.
pub encode-split :
    (r : AuditRecord) (bs : List ℕ) → encode r ≡ ok bs → bs ≡ take 80 bs ++ r.prev_hash_lo
encode-split r bs h = rw (← drop-encode r bs h) (sym (take-append-drop 80 bs))
