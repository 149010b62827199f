-- ===== src/Audit/Record/File.antt =====
-- The log file: what `write_records` wrote, `read_records` yields, up to a truncated end.
use sentinel_hft.Prelude.{ℕ, ◌<◌, ◌≡◌, refl, List, [], ◌∷◌, ◌++◌, length, arith, append_assoc}
use sentinel_hft.Prelude.Result.{ok, bind-eq-ok}
use sentinel_hft.Prelude.Slices.{take-append, drop-append}
use sentinel_hft.Prelude.Reads.{reads}
use sentinel_hft.Struct.Records.{
  encode_all, decode_all, end_of, AllRoundTrip, decode_all-encode_all,
}
use sentinel_hft.Struct.{pack, unpack}
use sentinel_hft.Struct.RoundTrip.{unpack-pack, length-pack}
use sentinel_hft.Audit.Record.{
  AuditRecord, audit_file_header_struct, audit_magic, encode, decode, audit_record_size,
  write_records, check_header, read_records,
}
use sentinel_hft.Audit.Record.RoundTrip.{InRange, length-encode, decode-encode}

abbrev pub AllInRange : List AuditRecord → Type 0
AllInRange [] = Unit
AllInRange (r ∷ rs) = InRange r × AllInRange rs

all-RoundTrip :
    (rs : List AuditRecord) → AllInRange rs → AllRoundTrip audit_record_size encode decode rs
all-RoundTrip [] a = tt
all-RoundTrip (r ∷ rs) a = (
  record { sized = length-encode r; decoded = λ bs h. decode-encode r bs a.0 h },
  all-RoundTrip rs a.1,
)

check_header-pack :
    (head : List ℕ)
    → pack audit_file_header_struct (audit_magic, (1, (96, tt))) ≡ ok head
    → check_header head ≡ ok tt
unfolding check_header
check_header-pack head h =
    let u : unpack audit_file_header_struct head ≡ ok (audit_magic, (1, (96, tt))) =
      unpack-pack audit_file_header_struct (audit_magic, (1, (96, tt))) head (refl, tt) h in
    rw (length-pack audit_file_header_struct (audit_magic, (1, (96, tt))) head h, u)

read_records-body :
    (head body : List ℕ)
    → length head ≡ 16
    → check_header head ≡ ok tt
    → read_records (head ++ body) ≡ decode_all 96 decode (reads 96 body)
unfolding read_records
read_records-body head body len checked =
    rw (read_records, take-append 16 head body len, checked, drop-append 16 head body len)

-- A log that was written of records whose fields are in range, each within its width, `position_after`
-- within 64 bits with a sign and the pointer of 16 bytes, is yielded again in full, in order. Bytes of
-- a record that was cut short behind it are an error, raised after every whole record.
pub read_records-write_records :
    (rs : List AuditRecord) (file rest : List ℕ)
    → length rest < 96
    → AllInRange rs
    → write_records rs ≡ ok file
    → read_records (file ++ rest) ≡ (rs, end_of rest)
unfolding write_records
read_records-write_records rs file rest lt a h =
    let (head, p, q) =
      bind-eq-ok (pack audit_file_header_struct (audit_magic, (1, (96, tt)))) _ h in
    let (body, p', q') = bind-eq-ok (encode_all encode rs) _ q in
    let len : length head ≡ 16 = length-pack audit_file_header_struct _ head p in
    let joined : file ≡ head ++ body = ground arith in
    rw (joined, append_assoc, read_records-body head (body ++ rest) len (check_header-pack head p))
      (decode_all-encode_all 96 encode decode rs body rest lt (all-RoundTrip rs a) p')
