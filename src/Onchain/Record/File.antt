-- ===== src/Onchain/Record/File.antt =====
-- The file of on-chain traces: what was written is iterated again, up to a truncated end.
use sentinel_hft.Prelude.{ℕ, ◌<◌, ◌≡◌, refl, List, [], ◌∷◌, ◌++◌, length, arith, append_assoc}
use sentinel_hft.Prelude.Result.{ok, bind-eq-ok}
use sentinel_hft.Prelude.Slices.{take-append, drop-append}
use sentinel_hft.Prelude.Reads.{reads}
use sentinel_hft.Struct.{pack, unpack}
use sentinel_hft.Struct.RoundTrip.{unpack-pack, length-pack}
use sentinel_hft.Struct.Records.{
  encode_all, decode_all, end_of, AllRoundTrip, decode_all-encode_all,
}
use sentinel_hft.Onchain.Record.{
  OnchainRecord, onchain_struct, onchain_record_size, onchain_fields, encode_onchain,
  decode_onchain, onchain_file_header_struct, onchain_magic, write_onchain, check_onchain_header,
  iter_file,
}

length-encode_onchain :
    (r : OnchainRecord) (bs : List ℕ) → encode_onchain r ≡ ok bs → length bs ≡ 80
unfolding encode_onchain
length-encode_onchain r bs h = length-pack onchain_struct (onchain_fields r) bs h

decode_onchain-encode_onchain :
    (r : OnchainRecord) (bs : List ℕ) → encode_onchain r ≡ ok bs → decode_onchain bs ≡ ok r
unfolding encode_onchain decode_onchain
decode_onchain-encode_onchain r bs h =
    let u : unpack onchain_struct bs ≡ ok (onchain_fields r) =
      unpack-pack onchain_struct (onchain_fields r) bs (omega arith, tt) h in
    rw (length-pack onchain_struct (onchain_fields r) bs h, u)

all-RoundTrip :
    (rs : List OnchainRecord) → AllRoundTrip onchain_record_size encode_onchain decode_onchain rs
all-RoundTrip [] = tt
all-RoundTrip (r ∷ rs) = (
  record { sized = length-encode_onchain r; decoded = decode_onchain-encode_onchain r },
  all-RoundTrip rs,
)

check_onchain_header-pack :
    (head : List ℕ)
    → pack onchain_file_header_struct (onchain_magic, (1, (80, tt))) ≡ ok head
    → check_onchain_header head ≡ ok tt
unfolding check_onchain_header
check_onchain_header-pack head h =
    let u : unpack onchain_file_header_struct head ≡ ok (onchain_magic, (1, (80, tt))) =
      unpack-pack onchain_file_header_struct (onchain_magic, (1, (80, tt))) head (refl, tt) h in
    rw (length-pack onchain_file_header_struct (onchain_magic, (1, (80, tt))) head h, u)

iter_file-body :
    (head body : List ℕ)
    → length head ≡ 16
    → check_onchain_header head ≡ ok tt
    → iter_file (head ++ body) ≡ decode_all 80 decode_onchain (reads 80 body)
unfolding iter_file
iter_file-body head body len checked =
    rw (iter_file, take-append 16 head body len, checked, drop-append 16 head body len)

-- A file of on-chain traces that was written is iterated again in full, in order, the signed slippage
-- included. Bytes of a record that was cut short behind it are an error, raised after every whole
-- record.
pub iter_file-write_onchain :
    (rs : List OnchainRecord) (file rest : List ℕ)
    → length rest < 80
    → write_onchain rs ≡ ok file
    → iter_file (file ++ rest) ≡ (rs, end_of rest)
unfolding write_onchain
iter_file-write_onchain rs file rest lt h =
    let (head, p, q) =
      bind-eq-ok (pack onchain_file_header_struct (onchain_magic, (1, (80, tt)))) _ h in
    let (body, p', q') = bind-eq-ok (encode_all encode_onchain rs) _ q in
    let len : length head ≡ 16 = length-pack onchain_file_header_struct _ head p in
    let joined : file ≡ head ++ body = ground arith in
    rw
      (
        joined,
        append_assoc,
        iter_file-body head (body ++ rest) len (check_onchain_header-pack head p),
      )
      (decode_all-encode_all 80 encode_onchain decode_onchain rs body rest lt (all-RoundTrip rs) p')
