-- ===== src/Audit/Alert/Tests.antt =====
-- Runs of the alert log, with a stand-in for BLAKE2b.
use sentinel_hft.Prelude.{
  ℕ, ◌≡◌, ◌↔◌, ◌++◌, refl, Bool, true, map, Option, none, some, List, [], ◌∷◌,
}
use sentinel_hft.Prelude.Int.{negsuc}
use sentinel_hft.Prelude.Result.{from_ok, ok, Error}
use sentinel_hft.Struct.{to_le, of_le, to_twos, fit, pack}
use sentinel_hft.Audit.Digest.Padded.{padded}
use sentinel_hft.Audit.Digest.{low128}
use sentinel_hft.Audit.Alert.{
  AlertRecord, Alert, AlertChain, AlertVerifyResult, score_q32, payload_bytes, encode, hash_lo,
  append, append_all, zeros, new_chain, verify_chain,
}
use sentinel_hft.Audit.Alert.Reader.{alert_header, read_alerts}
use sentinel_hft.Audit.Alert.Reader.RoundTrip.{stored}
use sentinel_hft.Audit.Alert.Reader.Written.{IsAlert}
use sentinel_hft.Audit.Alert.Reader.File.{read_alerts-append_all}
use sentinel_hft.Audit.Alert.Chain.{IsLinked, verify_chain_iff}

abbrev alert : ℕ → Option (List ℕ) → Alert
alert t stage = record {
  detector = 122 ∷ 115 ∷ [];
  severity = 2;
  detail = 104 ∷ 105 ∷ [];
  score = negsuc 4;
  timestamp_ns = t;
  stage = stage;
  window_n = 64;
  flags = 0;
}

abbrev alerts : List Alert
alerts = alert 7 none ∷ alert 9 (some (99 ∷ [])) ∷ []

abbrev written : List AlertRecord × AlertChain
written = from_ok ([], new_chain) (append_all padded new_chain alerts)

alerts_written : append_all padded new_chain alerts ≡ ok written
unfolding append_all append hash_lo payload_bytes encode pack low128 score_q32 to_le of_le to_twos
    fit
alerts_written = refl

abbrev ended : Option Error
ended = none

verify_chain_iff_example :
    ((v : AlertVerifyResult) × (verify_chain padded written.0 ended ≡ ok v) × (v.chain_ok ≡ true))
    ↔ (IsLinked padded zeros written.0 × (ended ≡ none))
verify_chain_iff_example = verify_chain_iff padded written.0 ended

abbrev anything : List ℕ → Bool
anything bs = true

abbrev header : List ℕ
header = from_ok [] alert_header

header_written : alert_header ≡ ok header
unfolding alert_header pack to_le fit
header_written = refl

abbrev are_texts : (a : Alert) → IsAlert anything a
are_texts a = record { detector = refl; detail = refl; stage = refl }

read_alerts-append_all_example :
    read_alerts anything (header ++ written.1.fp) ≡ (map stored written.0, none)
read_alerts-append_all_example =
    read_alerts-append_all anything padded alerts written.0 written.1 header
      (are_texts (alert 7 none), (are_texts (alert 9 (some (99 ∷ []))), tt)) alerts_written
      header_written
