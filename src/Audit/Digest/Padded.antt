-- ===== src/Audit/Digest/Padded.antt =====
-- A function in the place of BLAKE2b with which runs compute: the first 32 bytes of the message, filled
-- up with zeros.
use sentinel_hft.Struct.{to_le, of_le}
use sentinel_hft.Struct.Words.{length-to_le}
use sentinel_hft.Audit.Digest.{Blake2b}

abbrev pub padded : Blake2b
padded = record { digest = λ m. to_le 32 (of_le m); length-digest = λ m. length-to_le 32 (of_le m) }
