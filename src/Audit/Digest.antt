-- ===== src/Audit/Digest.antt =====
-- `hashlib.blake2b(message, digest_size=32)`: a function of the message whose digest has 32 bytes.
-- Nothing else is assumed of it; where security matters, a theorem names the collision.
pub mod Padded
use sentinel_hft.Prelude.{ℕ, ◌≡◌, ◌≢◌, List, length, take, length-take, arith}

pub record Blake2b : Type 0 where
  pub digest : List ℕ → List ℕ
  pub length-digest : (message : List ℕ) → length (digest message) ≡ 32

-- The 128 bits that a record of the chain carries, `digest()[:16]`.
unfoldable pub low128 : Blake2b → List ℕ → List ℕ
low128 h message = take 16 (h.digest message)

pub length-low128 : (h : Blake2b) (message : List ℕ) → length (low128 h message) ≡ 16
unfolding low128
length-low128 h message = omega (arith, length-take 16 (h.digest message), h.length-digest message)
