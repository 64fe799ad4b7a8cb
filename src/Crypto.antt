-- ===== src/Crypto.antt =====
-- The keys and signatures of iroh (Ed25519) and the digest of sha2: parameters of the model.
use rtn_mq.Prelude.{◌≡◌, Bool, true, length}
use rtn_mq.Prelude.Bytes.{Bytes}

-- `SecretKey::public`, `SecretKey::sign`, `EndpointId::verify`, `EndpointId::from_bytes(…).is_ok()`
-- and `Sha256::digest`, over the bytes of keys, messages and signatures.
pub record Iroh : Type 0 where
  pub public : Bytes → Bytes
  pub sign : Bytes → Bytes → Bytes
  pub verify : Bytes → Bytes → Bytes → Bool
  pub is_key : Bytes → Bool
  pub sha256 : Bytes → Bytes

-- What is relied on: the sizes, and that a signature verifies under the key of its signer.
pub record IrohLaws (c : Iroh) : Type 0 where
  pub public_size : (secret : Bytes) → length (c.public secret) ≡ 32
  pub public_is_key : (secret : Bytes) → c.is_key (c.public secret) ≡ true
  pub sign_size : (secret msg : Bytes) → length (c.sign secret msg) ≡ 64
  pub verify_sign : (secret msg : Bytes) → c.verify (c.public secret) msg (c.sign secret msg) ≡ true
  pub sha256_size : (b : Bytes) → length (c.sha256 b) ≡ 32
