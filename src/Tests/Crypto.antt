-- ===== src/Tests/Crypto.antt =====
-- Keys and signatures as concrete functions: a signature is the key with the start of the message.
use rtn_mq.Prelude.{ℕ, zero, suc, ◌≡◌, refl, ap, [], ◌∷◌, ◌++◌, length, ◌==◌, arith}
use rtn_mq.Prelude.Bytes.{Bytes, bytes_eq, bytes_eq_refl}
use rtn_mq.Crypto.{Iroh, IrohLaws}

-- The first `n` bytes, filled up with zeros.
unfoldable pub pad : ℕ → Bytes → Bytes
pad zero b = []
pad (suc n) [] = 0 ∷ pad n []
pad (suc n) (x ∷ b) = x ∷ pad n b

length-pad : (n : ℕ) (b : Bytes) → length (pad n b) ≡ n
unfolding pad
length-pad zero b = refl
length-pad (suc n) [] = ap suc (length-pad n [])
length-pad (suc n) (x ∷ b) = ap suc (length-pad n b)

instance unfoldable pub iroh : Iroh
iroh = record {
  public = pad 32;
  sign = λ secret msg. pad 64 (pad 32 secret ++ msg);
  verify = λ key msg signature. bytes_eq signature (pad 64 (key ++ msg));
  is_key = λ b. length b == 32;
  sha256 = pad 32;
}

pub iroh_laws : IrohLaws iroh
unfolding iroh
iroh_laws = record {
  public_size = length-pad 32;
  public_is_key = λ secret. ground (arith, length-pad 32 secret);
  sign_size = λ secret msg. length-pad 64 _;
  verify_sign = λ secret msg. bytes_eq_refl _;
  sha256_size = length-pad 32;
}
