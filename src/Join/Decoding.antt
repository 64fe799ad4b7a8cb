-- ===== src/Join/Decoding.antt =====
-- join.rs: `JoinCode::decode`.
pub mod RoundTrip
use rtn_mq.Prelude.{ℕ, not, Option, none, some, [], ◌∷◌, length, ltb, ◌==◌, if◌then◌else◌}
use rtn_mq.Prelude.Bytes.{Bytes, bytes_eq}
use rtn_mq.Error.{Result, ok, protocol, message_too_large, fail_if, ok_or, ◌>>=◌, ◌>>◌}
use rtn_mq.Crypto.{Iroh}
use rtn_mq.Cbor.{Minicbor, run_reader}
use rtn_mq.Join.Code.{Base64, JoinCode, prefix, encode_code}
use rtn_mq.Join.Hints.{Addresses, read_code}

-- `str::strip_prefix`
unfoldable pub strip_prefix : Bytes → Bytes → Option Bytes
strip_prefix [] b = some b
strip_prefix (x ∷ p) [] = none
strip_prefix (x ∷ p) (y ∷ b) = let rest = strip_prefix p b in if x == y then rest else none

module _ ⦃m : Minicbor⦄ ⦃c : Iroh⦄ (iroh : Addresses) where
  unfoldable pub decode_code : Base64 → Bytes → Result JoinCode
  unfolding strip_prefix read_code
  decode_code base64 code = do
    fail_if (ltb 32768 (length code)) message_too_large
    encoded ← ok_or (strip_prefix prefix code) (protocol "join code prefix")
    bytes ← ok_or (base64.of_text encoded) (protocol "join code base64")
    value ← run_reader (read_code iroh) bytes
    again ← encode_code base64 value
    fail_if (not (bytes_eq again code)) (protocol "noncanonical join code")
    ok value
