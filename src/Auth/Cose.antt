-- ===== src/Auth/Cose.antt =====
-- auth.rs: COSE_Sign1 containers of one profile, and the small checks that decoders share.
pub mod Acceptance
use rtn_mq.Prelude.{
  ℕ, ◌+◌, ◌*◌, ◌<◌, ◌≤◌, ◌≡◌, refl, Bool, true, false, not, List, [], ◌∷◌, ◌++◌, length, ltb, ◌==◌,
  arith, if◌then◌else◌, ◌↔◌, leb,
}
use rtn_mq.Prelude.Bytes.{Bytes, bytes_eq, concat, bytes_eq_iff, bytes_eq_refl}
use rtn_mq.Error.{
  Error, Result, ok, err, protocol, message_too_large, invalid_signature, fail_if, and_then, map_ok,
}
use rtn_mq.Crypto.{Iroh, IrohLaws}
use rtn_mq.Cbor.{
  Minicbor, MinicborLaws, Writer, Reader, finish, put_array, put_u, put_bytes, put_text,
  put_empty_map, array, bytes, fixed, empty_map, end, canonical, lift, pure, run_reader, ◌>>=◌,
  ◌>>◌,
}

-- The protected map {1: -8}.
abbrev pub protected : Bytes
protected = 0xa1 ∷ 0x01 ∷ 0x27 ∷ []

-- "Signature1"
abbrev signature1 : Bytes
signature1 = 83 ∷ 105 ∷ 103 ∷ 110 ∷ 97 ∷ 116 ∷ 117 ∷ 114 ∷ 101 ∷ 49 ∷ []

unfoldable pub version : ℕ → Result (Unit {0})
version v = if not (v == 1) then err (protocol "unsupported version") else ok tt

module _ ⦃c : Iroh⦄ where
  unfoldable pub endpoint : Bytes → Result Bytes
  endpoint b = if c.is_key b then ok b else err (protocol "invalid endpoint key")

module _ ⦃m : Minicbor⦄ where
  unfoldable pub signing_bytes : Bytes → Bytes → Bytes
  unfolding finish
  signing_bytes payload context = finish (
      put_array 4
      ∷ put_text signature1
      ∷ put_bytes protected
      ∷ put_bytes context
      ∷ put_bytes payload
      ∷ [])

  unfoldable pub cose : Bytes → Bytes → Bytes
  unfolding finish
  cose payload signature = finish (
      put_array 4
      ∷ put_bytes protected
      ∷ put_empty_map
      ∷ put_bytes payload
      ∷ put_bytes signature
      ∷ [])

  unfoldable pub read_cose : Bytes → ℕ → Reader (Bytes × Bytes)
  read_cose input max = do
    array 4
    headers ← bytes 3
    lift
        (fail_if (not (bytes_eq headers protected)) (protocol "unsupported COSE protected headers"))
    empty_map
    payload ← bytes max
    signature ← fixed 64
    end
    lift (canonical input (cose payload signature))
    pure (payload, signature)

  unfoldable pub parse_cose : Bytes → ℕ → Result (Bytes × Bytes)
  parse_cose input max =
      if ltb max (length input)
      then err message_too_large
      else run_reader (read_cose input max) input

module _ ⦃m : Minicbor⦄ ⦃c : Iroh⦄ where
  unfoldable pub sign_cose : Bytes → Bytes → Bytes → Bytes
  sign_cose payload key context = cose payload (c.sign key (signing_bytes payload context))

  unfoldable pub verify_cose : Bytes → Bytes → Bytes → ℕ → Result Bytes
  verify_cose input key context max = and_then (parse_cose input max) (λ (payload, signature).
      if c.verify key (signing_bytes payload context) signature
      then ok payload
      else err invalid_signature)
