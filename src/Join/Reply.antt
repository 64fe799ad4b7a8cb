-- ===== src/Join/Reply.antt =====
-- join.rs: `Enrollment`, the reply to a peer that joins, as it is encoded and as the peer accepts it.
pub mod Acceptance
use rtn_mq.Prelude.{
  ℕ, Bool, false, not, ◌||◌, Option, none, some, List, [], ◌∷◌, leb, ◌==◌, if◌then◌else◌,
}
use rtn_mq.Prelude.Bytes.{Bytes, bytes_eq}
use rtn_mq.Error.{Result, ok, err, protocol, unauthorized, certificate_expired, fail_if}
use rtn_mq.Crypto.{Iroh}
use rtn_mq.Cbor.{
  Minicbor, Reader, finish, put_array, put_u, put_bytes, array, u, bytes, fixed, end, canonical,
  lift, pure, run_reader, ◌>>=◌, ◌>>◌,
}
use rtn_mq.Auth.Cose.{endpoint}
use rtn_mq.Auth.Claims.{from_bytes}
use rtn_mq.Auth.Trust.{Trust, new_trust, verify_certificate}
use rtn_mq.Join.Admission.{Enrollment}
use rtn_mq.Wire.Hello.{max_cert}

unfoldable pub join_version : ℕ → Result (Unit {0})
join_version v = if not (v == 2) then err (protocol "join protocol version") else ok tt

-- The trust that was established before names another authority or realm.
unfoldable pub is_other : Option Trust → Bytes → Bytes → Bool
is_other none realm root = false
is_other (some t) realm root = not (bytes_eq t.root root) || not (bytes_eq t.realm realm)

-- `expected.unwrap_or(&value.trust)`
abbrev pub unwrap_or : Option Trust → Trust → Trust
unwrap_or none t = t
unwrap_or (some expected) t = expected

module _ ⦃m : Minicbor⦄ where
  unfoldable pub encode_enrollment : Enrollment → Bytes
  unfolding finish
  encode_enrollment e = finish (
      put_array 5
      ∷ put_u 2
      ∷ put_bytes e.trust.realm
      ∷ put_bytes e.trust.root
      ∷ put_u e.expires
      ∷ put_bytes e.certificate.bytes
      ∷ [])

module _ ⦃m : Minicbor⦄ ⦃c : Iroh⦄ where
  unfoldable pub read_enrollment : Bytes → Bytes → Option Trust → ℕ → Reader Enrollment
  read_enrollment b peer expected now = do
    array 5
    v ← u
    lift (join_version v)
    realm ← fixed 16
    key ← fixed 32
    root ← lift (endpoint key)
    expires ← u
    cert ← bytes max_cert
    certificate ← lift (from_bytes cert)
    end
    let value : Enrollment = record {
      trust = new_trust realm root;
      expires = expires;
      certificate = certificate;
    }
    lift (canonical b (encode_enrollment value))
    lift (fail_if (is_other expected realm root) unauthorized)
    lift (fail_if (leb expires now) certificate_expired)
    lift (verify_certificate (unwrap_or expected value.trust) certificate peer now)
    pure value

  unfoldable pub decode_enrollment : Bytes → Bytes → Option Trust → ℕ → Result Enrollment
  decode_enrollment b peer expected now = run_reader (read_enrollment b peer expected now) b
