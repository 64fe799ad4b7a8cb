-- ===== src/Message/Envelope/RoundTrip.antt =====
-- What a receiver accepts as an envelope, and that it accepts what a publisher signs.
use rtn_mq.Prelude.{
  ◌<◌, ◌≤◌, ◌≡◌, refl, subst, true, false, [], length, length-append, arith, inl, inr, leb,
}
use rtn_mq.Prelude.Bytes.{Bytes, bytes_eq_iff, bytes_eq_refl}
use rtn_mq.Error.{ok, Result-cases}
use rtn_mq.Crypto.{Iroh, IrohLaws}
use rtn_mq.Cbor.{Minicbor, MinicborLaws, u64_mod, end, canonical, run_reader-eq-ok, run_reader-ok}
use rtn_mq.Cbor.RoundTrip.{array-put, u-put, fixed-put, text-put, canonical_refl, canonical_sound}
use rtn_mq.Auth.Cose.{version, endpoint, cose, sign_cose, verify_cose, protected, signing_bytes}
use rtn_mq.Auth.Cose.Acceptance.{Signed, verify_cose_iff, verify_cose-sign_cose}
use rtn_mq.Message.Topic.{new_topic}
use rtn_mq.Message.Topic.Names.{new_topic_iff}
use rtn_mq.Message.Topic.Ordering.{topic_is_ascii}
use rtn_mq.Message.Envelope.{
  Envelope, DeliveryMode, number, decode_mode, message_context, usize_try_from, encode, sign,
  read_envelope, verify,
}

-- The sizes and ranges that the types of the fields give, and what `publish` checks.
pub record IsWellFormed ⦃m : Minicbor⦄ ⦃c : Iroh⦄ (e : Envelope) : Type 0 where
  pub realm : length e.realm_id ≡ 16
  pub publisher : length e.publisher_endpoint_id ≡ 32
  pub publisher_key : c.is_key e.publisher_endpoint_id ≡ true
  pub epoch : length e.publisher_epoch ≡ 16
  pub topic_name : new_topic e.topic.name ≡ ok e.topic
  pub sequence_range : e.sequence < u64_mod
  pub expires_range : e.expires < u64_mod
  pub lifetime : e.created < e.expires
  pub format_size : length e.format ≤ 256
  pub format_text : m.is_text e.format ≡ true
  pub len_range : e.len < u64_mod
  pub digest_size : length e.digest ≡ 32

pub mode_range : (mode : DeliveryMode) → number mode < u64_mod
mode_range DeliveryMode.best_effort = omega arith
mode_range DeliveryMode.acknowledged = omega arith

pub decode_mode-number : (mode : DeliveryMode) → decode_mode (number mode) ≡ ok mode
unfolding decode_mode
decode_mode-number DeliveryMode.best_effort = refl
decode_mode-number DeliveryMode.acknowledged = refl

module _ ⦃m : Minicbor⦄ (laws : MinicborLaws m) ⦃c : Iroh⦄ where
  read_envelope-encode :
      (input : Bytes) (e : Envelope)
      → IsWellFormed e
      → canonical input (encode e) ≡ ok tt
      → read_envelope input e.publisher_endpoint_id (encode e) ≡ ok (e, [])
  unfolding read_envelope encode version endpoint end
  read_envelope-encode input e w same =
      let named = (new_topic_iff e.topic.name e.topic).0 w.topic_name in
      let usize : usize_try_from e.len ≡ ok e.len = unfold usize_try_from in ground arith in
      let ordered : leb e.expires e.created ≡ false = ground arith in
      simp (
        λ (rest : Bytes). array-put laws 12 rest (omega arith),
        λ (rest : Bytes). u-put laws 1 rest (omega arith),
        λ (rest : Bytes). fixed-put laws 16 e.realm_id rest w.realm (omega arith),
        λ (rest : Bytes). fixed-put laws 32 e.publisher_endpoint_id rest w.publisher (omega arith),
        w.publisher_key,
        λ (rest : Bytes). fixed-put laws 16 e.publisher_epoch rest w.epoch (omega arith),
        λ (rest : Bytes).
            text-put laws 256 e.topic.name rest (laws.ascii_is_text _ (topic_is_ascii _ named.4))
              named.2 (omega arith),
        w.topic_name,
        λ (rest : Bytes). u-put laws e.sequence rest w.sequence_range,
        λ (rest : Bytes). u-put laws e.created rest (omega (arith, w.lifetime, w.expires_range)),
        λ (rest : Bytes). u-put laws e.expires rest w.expires_range,
        λ (rest : Bytes). text-put laws 256 e.format rest w.format_text w.format_size (omega arith),
        λ (rest : Bytes). u-put laws e.len rest w.len_range,
        usize,
        λ (rest : Bytes). fixed-put laws 32 e.digest rest w.digest_size (omega arith),
        λ (rest : Bytes). u-put laws (number e.mode) rest (mode_range e.mode),
        decode_mode-number e.mode,
        bytes_eq_refl e.publisher_endpoint_id,
        ordered,
        same,
      )

  encode_size : (e : Envelope) → IsWellFormed e → length (encode e) ≤ 725
  unfolding encode
  encode_size e w =
      let named = (new_topic_iff e.topic.name e.topic).0 w.topic_name in
      omega (
        arith,
        length-append {0},
        laws.head_size 12,
        laws.head_size 1,
        laws.bytes_size e.realm_id,
        laws.bytes_size e.publisher_endpoint_id,
        laws.bytes_size e.publisher_epoch,
        laws.text_size e.topic.name,
        laws.head_size e.sequence,
        laws.head_size e.created,
        laws.head_size e.expires,
        laws.text_size e.format,
        laws.head_size e.len,
        laws.bytes_size e.digest,
        laws.head_size (number e.mode),
        w.realm,
        w.publisher,
        w.epoch,
        named.2,
        w.format_size,
        w.digest_size,
      )

  sign_size :
      (keys : IrohLaws c) (e : Envelope) (secret : Bytes)
      → IsWellFormed e
      → length (sign e secret) ≤ 837
  unfolding sign sign_cose cose
  sign_size keys e secret w = omega (
    arith,
    length-append {0},
    laws.head_size 4,
    laws.head_size 0,
    laws.bytes_size protected,
    laws.bytes_size (encode e),
    laws.bytes_size (c.sign secret (signing_bytes (encode e) message_context)),
    keys.sign_size secret (signing_bytes (encode e) message_context),
    encode_size e w,
  )

  verify_cose-sign :
      (keys : IrohLaws c) (e : Envelope) (secret : Bytes)
      → IsWellFormed e
      → verify_cose (sign e secret) (c.public secret) message_context 4096 ≡ ok (encode e)
  unfolding sign
  verify_cose-sign keys e secret w =
      verify_cose-sign_cose laws keys (encode e) secret message_context 4096
        (omega (arith, sign_size keys e secret w)) (omega arith)

  -- A well-formed envelope that names its signer as the publisher is accepted from that signer: the
  -- receiver gets back exactly the envelope, within the limit of 4096 bytes.
  pub verify-sign :
      (keys : IrohLaws c) (e : Envelope) (secret : Bytes)
      → IsWellFormed e
      → e.publisher_endpoint_id ≡ c.public secret
      → verify (sign e secret) (c.public secret) ≡ ok e
  unfolding verify
  verify-sign keys e secret w same =
      let signed = verify_cose-sign keys e secret w in
      let read : read_envelope (encode e) (c.public secret) (encode e) ≡ ok (e, []) =
        subst (λ k. read_envelope (encode e) k (encode e) ≡ ok (e, [])) same
          (read_envelope-encode (encode e) e w (canonical_refl _)) in
      rw signed (run_reader-ok (read_envelope (encode e) (c.public secret)) (encode e) read)

  abbrev Accepted : Bytes → Bytes → Envelope → Type 0
  Accepted b peer e =
      (canonical b (encode e) ≡ ok tt) × (e.publisher_endpoint_id ≡ peer) × (e.created < e.expires)

  read_envelope_sound :
      (b peer : Bytes) (e : Envelope) (rest : Bytes)
      → read_envelope b peer b ≡ ok (e, rest)
      → Accepted b peer e
  unfolding read_envelope
  read_envelope_sound b peer e rest h =
      ground (arith, (bytes_eq_iff e.publisher_endpoint_id peer).0)

  -- An accepted envelope is what the peer signed as a message: the input is the one encoding of this
  -- envelope with a signature of the peer in the message context, the peer is the publisher that it
  -- names, and it expires after it was created.
  pub verify_sound :
      (input peer : Bytes) (e : Envelope)
      → verify input peer ≡ ok e
      → Signed laws input peer message_context 4096 (encode e)
        × (e.publisher_endpoint_id ≡ peer)
        × (e.created < e.expires)
  unfolding verify
  verify_sound input peer e h = elim (Result-cases (verify_cose input peer message_context 4096)) [
    | inl (b, signed) ↦
        let (rest, read) = run_reader-eq-ok (read_envelope b peer) b {a = e} (rw signed at h) in
        let (same, publisher, lifetime) = read_envelope_sound b peer e rest read in
        (
          subst (Signed laws input peer message_context 4096) (canonical_sound b (encode e) same)
              ((verify_cose_iff laws input peer message_context 4096 b (omega arith)).0 signed),
          publisher,
          lifetime,
        )
    | inr (x, e') ↦ absurd (cc (rw e' at h))
  ]
