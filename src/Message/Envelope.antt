-- ===== src/Message/Envelope.antt =====
-- message.rs: `DeliveryMode`, `MessageId` and the signed `Envelope`.
pub mod RoundTrip
use rtn_mq.Prelude.{
  ℕ, zero, suc, ◌<◌, ◌≡◌, arith, Bool, true, false, not, ◌&&◌, ◌||◌, List, [], ◌∷◌, length, ltb,
  leb, ◌==◌, if◌then◌else◌,
}
use rtn_mq.Prelude.Bytes.{Bytes, bytes_eq}
use rtn_mq.Error.{
  Error, Result, ok, err, protocol, unauthorized, message_too_large, fail_if, and_then,
}
use rtn_mq.Buffer.{usize_mod}
use rtn_mq.Crypto.{Iroh}
use rtn_mq.Cbor.{
  Minicbor, Reader, finish, put_array, put_u, put_bytes, put_text, array, u, fixed, text, end,
  canonical, lift, pure, run_reader, ◌>>=◌, ◌>>◌,
}
use rtn_mq.Auth.Cose.{version, endpoint, sign_cose, verify_cose}
use rtn_mq.Message.Topic.{Topic, new_topic}

pub data DeliveryMode : Type 0 where
  best_effort acknowledged : DeliveryMode

pub data Nack : Type 0 where
  retryable permanent : Nack

abbrev pub number : DeliveryMode → ℕ
number best_effort = 0
number acknowledged = 1

unfoldable pub decode_mode : ℕ → Result DeliveryMode
decode_mode zero = ok best_effort
decode_mode (suc zero) = ok acknowledged
decode_mode (suc (suc n)) = err (protocol "delivery mode")

pub record MessageId : Type 0 where
  pub realm_id : Bytes
  pub publisher_endpoint_id : Bytes
  pub publisher_epoch : Bytes
  pub topic : Topic
  pub sequence : ℕ

pub record Envelope : Type 0 where
  pub id : MessageId
  pub open id use *
  pub created : ℕ
  pub expires : ℕ
  pub format : Bytes
  pub len : ℕ
  pub digest : Bytes
  pub mode : DeliveryMode

-- b"iroh-mq/message/v1"
abbrev pub message_context : Bytes
message_context =
    b'i' ∷ b'r' ∷ b'o' ∷ b'h' ∷ b'-' ∷ b'm' ∷ b'q' ∷ b'/' ∷ b'm' ∷ b'e' ∷ b's' ∷ b's' ∷ b'a' ∷ b'g'
    ∷ b'e' ∷ b'/' ∷ b'v' ∷ b'1' ∷ []

-- `usize::try_from` of a `u64`
unfoldable pub usize_try_from : ℕ → Result ℕ
usize_try_from n = if ltb n usize_mod then ok n else err message_too_large

pub usize_try_from_lem : (n : ℕ) → n < usize_mod → usize_try_from n ≡ ok n
unfolding usize_try_from
usize_try_from_lem n h = ground arith

module _ ⦃m : Minicbor⦄ where
  unfoldable pub encode : Envelope → Bytes
  unfolding finish
  encode e = finish (
      put_array 12
      ∷ put_u 1
      ∷ put_bytes e.realm_id
      ∷ put_bytes e.publisher_endpoint_id
      ∷ put_bytes e.publisher_epoch
      ∷ put_text e.topic.name
      ∷ put_u e.sequence
      ∷ put_u e.created
      ∷ put_u e.expires
      ∷ put_text e.format
      ∷ put_u e.len
      ∷ put_bytes e.digest
      ∷ put_u (number e.mode)
      ∷ [])

module _ ⦃m : Minicbor⦄ ⦃c : Iroh⦄ where
  unfoldable pub sign : Envelope → Bytes → Bytes
  sign e key = sign_cose (encode e) key message_context

  unfoldable pub read_envelope : Bytes → Bytes → Reader Envelope
  read_envelope b peer = do
    array 12
    v ← u
    lift (version v)
    realm_id ← fixed 16
    key ← fixed 32
    publisher ← lift (endpoint key)
    publisher_epoch ← fixed 16
    name ← text 256
    topic ← lift (new_topic name)
    sequence ← u
    created ← u
    expires ← u
    format ← text 256
    n ← u
    len ← lift (usize_try_from n)
    digest ← fixed 32
    code ← u
    mode ← lift (decode_mode code)
    end
    let e : Envelope = record {
      id = record {
        realm_id = realm_id;
        publisher_endpoint_id = publisher;
        publisher_epoch = publisher_epoch;
        topic = topic;
        sequence = sequence;
      };
      created = created;
      expires = expires;
      format = format;
      len = len;
      digest = digest;
      mode = mode;
    }
    lift (fail_if (not (bytes_eq publisher peer) || leb expires created) unauthorized)
    lift (canonical b (encode e))
    pure e

  unfoldable pub verify : Bytes → Bytes → Result Envelope
  verify input peer =
      and_then (verify_cose input peer message_context 4096)
        (λ b. run_reader (read_envelope b peer) b)

  unfoldable pub payload_matches : Envelope → Bytes → Bool
  payload_matches e payload = e.len == length payload && bytes_eq e.digest (c.sha256 payload)
