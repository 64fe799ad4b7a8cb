-- ===== src/Tests/Message.antt =====
-- Topics and envelopes.
use rtn_mq.Prelude.{◌≡◌, ◌↔◌, ◌≤◌, ◌<◌, refl, all, [], ◌∷◌, replicate, take, drop, arith, true}
use rtn_mq.Prelude.Bytes.{Bytes, bytes_eq}
use rtn_mq.Error.{ok, err, invalid_topic, is_ok}
use rtn_mq.Cbor.{array, u, bytes, fixed, text, end, canonical, empty_map}
use rtn_mq.Auth.Cose.{version, endpoint, cose, read_cose, parse_cose}
use rtn_mq.Auth.Cose.Acceptance.{Signed}
use rtn_mq.Message.Topic.{Topic, new_topic, is_topic_byte}
use rtn_mq.Message.Topic.Names.{has_segments, new_topic_iff}
use rtn_mq.Message.Envelope.{
  DeliveryMode, Envelope, decode_mode, usize_try_from, message_context, encode, sign, read_envelope,
  verify,
}
use rtn_mq.Message.Envelope.RoundTrip.{IsWellFormed, verify-sign, verify_sound}
use rtn_mq.Tests.Cbor.{
  get_head, get_u, get_string, get_text, is_ascii, put_head, put_string, minicbor, minicbor_laws,
}
use rtn_mq.Tests.Crypto.{pad, iroh, iroh_laws}
use rtn_mq.Tests.Fixtures.{message_hex}

abbrev pub jobs : Topic
jobs = record { name = b'j' ∷ b'o' ∷ b'b' ∷ b's' ∷ [] }

new_topic_iff_example : (new_topic (b'j' ∷ b'o' ∷ b'b' ∷ b's' ∷ []) ≡ ok jobs) ↔ (
    (jobs.name ≡ b'j' ∷ b'o' ∷ b'b' ∷ b's' ∷ [])
    × (0 < 4)
    × (4 ≤ 256)
    × (has_segments true jobs.name ≡ true)
    × (all is_topic_byte jobs.name ≡ true))
new_topic_iff_example = new_topic_iff (b'j' ∷ b'o' ∷ b'b' ∷ b's' ∷ []) jobs

empty_segment : new_topic (b'a' ∷ b'/' ∷ b'/' ∷ b'b' ∷ []) ≡ err invalid_topic
unfolding new_topic
empty_segment = refl

abbrev pub secret : Bytes
secret = replicate 32 2

abbrev pub envelope : Envelope
envelope = record {
  id = record {
    realm_id = replicate 16 3;
    publisher_endpoint_id = replicate 32 2;
    publisher_epoch = replicate 16 5;
    topic = jobs;
    sequence = 1;
  };
  created = 110;
  expires = 150;
  format = b'o' ∷ b'p' ∷ b'a' ∷ b'q' ∷ b'u' ∷ b'e' ∷ [];
  len = 3;
  digest = replicate 32 9;
  mode = DeliveryMode.best_effort;
}

envelope-IsWellFormed : IsWellFormed envelope
unfolding new_topic minicbor iroh is_ascii
envelope-IsWellFormed = record {
  realm = refl;
  publisher = refl;
  publisher_key = refl;
  epoch = refl;
  topic_name = refl;
  sequence_range = omega arith;
  expires_range = omega arith;
  lifetime = omega arith;
  format_size = omega arith;
  format_text = refl;
  len_range = omega arith;
  digest_size = refl;
}

verify-sign_example : verify (sign envelope secret) (iroh.public secret) ≡ ok envelope
unfolding iroh pad
verify-sign_example = verify-sign minicbor_laws iroh_laws envelope secret envelope-IsWellFormed refl

pub signed_verifies : verify (sign envelope secret) secret ≡ ok envelope
unfolding iroh pad verify sign
signed_verifies = verify-sign minicbor_laws iroh_laws envelope secret envelope-IsWellFormed refl

verify_sound_example :
    Signed minicbor_laws (sign envelope secret) secret message_context 4096 (encode envelope)
    × (envelope.publisher_endpoint_id ≡ secret)
    × (envelope.created < envelope.expires)
verify_sound_example =
    verify_sound minicbor_laws (sign envelope secret) secret envelope signed_verifies

-- The payload of the fixture decodes for the publisher that it names.
abbrev message_payload : Bytes
message_payload = take 123 (drop 8 message_hex)

message_parses : parse_cose message_hex 4096 ≡ ok (message_payload, drop 133 message_hex)
unfolding parse_cose minicbor read_cose array get_head bytes get_string bytes_eq empty_map fixed end
    canonical cose put_head put_string
message_parses = refl

-- The publisher stands behind the realm.
envelope_reads :
    is_ok (read_envelope message_payload (take 32 (drop 21 message_payload)) message_payload) ≡ true
unfolding read_envelope minicbor iroh array get_head u get_u version fixed bytes get_string endpoint
    text get_text is_ascii new_topic usize_try_from decode_mode end bytes_eq canonical encode
    put_head put_string
envelope_reads = refl
