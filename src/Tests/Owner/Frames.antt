-- ===== src/Tests/Owner/Frames.antt =====
-- A frame with a credit, and one more without.
use rtn_mq.Prelude.{◌+◌, ◌≡◌, ◌≢◌, refl, false, none, some, [], ◌∷◌, length}
use rtn_mq.Prelude.Bytes.{bytes_eq, bytes_lt}
use rtn_mq.Prelude.Map.{get, insert, modify, remove}
use rtn_mq.Error.{ok}
use rtn_mq.Buffer.{shrink_to, sub_used}
use rtn_mq.Cbor.{array, u, bytes, fixed, text, end, canonical, empty_map, finish}
use rtn_mq.Auth.Cose.{
  version, endpoint, cose, read_cose, parse_cose, sign_cose, signing_bytes, verify_cose,
}
use rtn_mq.Auth.Claims.{allows}
use rtn_mq.Auth.Trust.{check, saturating_add, is_stale}
use rtn_mq.Message.Topic.{new_topic, topic_eq, topic_lt}
use rtn_mq.Message.Topic.Ordering.{topic_key}
use rtn_mq.Message.Envelope.{sign, verify, encode, read_envelope, decode_mode, usize_try_from}
use rtn_mq.Wire.Data.{data_frame}
use rtn_mq.Endpoint.Owner.{Owner, new_owner, dedup_key}
use rtn_mq.Endpoint.Owner.Session.{peer_valid, local_valid}
use rtn_mq.Endpoint.Owner.Receive.{
  ReceiveTicket, begin, check_frame, claim_stream, find_grant, use_grant, open_ticket, drop_grant,
}
use rtn_mq.Endpoint.Owner.Acceptance.{Accepted, begin_sound, begin-begin}
use rtn_mq.Tests.Cbor.{
  minicbor, get_head, get_u, get_string, get_text, is_ascii, put_head, put_string,
}
use rtn_mq.Tests.Crypto.{iroh, pad}
use rtn_mq.Tests.Message.{jobs, secret, envelope}
use rtn_mq.Tests.Owner.{settings, outside, session, sub, peer, subscription, grant, start, budget}

abbrev receiving : Owner
unfolding new_owner
receiving = record (new_owner start) {
  metadata = budget 6400;
  peers = (secret, peer none false) ∷ [];
  subscriptions = (jobs, subscription) ∷ [];
}

abbrev ticket : ReceiveTicket
ticket = record {
  envelope = envelope;
  fingerprint = iroh.sha256 (sign envelope secret);
  permits = grant.permits;
  metadata = length (sign envelope secret) + 2048;
}

abbrev received : Owner
received = record receiving {
  metadata = record {
    limit = 1000000;
    used = 256 + 2048 + length (sign envelope secret);
    peak = 6400;
  };
  peers = (secret, record (peer none false) { inbound = (jobs, (sub, 4)) ∷ [] }) ∷ [];
  subscriptions = (jobs, record subscription { grants = [] }) ∷ [];
}

begun :
    begin settings (outside 120) secret session sub 4 (sign envelope secret) 3 receiving
    ≡ some (ok ticket, received)
unfolding begin check_frame claim_stream find_grant use_grant open_ticket drop_grant peer_valid
    local_valid check saturating_add bytes_eq allows topic_eq get insert modify remove iroh pad
    minicbor sign sign_cose cose signing_bytes encode put_head put_string data_frame finish verify
    verify_cose parse_cose read_cose array get_head u get_u version fixed bytes get_string endpoint
    text get_text is_ascii new_topic usize_try_from decode_mode end canonical empty_map
    read_envelope shrink_to sub_used topic_key topic_lt bytes_lt dedup_key is_stale receiving
begun = refl

begin_sound_example :
    Accepted settings
      (outside 120)
      secret
      session
      sub
      4
      (sign envelope secret)
      3
      receiving
      received
      ticket
begin_sound_example =
    begin_sound settings (outside 120) secret session sub 4 (sign envelope secret) 3 receiving
      received ticket begun

-- The same frame again, on another stream.
begin-begin_example :
    begin settings (outside 121) secret session sub 5 (sign envelope secret) 3 received
    ≢ some (ok ticket, received)
begin-begin_example =
    begin-begin settings (outside 120) (outside 121) secret session sub 4 (sign envelope secret) 3
      receiving received received ticket ticket session sub 5 (sign envelope secret) 3 begun refl
