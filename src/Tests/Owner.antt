-- ===== src/Tests/Owner.antt =====
-- An owner with one peer and one subscription.
pub mod Frames
pub mod Publishing
pub mod Turns
use rtn_mq.Prelude.{
  ℕ, ◌+◌, ◌*◌, Bool, true, false, Option, none, some, List, [], ◌∷◌, replicate, length,
}
use rtn_mq.Prelude.Bytes.{Bytes}
use rtn_mq.Error.{ok, err}
use rtn_mq.Buffer.{Budget}
use rtn_mq.Auth.Claims.{Certificate, Permission}
use rtn_mq.Auth.Trust.{Trust}
use rtn_mq.Message.Envelope.{DeliveryMode, Envelope, MessageId}
use rtn_mq.Join.Admission.{Admission, client}
use rtn_mq.Join.Options.{from_secs}
use rtn_mq.Endpoint.Owner.{
  Owner, Settings, Outside, Peer, Registration, Binding, LocalSub, Grant, Start, Dedup,
}
use rtn_mq.Tests.Message.{jobs, secret, envelope}

abbrev pub settings : Settings
settings = record {
  relay_mode = tt;
  relay_only = false;
  bind_addr = none;
  max_payload = 1000;
  payload_bytes = 100000;
  metadata_bytes = 1000000;
  max_peers = 2;
  max_topics = 2;
  ingress_slots = 4;
  per_peer_messages = 4;
  per_peer_bytes = 100000;
  subscription_messages = 4;
  subscription_bytes = 100000;
  delivery_window = from_secs 300;
  retry_interval = from_secs 30;
  handshake_timeout = from_secs 10;
}

abbrev pub realm : Bytes
realm = replicate 16 3

abbrev pub root : Bytes
root = replicate 32 8

-- The endpoint of this owner; the peer is the publisher of the test message.
abbrev pub me : Bytes
me = replicate 32 6

abbrev pub session : Bytes
session = replicate 16 7

abbrev pub sub : Bytes
sub = replicate 16 1

abbrev pub certificate : Bytes → Bytes → Certificate
certificate id subject = record {
  claims = record {
    realm = realm;
    issuer = root;
    id = id;
    subject = subject;
    not_before = 0;
    expires = 1000;
    permissions = record { topic = jobs; publish = true; subscribe = true } ∷ [];
    limits = record { max_payload = 0; max_subscriptions = 0 };
  };
  bytes = [];
  memory = none;
}

abbrev pub trust : Trust
trust = record {
  realm = realm;
  root = root;
  revoked = [];
  revocation_version = 0;
  freshness = none;
  clock_skew_secs = 0;
}

abbrev pub peer : Option ℕ → Bool → Peer
peer credit requested = record {
  reg = record {
    remote_id = secret;
    cert = certificate (replicate 16 12) secret;
    session = session;
    dialer = secret;
    nonce = replicate 16 9;
    max_payload = 1000;
    max_topics = 2;
    window_secs = 300;
    cancelled = false;
  };
  control = [];
  outbound =
      (
        jobs,
        record {
          sub = sub;
          mode = DeliveryMode.acknowledged;
          credit = credit;
          requested = requested;
          writer = [];
        },
      )
      ∷ [];
  inbound = [];
  memory = 4096;
}

abbrev pub grant : Grant
grant = record { bytes = 17396; permits = 1 ∷ 17396 ∷ 256 ∷ 1256 ∷ []; metadata = 6144 }

abbrev pub subscription : LocalSub
subscription = record {
  id = sub;
  mode = DeliveryMode.best_effort;
  ready = [];
  slots = record { limit = 4; used = 1; peak = 1 };
  bytes = record { limit = 100000; used = 17396; peak = 17396 };
  confirmed = (secret, tt) ∷ [];
  grants = (secret, grant) ∷ [];
  demand = [];
}

abbrev pub budget : ℕ → Budget
budget n = record { limit = 1000000; used = n; peak = n }

abbrev pub start : Start
start = record {
  endpoint_id = me;
  key = me;
  cert = certificate (replicate 16 13) me;
  trust = trust;
  metadata = budget 0;
  pool = budget 0;
  revocation_memory = 0;
  epoch = replicate 16 5;
  wall = ok 100;
  instant = 0;
  admission = client secret;
}

abbrev pub outside : ℕ → Outside
outside now = record {
  wall = λ n. ok now;
  wall_at = λ key. ok now;
  instant = now * 1000000000;
  random_id = sub;
  jitter = λ key. 0;
  accepts = λ id sent c. true;
  writer_takes = λ key. true;
  delivery_takes = λ topic. true;
  delivery_closed = λ topic. false;
  session_closed = λ id. false;
  disposition = λ key. 0;
}
