-- ===== src/Endpoint/Owner.antt =====
-- endpoint/owner.rs: the state of the task that owns an endpoint, and what its operations read from
-- outside. An `Instant` is a number of nanoseconds, of any size.
pub mod Session
pub mod Subscribe
pub mod Remote
pub mod Receive
pub mod Deliver
pub mod Credits
pub mod Schedule
pub mod Publish
pub mod Upkeep
pub mod Maintenance
pub mod Certificates
pub mod Release
pub mod Commands
pub mod Invariant
pub mod Acceptance
pub mod Endings
pub mod Once
pub mod Feeding
pub mod Late
pub mod Numbering
use rtn_mq.Prelude.{ℕ, ◌+◌, ◌*◌, ◌≡◌, Bool, false, Option, List, [], ◌∷◌}
use rtn_mq.Prelude.Order.{Key}
use rtn_mq.Prelude.Order.Fields.{number_key, by_pair, by_fields}
use rtn_mq.Prelude.Bytes.{Bytes, bytes_key}
use rtn_mq.Prelude.Map.{Map}
use rtn_mq.Error.{Result, ok, err}
use rtn_mq.Buffer.{Budget}
use rtn_mq.Auth.Claims.{Certificate}
use rtn_mq.Auth.Trust.{Trust, IdSet}
use rtn_mq.Message.Topic.{Topic}
use rtn_mq.Message.Topic.Ordering.{topic_key}
use rtn_mq.Message.Envelope.{DeliveryMode, MessageId, Envelope}
use rtn_mq.Wire.Control.{Control}
use rtn_mq.Join.Admission.{Admission}
use rtn_mq.Join.Options.{Duration}
use rtn_mq.Endpoint.Config.{Config}
use rtn_mq.Endpoint.Outcome.{RecipientOutcome, Stats}

-- The owner does not read how the endpoint reaches its relays.
abbrev pub Settings : Type 0
Settings = Config (Unit {0}) (Unit {0})

abbrev pub nanoseconds : Duration → ℕ
nanoseconds d = d.as_secs * 1000000000 + d.nanos

-- `Key`
pub record DeliveryKey : Type 0 where
  pub peer : Bytes
  pub sub : Bytes
  pub id : MessageId

pub record DedupKey : Type 0 where
  pub sub : Bytes
  pub id : MessageId

abbrev pub id_fields : MessageId → Bytes × (Bytes × (Bytes × (Topic × ℕ)))
id_fields i = (i.realm_id, (i.publisher_endpoint_id, (i.publisher_epoch, (i.topic, i.sequence))))

pub id_fields_injective : (a b : MessageId) → id_fields a ≡ id_fields b → a ≡ b
id_fields_injective a b h = cc

instance unfoldable pub id_key : Key MessageId
id_key =
    by_fields
      (by_pair bytes_key (by_pair bytes_key (by_pair bytes_key (by_pair topic_key number_key))))
      id_fields id_fields_injective

pub dedup_fields_injective :
    (a b : DedupKey) → ◌≡◌ {A = Bytes × MessageId} (a.sub, a.id) (b.sub, b.id) → a ≡ b
dedup_fields_injective a b h = cc

instance unfoldable pub dedup_key : Key DedupKey
unfolding id_key
dedup_key = by_fields (by_pair bytes_key id_key) (λ k. (k.sub, k.id)) dedup_fields_injective

pub delivery_fields_injective :
    (a b : DeliveryKey)
    → ◌≡◌ {A = Bytes × (Bytes × MessageId)} (a.peer, (a.sub, a.id)) (b.peer, (b.sub, b.id))
    → a ≡ b
delivery_fields_injective a b h = cc

instance unfoldable pub delivery_key : Key DeliveryKey
unfolding id_key
delivery_key =
    by_fields (by_pair bytes_key (by_pair bytes_key id_key)) (λ k. (k.peer, (k.sub, k.id)))
      delivery_fields_injective

-- `remote_id` is that of the connection; `cancelled` is the token of the session.
pub record Registration : Type 0 where
  pub remote_id : Bytes
  pub cert : Certificate
  pub session : Bytes
  pub dialer : Bytes
  pub nonce : Bytes
  pub max_payload : ℕ
  pub max_topics : ℕ
  pub window_secs : ℕ
  pub cancelled : Bool

pub record DataOut : Type 0 where
  pub key : DeliveryKey
  pub signed : Bytes
  pub payload : Bytes

-- `writer` is what the queue to the writing task has taken.
pub record Binding : Type 0 where
  pub sub : Bytes
  pub mode : DeliveryMode
  pub credit : Option ℕ
  pub requested : Bool
  pub writer : List DataOut

-- `control` is what the channel of the session has taken. The budgets `slots` and `bytes` of a peer are
-- those that the owner's `peer_budgets` holds for it, shared through `Arc`.
pub record Peer : Type 0 where
  pub reg : Registration
  pub control : List Control
  pub outbound : Map Topic Binding
  pub inbound : Map Topic (Bytes × ℕ)
  pub memory : ℕ

-- A permit is the amount that it holds.
pub record Grant : Type 0 where
  pub bytes : ℕ
  pub permits : List ℕ
  pub metadata : ℕ

pub record Delivery : Type 0 where
  pub message_id : MessageId
  pub format : Bytes
  pub payload : Bytes

pub record LocalSub : Type 0 where
  pub id : Bytes
  pub mode : DeliveryMode
  pub ready : Map Bytes (Result (Unit {0}))
  pub slots : Budget
  pub bytes : Budget
  pub confirmed : IdSet
  pub grants : Map Bytes Grant
  pub demand : Map Bytes ℕ

pub record Pending : Type 0 where
  pub recipient_certificate : Certificate
  pub signed : Bytes
  pub envelope : Envelope
  pub payload : Bytes
  pub slot : ℕ
  pub bytes : ℕ
  pub memory : ℕ
  pub deadline : ℕ
  pub next : ℕ
  pub attempts : ℕ
  pub writing : Bool

pub data DedupState : Type 0 where
  processing retryable processed permanent : DedupState

pub record TerminalReceipt : Type 0 where
  pub expires : ℕ
  pub memory : ℕ

pub record Dedup : Type 0 where
  pub fingerprint : Bytes
  pub expires : ℕ
  pub state : DedupState
  pub memory : ℕ

-- `outcomes` are the values sent to receipts, `completions` those sent to deliveries and `delivered` what
-- the queues to the application have taken, the last first.
pub record Owner : Type 0 where
  pub endpoint_id : Bytes
  pub key : Bytes
  pub cert : Certificate
  pub trust : Trust
  pub metadata : Budget
  pub pool : Budget
  pub revocation_memory : List ℕ
  pub peers : Map Bytes Peer
  pub peer_budgets : Map Bytes (Budget × Budget)
  pub subscriptions : Map Topic LocalSub
  pub pending : Map DeliveryKey Pending
  pub dedup : Map DedupKey Dedup
  pub terminal : Map DeliveryKey TerminalReceipt
  pub sequences : Map Topic ℕ
  pub epoch : Bytes
  pub stats : Stats
  pub draining : Bool
  pub credit_cursor : ℕ
  pub clock_start : ℕ × ℕ
  pub clock_failed : Bool
  pub admission : Admission
  pub outcomes : List (DeliveryKey × RecipientOutcome)
  pub completions : List (DedupKey × Result (Unit {0}))
  pub delivered : List (DedupKey × Delivery)

-- What one operation reads from outside: the wall clock at each of its readings (and for each delivery in
-- the loop of `schedule`), the instant, random bytes, and the answers of what other tasks share with it.
-- A channel or a queue says whether it takes a value, given what it has taken.
pub record Outside : Type 0 where
  pub wall : ℕ → Result ℕ
  pub wall_at : DeliveryKey → Result ℕ
  pub instant : ℕ
  pub random_id : Bytes
  pub jitter : DeliveryKey → ℕ
  pub accepts : Bytes → List Control → Control → Bool
  pub writer_takes : DeliveryKey → Bool
  pub delivery_takes : Topic → Bool
  pub delivery_closed : Topic → Bool
  pub session_closed : Bytes → Bool
  pub disposition : DedupKey → ℕ

-- What an operation returns, and the owner that it leaves, also when it fails.
abbrev pub Answer : Type 0 → Type 0
Answer A = Result A × Owner

-- What `Owner::new` is given, and what it draws and reads: an epoch, the wall clock and the instant.
pub record Start : Type 0 where
  pub endpoint_id : Bytes
  pub key : Bytes
  pub cert : Certificate
  pub trust : Trust
  pub metadata : Budget
  pub pool : Budget
  pub revocation_memory : ℕ
  pub epoch : Bytes
  pub wall : Result ℕ
  pub instant : ℕ
  pub admission : Admission

abbrev pub unwrap_or_zero : Result ℕ → ℕ
unwrap_or_zero (ok n) = n
unwrap_or_zero (err e) = 0

unfoldable pub new_owner : Start → Owner
new_owner s = record {
  endpoint_id = s.endpoint_id;
  key = s.key;
  cert = s.cert;
  trust = s.trust;
  metadata = s.metadata;
  pool = s.pool;
  revocation_memory = s.revocation_memory ∷ [];
  peers = [];
  peer_budgets = [];
  subscriptions = [];
  pending = [];
  dedup = [];
  terminal = [];
  sequences = [];
  epoch = s.epoch;
  stats = record {
    admitted = 0;
    rejected = 0;
    processed = 0;
    retried = 0;
    expired = 0;
    authorization_failures = 0;
  };
  draining = false;
  credit_cursor = 0;
  clock_start = (unwrap_or_zero s.wall, s.instant);
  clock_failed = false;
  admission = s.admission;
  outcomes = [];
  completions = [];
  delivered = [];
}
