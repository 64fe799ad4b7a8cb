-- ===== src/Endpoint/Owner/Publish.antt =====
-- endpoint/owner.rs: `publish`, which admits a message for every peer that is bound to its topic.
use rtn_mq.Prelude.{
  ℕ, ◌+◌, true, false, not, ◌&&◌, ◌||◌, Option, none, some, List, [], ◌∷◌, length, ltb, leb, ◌==◌,
  if◌then◌else◌,
}
use rtn_mq.Prelude.Bytes.{Bytes, bytes_key}
use rtn_mq.Prelude.Map.{Map, get, insert, contains_key}
use rtn_mq.Error.{
  Error, Result, ok, err, unauthorized, message_too_large, config, no_subscribers, queue_full,
  clock, shutting_down, ◌>>=◌, ◌>>◌, fail_if, is_ok,
}
use rtn_mq.Buffer.{Budget, reserve, drop_permit}
use rtn_mq.Cbor.{Minicbor, u64_mod}
use rtn_mq.Crypto.{Iroh}
use rtn_mq.Auth.Claims.{allows}
use rtn_mq.Auth.Trust.{check}
use rtn_mq.Message.Topic.{Topic}
use rtn_mq.Message.Topic.Ordering.{topic_key}
use rtn_mq.Message.Envelope.{MessageId, Envelope, sign}
use rtn_mq.Join.Options.{duration_lt}
use rtn_mq.Endpoint.Outcome.{rejected, PublishOptions, increment}
use rtn_mq.Endpoint.Owner.{
  Owner, Settings, Outside, Answer, Peer, Pending, DeliveryKey, delivery_key, nanoseconds,
}
use rtn_mq.Endpoint.Owner.Session.{local_valid, budgets_of}
use rtn_mq.Endpoint.Owner.Remote.{same_mode}
use rtn_mq.Endpoint.Owner.Receive.{over}
use rtn_mq.Endpoint.Owner.Schedule.{schedule}

-- A peer that the message goes to, as it is connected, and the subscription of its binding.
pub record Recipient : Type 0 where
  pub peer : Bytes
  pub state : Peer
  pub sub : Bytes

unfoldable pub check_publish :
    Settings → Outside → Topic → Bytes → PublishOptions → Owner → Result ℕ
unfolding duration_lt
check_publish settings out topic payload options o = do
  now ← local_valid (out.wall 0) o
  fail_if o.draining shutting_down
  fail_if (not (allows o.cert topic true)) unauthorized
  fail_if
      (ltb settings.max_payload (length payload) || over o.cert.limits.max_payload (length payload))
      message_too_large
  fail_if
      (options.lifetime.as_secs == 0
        || duration_lt settings.delivery_window options.lifetime
        || ltb 256 (length options.format))
      (config "publication lifetime or format")
  ok now

unfoldable pub is_recipient : ℕ → Topic → PublishOptions → Owner → Bytes → Peer → Option Bytes
is_recipient now topic options o peer p = elim (get topic p.outbound) [
  | none ↦ none
  | some b ↦
      if same_mode b.mode options.mode
        && ltb 0 p.reg.window_secs
        && is_ok (check o.trust p.reg.cert peer now)
      then some b.sub
      else none
]

abbrev pub cons_recipient : Bytes → Peer → Option Bytes → List Recipient → List Recipient
cons_recipient peer p none rest = rest
cons_recipient peer p (some sub) rest = record { peer = peer; state = p; sub = sub } ∷ rest

unfoldable pub recipients : ℕ → Topic → PublishOptions → Owner → Map Bytes Peer → List Recipient
unfolding is_recipient
recipients now topic options o [] = []
recipients now topic options o ((peer, p) ∷ m) =
    cons_recipient peer p (is_recipient now topic options o peer p)
      (recipients now topic options o m)

-- `entry(topic).or_insert(0)`
abbrev pub last_sequence : Topic → Map Topic ℕ → ℕ
last_sequence topic m = elim (get topic m) [ none ↦ 0 | some n ↦ n ]

-- The next sequence number of the topic, or the failure with the entry at 0.
unfoldable pub next_sequence : Settings → Topic → Map Topic ℕ → Result ℕ × Map Topic ℕ
next_sequence settings topic m =
    let n = last_sequence topic m in
    if not (contains_key topic m) && leb settings.max_topics (length m)
    then (err queue_full, m)
    else if ltb (n + 1) u64_mod
    then (ok (n + 1), insert topic (n + 1) m)
    else (err (config "sequence exhausted"), insert topic n m)

-- One record of the receipt for each recipient; all go back if one does not fit.
unfoldable pub reserve_each {ℓ} : {A : Type ℓ} → List A → ℕ → Budget → Result (Unit {0}) × Budget
unfolding reserve drop_permit
reserve_each [] n budget = (ok tt, budget)
reserve_each (x ∷ xs) n budget = elim (reserve n budget) [
  | err e ↦ (err e, budget)
  | ok (budget', permit) ↦
      let (r, budget'') = reserve_each xs n budget' in
      if is_ok r then (r, budget'') else (r, drop_permit permit budget'')
]

-- `(slots.reserve(1)?, bytes.reserve(charge)?)`
unfoldable pub reserve_slot : ℕ → Budget × Budget → Result (Unit {0}) × (Budget × Budget)
unfolding reserve drop_permit
reserve_slot charge (slots, bytes) = elim (reserve 1 slots) [
  | err e ↦ (err e, (slots, bytes))
  | ok (slots', slot) ↦ elim (reserve charge bytes) [
    | err e ↦ (err e, (drop_permit slot slots', bytes))
    | ok (bytes', permit) ↦ (ok tt, (slots', bytes'))
  ]
]

unfoldable pub check_recipient : PublishOptions → ℕ → Peer → Result (Unit {0})
check_recipient options n p = do
  fail_if (ltb p.reg.max_payload n || over p.reg.cert.limits.max_payload n) message_too_large
  fail_if (ltb p.reg.window_secs options.lifetime.as_secs)
      (config "delivery window exceeds peer limit")

-- A message that is published: its envelope, its signed form and its payload.
pub record Message : Type 0 where
  pub envelope : Envelope
  pub signed : Bytes
  pub payload : Bytes

abbrev pub charge_of : Message → ℕ
charge_of msg = length msg.payload + length msg.signed + 256

abbrev pub key_of : Recipient → Message → DeliveryKey
key_of r msg = record { peer = r.peer; sub = r.sub; id = msg.envelope.id }

module _ (settings : Settings) (out : Outside) (options : PublishOptions) where
  unfoldable pub new_pending : Recipient → Message → Pending
  new_pending r msg = record {
    recipient_certificate = r.state.reg.cert;
    signed = msg.signed;
    envelope = msg.envelope;
    payload = msg.payload;
    slot = 1;
    bytes = charge_of msg;
    memory = length msg.signed + 2048;
    deadline = out.instant + nanoseconds options.lifetime;
    next = out.instant;
    attempts = 0;
    writing = false;
  }

  unfoldable pub reject : DeliveryKey → Error → Owner → Owner
  reject key e o = record o {
    outcomes = (key, rejected e) ∷ o.outcomes;
    stats = record o.stats { rejected = increment o.stats.rejected };
  }

  -- A turn of the loop: the message is admitted for the recipient, or its receipt says why not.
  unfoldable pub admit : Message → Recipient → Owner → Owner
  unfolding new_pending reject check_recipient reserve_slot budgets_of
  admit msg r o = elim (check_recipient options (length msg.payload) r.state) [
    | err e ↦ reject (key_of r msg) e o
    | ok fits ↦
        let (reserved, budgets) = reserve_slot (charge_of msg) (budgets_of settings r.peer o) in
        let o' = record o { peer_budgets = insert r.peer budgets o.peer_budgets } in
        elim reserved [
          | err e ↦ reject (key_of r msg) e o'
          | ok done ↦ record o' {
            pending = insert (key_of r msg) (new_pending r msg) o'.pending;
            stats = record o'.stats { admitted = increment o'.stats.admitted };
          }
        ]
  ]

  unfoldable pub admit_all : Message → List Recipient → Owner → Owner
  admit_all msg [] o = o
  admit_all msg (r ∷ rs) o = admit_all msg rs (admit msg r o)

module _ ⦃m : Minicbor⦄ ⦃c : Iroh⦄ (settings : Settings) (out : Outside) where
  -- `ReceiptDraft` is the id and the recipients of the entries.
  unfoldable pub fan_out :
      PublishOptions → Message → List Recipient → Owner → Answer (MessageId × List Recipient)
  unfolding reserve_each admit_all schedule
  fan_out options msg rs o =
      let (reserved, budget) = reserve_each rs (length msg.signed + 2048) o.metadata in
      let o' = record o { metadata = budget } in
      elim reserved [
        | err e ↦ (err e, o')
        | ok done ↦ (
          ok (msg.envelope.id, rs),
          schedule settings out (admit_all settings out options msg rs o'),
        )
      ]

  unfoldable pub envelope_of : ℕ → ℕ → ℕ → Topic → Bytes → PublishOptions → Owner → Envelope
  envelope_of now expires sequence topic payload options o = record {
    id = record {
      realm_id = o.trust.realm;
      publisher_endpoint_id = o.endpoint_id;
      publisher_epoch = o.epoch;
      topic = topic;
      sequence = sequence;
    };
    created = now;
    expires = expires;
    format = options.format;
    len = length payload;
    digest = c.sha256 payload;
    mode = options.mode;
  }

  -- The message under its sequence number, unless it would expire after the end of time.
  unfoldable pub publish_next :
      ℕ
      → ℕ
      → Topic
      → Bytes
      → PublishOptions
      → List Recipient
      → Owner
      → Answer (MessageId × List Recipient)
  unfolding envelope_of fan_out
  publish_next now sequence topic payload options rs o =
      let expires = now + options.lifetime.as_secs in
      let e = envelope_of now expires sequence topic payload options o in
      if ltb expires u64_mod
      then fan_out options (record { envelope = e; signed = sign e o.key; payload = payload }) rs o
      else (err clock, o)

  unfoldable pub publish :
      Topic → Bytes → PublishOptions → Owner → Answer (MessageId × List Recipient)
  unfolding check_publish recipients next_sequence publish_next
  publish topic payload options o = elim (check_publish settings out topic payload options o) [
    | err e ↦ (err e, o)
    | ok now ↦ elim (recipients now topic options o o.peers) [
      | [] ↦ (err no_subscribers, o)
      | r ∷ rs ↦
          let (next, sequences) = next_sequence settings topic o.sequences in
          let o' = record o { sequences = sequences } in
          elim next [
            | err e ↦ (err e, o')
            | ok sequence ↦ publish_next now sequence topic payload options (r ∷ rs) o'
          ]
    ]
  ]
