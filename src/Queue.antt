-- ===== src/Queue.antt =====
-- queue.rs: one producer, one consumer. The ring is rtrb's and the notifier tokio's: both are
-- parameters. Each atomic action is an event, so that the two sides interleave freely.
pub mod Delivery
pub mod Wakeup
use rtn_mq.Prelude.{
  ℕ, ◌+◌, ◌≤◌, ◌<◌, ◌≡◌, Bool, true, false, Option, none, some, List, [], ◌∷◌, ◌++◌, length,
  if◌then◌else◌,
}

-- `rtrb::RingBuffer::new`, `push` (`none` is `PushError::Full`) and `pop`.
pub record Rtrb (A Ring : Type 0) : Type 0 where
  pub make : ℕ → Ring
  pub push : A → Ring → Option Ring
  pub pop : Ring → Option (A × Ring)

-- What rtrb documents: a bounded first-in first-out buffer.
pub record RtrbLaws {A Ring : Type 0} (r : Rtrb A Ring) : Type 0 where
  pub contents : Ring → List A
  pub capacity : Ring → ℕ
  pub make_empty : (n : ℕ) → (contents (r.make n) ≡ []) × (capacity (r.make n) ≡ n)
  pub push_full : (a : A) (b : Ring) → capacity b ≤ length (contents b) → r.push a b ≡ none
  pub push_room :
      (a : A) (b : Ring)
      → length (contents b) < capacity b
      → (b' : Ring) × (r.push a b ≡ some b')
        × (contents b' ≡ contents b ++ a ∷ [])
        × (capacity b' ≡ capacity b)
  pub pop_none : (b : Ring) → contents b ≡ [] → r.pop b ≡ none
  pub pop_some :
      (b : Ring) (a : A) (rest : List A)
      → contents b ≡ a ∷ rest
      → (b' : Ring) × (r.pop b ≡ some (a, b')) × (contents b' ≡ rest) × (capacity b' ≡ capacity b)

-- `tokio::sync::Notify`: `enable` registers a fresh `notified` future, `ready` says whether the
-- registered future completes.
pub record Notify (N : Type 0) : Type 0 where
  pub fresh : N
  pub enable : N → N
  pub notify_one : N → N
  pub ready : N → Bool

-- What tokio documents of a single waiter: once enabled, a notification is not missed.
pub record NotifyLaws {N : Type 0} (n : Notify N) : Type 0 where
  pub armed : N → Bool
  pub enable_armed : (s : N) → armed (n.enable s) ≡ true
  pub notify_armed : (s : N) → armed s ≡ true → armed (n.notify_one s) ≡ true
  pub notify_ready : (s : N) → armed s ≡ true → n.ready (n.notify_one s) ≡ true

-- Where the sender stands: outside a call, past the `is_closed` test of `try_send`, between the push
-- and the notification, between the store and the notification of its drop, dropped.
pub data SenderAt (A : Type 0) : Type 0 where
  idle pushed closing gone : SenderAt A
  checked : A → SenderAt A

-- Where the receiver stands: outside `recv`, after `enable`, after a failed pop, after it saw the
-- sender closed, parked, dropped.
pub data ReceiverAt : Type 0 where
  idle enabled empty draining waiting gone : ReceiverAt

-- `sent` are the values whose `try_send` pushed, `received` those that `recv` returned, `finished`
-- says that `recv` has returned `None`: a history beside the shared state.
-- The memory permit of `Shared` is left out: nothing here reads it.
pub record Channel (A Ring N : Type 0) : Type 0 where
  pub ring : Ring
  pub ready : N
  pub sender_closed : Bool
  pub receiver_closed : Bool
  pub sender : SenderAt A
  pub receiver : ReceiverAt
  pub sent : List A
  pub refused : List A
  pub received : List A
  pub finished : Bool

pub data Event (A : Type 0) : Type 0 where
  sends : A → Event A
  sender_moves sender_drops receives receiver_moves recv_cancelled receiver_drops : Event A

module _ {A Ring N : Type 0} (r : Rtrb A Ring) (n : Notify N) where
  unfoldable pub channel : ℕ → Channel A Ring N
  channel capacity = record {
    ring = r.make capacity;
    ready = n.fresh;
    sender_closed = false;
    receiver_closed = false;
    sender = SenderAt.idle;
    receiver = ReceiverAt.idle;
    sent = [];
    refused = [];
    received = [];
    finished = false;
  }

  -- `try_send` up to the test of `is_closed`.
  unfoldable pub try_send : A → SenderAt A → Channel A Ring N → Channel A Ring N
  try_send a SenderAt.idle s =
      if s.receiver_closed
      then record s { refused = a ∷ s.refused }
      else record s { sender = SenderAt.checked a }
  try_send a _ s = s

  -- The rest of `try_send`, and of `Drop for Sender`, one action at a time.
  unfoldable pub sender_move : SenderAt A → Channel A Ring N → Channel A Ring N
  sender_move SenderAt.idle s = s
  sender_move (SenderAt.checked a) s = elim (r.push a s.ring) [
    | none ↦ record s { sender = SenderAt.idle; refused = a ∷ s.refused }
    | some ring ↦ record s { ring = ring; sender = SenderAt.pushed; sent = s.sent ++ a ∷ [] }
  ]
  sender_move SenderAt.pushed s = record s { ready = n.notify_one s.ready; sender = SenderAt.idle }
  sender_move SenderAt.closing s = record s { ready = n.notify_one s.ready; sender = SenderAt.gone }
  sender_move SenderAt.gone s = s

  -- The store of `Drop for Sender`.
  unfoldable pub drop_sender : SenderAt A → Channel A Ring N → Channel A Ring N
  drop_sender SenderAt.idle s = record s { sender_closed = true; sender = SenderAt.closing }
  drop_sender _ s = s

  -- A turn of the loop of `recv` begins with `enable`.
  unfoldable pub recv : ReceiverAt → Channel A Ring N → Channel A Ring N
  recv ReceiverAt.idle s = record s { ready = n.enable s.ready; receiver = ReceiverAt.enabled }
  recv _ s = s

  unfoldable pub receiver_move : ReceiverAt → Channel A Ring N → Channel A Ring N
  receiver_move ReceiverAt.enabled s = elim (r.pop s.ring) [
    | none ↦ record s { receiver = ReceiverAt.empty }
    | some (a, ring) ↦ record s {
      ring = ring;
      receiver = ReceiverAt.idle;
      received = s.received ++ a ∷ [];
    }
  ]
  receiver_move ReceiverAt.empty s =
      if s.sender_closed
      then record s { receiver = ReceiverAt.draining }
      else record s { receiver = ReceiverAt.waiting }
  receiver_move ReceiverAt.draining s = elim (r.pop s.ring) [
    | none ↦ record s { receiver = ReceiverAt.idle; finished = true }
    | some (a, ring) ↦ record s {
      ring = ring;
      receiver = ReceiverAt.idle;
      received = s.received ++ a ∷ [];
    }
  ]
  receiver_move ReceiverAt.waiting s =
      if n.ready s.ready
      then record s { ready = n.enable s.ready; receiver = ReceiverAt.enabled }
      else s
  receiver_move _ s = s

  -- The `recv` future is dropped while it is parked.
  unfoldable pub cancel_recv : ReceiverAt → Channel A Ring N → Channel A Ring N
  cancel_recv ReceiverAt.waiting s = record s { receiver = ReceiverAt.idle }
  cancel_recv _ s = s

  -- `Drop for Receiver`
  unfoldable pub drop_receiver : ReceiverAt → Channel A Ring N → Channel A Ring N
  drop_receiver ReceiverAt.idle s = record s { receiver_closed = true; receiver = ReceiverAt.gone }
  drop_receiver _ s = s

  unfoldable pub step : Event A → Channel A Ring N → Channel A Ring N
  step (sends a) s = try_send a s.sender s
  step sender_moves s = sender_move s.sender s
  step sender_drops s = drop_sender s.sender s
  step receives s = recv s.receiver s
  step receiver_moves s = receiver_move s.receiver s
  step recv_cancelled s = cancel_recv s.receiver s
  step receiver_drops s = drop_receiver s.receiver s

  unfoldable pub run : List (Event A) → Channel A Ring N → Channel A Ring N
  unfolding step
  run [] s = s
  run (e ∷ es) s = run es (step e s)
