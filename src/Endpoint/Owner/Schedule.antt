-- ===== src/Endpoint/Owner/Schedule.antt =====
-- endpoint/owner.rs: `schedule`, which writes the deliveries that are due.
use rtn_mq.Prelude.{
  ℕ, ◌+◌, ◌-◌, ◌*◌, ◌^◌, Bool, true, false, not, ◌||◌, none, some, [], ◌∷◌, ◌++◌, length, ltb, leb,
  if◌then◌else◌,
}
use Prim.Native.Nat.{min}
use rtn_mq.Prelude.Bytes.{bytes_key, bytes_eq}
use rtn_mq.Prelude.Map.{Map, get, insert, modify}
use rtn_mq.Error.{Result, ok, err}
use rtn_mq.Cbor.{Minicbor}
use rtn_mq.Message.Topic.Ordering.{topic_key}
use rtn_mq.Wire.Data.{data_frame}
use rtn_mq.Wire.Control.{request_credit}
use rtn_mq.Endpoint.Outcome.{Stats, increment}
use rtn_mq.Endpoint.Owner.{
  Owner, Settings, Outside, Peer, Binding, Pending, DeliveryKey, DataOut, delivery_key, nanoseconds,
}
use rtn_mq.Endpoint.Owner.Remote.{same_mode}

-- `auth::now().is_ok_and(|t| t >= expires)`
abbrev pub is_past : Result ℕ → ℕ → Bool
is_past (err e) expires = false
is_past (ok t) expires = leb expires t

unfoldable pub is_due : Outside → DeliveryKey → Pending → Bool
is_due out key p = not (
    p.writing
    || ltb out.instant p.next
    || leb p.deadline out.instant
    || is_past (out.wall_at key) p.envelope.expires)

-- `u32::saturating_add(1)`
abbrev pub next_attempt : ℕ → ℕ
next_attempt n = min (n + 1) (2 ^ 32 - 1)

-- `1 << attempts.saturating_sub(1).min(5)`, where `attempts` has been raised.
abbrev pub backoff : ℕ → ℕ
backoff attempts = 2 ^ min (attempts - 1) 5

module _ ⦃m : Minicbor⦄ (settings : Settings) (out : Outside) where
  -- The bytes that a delivery takes on the wire.
  unfoldable pub wire_size : Peer → DeliveryKey → Pending → ℕ
  wire_size peer key p =
      length (data_frame peer.reg.session key.sub p.signed) + 12 + length p.payload

  -- A binding without a credit asks for one, once; a channel that does not take it cancels the session.
  unfoldable pub ask_credit : Peer → Binding → DeliveryKey → Pending → Peer
  unfolding wire_size
  ask_credit peer b key p =
      let ask = request_credit key.id.topic key.sub (wire_size peer key p) in
      if b.requested
      then peer
      else if out.accepts peer.reg.remote_id peer.control ask
      then record peer {
        control = peer.control ++ ask ∷ [];
        outbound = insert key.id.topic (record b { requested = true }) peer.outbound;
      }
      else record peer { reg = record peer.reg { cancelled = true } }

  unfoldable pub written : DeliveryKey → Pending → Pending
  written key p =
      let attempts = next_attempt p.attempts in
      record p {
        writing = true;
        attempts = attempts;
        next =
            out.instant
            + nanoseconds settings.retry_interval * backoff attempts
            + out.jitter key * 1000000;
      }

  unfoldable pub count_retry : Pending → Stats → Stats
  count_retry p s = if ltb 0 p.attempts then record s { retried = increment s.retried } else s

  unfoldable pub data_out : DeliveryKey → Pending → DataOut
  data_out key p = record { key = key; signed = p.signed; payload = p.payload }

  -- The writer of the binding takes the delivery, which uses the credit up.
  unfoldable pub used_binding : Binding → DeliveryKey → Pending → Binding
  unfolding data_out
  used_binding b key p = record b { credit = none; writer = b.writer ++ data_out key p ∷ [] }

  -- The writer of the binding takes the delivery, which uses the credit up.
  unfoldable pub write : Peer → Binding → DeliveryKey → Pending → Owner → Owner
  unfolding used_binding written count_retry
  write peer b key p o =
      let peer' = record peer {
        outbound = insert key.id.topic (used_binding b key p) peer.outbound;
      } in
      if out.writer_takes key
      then record o {
        peers = modify key.peer (λ (q : Peer). peer') o.peers;
        pending = modify key (written key) o.pending;
        stats = count_retry p o.stats;
      }
      else o

  unfoldable pub offer : Peer → Binding → DeliveryKey → Pending → Owner → Owner
  unfolding ask_credit write wire_size
  offer peer b key p o = elim b.credit [
    | none ↦ record o { peers = modify key.peer (λ (q : Peer). ask_credit peer b key p) o.peers }
    | some n ↦ if ltb n (wire_size peer key p) then o else write peer b key p o
  ]

  -- A turn of the loop, on a delivery that is pending.
  unfoldable pub schedule_one : DeliveryKey → Pending → Owner → Owner
  unfolding is_due offer
  schedule_one key p o = if not (is_due out key p) then o else elim (get key.peer o.peers) [
    | none ↦ o
    | some peer ↦ elim (get key.id.topic peer.outbound) [
      | none ↦ o
      | some b ↦
          if not (bytes_eq b.sub key.sub) || not (same_mode b.mode p.envelope.mode)
          then o
          else offer peer b key p o
    ]
  ]

  -- The loop goes over the deliveries as they stand; a turn changes no other delivery than its own.
  unfoldable pub schedule_loop : Map DeliveryKey Pending → Owner → Owner
  schedule_loop [] o = o
  schedule_loop ((key, p) ∷ m) o = schedule_loop m (schedule_one key p o)

  unfoldable pub schedule : Owner → Owner
  unfolding schedule_loop schedule_one
  schedule o = schedule_loop o.pending o
