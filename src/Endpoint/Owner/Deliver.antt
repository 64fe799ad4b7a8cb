-- ===== src/Endpoint/Owner/Deliver.antt =====
-- endpoint/owner.rs: `incoming`, which hands a payload to the application, and `send_outcome`.
use rtn_mq.Prelude.{ℕ, Bool, true, false, not, ◌||◌, Option, none, some, ◌∷◌, leb, if◌then◌else◌}
use rtn_mq.Prelude.Bytes.{Bytes, bytes_key, bytes_eq}
use rtn_mq.Prelude.Map.{get, insert, modify}
use rtn_mq.Error.{Result, ok, err, protocol, ◌>>=◌, ◌>>◌, fail_if}
use rtn_mq.Cbor.{Minicbor}
use rtn_mq.Crypto.{Iroh}
use rtn_mq.Message.Topic.Ordering.{topic_key}
use rtn_mq.Message.Envelope.{MessageId, Envelope, payload_matches}
use rtn_mq.Wire.Control.{outcome}
use rtn_mq.Endpoint.Owner.{
  Owner, Outside, Answer, LocalSub, Dedup, DedupKey, DedupState, processing, retryable, processed,
  permanent, dedup_key, Delivery,
}
use rtn_mq.Endpoint.Owner.Session.{peer_valid, send}
use rtn_mq.Endpoint.Owner.Receive.{ReceiveTicket}

unfoldable pub send_outcome : Outside → Bytes → Bytes → MessageId → ℕ → Owner → Owner
unfolding send
send_outcome out peer sub id code o = record o {
  peers = modify peer (send out (outcome id.topic sub id.publisher_epoch id.sequence code)) o.peers;
}

abbrev pub is_sub : Bytes → Option LocalSub → Bool
is_sub sub none = false
is_sub sub (some s) = bytes_eq s.id sub

abbrev pub is_fresh : DedupState → Bool
is_fresh retryable = true
is_fresh processing = false
is_fresh processed = false
is_fresh permanent = false

abbrev pub delivery_of : Envelope → Bytes → Delivery
delivery_of e payload = record { message_id = e.id; format = e.format; payload = payload }

-- The record of a message that the queue of the application has taken, or not.
unfoldable pub record_of : ReceiveTicket → Bool → Dedup
record_of ticket taken = record {
  fingerprint = ticket.fingerprint;
  expires = ticket.envelope.expires;
  state = if taken then processing else retryable;
  memory = ticket.metadata;
}

-- The end of `incoming`: the queue of the application takes the delivery, or the peer is asked to retry.
unfoldable pub deliver : Outside → Bytes → Bytes → ReceiveTicket → Bytes → Owner → Owner
unfolding record_of send_outcome
deliver out peer sub ticket payload o =
    let e = ticket.envelope in
    let key : DedupKey = record { sub = sub; id = e.id } in
    let taken = out.delivery_takes e.topic in
    let sent =
      if taken
      then record o { delivered = (key, delivery_of e payload) ∷ o.delivered }
      else send_outcome out peer sub e.id 1 o in
    record sent { dedup = insert key (record_of ticket taken) sent.dedup }

-- What becomes of a message that has a record.
unfoldable pub repeat : Outside → Bytes → Bytes → ReceiveTicket → Bytes → DedupState → Owner → Owner
unfolding send_outcome deliver
repeat out peer sub ticket payload processed o = send_outcome out peer sub ticket.envelope.id 0 o
repeat out peer sub ticket payload permanent o = send_outcome out peer sub ticket.envelope.id 2 o
repeat out peer sub ticket payload processing o = o
repeat out peer sub ticket payload retryable o = deliver out peer sub ticket payload o

-- `incoming` past its tests, by the record of the message.
unfoldable pub take_message :
    Outside → Bytes → Bytes → ReceiveTicket → Bytes → Option Dedup → Owner → Answer (Unit {0})
unfolding repeat deliver
take_message out peer sub ticket payload none o = (ok tt, deliver out peer sub ticket payload o)
take_message out peer sub ticket payload (some d) o =
    if not (bytes_eq d.fingerprint ticket.fingerprint)
    then (err (protocol "conflicting message identity"), o)
    else (ok tt, repeat out peer sub ticket payload d.state o)

module _ ⦃m : Minicbor⦄ ⦃c : Iroh⦄ (out : Outside) where
  unfoldable pub check_payload : Bytes → Bytes → ReceiveTicket → Bytes → Owner → Result ℕ
  check_payload peer session ticket payload o = do
    p ← peer_valid (out.wall 0) peer session o
    fail_if (not (payload_matches ticket.envelope payload)) (protocol "payload digest")
    out.wall 1

  unfoldable pub incoming :
      Bytes → Bytes → Bytes → ReceiveTicket → Bytes → Owner → Answer (Unit {0})
  unfolding check_payload take_message send_outcome
  incoming peer session sub ticket payload o =
      let e = ticket.envelope in
      elim (check_payload peer session ticket payload o) [
        | err error ↦ (err error, o)
        | ok now ↦
            if leb e.expires now || not (is_sub sub (get e.topic o.subscriptions))
            then (ok tt, send_outcome out peer sub e.id 2 o)
            else take_message out peer sub ticket payload
                (get (record { sub = sub; id = e.id }) o.dedup) o
      ]
