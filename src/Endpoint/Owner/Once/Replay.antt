-- ===== src/Endpoint/Owner/Once/Replay.antt =====
-- endpoint/owner.rs: a message that was handed to the application is not handed over again.
use rtn_mq.Prelude.{
  ℕ, ◌≡◌, ◌<◌, refl, ap, ◌∙◌, inl, inr, true, false, ◌||◌, not, Option, some, none, arith,
  Bool-cases, leb,
}
use rtn_mq.Prelude.Bytes.{Bytes, bytes_key, bytes_eq}
use rtn_mq.Prelude.Map.{get, get-insert, get-insert_self}
use rtn_mq.Error.{Result-cases}
use rtn_mq.Cbor.{Minicbor}
use rtn_mq.Crypto.{Iroh}
use rtn_mq.Message.Topic.Ordering.{topic_key}
use rtn_mq.Endpoint.Owner.{
  Owner, Settings, Outside, Dedup, DedupKey, dedup_key, DedupState, processing, retryable,
  processed, permanent, id_key,
}
use rtn_mq.Endpoint.Owner.Receive.{ReceiveTicket}
use rtn_mq.Endpoint.Owner.Deliver.{
  send_outcome, deliver, record_of, repeat, take_message, is_sub, incoming, check_payload, is_fresh,
}
use rtn_mq.Endpoint.Owner.Commands.{state_of}
use rtn_mq.Endpoint.Owner.Once.{Held, handed, SameLog, SameLog-refl}
use rtn_mq.Endpoint.Owner.Once.Sweep.{Keeps, Keeps-SameLog}

abbrev pub key_of : Bytes → ReceiveTicket → DedupKey
key_of sub ticket = record { sub = sub; id = ticket.envelope.id }

module _ (out : Outside) where
  pub send_outcome-SameLog :
      (peer sub : Bytes) (ticket : ReceiveTicket) (code : ℕ) (o : Owner)
      → SameLog o (send_outcome out peer sub ticket.envelope.id code o)
  unfolding send_outcome
  send_outcome-SameLog peer sub ticket code o = ground arith

  -- The delivery of another message.
  deliver-Keeps :
      (key : DedupKey) (expires : ℕ) (peer sub : Bytes) (ticket : ReceiveTicket) (payload : Bytes)
      (o : Owner)
      → dedup_key.same (key_of sub ticket) key ≡ false
      → Keeps key expires o (deliver out peer sub ticket payload o)
  unfolding deliver send_outcome
  deliver-Keeps key expires peer sub ticket payload o other =
      let taken = out.delivery_takes ticket.envelope.topic in
      let put = get-insert (key_of sub ticket) key (record_of ticket taken) o.dedup in
      record {
        held = λ h. record {
          entry = h.entry;
          there = ground (arith, h.there, put, other);
          until = h.until;
          settled = h.settled;
        };
        same_handed = λ h. ground (arith, other);
      }

  -- A message with a record that is not to be retried is not delivered.
  repeat-SameLog :
      (peer sub : Bytes) (ticket : ReceiveTicket) (payload : Bytes) (s : DedupState) (o : Owner)
      → is_fresh s ≡ false
      → SameLog o (repeat out peer sub ticket payload s o)
  unfolding repeat
  repeat-SameLog peer sub ticket payload processed o h = send_outcome-SameLog peer sub ticket 0 o
  repeat-SameLog peer sub ticket payload permanent o h = send_outcome-SameLog peer sub ticket 2 o
  repeat-SameLog peer sub ticket payload processing o h = SameLog-refl o
  repeat-SameLog peer sub ticket payload retryable o h = absurd (cc)

  -- A delivery that the application takes leaves a record that holds.
  pub deliver-Held :
      (peer sub : Bytes) (ticket : ReceiveTicket) (payload : Bytes) (o : Owner)
      → handed (key_of sub ticket) o
        < handed (key_of sub ticket) (deliver out peer sub ticket payload o)
      → Held (key_of sub ticket) ticket.envelope.expires (deliver out peer sub ticket payload o)
  unfolding deliver send_outcome record_of
  deliver-Held peer sub ticket payload o h =
      elim (Bool-cases (out.delivery_takes ticket.envelope.topic)) [
        | inr full ↦ absurd (ground (arith, full, h))
        | inl taken ↦
            let put = get-insert_self (key_of sub ticket) (record_of ticket true) o.dedup in
            record {
              entry = record_of ticket true;
              there = ground (arith, taken, put);
              until = refl;
              settled = refl;
            }
      ]

  repeat-Keeps :
      (key : DedupKey) (expires : ℕ) (peer sub : Bytes) (ticket : ReceiveTicket) (payload : Bytes)
      (s : DedupState) (o : Owner)
      → dedup_key.same (key_of sub ticket) key ≡ false
      → Keeps key expires o (repeat out peer sub ticket payload s o)
  unfolding repeat
  repeat-Keeps key expires peer sub ticket payload processed o h =
      Keeps-SameLog key expires (send_outcome-SameLog peer sub ticket 0 o)
  repeat-Keeps key expires peer sub ticket payload permanent o h =
      Keeps-SameLog key expires (send_outcome-SameLog peer sub ticket 2 o)
  repeat-Keeps key expires peer sub ticket payload processing o h =
      Keeps-SameLog key expires (SameLog-refl o)
  repeat-Keeps key expires peer sub ticket payload retryable o h =
      deliver-Keeps key expires peer sub ticket payload o h

  take_message-Keeps :
      (key : DedupKey) (expires : ℕ) (peer sub : Bytes) (ticket : ReceiveTicket) (payload : Bytes)
      (entry : Option Dedup) (o : Owner)
      → dedup_key.same (key_of sub ticket) key ≡ false
      → Keeps key expires o (state_of (take_message out peer sub ticket payload entry o))
  unfolding take_message
  take_message-Keeps key expires peer sub ticket payload none o other =
      deliver-Keeps key expires peer sub ticket payload o other
  take_message-Keeps key expires peer sub ticket payload (some d) o other =
      elim (Bool-cases (bytes_eq d.fingerprint ticket.fingerprint)) [
        | inr differs ↦ rw (take_message, differs) (Keeps-SameLog key expires (SameLog-refl o))
        | inl agrees ↦
            rw (take_message, agrees)
              (repeat-Keeps key expires peer sub ticket payload d.state o other)
      ]

  take_message-SameLog :
      (peer sub : Bytes) (ticket : ReceiveTicket) (payload : Bytes) (d : Dedup) (o : Owner)
      → is_fresh d.state ≡ false
      → SameLog o (state_of (take_message out peer sub ticket payload (some d) o))
  unfolding take_message
  take_message-SameLog peer sub ticket payload d o settled =
      let seen = repeat-SameLog peer sub ticket payload d.state o settled in ground (arith, seen)

  -- The record of the same message holds it back, and those of other messages are not in the way.
  take_message-Keeps_any :
      (key : DedupKey) (expires : ℕ) (peer sub : Bytes) (ticket : ReceiveTicket) (payload : Bytes)
      (o : Owner)
      → Keeps key expires o
          (state_of (take_message out peer sub ticket payload (get (key_of sub ticket) o.dedup) o))
  take_message-Keeps_any key expires peer sub ticket payload o =
      elim (Bool-cases (dedup_key.same (key_of sub ticket) key)) [
        | inr other ↦ take_message-Keeps key expires peer sub ticket payload _ o other
        | inl mine ↦
            let eq = (dedup_key.same_iff (key_of sub ticket) key).0 mine in
            let quiet = λ (h : Held key expires o).
              let there = ap (λ k. get k o.dedup) eq ∙ h.there in
              let same = take_message-SameLog peer sub ticket payload h.entry o h.settled in
              let log : SameLog o (
                  state_of (
                    take_message out peer sub ticket payload (get (key_of sub ticket) o.dedup) o)) =
                rw there same in
              Keeps-SameLog key expires log in
            record { held = λ h. (quiet h).held h; same_handed = λ h. (quiet h).same_handed h }
      ]

module _ ⦃m : Minicbor⦄ ⦃c : Iroh⦄ (settings : Settings) (out : Outside) where
  pub incoming-Keeps :
      (key : DedupKey) (expires : ℕ) (peer session sub : Bytes) (ticket : ReceiveTicket)
      (payload : Bytes) (o : Owner)
      → Keeps key expires o (state_of (incoming out peer session sub ticket payload o))
  unfolding incoming
  incoming-Keeps key expires peer session sub ticket payload o =
      elim (Result-cases (check_payload out peer session ticket payload o)) [
        | inr (e, refused) ↦ rw (incoming, refused) (Keeps-SameLog key expires (SameLog-refl o))
        | inl (now, checked) ↦
            elim (Bool-cases (
              leb ticket.envelope.expires now
              || not (is_sub sub (get ticket.envelope.topic o.subscriptions)))) [
                | inl late ↦
                    rw (incoming, checked, late)
                      (Keeps-SameLog key expires (send_outcome-SameLog out peer sub ticket 2 o))
                | inr open_still ↦
                    rw (incoming, checked, open_still)
                      (take_message-Keeps_any out key expires peer sub ticket payload o)
              ]
      ]
