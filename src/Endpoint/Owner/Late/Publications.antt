-- ===== src/Endpoint/Owner/Late/Publications.antt =====
-- endpoint/owner.rs: a publication has a number of its own, so it brings back no delivery that has ended.
use rtn_mq.Prelude.{
  ℕ, ◌+◌, ◌≡◌, ◌≢◌, ◌≤◌, ◌<◌, ap, inl, inr, List, [], ◌∷◌, length, arith, List-cases, Bool-cases,
}
use rtn_mq.Prelude.Bytes.{Bytes, bytes_key}
use rtn_mq.Prelude.Map.{Map, get-insert}
use rtn_mq.Error.{Result-cases}
use rtn_mq.Cbor.{Minicbor}
use rtn_mq.Crypto.{Iroh}
use rtn_mq.Message.Topic.{Topic}
use rtn_mq.Message.Topic.Ordering.{topic_key}
use rtn_mq.Message.Envelope.{MessageId, sign}
use rtn_mq.Endpoint.Outcome.{PublishOptions}
use rtn_mq.Endpoint.Owner.{Owner, Settings, Outside, DeliveryKey, delivery_key}
use rtn_mq.Endpoint.Owner.Publish.{
  Recipient, Message, key_of, admit, admit_all, fan_out, publish_next, publish, check_publish,
  recipients, next_sequence, last_sequence, reserve_each, envelope_of,
}
use rtn_mq.Endpoint.Owner.Commands.{state_of}
use rtn_mq.Endpoint.Owner.Numbering.{next_sequence_sound, insert-last_sequence}
use rtn_mq.Endpoint.Owner.Late.{Ended, quiet, schedule-Ended}

module _ (settings : Settings) (out : Outside) (options : PublishOptions) (key : DeliveryKey)
    (until : ℕ) where
  admit-Ended :
      (msg : Message) (r : Recipient) (o : Owner)
      → msg.envelope.id ≢ key.id
      → Ended key until o
      → Ended key until (admit settings out options msg r o)
  unfolding admit
  admit-Ended msg r o fresh h = elim (Bool-cases (delivery_key.same (key_of r msg) key)) [
    | inl same ↦
        let eq : key_of r msg ≡ key = (delivery_key.same_iff (key_of r msg) key).0 same in
        absurd (fresh (ap (λ (k : DeliveryKey). k.id) eq))
    | inr other ↦ record {
      over = grind (arith, other, h.over, get-insert);
      receipt = h.receipt;
      kept = ground (arith, h.kept);
      lasts = h.lasts;
      realm = ground (arith, h.realm);
      publisher = ground (arith, h.publisher);
      numbered = ground (arith, h.numbered);
    }
  ]

  admit_all-Ended :
      (msg : Message) (rs : List Recipient) (o : Owner)
      → msg.envelope.id ≢ key.id
      → Ended key until o
      → Ended key until (admit_all settings out options msg rs o)
  unfolding admit_all
  admit_all-Ended msg [] o fresh h = h
  admit_all-Ended msg (r ∷ rs) o fresh h =
      admit_all-Ended msg rs (admit settings out options msg r o) fresh
        (admit-Ended msg r o fresh h)

-- The numbers of topics do not go down.
next_sequence-last :
    (settings : Settings) (topic t : Topic) (m : Map Topic ℕ)
    → last_sequence t m ≤ last_sequence t (next_sequence settings topic m).1
unfolding next_sequence
next_sequence-last settings topic t m =
    let same = topic_key.same_iff topic t in grind (arith, insert-last_sequence, same)

module _ ⦃m : Minicbor⦄ ⦃c : Iroh⦄ (settings : Settings) (out : Outside) (key : DeliveryKey)
    (until : ℕ) where
  fan_out-Ended :
      (options : PublishOptions) (msg : Message) (rs : List Recipient) (o : Owner)
      → msg.envelope.id ≢ key.id
      → Ended key until o
      → Ended key until (state_of (fan_out settings out options msg rs o))
  unfolding fan_out
  fan_out-Ended options msg rs o fresh h =
      let o1 = record o { metadata = (reserve_each rs (length msg.signed + 2048) o.metadata).1 } in
      let h1 : Ended key until o1 = quiet key until (ground arith) h in
      let o2 = admit_all settings out options msg rs o1 in
      let h2 = admit_all-Ended settings out options key until msg rs o1 fresh h1 in
      let h3 = schedule-Ended settings out key until o2 h2 in ground (arith, h1, h3)

  publish_next-Ended :
      (now sequence : ℕ) (topic : Topic) (payload : Bytes) (options : PublishOptions)
      (rs : List Recipient) (o : Owner)
      → (topic ≡ key.id.topic → key.id.sequence < sequence)
      → Ended key until o
      → Ended key until
          (state_of (publish_next settings out now sequence topic payload options rs o))
  unfolding publish_next
  publish_next-Ended now sequence topic payload options rs o later h =
      let expires = now + options.lifetime.as_secs in
      let e = envelope_of settings out now expires sequence topic payload options o in
      let msg : Message = record { envelope = e; signed = sign e o.key; payload = payload } in
      let fresh : e.id ≢ key.id = λ eq. omega (
        arith,
        later (ap (λ (i : MessageId). i.topic) eq),
        ap (λ (i : MessageId). i.sequence) eq,
      ) in
      ground (arith, h, fan_out-Ended options msg rs o fresh h)

  pub publish-Ended :
      (topic : Topic) (payload : Bytes) (options : PublishOptions) (o : Owner)
      → Ended key until o
      → Ended key until (state_of (publish settings out topic payload options o))
  unfolding publish
  publish-Ended topic payload options o h =
      elim (Result-cases (check_publish settings out topic payload options o)) [
        | inr (e, refused) ↦ rw (publish, refused) h
        | inl (now, checked) ↦ elim (List-cases (recipients now topic options o o.peers)) [
          | inl nobody ↦ rw (publish, checked, nobody) h
          | inr (r, rs, found) ↦
              let next = next_sequence settings topic o.sequences in
              let o1 = record o { sequences = next.1 } in
              let grown = next_sequence-last settings topic key.id.topic o.sequences in
              let h1 : Ended key until o1 = record {
                over = h.over;
                receipt = h.receipt;
                kept = h.kept;
                lasts = h.lasts;
                realm = h.realm;
                publisher = h.publisher;
                numbered = omega (arith, grown, h.numbered);
              } in
              elim (Result-cases next.0) [
                | inr (e, refused) ↦ rw (publish, checked, found, refused) h1
                | inl (sequence, numbered) ↦
                    let (is_next, small, table) =
                      next_sequence_sound settings topic o.sequences numbered in
                    let later : topic ≡ key.id.topic → key.id.sequence < sequence = λ eq.
                      omega
                        (arith, is_next, h.numbered, ap (λ t. last_sequence t o.sequences) eq) in
                    rw (publish, checked, found, numbered)
                      (publish_next-Ended now sequence topic payload options (r ∷ rs) o1 later h1)
              ]
        ]
      ]
