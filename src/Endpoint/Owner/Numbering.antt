-- ===== src/Endpoint/Owner/Numbering.antt =====
-- endpoint/owner.rs: the identities that `publish` gives, and whom it admits.
use rtn_mq.Prelude.{
  ℕ, ◌+◌, ◌≡◌, ◌<◌, refl, ap, ◌∙◌, sym, inl, inr, List, [], ◌∷◌, length, arith, List-cases,
  if◌then◌else◌,
}
use rtn_mq.Prelude.Bytes.{Bytes, bytes_key}
use rtn_mq.Prelude.Map.{Map, insert, get-insert}
use rtn_mq.Error.{ok, err, Error, Result-cases}
use rtn_mq.Cbor.{Minicbor, u64_mod}
use rtn_mq.Crypto.{Iroh}
use rtn_mq.Message.Topic.{Topic}
use rtn_mq.Message.Topic.Ordering.{topic_key}
use rtn_mq.Message.Envelope.{MessageId, Envelope, sign}
use rtn_mq.Endpoint.Outcome.{PublishOptions}
use rtn_mq.Endpoint.Owner.{Owner, Settings, Outside, Pending, DeliveryKey, delivery_key}
use rtn_mq.Endpoint.Owner.Schedule.{schedule, schedule_one, schedule_loop, offer, write}
use rtn_mq.Endpoint.Owner.Publish.{
  Recipient, Message, admit, admit_all, fan_out, publish_next, publish, check_publish, recipients,
  next_sequence, last_sequence, reserve_each, envelope_of,
}

-- What the parts after the numbering leave alone: the sequence numbers.
module _ ⦃m : Minicbor⦄ (settings : Settings) (out : Outside) where
  schedule_one-sequences :
      (key : DeliveryKey) (p : Pending) (o : Owner)
      → (schedule_one settings out key p o).sequences ≡ o.sequences
  unfolding schedule_one offer write
  schedule_one-sequences key p o = ground arith

  schedule_loop-sequences :
      (pending : Map DeliveryKey Pending) (o : Owner)
      → (schedule_loop settings out pending o).sequences ≡ o.sequences
  unfolding schedule_loop
  schedule_loop-sequences [] o = refl
  schedule_loop-sequences ((key, p) ∷ rest) o =
      schedule_loop-sequences rest (schedule_one settings out key p o)
      ∙ schedule_one-sequences key p o

module _ (settings : Settings) (out : Outside) (options : PublishOptions) where
  admit-sequences :
      (msg : Message) (r : Recipient) (o : Owner)
      → (admit settings out options msg r o).sequences ≡ o.sequences
  unfolding admit
  admit-sequences msg r o = ground arith

  admit_all-sequences :
      (msg : Message) (rs : List Recipient) (o : Owner)
      → (admit_all settings out options msg rs o).sequences ≡ o.sequences
  unfolding admit_all
  admit_all-sequences msg [] o = refl
  admit_all-sequences msg (r ∷ rs) o =
      admit_all-sequences msg rs (admit settings out options msg r o) ∙ admit-sequences msg r o

-- A publication that succeeds, with its identity.
pub record Numbered (topic : Topic) (o o' : Owner) (id : MessageId) : Type 0 where
  pub epoch : id.publisher_epoch ≡ o.epoch
  pub publisher : id.publisher_endpoint_id ≡ o.endpoint_id
  pub same_topic : id.topic ≡ topic
  pub next : id.sequence ≡ last_sequence topic o.sequences + 1
  pub bounded : id.sequence < u64_mod
  pub recorded :
      (t : Topic)
      → last_sequence t o'.sequences
        ≡ (if topic_key.same topic t then id.sequence else last_sequence t o.sequences)

pub next_sequence_sound :
    (settings : Settings) (topic : Topic) (m : Map Topic ℕ) {n : ℕ}
    → (next_sequence settings topic m).0 ≡ ok n
    → (n ≡ last_sequence topic m + 1)
      × (n < u64_mod)
      × ((next_sequence settings topic m).1 ≡ insert topic n m)
unfolding next_sequence
next_sequence_sound settings topic m h = ground arith

pub insert-last_sequence :
    (topic t : Topic) (n : ℕ) (m : Map Topic ℕ)
    → last_sequence t (insert topic n m) ≡ (if topic_key.same topic t then n else last_sequence t m)
insert-last_sequence topic t n m = ground (arith, get-insert topic t n m)

module _ ⦃m : Minicbor⦄ ⦃c : Iroh⦄ (settings : Settings) (out : Outside) where
  fan_out_sound :
      (options : PublishOptions) (msg : Message) (rs rs' : List Recipient) (o o' : Owner)
      (id : MessageId)
      → fan_out settings out options msg rs o ≡ (ok (id, rs'), o')
      → (id ≡ msg.envelope.id) × (o'.sequences ≡ o.sequences)
  unfolding fan_out schedule
  fan_out_sound options msg rs rs' o o' id h =
      let o1 = record o { metadata = (reserve_each rs (length msg.signed + 2048) o.metadata).1 } in
      let o2 = admit_all settings out options msg rs o1 in
      let admitted = admit_all-sequences settings out options msg rs o1 in
      let written = schedule_loop-sequences settings out o2.pending o2 in
      ground (arith, admitted, written)

  publish_next_sound :
      (now sequence : ℕ) (topic : Topic) (payload : Bytes) (options : PublishOptions)
      (rs rs' : List Recipient) (o o' : Owner) (id : MessageId)
      → publish_next settings out now sequence topic payload options rs o ≡ (ok (id, rs'), o')
      → (id ≡ (envelope_of settings out now 0 sequence topic payload options o).id)
        × (o'.sequences ≡ o.sequences)
  unfolding publish_next envelope_of
  publish_next_sound now sequence topic payload options rs rs' o o' id h =
      let e =
        envelope_of settings out now (now + options.lifetime.as_secs) sequence topic payload options
          o in
      let msg : Message = record { envelope = e; signed = sign e o.key; payload = payload } in
      let rest = fan_out_sound options msg rs rs' o o' id in ground (arith, rest)

  -- A publication that has recipients and a number goes on with the message.
  pub publish-publish_next :
      (topic : Topic) (payload : Bytes) (options : PublishOptions) (o : Owner) (now n : ℕ)
      (r : Recipient) (rs : List Recipient)
      → check_publish settings out topic payload options o ≡ ok now
      → recipients now topic options o o.peers ≡ r ∷ rs
      → (next_sequence settings topic o.sequences).0 ≡ ok n
      → publish settings out topic payload options o
        ≡ publish_next settings out now n topic payload options
            (r ∷ rs)
            (record o { sequences = (next_sequence settings topic o.sequences).1 })
  unfolding publish
  publish-publish_next topic payload options o now n r rs checked found numbered =
      ground (arith, checked, found, numbered)

  -- It succeeds where the records of the receipt fit the budget and the message expires in time.
  pub publish_next-reserved :
      (now n : ℕ) (topic : Topic) (payload : Bytes) (options : PublishOptions) (rs : List Recipient)
      (o : Owner)
      → now + options.lifetime.as_secs < u64_mod
      → (e : Envelope)
      → envelope_of settings out now (now + options.lifetime.as_secs) n topic payload options o ≡ e
      → (reserve_each rs (length (sign e o.key) + 2048) o.metadata).0 ≡ ok tt
      → (publish_next settings out now n topic payload options rs o).0 ≡ ok (e.id, rs)
  unfolding publish_next fan_out
  publish_next-reserved now n topic payload options rs o early e is_e fits =
      ground (arith, is_e, fits)

  -- A publication that succeeds has an identity of its own: of this endpoint and its epoch, with the number
  -- after the last one of its topic, which is then the last one; the numbers of other topics stay.
  pub publish_sound :
      (topic : Topic) (payload : Bytes) (options : PublishOptions) (rs : List Recipient)
      (o o' : Owner) (id : MessageId)
      → publish settings out topic payload options o ≡ (ok (id, rs), o')
      → Numbered topic o o' id
  unfolding publish envelope_of
  publish_sound topic payload options rs o o' id h =
      elim (Result-cases (check_publish settings out topic payload options o)) [
        | inr (e, refused) ↦ absurd (ground (arith, refused, h))
        | inl (now, checked) ↦ elim (List-cases (recipients now topic options o o.peers)) [
          | inl nobody ↦ absurd (ground (arith, checked, nobody, h))
          | inr (r, others, found) ↦
              let next = next_sequence settings topic o.sequences in
              elim (Result-cases next.0) [
                | inr (e, refused) ↦ absurd (ground (arith, checked, found, refused, h))
                | inl (n, numbered) ↦
                    let o1 = record o { sequences = next.1 } in
                    let done : publish_next settings out now n topic payload options (r ∷ others) o1
                        ≡ (ok (id, rs), o') =
                      sym (
                        publish-publish_next topic payload options o now n r others checked found
                          numbered)
                      ∙ h in
                    let (is_next, small, table) =
                      next_sequence_sound settings topic o.sequences numbered in
                    let (named, kept) =
                      publish_next_sound now n topic payload options (r ∷ others) rs o1 o' id
                        done in
                    rw named (record {
                      epoch = refl;
                      publisher = refl;
                      same_topic = refl;
                      next = is_next;
                      bounded = small;
                      recorded = λ t.
                          ap (last_sequence t) (kept ∙ table)
                          ∙ insert-last_sequence topic t n o.sequences;
                    })
              ]
        ]
      ]

-- The owner apart from its sequence numbers and its metadata budget.
pub record AdmitsNobody (o o' : Owner) : Type 0 where
  pub same_pending : o'.pending ≡ o.pending
  pub same_outcomes : o'.outcomes ≡ o.outcomes
  pub same_peers : o'.peers ≡ o.peers
  pub same_budgets : o'.peer_budgets ≡ o.peer_budgets
  pub same_stats : o'.stats ≡ o.stats

module _ ⦃m : Minicbor⦄ ⦃c : Iroh⦄ (settings : Settings) (out : Outside) where
  publish_next-failed :
      (now sequence : ℕ) (topic : Topic) (payload : Bytes) (options : PublishOptions)
      (rs : List Recipient) (o o' : Owner) (e : Error)
      → publish_next settings out now sequence topic payload options rs o ≡ (err e, o')
      → AdmitsNobody o o'
  unfolding publish_next fan_out
  publish_next-failed now sequence topic payload options rs o o' e h = ground arith

  -- A publication that fails has admitted no delivery and settled no receipt, and it leaves the sessions,
  -- their budgets and the counters as they were: the reservations come before the first admission.
  pub publish-failed :
      (topic : Topic) (payload : Bytes) (options : PublishOptions) (o o' : Owner) (e : Error)
      → publish settings out topic payload options o ≡ (err e, o')
      → AdmitsNobody o o'
  unfolding publish
  publish-failed topic payload options o o' e h =
      elim (Result-cases (check_publish settings out topic payload options o)) [
        | inr (error, refused) ↦ ground (arith, refused, h)
        | inl (now, checked) ↦ elim (List-cases (recipients now topic options o o.peers)) [
          | inl nobody ↦ ground (arith, checked, nobody, h)
          | inr (r, rs, found) ↦
              let next = next_sequence settings topic o.sequences in
              let o1 = record o { sequences = next.1 } in
              elim (Result-cases next.0) [
                | inr (error, refused) ↦ ground (arith, checked, found, refused, h)
                | inl (n, numbered) ↦
                    let done : publish_next settings out now n topic payload options (r ∷ rs) o1
                        ≡ (err e, o') =
                      sym (
                        publish-publish_next settings out topic payload options o now n r rs checked
                          found numbered)
                      ∙ h in
                    let rest =
                      publish_next-failed now n topic payload options (r ∷ rs) o1 o' e done in
                    ground (arith, rest)
              ]
        ]
      ]
