-- ===== src/Endpoint/Owner/Invariant/Publishing.antt =====
-- endpoint/owner.rs: `schedule` and `publish` keep the invariant.
use rtn_mq.Prelude.{
  ℕ, ◌+◌, ◌≤◌, ◌≡◌, inl, inr, true, none, some, List, [], ◌∷◌, length, arith, Option-cases,
  List-cases,
}
use rtn_mq.Prelude.Bytes.{Bytes, bytes_key}
use rtn_mq.Prelude.Map.{
  Map, get, insert, length-insert-le, length-insert-present, insert-IsSorted, IsSorted,
}
use rtn_mq.Prelude.Map.Each.{Each-get}
use rtn_mq.Error.{Result-cases}
use rtn_mq.Cbor.{Minicbor}
use rtn_mq.Crypto.{Iroh}
use rtn_mq.Message.Topic.{Topic}
use rtn_mq.Message.Topic.Ordering.{topic_key}
use rtn_mq.Message.Envelope.{sign}
use rtn_mq.Endpoint.Outcome.{PublishOptions}
use rtn_mq.Endpoint.Owner.{Owner, Settings, Outside, Peer, Binding, Pending, DeliveryKey}
use rtn_mq.Endpoint.Owner.Schedule.{
  ask_credit, used_binding, write, offer, schedule_one, schedule_loop, schedule,
}
use rtn_mq.Endpoint.Owner.Publish.{
  Recipient, Message, admit, admit_all, fan_out, publish_next, publish, next_sequence, reserve_each,
  check_publish, recipients, envelope_of,
}
use rtn_mq.Endpoint.Owner.Commands.{state_of}
use rtn_mq.Endpoint.Owner.Invariant.{BindingSound, PeerSound, IsSound}
use rtn_mq.Endpoint.Owner.Invariant.Tables.{modify_peer-IsSound, insert_binding-PeerSound}

module _ ⦃m : Minicbor⦄ (settings : Settings) (out : Outside) where
  ask_credit-PeerSound :
      (peer : Peer) (b : Binding) (key : DeliveryKey) (p : Pending)
      → get key.id.topic peer.outbound ≡ some b
      → b.credit ≡ none
      → PeerSound settings peer
      → PeerSound settings (ask_credit settings out peer b key p)
  unfolding ask_credit
  ask_credit-PeerSound peer b key p bound empty h =
      let asked =
        insert_binding-PeerSound settings key.id.topic b (record b { requested = true }) peer bound
          (ground arith) h in
      ground (arith, asked)

  used_binding-BindingSound :
      (b : Binding) (key : DeliveryKey) (p : Pending)
      → BindingSound (used_binding settings out b key p)
  unfolding used_binding
  used_binding-BindingSound b key p = ground arith

  offer-IsSound :
      (peer : Peer) (b : Binding) (key : DeliveryKey) (p : Pending) (o : Owner)
      → get key.peer o.peers ≡ some peer
      → get key.id.topic peer.outbound ≡ some b
      → IsSound settings o
      → IsSound settings (offer settings out peer b key p o)
  unfolding offer write
  offer-IsSound peer b key p o found bound h =
      let old = Each-get (PeerSound settings) key.peer o.peers peer h.peers_sound found in
      let used =
        insert_binding-PeerSound settings key.id.topic b (used_binding settings out b key p) peer
          bound (used_binding-BindingSound b key p) old in
      let peer' = record peer {
        outbound = insert key.id.topic (used_binding settings out b key p) peer.outbound;
      } in
      let wrote = modify_peer-IsSound settings o h key.peer (λ q. peer') (λ q hq. used) in
      elim (Option-cases b.credit) [
        | inl empty ↦
            rw (offer, empty)
              (modify_peer-IsSound settings o h key.peer (λ q. ask_credit settings out peer b key p)
                (λ q hq. ask_credit-PeerSound peer b key p bound empty old))
        | inr (n, credit) ↦ ground (arith, credit, wrote)
      ]

  schedule_one-IsSound :
      (key : DeliveryKey) (p : Pending) (o : Owner)
      → IsSound settings o
      → IsSound settings (schedule_one settings out key p o)
  unfolding schedule_one
  schedule_one-IsSound key p o h = elim (Option-cases (get key.peer o.peers)) [
    | inl gone ↦ ground (arith, gone, h)
    | inr (peer, found) ↦ elim (Option-cases (get key.id.topic peer.outbound)) [
      | inl gone ↦ ground (arith, found, gone, h)
      | inr (b, bound) ↦ ground (arith, found, bound, h, offer-IsSound peer b key p o found bound h)
    ]
  ]

  schedule_loop-IsSound :
      (pending : Map DeliveryKey Pending) (o : Owner)
      → IsSound settings o
      → IsSound settings (schedule_loop settings out pending o)
  unfolding schedule_loop
  schedule_loop-IsSound [] o h = h
  schedule_loop-IsSound ((key, p) ∷ rest) o h =
      schedule_loop-IsSound rest (schedule_one settings out key p o)
        (schedule_one-IsSound key p o h)

  pub schedule-IsSound :
      (o : Owner) → IsSound settings o → IsSound settings (schedule settings out o)
  unfolding schedule
  schedule-IsSound o h = schedule_loop-IsSound o.pending o h

module _ (settings : Settings) (out : Outside) (options : PublishOptions) where
  admit-IsSound :
      (msg : Message) (r : Recipient) (o : Owner)
      → IsSound settings o
      → IsSound settings (admit settings out options msg r o)
  unfolding admit
  admit-IsSound msg r o h = ground (arith, h)

  pub admit_all-IsSound :
      (msg : Message) (rs : List Recipient) (o : Owner)
      → IsSound settings o
      → IsSound settings (admit_all settings out options msg rs o)
  unfolding admit_all
  admit_all-IsSound msg [] o h = h
  admit_all-IsSound msg (r ∷ rs) o h =
      admit_all-IsSound msg rs (admit settings out options msg r o) (admit-IsSound msg r o h)

-- The table of sequence numbers has an entry for each topic that was published to, within the bound.
next_sequence-fits :
    (settings : Settings) (topic : Topic) (m : Map Topic ℕ)
    → length m ≤ settings.max_topics
    → IsSorted m
    → (length (next_sequence settings topic m).1 ≤ settings.max_topics)
      × IsSorted (next_sequence settings topic m).1
unfolding next_sequence
next_sequence-fits settings topic m fit sorted =
    let order = λ (n : ℕ). insert-IsSorted topic n m sorted in
    elim (Option-cases (get topic m)) [
      | inl absent ↦
          let size = λ (n : ℕ). length-insert-le topic n m in
          ground (arith, absent, size 0, size 1, order 0, order 1)
      | inr (n, there) ↦
          let size = λ (k : ℕ). length-insert-present topic k m sorted there in
          ground (arith, there, size n, size (n + 1), order n, order (n + 1))
    ]

module _ ⦃m : Minicbor⦄ ⦃c : Iroh⦄ (settings : Settings) (out : Outside) where
  fan_out-IsSound :
      (options : PublishOptions) (msg : Message) (rs : List Recipient) (o : Owner)
      → IsSound settings o
      → IsSound settings (state_of (fan_out settings out options msg rs o))
  unfolding fan_out
  fan_out-IsSound options msg rs o h =
      let reserved = reserve_each rs (length msg.signed + 2048) o.metadata in
      let o1 = record o { metadata = reserved.1 } in
      let h1 : IsSound settings o1 = ground (arith, h) in
      let o2 = admit_all settings out options msg rs o1 in
      let h2 =
        schedule-IsSound settings out o2 (admit_all-IsSound settings out options msg rs o1 h1) in
      ground (arith, h1, h2)

  publish_next-IsSound :
      (now sequence : ℕ) (topic : Topic) (payload : Bytes) (options : PublishOptions)
      (rs : List Recipient) (o : Owner)
      → IsSound settings o
      → IsSound settings
          (state_of (publish_next settings out now sequence topic payload options rs o))
  unfolding publish_next
  publish_next-IsSound now sequence topic payload options rs o h =
      let e =
        envelope_of settings out now (now + options.lifetime.as_secs) sequence topic payload options
          o in
      let msg : Message = record { envelope = e; signed = sign e o.key; payload = payload } in
      ground (arith, h, fan_out-IsSound options msg rs o h)

  pub publish-IsSound :
      (topic : Topic) (payload : Bytes) (options : PublishOptions) (o : Owner)
      → IsSound settings o
      → IsSound settings (state_of (publish settings out topic payload options o))
  unfolding publish
  publish-IsSound topic payload options o h =
      elim (Result-cases (check_publish settings out topic payload options o)) [
        | inr (e, refused) ↦ rw (publish, refused) h
        | inl (now, checked) ↦ elim (List-cases (recipients now topic options o o.peers)) [
          | inl nobody ↦ rw (publish, checked, nobody) h
          | inr (r, rs, found) ↦
              let next = next_sequence settings topic o.sequences in
              let (fits, sorted) =
                next_sequence-fits settings topic o.sequences h.sequences_fit h.sequences_sorted in
              let o1 = record o { sequences = next.1 } in
              let h1 : IsSound settings o1 = ground (arith, fits, sorted, h) in
              elim (Result-cases next.0) [
                | inr (e, refused) ↦ rw (publish, checked, found, refused) h1
                | inl (sequence, numbered) ↦
                    rw (publish, checked, found, numbered)
                      (publish_next-IsSound now sequence topic payload options (r ∷ rs) o1 h1)
              ]
        ]
      ]
