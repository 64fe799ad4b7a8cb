-- ===== src/Endpoint/Owner/Once/Quiet.antt =====
-- endpoint/owner.rs: the parts of operations that leave the record of messages alone.
use rtn_mq.Prelude.{ℕ, ◌%◌, ◌+◌, inl, inr, true, false, List, [], ◌∷◌, length, arith, List-cases}
use rtn_mq.Prelude.Bytes.{Bytes, bytes_key}
use rtn_mq.Prelude.Map.{Map, remove, update_all}
use rtn_mq.Error.{Result, Result-cases}
use rtn_mq.Buffer.{usize_mod}
use rtn_mq.Cbor.{Minicbor}
use rtn_mq.Crypto.{Iroh}
use rtn_mq.Message.Topic.{Topic}
use rtn_mq.Message.Topic.Ordering.{topic_key}
use rtn_mq.Endpoint.Outcome.{RecipientOutcome, PublishOptions, failed}
use rtn_mq.Error.{peer_unavailable}
use rtn_mq.Endpoint.Owner.{Owner, Settings, Outside, Registration, Pending, DeliveryKey}
use rtn_mq.Endpoint.Owner.Session.{
  finish, finish_all, remove_peer, forget_peer, interrupt, unreliable_to, admit_peer, register,
  reserve_peer, may_register,
}
use rtn_mq.Endpoint.Owner.Schedule.{offer, schedule_one, schedule_loop, schedule, write}
use rtn_mq.Endpoint.Owner.Publish.{
  Recipient, Message, admit, admit_all, fan_out, publish_next, publish, check_publish, recipients,
  next_sequence, reserve_each,
}
use rtn_mq.Endpoint.Owner.Credits.{
  grant_one, grant_turn, grant_loop, rotated_grants, grant_credits, candidates, rotate_left,
}
use rtn_mq.Endpoint.Owner.Commands.{state_of}
use rtn_mq.Endpoint.Owner.Once.{SameLog, SameLog-refl, SameLog-trans}

module _ (settings : Settings) where
  pub finish-SameLog :
      (key : DeliveryKey) (outcome : RecipientOutcome) (o : Owner)
      → SameLog o (finish settings key outcome o)
  unfolding finish
  finish-SameLog key outcome o = ground arith

  pub finish_all-SameLog :
      (keys : List DeliveryKey) (outcome : RecipientOutcome) (o : Owner)
      → SameLog o (finish_all settings keys outcome o)
  unfolding finish_all
  finish_all-SameLog [] outcome o = SameLog-refl o
  finish_all-SameLog (key ∷ keys) outcome o =
      SameLog-trans (finish-SameLog key outcome o)
        (finish_all-SameLog keys outcome (finish settings key outcome o))

module _ (settings : Settings) (out : Outside) where
  pub remove_peer-SameLog : (peer : Bytes) (o : Owner) → SameLog o (remove_peer settings out peer o)
  unfolding remove_peer
  remove_peer-SameLog peer o =
      let o' = record o {
        peers = remove peer o.peers;
        subscriptions = update_all (λ topic. forget_peer peer) o.subscriptions;
        pending = update_all (interrupt peer out.instant) o.pending;
      } in
      let rest =
        finish_all-SameLog settings (unreliable_to peer o'.pending) (failed peer_unavailable) o' in
      ground (arith, rest)

  admit_peer-SameLog :
      (reg : Registration) (memory : ℕ) (o : Owner)
      → SameLog o (admit_peer settings out reg memory o)
  unfolding admit_peer
  admit_peer-SameLog reg memory o =
      let removed = remove_peer-SameLog reg.remote_id o in ground (arith, removed)

  grant_turn-SameLog : (x : Topic × Bytes) (o : Owner) → SameLog o (grant_turn settings out x o)
  unfolding grant_turn grant_one
  grant_turn-SameLog (topic, peer) o = ground arith

  grant_loop-SameLog :
      (xs : List (Topic × Bytes)) (o : Owner) → SameLog o (grant_loop settings out xs o)
  unfolding grant_loop
  grant_loop-SameLog [] o = SameLog-refl o
  grant_loop-SameLog (x ∷ xs) o =
      SameLog-trans (grant_turn-SameLog x o) (grant_loop-SameLog xs (grant_turn settings out x o))

  rotated_grants-SameLog :
      (xs : List (Topic × Bytes)) (o : Owner) → SameLog o (rotated_grants settings out xs o)
  unfolding rotated_grants
  rotated_grants-SameLog [] o = SameLog-refl o
  rotated_grants-SameLog (x ∷ xs) o =
      let list = x ∷ xs in
      let o' = record o { credit_cursor = (o.credit_cursor + 1) % usize_mod } in
      let rest = grant_loop-SameLog (rotate_left (o.credit_cursor % length list) list) o' in
      ground (arith, rest)

  pub grant_credits-SameLog :
      (now : Result ℕ) (o : Owner) → SameLog o (grant_credits settings out now o)
  unfolding grant_credits
  grant_credits-SameLog now o =
      ground (arith, rotated_grants-SameLog (candidates o.subscriptions) o)

module _ ⦃m : Minicbor⦄ (settings : Settings) (out : Outside) where
  schedule_one-SameLog :
      (key : DeliveryKey) (p : Pending) (o : Owner) → SameLog o (schedule_one settings out key p o)
  unfolding schedule_one offer write
  schedule_one-SameLog key p o = ground arith

  schedule_loop-SameLog :
      (pending : Map DeliveryKey Pending) (o : Owner)
      → SameLog o (schedule_loop settings out pending o)
  unfolding schedule_loop
  schedule_loop-SameLog [] o = SameLog-refl o
  schedule_loop-SameLog ((key, p) ∷ rest) o =
      SameLog-trans (schedule_one-SameLog key p o)
        (schedule_loop-SameLog rest (schedule_one settings out key p o))

  pub schedule-SameLog : (o : Owner) → SameLog o (schedule settings out o)
  unfolding schedule
  schedule-SameLog o = schedule_loop-SameLog o.pending o

module _ (settings : Settings) (out : Outside) (options : PublishOptions) where
  admit-SameLog :
      (msg : Message) (r : Recipient) (o : Owner) → SameLog o (admit settings out options msg r o)
  unfolding admit
  admit-SameLog msg r o = ground arith

  admit_all-SameLog :
      (msg : Message) (rs : List Recipient) (o : Owner)
      → SameLog o (admit_all settings out options msg rs o)
  unfolding admit_all
  admit_all-SameLog msg [] o = SameLog-refl o
  admit_all-SameLog msg (r ∷ rs) o =
      SameLog-trans (admit-SameLog msg r o)
        (admit_all-SameLog msg rs (admit settings out options msg r o))

module _ ⦃m : Minicbor⦄ ⦃c : Iroh⦄ (settings : Settings) (out : Outside) where
  fan_out-SameLog :
      (options : PublishOptions) (msg : Message) (rs : List Recipient) (o : Owner)
      → SameLog o (state_of (fan_out settings out options msg rs o))
  unfolding fan_out
  fan_out-SameLog options msg rs o =
      let o1 = record o { metadata = (reserve_each rs (length msg.signed + 2048) o.metadata).1 } in
      let admitted = admit_all-SameLog settings out options msg rs o1 in
      let written = schedule-SameLog settings out (admit_all settings out options msg rs o1) in
      ground (arith, admitted, written)

  publish_next-SameLog :
      (now sequence : ℕ) (topic : Topic) (payload : Bytes) (options : PublishOptions)
      (rs : List Recipient) (o : Owner)
      → SameLog o (state_of (publish_next settings out now sequence topic payload options rs o))
  unfolding publish_next
  publish_next-SameLog now sequence topic payload options rs o = grind (arith, fan_out-SameLog)

  pub publish-SameLog :
      (topic : Topic) (payload : Bytes) (options : PublishOptions) (o : Owner)
      → SameLog o (state_of (publish settings out topic payload options o))
  unfolding publish
  publish-SameLog topic payload options o =
      elim (Result-cases (check_publish settings out topic payload options o)) [
        | inr (e, refused) ↦ rw (publish, refused) (SameLog-refl o)
        | inl (now, checked) ↦ elim (List-cases (recipients now topic options o o.peers)) [
          | inl nobody ↦ rw (publish, checked, nobody) (SameLog-refl o)
          | inr (r, rs, found) ↦
              let next = next_sequence settings topic o.sequences in
              let o1 = record o { sequences = next.1 } in
              elim (Result-cases next.0) [
                | inr (e, refused) ↦ rw (publish, checked, found, refused) (ground arith)
                | inl (sequence, numbered) ↦
                    let rest =
                      publish_next-SameLog now sequence topic payload options (r ∷ rs) o1 in
                    rw (publish, checked, found, numbered) (ground (arith, rest))
              ]
        ]
      ]

  pub register-SameLog :
      (reg : Registration) (o : Owner) → SameLog o (state_of (register settings out reg o))
  unfolding register
  register-SameLog reg o = elim (Result-cases (may_register settings out reg o)) [
    | inr (e, refused) ↦ rw (register, refused) (SameLog-refl o)
    | inl (false, stays) ↦ rw (register, stays) (SameLog-refl o)
    | inl (true, free) ↦
        let o1 = record o { metadata = (reserve_peer reg o.metadata).1 } in
        elim (Result-cases (reserve_peer reg o.metadata).0) [
          | inr (e, full) ↦ rw (register, free, full) (ground arith)
          | inl ((reg', memory), reserved) ↦
              let rest = admit_peer-SameLog settings out reg' memory o1 in
              rw (register, free, reserved) (ground (arith, rest))
        ]
  ]
