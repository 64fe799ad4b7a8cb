-- ===== src/Endpoint/Owner/Once/Commands.antt =====
-- endpoint/owner.rs: the commands that leave the record of messages alone.
use rtn_mq.Prelude.{ℕ, ◌≡◌, inl, inr, false, some, arith, Option-cases}
use rtn_mq.Prelude.Bytes.{Bytes, bytes_key}
use rtn_mq.Prelude.Map.{get, modify, keys}
use rtn_mq.Error.{Result, ok, err, subscription_closed}
use rtn_mq.Cbor.{Minicbor}
use rtn_mq.Crypto.{Iroh}
use rtn_mq.Message.Topic.{Topic}
use rtn_mq.Message.Envelope.{DeliveryMode}
use rtn_mq.Wire.Control.{
  Control, subscribe, suback, unsubscribe, credit, request_credit, outcome, error, goodbye,
}
use rtn_mq.Endpoint.Outcome.{failed, sent, increment}
use rtn_mq.Endpoint.Owner.{Owner, Settings, Outside, Pending, DeliveryKey, delivery_key}
use rtn_mq.Endpoint.Owner.Remote.{
  on_subscribe, bind_topic, on_suback, on_unsubscribe, unbind, on_request_credit, on_credit,
  credited, on_outcome, on_goodbye, control, keys_for, is_for, to_peer,
}
use rtn_mq.Endpoint.Owner.Subscribe.{subscribe_local}
use rtn_mq.Endpoint.Owner.Release.{
  Release, release, of_metadata, of_pool, of_peer_slots, of_peer_bytes, of_topic_slots,
  of_topic_bytes,
}
use rtn_mq.Endpoint.Owner.Receive.{begin, use_grant, ReceiveTicket}
use rtn_mq.Endpoint.Owner.Commands.{
  state_of, write_ended, on_sent, reject_remote, on_remote, on_shutdown,
}
use rtn_mq.Endpoint.Owner.Certificates.{deny_now, revoke_now, merge_revocations}
use rtn_mq.Endpoint.Owner.Once.{SameLog}
use rtn_mq.Endpoint.Owner.Once.Quiet.{finish-SameLog, finish_all-SameLog, remove_peer-SameLog}

pub release-SameLog : (from : Release) (n : ℕ) (o : Owner) → SameLog o (release from n o)
unfolding release
release-SameLog of_metadata n o = ground arith
release-SameLog of_pool n o = ground arith
release-SameLog (of_peer_slots peer) n o = ground arith
release-SameLog (of_peer_bytes peer) n o = ground arith
release-SameLog (of_topic_slots topic) n o = ground arith
release-SameLog (of_topic_bytes topic) n o = ground arith

module _ (settings : Settings) (out : Outside) where
  pub subscribe_local-SameLog :
      (size : ℕ) (topic : Topic) (mode : DeliveryMode) (o : Owner)
      → SameLog o (state_of (subscribe_local size settings out topic mode o))
  unfolding subscribe_local
  subscribe_local-SameLog size topic mode o = ground arith

  pub control-SameLog :
      (peer : Bytes) (o : Owner) (c : Control)
      → SameLog o (state_of (control settings out peer o c))
  unfolding control on_subscribe bind_topic on_suback on_unsubscribe on_request_credit on_credit
      credited on_outcome on_goodbye
  control-SameLog peer o (subscribe topic sub mode) = ground arith
  control-SameLog peer o (suback topic sub code) = ground arith
  control-SameLog peer o (unsubscribe topic sub) =
      let rest =
        finish_all-SameLog settings (keys_for (is_for peer sub topic) (keys o.pending))
          (failed subscription_closed)
          (to_peer settings out peer o (unbind settings out peer o topic sub)) in
      ground (arith, rest)
  control-SameLog peer o (request_credit topic sub n) = ground arith
  control-SameLog peer o (credit topic sub n) = ground arith
  control-SameLog peer o (outcome topic sub epoch sequence code) = ground arith
  control-SameLog peer o (error code) = ground arith
  control-SameLog peer o goodbye = ground arith

  write_ended-SameLog :
      (key : DeliveryKey) (p : Pending) (r : Result (Unit {0})) (o : Owner)
      → SameLog o (write_ended settings out key p r o)
  unfolding write_ended
  write_ended-SameLog key p (ok done) o = ground (arith, finish-SameLog settings key sent o)
  write_ended-SameLog key p (err e) o = ground (
    arith,
    finish-SameLog settings key (failed e) o,
    finish-SameLog settings key (failed subscription_closed) o,
    remove_peer-SameLog settings out key.peer o,
  )

  pub on_sent-SameLog :
      (key : DeliveryKey) (session : Bytes) (r : Result (Unit {0})) (o : Owner)
      → SameLog o (on_sent settings out key session r o)
  unfolding on_sent
  on_sent-SameLog key session r o =
      let o1 = record o {
        pending = modify key (λ (q : Pending). record q { writing = false }) o.pending;
      } in
      elim (Option-cases (get key o.pending)) [
        | inl absent ↦ ground (arith, absent)
        | inr (p, there) ↦ ground (arith, there, write_ended-SameLog key p r o1)
      ]

  reject_remote-SameLog : (peer : Bytes) (o : Owner) → SameLog o (reject_remote settings out peer o)
  unfolding reject_remote
  reject_remote-SameLog peer o =
      let counted = record o.stats {
        authorization_failures = increment o.stats.authorization_failures;
      } in
      let removed = remove_peer-SameLog settings out peer (record o { stats = counted }) in
      ground (arith, removed)

  pub on_remote-SameLog :
      (peer session : Bytes) (c : Control) (o : Owner)
      → SameLog o (on_remote settings out peer session c o)
  unfolding on_remote
  on_remote-SameLog peer session c o =
      let handled = control-SameLog peer o c in
      let o' = state_of (control settings out peer o c) in
      ground (arith, handled, reject_remote-SameLog peer o, reject_remote-SameLog peer o')

  pub on_shutdown-SameLog : (o : Owner) → SameLog o (on_shutdown settings out o)
  unfolding on_shutdown
  on_shutdown-SameLog o = ground arith

module _ ⦃m : Minicbor⦄ ⦃c : Iroh⦄ (settings : Settings) (out : Outside) where
  pub begin-SameLog :
      (peer session sub : Bytes) (stream : ℕ) (signed : Bytes) (len : ℕ) (o o' : Owner)
      (r : Result ReceiveTicket)
      → begin settings out peer session sub stream signed len o ≡ some (r, o')
      → SameLog o o'
  unfolding begin use_grant
  begin-SameLog peer session sub stream signed len o o' r h = ground arith

  pub deny_now-SameLog : (id : Bytes) (o : Owner) → SameLog o (deny_now settings out id o)
  unfolding deny_now
  deny_now-SameLog id o = ground arith

  pub revoke_now-SameLog :
      (snapshot : Bytes) (o o' : Owner)
      → revoke_now settings out snapshot o ≡ some o'
      → SameLog o o'
  unfolding revoke_now merge_revocations
  revoke_now-SameLog snapshot o o' h = ground arith
