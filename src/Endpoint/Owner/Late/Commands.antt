-- ===== src/Endpoint/Owner/Late/Commands.antt =====
-- endpoint/owner.rs: the commands leave a delivery that has ended as it is.
use rtn_mq.Prelude.{ℕ, ◌+◌, ◌≡◌, inl, inr, true, false, some, arith, Option-cases}
use rtn_mq.Prelude.Bytes.{Bytes, bytes_key}
use rtn_mq.Prelude.Map.{get, modify, update_all, keys, modify-absent, update_all-absent}
use rtn_mq.Error.{Result, ok, err, subscription_closed, Result-cases}
use rtn_mq.Cbor.{Minicbor}
use rtn_mq.Crypto.{Iroh}
use rtn_mq.Message.Topic.{Topic}
use rtn_mq.Message.Topic.Ordering.{topic_key}
use rtn_mq.Message.Envelope.{DeliveryMode}
use rtn_mq.Wire.Control.{
  Control, subscribe, suback, unsubscribe, credit, request_credit, outcome, error, goodbye,
}
use rtn_mq.Auth.Trust.{Trust, apply_revocations, accept_snapshot, deny_certificate}
use rtn_mq.Endpoint.Outcome.{failed, processed, permanent_nack, sent, increment}
use rtn_mq.Endpoint.Owner.{
  Owner, Settings, Outside, Registration, Pending, DeliveryKey, delivery_key, nanoseconds,
}
use rtn_mq.Endpoint.Owner.Session.{
  remove_peer, admit_peer, renew_recipient, register, reserve_peer, may_register,
}
use rtn_mq.Endpoint.Owner.Remote.{
  on_subscribe, bind_topic, on_suback, on_unsubscribe, unbind, on_request_credit, on_credit,
  credited, on_outcome, on_goodbye, control, keys_for, is_for, to_peer, retry_later,
  count_processed,
}
use rtn_mq.Endpoint.Owner.Subscribe.{subscribe_local}
use rtn_mq.Endpoint.Owner.Deliver.{incoming, take_message, repeat, deliver, send_outcome}
use rtn_mq.Endpoint.Owner.Release.{
  Release, release, of_metadata, of_pool, of_peer_slots, of_peer_bytes, of_topic_slots,
  of_topic_bytes,
}
use rtn_mq.Endpoint.Owner.Receive.{begin, use_grant, ReceiveTicket}
use rtn_mq.Endpoint.Owner.Commands.{
  state_of, write_ended, on_sent, reject_remote, on_remote, on_shutdown,
}
use rtn_mq.Endpoint.Owner.Certificates.{deny_now, revoke_now, merge_revocations, read_revocations}
use rtn_mq.Endpoint.Owner.Endings.{own_key}
use rtn_mq.Endpoint.Owner.Late.{
  Ended, SameEnds, quiet, Ended-pending, finish-Ended, finish_all-Ended, remove_peer-Ended,
}

pub release-SameEnds : (from : Release) (n : ℕ) (o : Owner) → SameEnds o (release from n o)
unfolding release
release-SameEnds of_metadata n o = ground arith
release-SameEnds of_pool n o = ground arith
release-SameEnds (of_peer_slots peer) n o = ground arith
release-SameEnds (of_peer_bytes peer) n o = ground arith
release-SameEnds (of_topic_slots topic) n o = ground arith
release-SameEnds (of_topic_bytes topic) n o = ground arith

module _ (settings : Settings) (out : Outside) where
  pub subscribe_local-SameEnds :
      (size : ℕ) (topic : Topic) (mode : DeliveryMode) (o : Owner)
      → SameEnds o (state_of (subscribe_local size settings out topic mode o))
  unfolding subscribe_local
  subscribe_local-SameEnds size topic mode o = ground arith

  pub on_shutdown-SameEnds : (o : Owner) → SameEnds o (on_shutdown settings out o)
  unfolding on_shutdown
  on_shutdown-SameEnds o = ground arith

module _ (settings : Settings) (out : Outside) (key : DeliveryKey) (until : ℕ) where
  on_outcome-Ended :
      (peer : Bytes) (o : Owner) (topic : Topic) (sub epoch : Bytes) (sequence code : ℕ)
      → Ended key until o
      → Ended key until (state_of (on_outcome settings out peer o topic sub epoch sequence code))
  unfolding on_outcome retry_later count_processed
  on_outcome-Ended peer o topic sub epoch sequence code h =
      let k = own_key peer sub topic epoch sequence o in
      let o1 = count_processed settings out peer o o in
      let h1 : Ended key until o1 = quiet key until (ground arith) h in
      let later =
        λ (p : Pending). record p { next = out.instant + nanoseconds settings.retry_interval } in
      let delayed =
        Ended-pending key until o (modify k later o.pending)
          (modify-absent k key later o.pending h.over) h in
      let accepted = finish-Ended key until settings k processed o1 h1 in
      let refused = finish-Ended key until settings k permanent_nack o h in
      ground (arith, h, delayed, accepted, refused)

  control-Ended :
      (peer : Bytes) (o : Owner) (c : Control)
      → Ended key until o
      → Ended key until (state_of (control settings out peer o c))
  unfolding control on_subscribe bind_topic on_suback on_unsubscribe on_request_credit on_credit
      credited on_goodbye
  control-Ended peer o (subscribe topic sub mode) h = quiet key until (ground arith) h
  control-Ended peer o (suback topic sub code) h = quiet key until (ground arith) h
  control-Ended peer o (unsubscribe topic sub) h =
      let o1 = to_peer settings out peer o (unbind settings out peer o topic sub) in
      let h1 : Ended key until o1 = quiet key until (ground arith) h in
      finish_all-Ended key until settings (keys_for (is_for peer sub topic) (keys o.pending))
        (failed subscription_closed) o1 h1
  control-Ended peer o (request_credit topic sub n) h = quiet key until (ground arith) h
  control-Ended peer o (credit topic sub n) h = quiet key until (ground arith) h
  control-Ended peer o (outcome topic sub epoch sequence code) h =
      on_outcome-Ended peer o topic sub epoch sequence code h
  control-Ended peer o (error code) h = h
  control-Ended peer o goodbye h = quiet key until (ground arith) h

  write_ended-Ended :
      (k : DeliveryKey) (p : Pending) (r : Result (Unit {0})) (o : Owner)
      → Ended key until o
      → Ended key until (write_ended settings out k p r o)
  unfolding write_ended
  write_ended-Ended k p (ok done) o h =
      ground (arith, h, finish-Ended key until settings k sent o h)
  write_ended-Ended k p (err e) o h = ground (
    arith,
    finish-Ended key until settings k (failed e) o h,
    finish-Ended key until settings k (failed subscription_closed) o h,
    remove_peer-Ended key until settings out k.peer o h,
  )

  pub on_sent-Ended :
      (k : DeliveryKey) (session : Bytes) (r : Result (Unit {0})) (o : Owner)
      → Ended key until o
      → Ended key until (on_sent settings out k session r o)
  unfolding on_sent
  on_sent-Ended k session r o h =
      let stop = λ (q : Pending). record q { writing = false } in
      let m = modify k stop o.pending in
      let h1 = Ended-pending key until o m (modify-absent k key stop o.pending h.over) h in
      elim (Option-cases (get k o.pending)) [
        | inl absent ↦ ground (arith, absent, h)
        | inr (p, there) ↦
            ground (arith, h, there, write_ended-Ended k p r (record o { pending = m }) h1)
      ]

  reject_remote-Ended :
      (peer : Bytes) (o : Owner)
      → Ended key until o
      → Ended key until (reject_remote settings out peer o)
  unfolding reject_remote
  reject_remote-Ended peer o h =
      let counted = record o.stats {
        authorization_failures = increment o.stats.authorization_failures;
      } in
      let o1 = record o { stats = counted } in
      let h1 : Ended key until o1 = quiet key until (ground arith) h in
      remove_peer-Ended key until settings out peer o1 h1

  pub on_remote-Ended :
      (peer session : Bytes) (c : Control) (o : Owner)
      → Ended key until o
      → Ended key until (on_remote settings out peer session c o)
  unfolding on_remote
  on_remote-Ended peer session c o h =
      let handled = control-Ended peer o c h in
      let o' = state_of (control settings out peer o c) in
      let refused = reject_remote-Ended peer o h in
      let failed_handling = reject_remote-Ended peer o' handled in
      ground (arith, h, handled, refused, failed_handling)

  admit_peer-Ended :
      (reg : Registration) (memory : ℕ) (o : Owner)
      → Ended key until o
      → Ended key until (admit_peer settings out reg memory o)
  unfolding admit_peer
  admit_peer-Ended reg memory o h =
      let o1 = remove_peer settings out reg.remote_id o in
      let h1 = remove_peer-Ended key until settings out reg.remote_id o h in
      let renew = renew_recipient reg.remote_id reg.cert in
      let m = update_all renew o1.pending in
      let h2 = Ended-pending key until o1 m (update_all-absent renew key o1.pending h1.over) h1 in
      let rest : SameEnds (record o1 { pending = m }) (admit_peer settings out reg memory o) =
        ground arith in
      quiet key until rest h2

module _ ⦃m : Minicbor⦄ ⦃c : Iroh⦄ (settings : Settings) (out : Outside) where
  pub begin-SameEnds :
      (peer session sub : Bytes) (stream : ℕ) (signed : Bytes) (len : ℕ) (o o' : Owner)
      (r : Result ReceiveTicket)
      → begin settings out peer session sub stream signed len o ≡ some (r, o')
      → SameEnds o o'
  unfolding begin use_grant
  begin-SameEnds peer session sub stream signed len o o' r h = ground arith

  pub incoming-SameEnds :
      (peer session sub : Bytes) (ticket : ReceiveTicket) (payload : Bytes) (o : Owner)
      → SameEnds o (state_of (incoming out peer session sub ticket payload o))
  unfolding incoming take_message repeat deliver send_outcome
  incoming-SameEnds peer session sub ticket payload o = ground arith

  pub deny_now-SameEnds : (id : Bytes) (o : Owner) → SameEnds o (deny_now settings out id o)
  unfolding deny_now deny_certificate
  deny_now-SameEnds id o = ground arith

  read_revocations-realm :
      (snapshot : Bytes) (o : Owner) (t : Trust)
      → read_revocations settings out snapshot o ≡ ok t
      → t.realm ≡ o.trust.realm
  unfolding read_revocations apply_revocations accept_snapshot
  read_revocations-realm snapshot o t h = ground arith

  pub revoke_now-SameEnds :
      (snapshot : Bytes) (o o' : Owner)
      → revoke_now settings out snapshot o ≡ some o'
      → SameEnds o o'
  unfolding revoke_now merge_revocations
  revoke_now-SameEnds snapshot o o' h =
      elim (Result-cases (read_revocations settings out snapshot o)) [
        | inr (e, refused) ↦ ground (arith, refused, h)
        | inl (t, read) ↦ ground (arith, read, h, read_revocations-realm snapshot o t read)
      ]

  pub register-Ended :
      (key : DeliveryKey) (until : ℕ) (reg : Registration) (o : Owner)
      → Ended key until o
      → Ended key until (state_of (register settings out reg o))
  unfolding register
  register-Ended key until reg o h = elim (Result-cases (may_register settings out reg o)) [
    | inr (e, refused) ↦ rw (register, refused) h
    | inl (false, stays) ↦ rw (register, stays) h
    | inl (true, free) ↦
        let o1 = record o { metadata = (reserve_peer reg o.metadata).1 } in
        let h1 : Ended key until o1 = quiet key until (ground arith) h in
        elim (Result-cases (reserve_peer reg o.metadata).0) [
          | inr (e, full) ↦ rw (register, free, full) h1
          | inl ((reg', memory), reserved) ↦
              rw (register, free, reserved)
                (admit_peer-Ended settings out key until reg' memory o1 h1)
        ]
  ]
