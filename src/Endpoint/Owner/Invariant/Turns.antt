-- ===== src/Endpoint/Owner/Invariant/Turns.antt =====
-- endpoint/owner.rs: what single commands of the owner leave sound.
use rtn_mq.Prelude.{ℕ, ◌<◌, ◌≡◌, inl, inr, true, false, length, arith, Option-cases}
use rtn_mq.Prelude.Bytes.{Bytes, bytes_key}
use rtn_mq.Prelude.Map.{get, insert, modify, length-insert-le}
use rtn_mq.Prelude.Map.Each.{Each-insert}
use rtn_mq.Error.{Error, Result, ok, err, Result-cases}
use rtn_mq.Message.Topic.{Topic}
use rtn_mq.Message.Topic.Ordering.{topic_key}
use rtn_mq.Message.Envelope.{DeliveryMode}
use rtn_mq.Wire.Control.{Control, subscribe, goodbye}
use rtn_mq.Endpoint.Outcome.{failed, sent}
use rtn_mq.Endpoint.Owner.{Owner, Settings, Outside, Pending, DeliveryKey, delivery_key}
use rtn_mq.Endpoint.Owner.Session.{send}
use rtn_mq.Endpoint.Owner.Remote.{control}
use rtn_mq.Endpoint.Owner.Subscribe.{may_subscribe, new_subscription, subscribe_local}
use rtn_mq.Endpoint.Owner.Release.{
  Release, release, of_metadata, of_pool, of_peer_slots, of_peer_bytes, of_topic_slots,
  of_topic_bytes,
}
use rtn_mq.Endpoint.Owner.Commands.{
  state_of, write_ended, on_sent, reject_remote, on_remote, on_shutdown,
}
use rtn_mq.Endpoint.Owner.Invariant.{SubSound, IsSound}
use rtn_mq.Endpoint.Owner.Invariant.Sessions.{send-PeerSound, finish-IsSound, remove_peer-IsSound}
use rtn_mq.Endpoint.Owner.Invariant.Tables.{update_peers-IsSound, modify_subscription-IsSound}
use rtn_mq.Endpoint.Owner.Invariant.Controls.{control-IsSound}

module _ (settings : Settings) (out : Outside) where
  may_subscribe-room :
      (topic : Topic) (o : Owner)
      → may_subscribe settings out topic o ≡ ok tt
      → length o.subscriptions < settings.max_topics
  unfolding may_subscribe
  may_subscribe-room topic o h = ground arith

  pub subscribe_local-IsSound :
      (size : ℕ) (topic : Topic) (mode : DeliveryMode) (o : Owner)
      → IsSound settings o
      → IsSound settings (state_of (subscribe_local size settings out topic mode o))
  unfolding subscribe_local new_subscription
  subscribe_local-IsSound size topic mode o h =
      elim (Result-cases (may_subscribe settings out topic o)) [
        | inr (e, refused) ↦ rw (subscribe_local, refused) h
        | inl (done, allowed) ↦
            let id = out.random_id in
            let s = new_subscription settings id mode in
            let o1 = record o { subscriptions = insert topic s o.subscriptions } in
            let room = may_subscribe-room topic o allowed in
            let h1 : IsSound settings o1 = record {
              peers_fit = h.peers_fit;
              subscriptions_fit = omega (arith, room, length-insert-le topic s o.subscriptions);
              sequences_fit = h.sequences_fit;
              sequences_sorted = h.sequences_sorted;
              revoked_sound = h.revoked_sound;
              peers_sound = h.peers_sound;
              subscriptions_sound =
                  Each-insert (SubSound settings) topic s o.subscriptions tt h.subscriptions_sound;
            } in
            let h2 =
              update_peers-IsSound settings o1 h1 (λ peer. send out (subscribe topic id mode))
                (λ peer. send-PeerSound settings out (subscribe topic id mode)) in
            ground (arith, allowed, h, h2)
      ]

  write_ended-IsSound :
      (key : DeliveryKey) (p : Pending) (r : Result (Unit {0})) (o : Owner)
      → IsSound settings o
      → IsSound settings (write_ended settings out key p r o)
  unfolding write_ended
  write_ended-IsSound key p (ok done) o h = ground (arith, h, finish-IsSound settings key sent o h)
  write_ended-IsSound key p (err e) o h = ground (
    arith,
    finish-IsSound settings key (failed e) o h,
    finish-IsSound settings key (failed Error.subscription_closed) o h,
    remove_peer-IsSound settings out key.peer o h,
  )

  pub on_sent-IsSound :
      (key : DeliveryKey) (session : Bytes) (r : Result (Unit {0})) (o : Owner)
      → IsSound settings o
      → IsSound settings (on_sent settings out key session r o)
  unfolding on_sent
  on_sent-IsSound key session r o h =
      let o1 = record o {
        pending = modify key (λ (q : Pending). record q { writing = false }) o.pending;
      } in
      let h1 : IsSound settings o1 = ground (arith, h) in
      elim (Option-cases (get key o.pending)) [
        | inl absent ↦ ground (arith, absent, h)
        | inr (p, there) ↦ ground (arith, there, h, write_ended-IsSound key p r o1 h1)
      ]

  reject_remote-IsSound :
      (peer : Bytes) (o : Owner)
      → IsSound settings o
      → IsSound settings (reject_remote settings out peer o)
  unfolding reject_remote
  reject_remote-IsSound peer o h = remove_peer-IsSound settings out peer _ (ground (arith, h))

  pub on_remote-IsSound :
      (peer session : Bytes) (c : Control) (o : Owner)
      → IsSound settings o
      → IsSound settings (on_remote settings out peer session c o)
  unfolding on_remote
  on_remote-IsSound peer session c o h =
      let kept = control-IsSound settings out peer o h c in
      let o' = state_of (control settings out peer o c) in
      ground (arith, h, kept, reject_remote-IsSound peer o h, reject_remote-IsSound peer o' kept)

  pub on_shutdown-IsSound :
      (o : Owner) → IsSound settings o → IsSound settings (on_shutdown settings out o)
  unfolding on_shutdown
  on_shutdown-IsSound o h =
      let o1 = record o { draining = true } in
      let h1 : IsSound settings o1 = ground (arith, h) in
      let told =
        update_peers-IsSound settings o1 h1 (λ peer. send out goodbye)
          (λ peer. send-PeerSound settings out goodbye) in
      ground (arith, h, told)

-- A permit that is dropped changes budgets alone.
pub release-IsSound :
    (settings : Settings) (from : Release) (n : ℕ) (o : Owner)
    → IsSound settings o
    → IsSound settings (release from n o)
unfolding release
release-IsSound settings of_metadata n o h = ground (arith, h)
release-IsSound settings of_pool n o h = ground (arith, h)
release-IsSound settings (of_peer_slots peer) n o h = ground (arith, h)
release-IsSound settings (of_peer_bytes peer) n o h = ground (arith, h)
release-IsSound settings (of_topic_slots topic) n o h =
    modify_subscription-IsSound settings o h topic _ (λ s sound. sound)
release-IsSound settings (of_topic_bytes topic) n o h =
    modify_subscription-IsSound settings o h topic _ (λ s sound. sound)
