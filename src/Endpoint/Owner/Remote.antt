-- ===== src/Endpoint/Owner/Remote.antt =====
-- endpoint/owner.rs: the handlers of a peer's control messages.
use rtn_mq.Prelude.{
  ℕ, zero, suc, ◌+◌, Bool, true, false, not, ◌&&◌, ◌||◌, Option, none, some, List, [], ◌∷◌, length,
  ltb, leb, ◌==◌, if◌then◌else◌, is_some, any,
}
use rtn_mq.Prelude.Bytes.{Bytes, bytes_key, bytes_eq}
use rtn_mq.Prelude.Map.{get, insert, remove, modify, contains_key, keys}
use rtn_mq.Error.{
  Result, ok, err, protocol, unauthorized, peer_unavailable, queue_full, subscription_closed, is_ok,
}
use rtn_mq.Buffer.{reserve}
use rtn_mq.Auth.Claims.{allows}
use rtn_mq.Message.Topic.{Topic, topic_eq}
use rtn_mq.Message.Topic.Ordering.{topic_key}
use rtn_mq.Message.Envelope.{DeliveryMode, best_effort, acknowledged}
use rtn_mq.Wire.Frame.{max_metadata}
use rtn_mq.Wire.Control.{
  Control, subscribe, suback, unsubscribe, credit, request_credit, outcome, error, goodbye,
}
use rtn_mq.Endpoint.Outcome.{failed, processed, permanent_nack, increment}
use rtn_mq.Endpoint.Owner.{
  Owner, Settings, Outside, Answer, Peer, Binding, LocalSub, Pending, DeliveryKey, delivery_key,
  nanoseconds,
}
use rtn_mq.Endpoint.Owner.Subscribe.{at_ceiling}
use rtn_mq.Endpoint.Owner.Session.{send, finish, finish_all}

abbrev pub same_mode : DeliveryMode → DeliveryMode → Bool
same_mode best_effort best_effort = true
same_mode best_effort acknowledged = false
same_mode acknowledged best_effort = false
same_mode acknowledged acknowledged = true

abbrev pub is_bound : Bytes → DeliveryMode → Option Binding → Bool
is_bound sub mode none = false
is_bound sub mode (some b) = bytes_eq b.sub sub && same_mode b.mode mode

abbrev pub has_sub : Bytes → Option Binding → Bool
has_sub sub none = false
has_sub sub (some b) = bytes_eq b.sub sub

unfoldable pub new_binding : Bytes → DeliveryMode → Binding
new_binding sub mode = record {
  sub = sub;
  mode = mode;
  credit = none;
  requested = false;
  writer = [];
}

-- A delivery of this subscription of the peer.
abbrev pub is_for : Bytes → Bytes → Topic → DeliveryKey → Bool
is_for peer sub topic k = bytes_eq k.peer peer && (bytes_eq k.sub sub && topic_eq k.id.topic topic)

unfoldable pub keys_for : (DeliveryKey → Bool) → List DeliveryKey → List DeliveryKey
keys_for p [] = []
keys_for p (k ∷ ks) = let rest = keys_for p ks in if p k then k ∷ rest else rest

-- A credit is taken by a binding that has asked for one and has none. `replace` has put the new credit
-- there by the time that the old one is seen.
unfoldable pub take_credit : ℕ → Binding → Result (Unit {0}) × Binding
take_credit bytes b =
    if not b.requested
    then (err (protocol "unsolicited or duplicate credit grant"), b)
    else if is_some b.credit
    then (err (protocol "unsolicited or duplicate credit grant"), record b { credit = some bytes })
    else (ok tt, record b { credit = some bytes; requested = false })

unfoldable pub suback_result : ℕ → Result (Result (Unit {0}))
suback_result code =
    if code == 0
    then ok (ok tt)
    else if code == 1
    then ok (err unauthorized)
    else if code == 2
    then ok (err queue_full)
    else err (protocol "SUBACK code")

unfoldable pub confirm : Bytes → Result (Unit {0}) → LocalSub → LocalSub
confirm peer result s = record s {
  confirmed = elim result [ ok done ↦ insert peer tt s.confirmed | err e ↦ s.confirmed ];
  ready = insert peer result s.ready;
}

-- A demand of 0 bytes takes the demand and the unused grant back.
unfoldable pub demand_credit : Bytes → ℕ → LocalSub → LocalSub
demand_credit peer zero s = record s {
  grants = remove peer s.grants;
  demand = remove peer s.demand;
}
demand_credit peer (suc n) s = record s { demand = insert peer (suc n) s.demand }

module _ (settings : Settings) (out : Outside) (peer : Bytes) (o : Owner) where
  abbrev pub to_peer : (Peer → Peer) → Owner
  to_peer f = record o { peers = modify peer f o.peers }

  -- The bindings of the peer leave no room for one more.
  unfoldable pub is_full : Topic → Peer → Bool
  is_full topic p =
      let n = length p.outbound in
      not (contains_key topic p.outbound)
      && (leb settings.max_topics n
          || leb p.reg.max_topics n
          || at_ceiling p.reg.cert.limits.max_subscriptions n)

  -- A new binding, with a task that writes its deliveries.
  unfoldable pub bind_topic : Topic → Bytes → DeliveryMode → Peer → Answer (Unit {0})
  unfolding send new_binding reserve
  bind_topic topic sub mode p = elim (reserve 2048 o.metadata) [
    | err e ↦ (err e, o)
    | ok (budget, memory) ↦
        let p' = record p { outbound = insert topic (new_binding sub mode) p.outbound } in
        (
          ok tt,
          record o {
            metadata = budget;
            peers = modify peer (λ (q : Peer). send out (suback topic sub 0) p') o.peers;
          },
        )
  ]

  unfoldable pub on_subscribe : Topic → Bytes → DeliveryMode → Answer (Unit {0})
  unfolding send is_full bind_topic
  on_subscribe topic sub mode = elim (get peer o.peers) [
    | none ↦ (err peer_unavailable, o)
    | some p ↦
        let reply = λ (code : ℕ). to_peer (send out (suback topic sub code)) in
        if not (allows p.reg.cert topic false && allows o.cert topic true && not o.draining)
        then (ok tt, reply 1)
        else if is_bound sub mode (get topic p.outbound)
        then (ok tt, reply 0)
        else if is_full topic p
        then (ok tt, reply 2)
        else bind_topic topic sub mode p
  ]

  unfoldable pub on_suback : Topic → Bytes → ℕ → Answer (Unit {0})
  unfolding suback_result confirm
  on_suback topic sub code = elim (get topic o.subscriptions) [
    | none ↦ (ok tt, o)
    | some s ↦
        if bytes_eq s.id sub
        then elim (suback_result code) [
          | err e ↦ (err e, o)
          | ok result ↦ (
            ok tt,
            record o { subscriptions = modify topic (confirm peer result) o.subscriptions },
          )
        ]
        else (ok tt, o)
  ]

  -- The binding of another subscription stays.
  unfoldable pub unbind : Topic → Bytes → Peer → Peer
  unbind topic sub p =
      if has_sub sub (get topic p.outbound)
      then record p { outbound = remove topic p.outbound }
      else p

  unfoldable pub on_unsubscribe : Topic → Bytes → Answer (Unit {0})
  unfolding unbind keys_for finish_all
  on_unsubscribe topic sub = (
    ok tt,
    finish_all settings (keys_for (is_for peer sub topic) (keys o.pending))
        (failed subscription_closed) (to_peer (unbind topic sub)),
  )

  unfoldable pub on_request_credit : Topic → Bytes → ℕ → Answer (Unit {0})
  unfolding demand_credit
  on_request_credit topic sub bytes =
      if ltb (settings.max_payload + max_metadata + 12) bytes
      then (err (protocol "credit request ceiling"), o)
      else elim (get topic o.subscriptions) [
        | none ↦ (ok tt, o)
        | some s ↦
            if bytes_eq s.id sub && contains_key peer s.confirmed
            then (
              ok tt,
              record o { subscriptions = modify topic (demand_credit peer bytes) o.subscriptions },
            )
            else (ok tt, o)
      ]

  -- A credit that nothing waits for is given back.
  unfoldable pub give_back : Topic → Bytes → Peer → Peer
  unfolding send
  give_back topic sub p = send out (request_credit topic sub 0) (record p {
    outbound = modify topic (λ (b : Binding). record b { credit = none }) p.outbound;
  })

  -- A credit for this binding.
  unfoldable pub credited : Topic → Bytes → ℕ → Peer → Binding → Answer (Unit {0})
  unfolding take_credit give_back
  credited topic sub bytes p b =
      let (taken, b') = take_credit bytes b in
      let p' = record p { outbound = insert topic b' p.outbound } in
      let waits = any (is_for peer sub topic) (keys o.pending) in
      (
        taken,
        to_peer (λ (q : Peer). if waits || not (is_ok taken) then p' else give_back topic sub p'),
      )

  -- A credit for an old subscription is ignored.
  unfoldable pub on_credit : Topic → Bytes → ℕ → Answer (Unit {0})
  unfolding credited
  on_credit topic sub bytes = elim (get peer o.peers) [
    | none ↦ (err peer_unavailable, o)
    | some p ↦
        if ltb (p.reg.max_payload + max_metadata + 12) bytes || bytes == 0
        then (err (protocol "credit byte ceiling"), o)
        else elim (get topic p.outbound) [
          | none ↦ (ok tt, o)
          | some b ↦ if bytes_eq b.sub sub then credited topic sub bytes p b else (ok tt, o)
        ]
  ]

  unfoldable pub count_processed : Owner → Owner
  count_processed o' = record o' {
    stats = record o'.stats { processed = increment o'.stats.processed };
  }

  unfoldable pub retry_later : DeliveryKey → Owner
  retry_later key = record o {
    pending =
        modify key
          (λ (p : Pending). record p { next = out.instant + nanoseconds settings.retry_interval })
          o.pending;
  }

  unfoldable pub on_outcome : Topic → Bytes → Bytes → ℕ → ℕ → Answer (Unit {0})
  unfolding finish count_processed retry_later
  on_outcome topic sub epoch sequence code =
      let key : DeliveryKey = record {
        peer = peer;
        sub = sub;
        id = record {
          realm_id = o.trust.realm;
          publisher_endpoint_id = o.endpoint_id;
          publisher_epoch = epoch;
          topic = topic;
          sequence = sequence;
        };
      } in
      elim (get key o.pending) [
        | none ↦
            if contains_key key o.terminal
            then (ok tt, o)
            else (err (protocol "acknowledgement for an unaddressed delivery"), o)
        | some p ↦
            if p.attempts == 0
            then (err (protocol "ACK before DATA"), o)
            else if code == 0
            then (ok tt, finish settings key processed (count_processed o))
            else if code == 1
            then (ok tt, retry_later key)
            else if code == 2
            then (ok tt, finish settings key permanent_nack o)
            else (err (protocol "outcome"), o)
      ]

  -- `Goodbye` ends the admission of new deliveries to the peer.
  unfoldable pub on_goodbye : Answer (Unit {0})
  on_goodbye = (ok tt, to_peer (λ (p : Peer). record p { reg = record p.reg { window_secs = 0 } }))

  unfoldable pub control : Control → Answer (Unit {0})
  unfolding on_subscribe on_suback on_unsubscribe on_request_credit on_credit on_outcome on_goodbye
  control (subscribe topic sub mode) = on_subscribe topic sub mode
  control (suback topic sub code) = on_suback topic sub code
  control (unsubscribe topic sub) = on_unsubscribe topic sub
  control (request_credit topic sub bytes) = on_request_credit topic sub bytes
  control (credit topic sub bytes) = on_credit topic sub bytes
  control (outcome topic sub epoch sequence code) = on_outcome topic sub epoch sequence code
  control (error code) = (err (protocol "remote error"), o)
  control goodbye = on_goodbye
