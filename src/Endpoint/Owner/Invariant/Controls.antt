-- ===== src/Endpoint/Owner/Invariant/Controls.antt =====
-- endpoint/owner.rs: `subscribe` and the control messages of a peer keep the invariant.
use rtn_mq.Prelude.{
  ℕ, zero, suc, ◌≡◌, inl, inr, false, not, ◌&&◌, none, some, length, arith, Bool-cases,
  Option-cases, leb,
}
use rtn_mq.Prelude.Bytes.{Bytes, bytes_key}
use rtn_mq.Prelude.Map.{
  get, contains_key, insert, keys, length-insert-le, length-remove-le, length-modify,
  insert-IsSorted,
}
use rtn_mq.Prelude.Map.Each.{
  Each-get, Each-insert, Each-remove, Each-update, remove-IsSorted, modify-IsSorted,
}
use rtn_mq.Error.{Result, ok, err, unauthorized, queue_full, subscription_closed}
use rtn_mq.Message.Topic.{Topic}
use rtn_mq.Message.Topic.Ordering.{topic_key}
use rtn_mq.Message.Envelope.{DeliveryMode}
use rtn_mq.Wire.Control.{
  Control, subscribe, suback, unsubscribe, credit, request_credit, outcome, error, goodbye,
}
use rtn_mq.Endpoint.Outcome.{failed}
use rtn_mq.Endpoint.Owner.{Owner, Settings, Outside, Peer, Binding, LocalSub}
use rtn_mq.Endpoint.Owner.Session.{send}
use rtn_mq.Endpoint.Owner.Remote.{
  new_binding, unbind, take_credit, give_back, credited, confirm, demand_credit, on_subscribe,
  on_suback, on_unsubscribe, on_request_credit, on_credit, on_outcome, on_goodbye, control, to_peer,
  has_sub, keys_for, is_for, is_full, bind_topic,
}
use rtn_mq.Endpoint.Owner.Commands.{state_of}
use rtn_mq.Endpoint.Owner.Invariant.{BindingSound, PeerSound, SubSound, GrantSound, IsSound}
use rtn_mq.Endpoint.Owner.Invariant.Tables.{
  modify_peer-IsSound, modify_subscription-IsSound, insert_binding-PeerSound,
}
use rtn_mq.Endpoint.Owner.Invariant.Sessions.{send-PeerSound, finish_all-IsSound}

-- A binding that is sound takes a credit without a trace of a request.
take_credit-BindingSound :
    (bytes : ℕ) (b : Binding) → BindingSound b → BindingSound (take_credit bytes b).1
unfolding take_credit
take_credit-BindingSound bytes b h = ground arith

bind-PeerSound :
    (settings : Settings) (topic : Topic) (b : Binding) (p : Peer)
    → (not (contains_key topic p.outbound) && leb settings.max_topics (length p.outbound)) ≡ false
    → BindingSound b
    → PeerSound settings p
    → PeerSound settings (record p { outbound = insert topic b p.outbound })
bind-PeerSound settings topic b p room sound h = elim (Option-cases (get topic p.outbound)) [
  | inl absent ↦ record {
    outbound_fit = ground (arith, absent, length-insert-le topic b p.outbound, h.outbound_fit);
    inbound_fit = h.inbound_fit;
    outbound_sorted = insert-IsSorted topic b p.outbound h.outbound_sorted;
    inbound_sorted = h.inbound_sorted;
    bindings_sound = Each-insert BindingSound topic b p.outbound sound h.bindings_sound;
  }
  | inr (old, there) ↦ insert_binding-PeerSound settings topic old b p there sound h
]

unbind-PeerSound :
    (settings : Settings) (out : Outside) (peer : Bytes) (o : Owner) (topic : Topic) (sub : Bytes)
    (p : Peer)
    → PeerSound settings p
    → PeerSound settings (unbind settings out peer o topic sub p)
unfolding unbind
unbind-PeerSound settings out peer o topic sub p h =
    elim (Bool-cases (has_sub sub (get topic p.outbound))) [
      | inr other ↦ rw (unbind, other) h
      | inl same ↦
          rw (unbind, same)
            (record {
              outbound_fit = omega (arith, h.outbound_fit, length-remove-le topic p.outbound);
              inbound_fit = h.inbound_fit;
              outbound_sorted = remove-IsSorted topic p.outbound h.outbound_sorted;
              inbound_sorted = h.inbound_sorted;
              bindings_sound = Each-remove BindingSound topic p.outbound h.bindings_sound;
            })
    ]

give_back-PeerSound :
    (settings : Settings) (out : Outside) (peer : Bytes) (o : Owner) (topic : Topic) (sub : Bytes)
    (p : Peer)
    → PeerSound settings p
    → PeerSound settings (give_back settings out peer o topic sub p)
unfolding give_back
give_back-PeerSound settings out peer o topic sub p h =
    let clear = λ (b : Binding). record b { credit = none } in
    send-PeerSound settings out (request_credit topic sub 0) _ (record {
      outbound_fit = omega (arith, h.outbound_fit, length-modify topic clear p.outbound);
      inbound_fit = h.inbound_fit;
      outbound_sorted = modify-IsSorted topic clear p.outbound h.outbound_sorted;
      inbound_sorted = h.inbound_sorted;
      bindings_sound =
          Each-update BindingSound topic clear p.outbound (λ b sound. ground arith)
            h.bindings_sound;
    })

confirm-SubSound :
    (settings : Settings) (peer : Bytes) (result : Result (Unit {0})) (s : LocalSub)
    → SubSound settings s
    → SubSound settings (confirm peer result s)
unfolding confirm
confirm-SubSound settings peer result s h = h

demand_credit-SubSound :
    (settings : Settings) (peer : Bytes) (n : ℕ) (s : LocalSub)
    → SubSound settings s
    → SubSound settings (demand_credit peer n s)
unfolding demand_credit
demand_credit-SubSound settings peer zero s h = Each-remove (GrantSound settings) peer s.grants h
demand_credit-SubSound settings peer (suc n) s h = h

module _ (settings : Settings) (out : Outside) (peer : Bytes) (o : Owner)
    (h : IsSound settings o) where
  reply-IsSound : (c : Control) → IsSound settings (to_peer settings out peer o (send out c))
  reply-IsSound c =
      modify_peer-IsSound settings o h peer (send out c) (send-PeerSound settings out c)

  on_unsubscribe-IsSound :
      (topic : Topic) (sub : Bytes)
      → IsSound settings (state_of (on_unsubscribe settings out peer o topic sub))
  unfolding on_unsubscribe
  on_unsubscribe-IsSound topic sub =
      finish_all-IsSound settings (keys_for (is_for peer sub topic) (keys o.pending))
        (failed subscription_closed)
        (to_peer settings out peer o (unbind settings out peer o topic sub))
        (modify_peer-IsSound settings o h peer (unbind settings out peer o topic sub)
          (unbind-PeerSound settings out peer o topic sub))

  on_suback-IsSound :
      (topic : Topic) (sub : Bytes) (code : ℕ)
      → IsSound settings (state_of (on_suback settings out peer o topic sub code))
  unfolding on_suback
  on_suback-IsSound topic sub code =
      let confirmed = λ (result : Result (Unit {0})).
        modify_subscription-IsSound settings o h topic (confirm peer result)
          (confirm-SubSound settings peer result) in
      ground (arith, confirmed (ok tt), confirmed (err unauthorized), confirmed (err queue_full))

  on_request_credit-IsSound :
      (topic : Topic) (sub : Bytes) (n : ℕ)
      → IsSound settings (state_of (on_request_credit settings out peer o topic sub n))
  unfolding on_request_credit
  on_request_credit-IsSound topic sub n = ground (
    arith,
    modify_subscription-IsSound settings o h topic (demand_credit peer n)
        (demand_credit-SubSound settings peer n),
  )

  credited-IsSound :
      (topic : Topic) (sub : Bytes) (n : ℕ) (p : Peer) (b : Binding)
      → get peer o.peers ≡ some p
      → get topic p.outbound ≡ some b
      → IsSound settings (state_of (credited settings out peer o topic sub n p b))
  unfolding credited
  credited-IsSound topic sub n p b found bound =
      let old = Each-get (PeerSound settings) peer o.peers p h.peers_sound found in
      let b' = (take_credit n b).1 in
      let taken =
        take_credit-BindingSound n b
          (Each-get BindingSound topic p.outbound b old.bindings_sound bound) in
      let p' = record p { outbound = insert topic b' p.outbound } in
      let kept = insert_binding-PeerSound settings topic b b' p bound taken old in
      let back = give_back-PeerSound settings out peer o topic sub p' kept in
      modify_peer-IsSound settings o h peer _ (λ q hq. ground (arith, kept, back))

  on_credit-IsSound :
      (topic : Topic) (sub : Bytes) (n : ℕ)
      → IsSound settings (state_of (on_credit settings out peer o topic sub n))
  unfolding on_credit
  on_credit-IsSound topic sub n = elim (Option-cases (get peer o.peers)) [
    | inl absent ↦ rw (on_credit, absent) h
    | inr (p, found) ↦ elim (Option-cases (get topic p.outbound)) [
      | inl unbound ↦ ground (arith, found, unbound)
      | inr (b, bound) ↦ ground (arith, found, bound, credited-IsSound topic sub n p b found bound)
    ]
  ]

  bind_topic-IsSound :
      (topic : Topic) (sub : Bytes) (mode : DeliveryMode) (p : Peer)
      → get peer o.peers ≡ some p
      → is_full settings out peer o topic p ≡ false
      → IsSound settings (state_of (bind_topic settings out peer o topic sub mode p))
  unfolding bind_topic is_full
  bind_topic-IsSound topic sub mode p found room =
      let old = Each-get (PeerSound settings) peer o.peers p h.peers_sound found in
      let b = new_binding sub mode in
      let p' = record p { outbound = insert topic b p.outbound } in
      let bound = bind-PeerSound settings topic b p (ground arith) (ground arith) old in
      let sent = send-PeerSound settings out (suback topic sub 0) p' bound in
      let h' =
        modify_peer-IsSound settings o h peer (λ q. send out (suback topic sub 0) p')
          (λ q hq. sent) in
      ground (arith, h')

  on_subscribe-IsSound :
      (topic : Topic) (sub : Bytes) (mode : DeliveryMode)
      → IsSound settings (state_of (on_subscribe settings out peer o topic sub mode))
  unfolding on_subscribe
  on_subscribe-IsSound topic sub mode = elim (Option-cases (get peer o.peers)) [
    | inl absent ↦ rw (on_subscribe, absent) h
    | inr (p, found) ↦
        let reply = λ (code : ℕ). reply-IsSound (suback topic sub code) in
        elim (Bool-cases (is_full settings out peer o topic p)) [
          | inl full ↦ ground (arith, found, full, reply 0, reply 1, reply 2)
          | inr room ↦
              ground (
                arith,
                found,
                room,
                reply 0,
                reply 1,
                bind_topic-IsSound topic sub mode p found room,
              )
        ]
  ]

  on_outcome-IsSound :
      (topic : Topic) (sub epoch : Bytes) (sequence code : ℕ)
      → IsSound settings (state_of (on_outcome settings out peer o topic sub epoch sequence code))
  unfolding on_outcome
  on_outcome-IsSound topic sub epoch sequence code = ground arith

  on_goodbye-IsSound : IsSound settings (state_of (on_goodbye settings out peer o))
  unfolding on_goodbye
  on_goodbye-IsSound =
      modify_peer-IsSound settings o h peer
        (λ (p : Peer). record p { reg = record p.reg { window_secs = 0 } }) (λ p hp. ground arith)

  -- Every control message leaves a sound owner sound, also one that is refused.
  pub control-IsSound : (c : Control) → IsSound settings (state_of (control settings out peer o c))
  unfolding control
  control-IsSound (subscribe topic sub mode) = on_subscribe-IsSound topic sub mode
  control-IsSound (suback topic sub code) = on_suback-IsSound topic sub code
  control-IsSound (unsubscribe topic sub) = on_unsubscribe-IsSound topic sub
  control-IsSound (request_credit topic sub n) = on_request_credit-IsSound topic sub n
  control-IsSound (credit topic sub n) = on_credit-IsSound topic sub n
  control-IsSound (outcome topic sub epoch sequence code) =
      on_outcome-IsSound topic sub epoch sequence code
  control-IsSound (error code) = h
  control-IsSound goodbye = on_goodbye-IsSound
