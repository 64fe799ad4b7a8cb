-- ===== src/Endpoint/Owner/Feeding.antt =====
-- endpoint/owner.rs: what `schedule` writes to the bindings of peers.
use rtn_mq.Prelude.{
  ℕ, ◌+◌, ◌≡◌, ◌≤◌, refl, ◌∙◌, sym, subst, inl, inr, true, none, some, [], ◌∷◌, ◌++◌, length, arith,
  Option-cases, Bool-cases, ltb,
}
use rtn_mq.Prelude.Bytes.{Bytes, bytes_key, bytes_eq, bytes_eq_iff}
use rtn_mq.Prelude.Map.{Map, get, insert, modify, get-insert, get-modify}
use rtn_mq.Cbor.{Minicbor}
use rtn_mq.Message.Topic.{Topic}
use rtn_mq.Message.Topic.Ordering.{topic_key}
use rtn_mq.Wire.Data.{data_frame}
use rtn_mq.Wire.Control.{request_credit}
use rtn_mq.Endpoint.Owner.{
  Owner, Settings, Outside, Peer, Binding, Pending, DataOut, DeliveryKey, delivery_key,
}
use rtn_mq.Endpoint.Owner.Remote.{same_mode}
use rtn_mq.Endpoint.Owner.Schedule.{
  is_due, wire_size, ask_credit, used_binding, data_out, write, offer, schedule_one, schedule_loop,
  schedule,
}

module _ ⦃m : Minicbor⦄ where
  -- The bytes of a frame on the wire.
  abbrev pub frame_size : Bytes → DataOut → ℕ
  frame_size session d = length (data_frame session d.key.sub d.signed) + 12 + length d.payload

  -- Either nothing is written and the credit stays, or one frame is written that belongs to the binding
  -- and fits its credit, and the credit is gone.
  pub data Fed (session : Bytes) (b b' : Binding) : Type 0 where
    unfed : b'.sub ≡ b.sub → b'.writer ≡ b.writer → b'.credit ≡ b.credit → Fed session b b'
    fed :
        (n : ℕ) (d : DataOut)
        → b'.sub ≡ b.sub
        → b.credit ≡ some n
        → b'.credit ≡ none
        → b'.writer ≡ b.writer ++ d ∷ []
        → d.key.sub ≡ b.sub
        → frame_size session d ≤ n
        → Fed session b b'

  Fed-trans :
      (session : Bytes) (a b c : Binding) → Fed session a b → Fed session b c → Fed session a c
  Fed-trans session a b c (unfed s w r) (unfed s' w' r') = unfed (s' ∙ s) (w' ∙ w) (r' ∙ r)
  Fed-trans session a b c (unfed s w r) (fed n d s' r' e w' k f) =
      fed n d (s' ∙ s) (sym r ∙ r') e (ground (arith, w, w')) (k ∙ s) f
  Fed-trans session a b c (fed n d s r e w k f) (unfed s' w' r') =
      fed n d (s' ∙ s) r (r' ∙ e) (w' ∙ w) k f
  Fed-trans session a b c (fed n d s r e w k f) (fed n' d' s' r' e' w' k' f') =
      absurd (ground (arith, e, r'))

  -- The bindings of a peer, topic by topic.
  pub record PeerFed (p p' : Peer) : Type 0 where
    pub same_session : p'.reg.session ≡ p.reg.session
    pub bindings :
        (topic : Topic) (b : Binding)
        → get topic p.outbound ≡ some b
        → (b' : Binding) × (get topic p'.outbound ≡ some b') × Fed p.reg.session b b'

  PeerFed-refl : (p : Peer) → PeerFed p p
  PeerFed-refl p = record {
    same_session = refl;
    bindings = λ topic b h. (b, h, unfed refl refl refl);
  }

  PeerFed-trans : (p q r : Peer) → PeerFed p q → PeerFed q r → PeerFed p r
  PeerFed-trans p q r a b = record {
    same_session = b.same_session ∙ a.same_session;
    bindings = λ topic x h.
        let (y, there, first) = a.bindings topic x h in
        let (z, there', second) = b.bindings topic y there in
        let second' = subst (λ s. Fed s y z) a.same_session second in
        (z, there', Fed-trans p.reg.session x y z first second');
  }

  -- The peers of an owner.
  abbrev pub AllFed : Owner → Owner → Type 0
  AllFed o o' =
      (peer : Bytes) (p : Peer)
      → get peer o.peers ≡ some p
      → (p' : Peer) × (get peer o'.peers ≡ some p') × PeerFed p p'

  AllFed-refl : (o : Owner) → AllFed o o
  AllFed-refl o peer p h = (p, h, PeerFed-refl p)

  AllFed-trans : (a b c : Owner) → AllFed a b → AllFed b c → AllFed a c
  AllFed-trans a b c f g peer p h =
      let (q, there, first) = f peer p h in
      let (r, there', second) = g peer q there in (r, there', PeerFed-trans p q r first second)

  -- One peer in the place of another that it is fed from.
  AllFed-modify :
      (key : Bytes) (p p' : Peer) (o : Owner)
      → get key o.peers ≡ some p
      → PeerFed p p'
      → AllFed o (record o { peers = modify key (λ q. p') o.peers })
  AllFed-modify key p p' o there feeds peer q h =
      let found = get-modify key peer (λ (r : Peer). p') o.peers q h in
      elim (Bool-cases (bytes_eq key peer)) [
        | inr other ↦ (q, ground (arith, found, other), PeerFed-refl q)
        | inl same ↦
            let eq = (bytes_eq_iff key peer).0 same in
            let is_p : p ≡ q = ground (arith, there, h, eq) in
            (p', ground (arith, found, same), subst (λ r. PeerFed r p') is_p feeds)
      ]

  -- One binding in the place of another.
  PeerFed-insert :
      (topic : Topic) (b b' : Binding) (p : Peer)
      → get topic p.outbound ≡ some b
      → Fed p.reg.session b b'
      → PeerFed p (record p { outbound = insert topic b' p.outbound })
  PeerFed-insert topic b b' p there feeds = record {
    same_session = refl;
    bindings = λ t x h.
        let found = get-insert topic t b' p.outbound in
        elim (Bool-cases (topic_key.same topic t)) [
          | inr other ↦ (x, ground (arith, found, other, h), unfed refl refl refl)
          | inl same ↦
              let eq = (topic_key.same_iff topic t).0 same in
              let is_b : b ≡ x = ground (arith, there, h, eq) in
              (b', ground (arith, found, same), subst (λ y. Fed p.reg.session y b') is_b feeds)
        ];
  }

module _ ⦃m : Minicbor⦄ (settings : Settings) (out : Outside) where
  ask_credit-PeerFed :
      (peer : Peer) (b : Binding) (key : DeliveryKey) (p : Pending)
      → get key.id.topic peer.outbound ≡ some b
      → PeerFed peer (ask_credit settings out peer b key p)
  unfolding ask_credit
  ask_credit-PeerFed peer b key p there =
      let ask = request_credit key.id.topic key.sub (wire_size settings out peer key p) in
      elim (Bool-cases b.requested) [
        | inl asked ↦ rw asked (PeerFed-refl peer)
        | inr new ↦ elim (Bool-cases (out.accepts peer.reg.remote_id peer.control ask)) [
          | inl taken ↦
              rw (new, taken)
                (record {
                  same_session = refl;
                  bindings =
                      (PeerFed-insert key.id.topic b (record b { requested = true }) peer there
                        (unfed refl refl refl)).bindings;
                })
          | inr full ↦
              rw (new, full)
                (record { same_session = refl; bindings = λ t x h. (x, h, unfed refl refl refl) })
        ]
      ]

  write-AllFed :
      (peer : Peer) (b : Binding) (key : DeliveryKey) (p : Pending) (n : ℕ) (o : Owner)
      → get key.peer o.peers ≡ some peer
      → get key.id.topic peer.outbound ≡ some b
      → key.sub ≡ b.sub
      → b.credit ≡ some n
      → wire_size settings out peer key p ≤ n
      → AllFed o (write settings out peer b key p o)
  unfolding write wire_size used_binding data_out
  write-AllFed peer b key p n o there bound same credit fits =
      elim (Bool-cases (out.writer_takes key)) [
        | inr busy ↦ rw busy (AllFed-refl o)
        | inl taken ↦ rw taken (
            AllFed-modify key.peer peer
              (record peer {
                outbound = insert key.id.topic (used_binding settings out b key p) peer.outbound;
              })
              o there
              (PeerFed-insert key.id.topic b (used_binding settings out b key p) peer bound
                (fed n (data_out settings out key p) refl credit refl refl same fits)))
      ]

  offer-AllFed :
      (peer : Peer) (b : Binding) (key : DeliveryKey) (p : Pending) (o : Owner)
      → get key.peer o.peers ≡ some peer
      → get key.id.topic peer.outbound ≡ some b
      → b.sub ≡ key.sub
      → AllFed o (offer settings out peer b key p o)
  unfolding offer
  offer-AllFed peer b key p o there bound same = elim (Option-cases b.credit) [
    | inl nothing ↦
        let asked : offer settings out peer b key p o ≡ record o {
          peers = modify key.peer (λ (q : Peer). ask_credit settings out peer b key p) o.peers;
        } =
          ground (arith, nothing) in
        subst (AllFed o) (sym asked) (
          AllFed-modify key.peer peer (ask_credit settings out peer b key p) o there
            (ask_credit-PeerFed peer b key p bound))
    | inr (n, credit) ↦ elim (Bool-cases (ltb n (wire_size settings out peer key p))) [
      | inl small ↦
          let kept : offer settings out peer b key p o ≡ o = ground (arith, credit, small) in
          subst (AllFed o) (sym kept) (AllFed-refl o)
      | inr fits ↦
          let wrote : offer settings out peer b key p o ≡ write settings out peer b key p o =
            ground (arith, credit, fits) in
          subst (AllFed o) (sym wrote)
            (write-AllFed peer b key p n o there bound (sym same) credit (ground (arith, fits)))
    ]
  ]

  schedule_one-AllFed :
      (key : DeliveryKey) (p : Pending) (o : Owner) → AllFed o (schedule_one settings out key p o)
  unfolding schedule_one
  schedule_one-AllFed key p o = elim (Bool-cases (is_due out key p)) [
    | inr later ↦ rw later (AllFed-refl o)
    | inl due ↦ elim (Option-cases (get key.peer o.peers)) [
      | inl gone ↦ rw (due, gone) (AllFed-refl o)
      | inr (peer, there) ↦ elim (Option-cases (get key.id.topic peer.outbound)) [
        | inl unbound ↦ rw (due, there, unbound) (AllFed-refl o)
        | inr (b, bound) ↦ elim (Bool-cases (bytes_eq b.sub key.sub)) [
          | inr other ↦ rw (due, there, bound, other) (AllFed-refl o)
          | inl same ↦ elim (Bool-cases (same_mode b.mode p.envelope.mode)) [
            | inr other ↦ rw (due, there, bound, same, other) (AllFed-refl o)
            | inl mode ↦
                rw (due, there, bound, same, mode)
                  (offer-AllFed peer b key p o there bound ((bytes_eq_iff b.sub key.sub).0 same))
          ]
        ]
      ]
    ]
  ]

  schedule_loop-AllFed :
      (m : Map DeliveryKey Pending) (o : Owner) → AllFed o (schedule_loop settings out m o)
  unfolding schedule_loop
  schedule_loop-AllFed [] o = AllFed-refl o
  schedule_loop-AllFed ((key, p) ∷ m) o =
      let next = schedule_one settings out key p o in
      AllFed-trans o next (schedule_loop settings out m next) (schedule_one-AllFed key p o)
        (schedule_loop-AllFed m next)

  -- A turn of the scheduler, over all that is pending, keeps every session with its bindings, and on a
  -- binding it either leaves the credit and writes nothing, or uses the credit up and writes exactly one
  -- delivery, which is for the subscription of the binding and not larger than the credit.
  pub schedule-AllFed : (o : Owner) → AllFed o (schedule settings out o)
  unfolding schedule
  schedule-AllFed o = schedule_loop-AllFed o.pending o
