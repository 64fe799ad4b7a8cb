-- ===== src/Endpoint/Owner/Invariant/Delivering.antt =====
-- endpoint/owner.rs: `incoming` and `grant_credits` keep the invariant.
use rtn_mq.Prelude.{
  ℕ, ◌+◌, ◌%◌, ◌≤◌, refl, inl, inr, List, [], ◌∷◌, length, arith, Bool-cases, Option-cases,
}
use Prim.Native.Nat.{min}
use rtn_mq.Prelude.Bytes.{Bytes, bytes_key}
use rtn_mq.Prelude.Map.{get, modify}
use rtn_mq.Prelude.Map.Each.{Each-insert}
use rtn_mq.Error.{Result}
use rtn_mq.Buffer.{usize_mod}
use rtn_mq.Cbor.{Minicbor}
use rtn_mq.Crypto.{Iroh}
use rtn_mq.Message.Topic.{Topic}
use rtn_mq.Message.Topic.Ordering.{topic_key}
use rtn_mq.Message.Envelope.{MessageId}
use rtn_mq.Wire.Frame.{max_metadata}
use rtn_mq.Wire.Control.{outcome, credit}
use rtn_mq.Endpoint.Owner.{
  Owner, Settings, Outside, LocalSub, dedup_key, DedupState, processing, retryable, processed,
  permanent,
}
use rtn_mq.Endpoint.Owner.Receive.{ReceiveTicket}
use rtn_mq.Endpoint.Owner.Deliver.{send_outcome, deliver, take_message, repeat, incoming}
use rtn_mq.Endpoint.Owner.Credits.{
  Accounts, granted, refused, grant_one, grant_turn, grant_loop, rotated_grants, grant_credits,
  charge_grant, accounts_of, rotate_left, candidates,
}
use rtn_mq.Endpoint.Owner.Commands.{state_of}
use rtn_mq.Endpoint.Owner.Invariant.{SubSound, GrantSound, IsSound}
use rtn_mq.Endpoint.Owner.Invariant.Sessions.{send-PeerSound}
use rtn_mq.Endpoint.Owner.Invariant.Tables.{modify_peer-IsSound, modify_subscription-IsSound}

module _ (settings : Settings) (out : Outside) where
  pub send_outcome-IsSound :
      (peer sub : Bytes) (id : MessageId) (code : ℕ) (o : Owner)
      → IsSound settings o
      → IsSound settings (send_outcome out peer sub id code o)
  unfolding send_outcome
  send_outcome-IsSound peer sub id code o h =
      let c = outcome id.topic sub id.publisher_epoch id.sequence code in
      modify_peer-IsSound settings o h peer _ (send-PeerSound settings out c)

  deliver-IsSound :
      (peer sub : Bytes) (ticket : ReceiveTicket) (payload : Bytes) (o : Owner)
      → IsSound settings o
      → IsSound settings (deliver out peer sub ticket payload o)
  unfolding deliver
  deliver-IsSound peer sub ticket payload o h =
      let e = ticket.envelope in ground (arith, h, send_outcome-IsSound peer sub e.id 1 o h)

  repeat-IsSound :
      (peer sub : Bytes) (ticket : ReceiveTicket) (payload : Bytes) (state : DedupState) (o : Owner)
      → IsSound settings o
      → IsSound settings (repeat out peer sub ticket payload state o)
  unfolding repeat
  repeat-IsSound peer sub ticket payload processed o h =
      send_outcome-IsSound peer sub ticket.envelope.id 0 o h
  repeat-IsSound peer sub ticket payload permanent o h =
      send_outcome-IsSound peer sub ticket.envelope.id 2 o h
  repeat-IsSound peer sub ticket payload processing o h = h
  repeat-IsSound peer sub ticket payload retryable o h = deliver-IsSound peer sub ticket payload o h

  granted-SubSound :
      (max_payload : ℕ) (a : Accounts) (peer : Bytes) (s : LocalSub)
      → max_payload ≤ settings.max_payload
      → SubSound settings s
      → SubSound settings (granted settings out max_payload a peer s)
  unfolding granted
  granted-SubSound max_payload a peer s small h =
      Each-insert (GrantSound settings) peer _ s.grants (refl, omega arith) h

  refused-SubSound :
      (a : Accounts) (s : LocalSub)
      → SubSound settings s
      → SubSound settings (refused settings out a s)
  unfolding refused
  refused-SubSound a s h = h

  grant_one-IsSound :
      (topic : Topic) (peer : Bytes) (max_payload : ℕ) (s : LocalSub) (o : Owner)
      → max_payload ≤ settings.max_payload
      → IsSound settings o
      → IsSound settings (grant_one settings out topic peer max_payload s o)
  unfolding grant_one
  grant_one-IsSound topic peer max_payload s o small h =
      let n = max_payload + max_metadata + 12 in
      let charged = charge_grant max_payload n (accounts_of s o) in
      let a = charged.1 in
      let o1 = record o { metadata = a.metadata; pool = a.pool } in
      let h1 : IsSound settings o1 = ground (arith, h) in
      let give = granted settings out max_payload a peer in
      let h2 =
        modify_subscription-IsSound settings o1 h1 topic give
          (λ t. granted-SubSound max_payload a peer t small) in
      let o2 = record o1 { subscriptions = modify topic give o.subscriptions } in
      let h3 =
        modify_peer-IsSound settings o2 h2 peer _
          (send-PeerSound settings out (credit topic s.id n)) in
      let h4 =
        modify_subscription-IsSound settings o1 h1 topic (refused settings out a)
          (refused-SubSound a) in
      elim (Bool-cases charged.0) [
        | inl done ↦ rw (grant_one, done) h3
        | inr full ↦ rw (grant_one, full) h4
      ]

  grant_turn-IsSound :
      (x : Topic × Bytes) (o : Owner)
      → IsSound settings o
      → IsSound settings (grant_turn settings out x o)
  unfolding grant_turn
  grant_turn-IsSound (topic, peer) o h = elim (Option-cases (get peer o.peers)) [
    | inl gone ↦ rw (grant_turn, gone) h
    | inr (p, found) ↦ elim (Option-cases (get topic o.subscriptions)) [
      | inl gone ↦ rw (grant_turn, found, gone) h
      | inr (s, there) ↦
          let max_payload = min settings.max_payload p.reg.max_payload in
          rw (grant_turn, found, there)
            (grant_one-IsSound topic peer max_payload s o (omega arith) h)
    ]
  ]

  grant_loop-IsSound :
      (xs : List (Topic × Bytes)) (o : Owner)
      → IsSound settings o
      → IsSound settings (grant_loop settings out xs o)
  unfolding grant_loop
  grant_loop-IsSound [] o h = h
  grant_loop-IsSound (x ∷ xs) o h =
      grant_loop-IsSound xs (grant_turn settings out x o) (grant_turn-IsSound x o h)

  rotated_grants-IsSound :
      (xs : List (Topic × Bytes)) (o : Owner)
      → IsSound settings o
      → IsSound settings (rotated_grants settings out xs o)
  unfolding rotated_grants
  rotated_grants-IsSound [] o h = h
  rotated_grants-IsSound (x ∷ xs) o h =
      let list = x ∷ xs in
      grant_loop-IsSound (rotate_left (o.credit_cursor % length list) list)
        (record o { credit_cursor = (o.credit_cursor + 1) % usize_mod }) (ground (arith, h))

  pub grant_credits-IsSound :
      (now : Result ℕ) (o : Owner)
      → IsSound settings o
      → IsSound settings (grant_credits settings out now o)
  unfolding grant_credits
  grant_credits-IsSound now o h =
      ground (arith, rotated_grants-IsSound (candidates o.subscriptions) o h)

module _ ⦃m : Minicbor⦄ ⦃c : Iroh⦄ (settings : Settings) (out : Outside) where
  pub incoming-IsSound :
      (peer session sub : Bytes) (ticket : ReceiveTicket) (payload : Bytes) (o : Owner)
      → IsSound settings o
      → IsSound settings (state_of (incoming out peer session sub ticket payload o))
  unfolding incoming take_message
  incoming-IsSound peer session sub ticket payload o h =
      let e = ticket.envelope in
      let new = deliver-IsSound settings out peer sub ticket payload o h in
      let late = send_outcome-IsSound settings out peer sub e.id 2 o h in
      elim (Option-cases (get (record { sub = sub; id = e.id }) o.dedup)) [
        | inl absent ↦ ground (arith, absent, new, late)
        | inr (d, there) ↦
            ground
              (arith, there, late, repeat-IsSound settings out peer sub ticket payload d.state o h)
      ]
