-- ===== src/Endpoint/Owner/Invariant/Receiving.antt =====
-- endpoint/owner.rs: `begin`, `incoming` and `grant_credits` keep the invariant, and `begin` returns.
use rtn_mq.Prelude.{
  ℕ, ◌≤◌, ◌≡◌, ◌≢◌, inl, inr, false, not, ◌&&◌, none, some, length, arith, Option-cases, leb,
}
use rtn_mq.Prelude.Bytes.{Bytes, bytes_key}
use rtn_mq.Prelude.Map.{
  get, insert, modify, contains_key, length-insert-le, length-insert-present, insert-IsSorted,
}
use rtn_mq.Prelude.Map.Each.{Each-get, Each-remove}
use rtn_mq.Error.{Result, ok, err, Result-cases}
use rtn_mq.Buffer.{shrink_to}
use rtn_mq.Cbor.{Minicbor}
use rtn_mq.Crypto.{Iroh}
use rtn_mq.Auth.Cose.{parse_cose, verify_cose}
use rtn_mq.Message.Topic.{Topic}
use rtn_mq.Message.Topic.Ordering.{topic_key}
use rtn_mq.Message.Envelope.{Envelope, verify}
use rtn_mq.Endpoint.Owner.{Owner, Settings, Outside, Peer, LocalSub, Grant}
use rtn_mq.Endpoint.Owner.Session.{peer_valid}
use rtn_mq.Endpoint.Owner.Receive.{
  ReceiveTicket, check_frame, claim_stream, find_grant, open_ticket, use_grant, drop_grant, begin,
}
use rtn_mq.Endpoint.Owner.Invariant.{PeerSound, SubSound, GrantSound, IsSound}
use rtn_mq.Endpoint.Owner.Invariant.Tables.{modify_peer-IsSound, modify_subscription-IsSound}

drop_grant-SubSound :
    (settings : Settings) (peer : Bytes) (s : LocalSub)
    → SubSound settings s
    → SubSound settings (drop_grant peer s)
unfolding drop_grant
drop_grant-SubSound settings peer s h = Each-remove (GrantSound settings) peer s.grants h

module _ ⦃m : Minicbor⦄ ⦃c : Iroh⦄ where
  verify-size :
      (signed peer : Bytes) {e : Envelope} → verify signed peer ≡ ok e → length signed ≤ 4096
  unfolding verify verify_cose parse_cose
  verify-size signed peer h = ground arith

  pub peer_valid-get :
      (now : Result ℕ) (peer session : Bytes) (o : Owner) {p : Peer}
      → peer_valid now peer session o ≡ ok p
      → get peer o.peers ≡ some p
  unfolding peer_valid
  peer_valid-get now peer session o h = ground arith

  module _ (settings : Settings) (out : Outside) where
    pub check_frame-verify :
        (peer session signed : Bytes) (len : ℕ) (o : Owner) {p : Peer} {e : Envelope}
        → check_frame settings out peer session signed len o ≡ ok (p, e)
        → (verify signed peer ≡ ok e) × (peer_valid (out.wall 0) peer session o ≡ ok p)
    unfolding check_frame
    check_frame-verify peer session signed len o h = ground arith

    inbound-fits :
        (sub : Bytes) (stream : ℕ) (topic : Topic) (p : Peer)
        → PeerSound settings p
        → (not (contains_key topic p.inbound) && leb settings.max_topics (length p.inbound)) ≡ false
        → length (insert topic (sub, stream) p.inbound) ≤ settings.max_topics
    inbound-fits sub stream topic p h room = elim (Option-cases (get topic p.inbound)) [
      | inl absent ↦
          ground (arith, absent, length-insert-le topic (sub, stream) p.inbound, h.inbound_fit)
      | inr (old, there) ↦ omega (
        arith,
        h.inbound_fit,
        length-insert-present topic (sub, stream) p.inbound h.inbound_sorted there,
      )
    ]

    open_ticket-ne-none :
        (session sub signed : Bytes) (len : ℕ) (e : Envelope) (g : Grant) (o : Owner)
        → GrantSound settings g
        → length signed ≤ 4096
        → open_ticket settings out session sub signed len e g o ≢ none
    unfolding open_ticket shrink_to
    open_ticket-ne-none session sub signed len e g o sound size = ground arith

    claim_stream-PeerSound :
        (sub : Bytes) (stream : ℕ) (topic : Topic) (p : Peer) {p' : Peer}
        → PeerSound settings p
        → claim_stream settings out sub stream topic p ≡ ok p'
        → PeerSound settings p'
    unfolding claim_stream
    claim_stream-PeerSound sub stream topic p {p'} h claimed =
        let claims : p' ≡ record p { inbound = insert topic (sub, stream) p.inbound } =
          ground arith in
        let room : (not (contains_key topic p.inbound)
              && leb settings.max_topics (length p.inbound))
            ≡ false =
          ground arith in
        rw claims (record {
          outbound_fit = h.outbound_fit;
          inbound_fit = inbound-fits sub stream topic p h room;
          outbound_sorted = h.outbound_sorted;
          inbound_sorted = insert-IsSorted topic (sub, stream) p.inbound h.inbound_sorted;
          bindings_sound = h.bindings_sound;
        })

    find_grant_sound :
        (peer sub : Bytes) (e : Envelope) (o : Owner) {g : Grant}
        → IsSound settings o
        → find_grant settings out peer sub e o ≡ ok g
        → GrantSound settings g
    unfolding find_grant
    find_grant_sound peer sub e o {g} h found = elim (Option-cases (get e.topic o.subscriptions)) [
      | inl absent ↦ absurd (ground (arith, absent))
      | inr (s, there) ↦ elim (Option-cases (get peer s.grants)) [
        | inl absent ↦ absurd (ground (arith, there, absent))
        | inr (g', held) ↦
            let same : g' ≡ g = ground (arith, there, held) in
            let grants =
              Each-get (SubSound settings) e.topic o.subscriptions s h.subscriptions_sound there in
            rw (← same) (Each-get (GrantSound settings) peer s.grants g' grants held)
      ]
    ]

    use_grant-total :
        (peer session sub signed : Bytes) (len : ℕ) (e : Envelope) (g : Grant) (o : Owner)
        → IsSound settings o
        → GrantSound settings g
        → length signed ≤ 4096
        → (r : Result ReceiveTicket) × (o' : Owner) × (use_grant settings out peer session sub
              signed len e g o
            ≡ some (r, o'))
          × IsSound settings o'
    unfolding use_grant
    use_grant-total peer session sub signed len e g o h sound size =
        let o1 = record o { subscriptions = modify e.topic (drop_grant peer) o.subscriptions } in
        let h1 =
          modify_subscription-IsSound settings o h e.topic (drop_grant peer)
            (drop_grant-SubSound settings peer) in
        elim (Option-cases (open_ticket settings out session sub signed len e g o1)) [
          | inl panics ↦
              absurd (open_ticket-ne-none session sub signed len e g o1 sound size panics)
          | inr (err error, refused) ↦ (err error, o1, rw (use_grant, refused), h1)
          | inr (ok (ticket, budget), opened) ↦ (
            ok ticket,
            record o1 { metadata = budget },
            rw (use_grant, opened),
            ground (arith, h1),
          )
        ]

    -- From a sound owner `begin` does not end at the panic of `Permit::shrink_to`, and the owner stays
    -- sound.
    pub begin-total :
        (peer session sub : Bytes) (stream : ℕ) (signed : Bytes) (len : ℕ) (o : Owner)
        → IsSound settings o
        → (r : Result ReceiveTicket) × (o' : Owner) × (begin settings out peer session sub stream
              signed len o
            ≡ some (r, o'))
          × IsSound settings o'
    unfolding begin
    begin-total peer session sub stream signed len o h =
        elim (Result-cases (check_frame settings out peer session signed len o)) [
          | inr (error, refused) ↦ (err error, o, rw (begin, refused), h)
          | inl ((p, e), checked) ↦
              elim (Result-cases (claim_stream settings out sub stream e.topic p)) [
                | inr (error, refused) ↦ (err error, o, rw (begin, checked, refused), h)
                | inl (p', claimed) ↦
                    let (verified, valid) = check_frame-verify peer session signed len o checked in
                    let found = peer_valid-get (out.wall 0) peer session o valid in
                    let old = Each-get (PeerSound settings) peer o.peers p h.peers_sound found in
                    let sound = claim_stream-PeerSound sub stream e.topic p old claimed in
                    let o1 = record o { peers = modify peer (λ (q : Peer). p') o.peers } in
                    let h1 = modify_peer-IsSound settings o h peer (λ q. p') (λ q hq. sound) in
                    elim (Result-cases (find_grant settings out peer sub e o1)) [
                      | inr (error, refused) ↦
                          (err error, o1, rw (begin, checked, claimed, refused), h1)
                      | inl (g, held) ↦
                          let (r, o2, used, h2) =
                            use_grant-total peer session sub signed len e g o1 h1
                              (find_grant_sound peer sub e o1 h1 held)
                              (verify-size signed peer verified) in
                          (r, o2, rw (begin, checked, claimed, held) used, h2)
                    ]
              ]
        ]
