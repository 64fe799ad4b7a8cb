-- ===== src/Endpoint/Owner/Invariant/Sweeping.antt =====
-- endpoint/owner.rs: `maintenance` keeps the invariant.
use rtn_mq.Prelude.{ℕ, inl, inr, Option, List, [], ◌∷◌, arith, Option-cases}
use rtn_mq.Prelude.Bytes.{Bytes, bytes_key}
use rtn_mq.Prelude.Map.{Map, get, remove, update_all, keys, length-remove-le, length-update_all}
use rtn_mq.Prelude.Map.Each.{Each-remove, Each-update_all, remove-IsSorted, update_all-IsSorted}
use rtn_mq.Error.{Error}
use rtn_mq.Cbor.{Minicbor}
use rtn_mq.Message.Topic.{Topic}
use rtn_mq.Message.Topic.Ordering.{topic_key}
use rtn_mq.Wire.Control.{unsubscribe, request_credit}
use rtn_mq.Endpoint.Outcome.{failed}
use rtn_mq.Endpoint.Owner.{
  Owner, Settings, Outside, unwrap_or_zero, Peer, Binding, DeliveryKey, Dedup, DedupKey,
}
use rtn_mq.Endpoint.Owner.Session.{local_valid, finish, remove_peer}
use rtn_mq.Endpoint.Owner.Credits.{grant_credits}
use rtn_mq.Endpoint.Owner.Upkeep.{
  error_of, prune_admission, watch_clock, stale_peers, sweep_dedup, finished, send_outcomes,
  completions, settle, outcome_code,
}
use rtn_mq.Endpoint.Owner.Maintenance.{
  remove_peers, end_inbound, close_subscription, close_subscriptions, count_expired, fail_pending,
  clear_idle, return_credits, return_idle, retain_budgets, sweep, maintenance,
}
use rtn_mq.Endpoint.Owner.Invariant.{BindingSound, PeerSound, SubSound, IsSound}
use rtn_mq.Endpoint.Owner.Invariant.Sessions.{send-PeerSound, finish-IsSound, remove_peer-IsSound}
use rtn_mq.Endpoint.Owner.Invariant.Tables.{update_peers-IsSound}
use rtn_mq.Endpoint.Owner.Invariant.Delivering.{send_outcome-IsSound, grant_credits-IsSound}
use rtn_mq.Endpoint.Owner.Invariant.Publishing.{schedule-IsSound}

module _ (settings : Settings) (out : Outside) where
  pub remove_peers-IsSound :
      (peers : List Bytes) (o : Owner)
      → IsSound settings o
      → IsSound settings (remove_peers settings out peers o)
  unfolding remove_peers
  remove_peers-IsSound [] o h = h
  remove_peers-IsSound (peer ∷ peers) o h =
      remove_peers-IsSound peers (remove_peer settings out peer o)
        (remove_peer-IsSound settings out peer o h)

  end_inbound-PeerSound :
      (topic : Topic) (sub : Bytes) (p : Peer)
      → PeerSound settings p
      → PeerSound settings (end_inbound out topic sub p)
  unfolding end_inbound
  end_inbound-PeerSound topic sub p h =
      send-PeerSound settings out (unsubscribe topic sub)
        (record p { inbound = remove topic p.inbound })
        (record {
          outbound_fit = h.outbound_fit;
          inbound_fit = omega (arith, h.inbound_fit, length-remove-le topic p.inbound);
          outbound_sorted = h.outbound_sorted;
          inbound_sorted = remove-IsSorted topic p.inbound h.inbound_sorted;
          bindings_sound = h.bindings_sound;
        })

  close_subscription-IsSound :
      (topic : Topic) (o : Owner)
      → IsSound settings o
      → IsSound settings (close_subscription out topic o)
  unfolding close_subscription
  close_subscription-IsSound topic o h = elim (Option-cases (get topic o.subscriptions)) [
    | inl absent ↦ rw (close_subscription, absent) h
    | inr (s, there) ↦
        let o1 = record o { subscriptions = remove topic o.subscriptions } in
        let h1 : IsSound settings o1 = record {
          peers_fit = h.peers_fit;
          subscriptions_fit =
              omega (arith, h.subscriptions_fit, length-remove-le topic o.subscriptions);
          sequences_fit = h.sequences_fit;
          sequences_sorted = h.sequences_sorted;
          revoked_sound = h.revoked_sound;
          peers_sound = h.peers_sound;
          subscriptions_sound =
              Each-remove (SubSound settings) topic o.subscriptions h.subscriptions_sound;
        } in
        let ended =
          update_peers-IsSound settings o1 h1 (λ peer. end_inbound out topic s.id)
            (λ id. end_inbound-PeerSound topic s.id) in
        ground (arith, there, h, ended)
  ]

  close_subscriptions-IsSound :
      (topics : List Topic) (o : Owner)
      → IsSound settings o
      → IsSound settings (close_subscriptions out topics o)
  unfolding close_subscriptions
  close_subscriptions-IsSound [] o h = h
  close_subscriptions-IsSound (topic ∷ topics) o h =
      close_subscriptions-IsSound topics (close_subscription out topic o)
        (close_subscription-IsSound topic o h)

  fail_pending-IsSound :
      (xs : List (DeliveryKey × Error)) (o : Owner)
      → IsSound settings o
      → IsSound settings (fail_pending settings xs o)
  unfolding fail_pending count_expired
  fail_pending-IsSound [] o h = h
  fail_pending-IsSound ((key, e) ∷ rest) o h =
      let counted : IsSound settings (count_expired e o) = ground (arith, h) in
      fail_pending-IsSound rest (finish settings key (failed e) (count_expired e o))
        (finish-IsSound settings key (failed e) (count_expired e o) counted)

  clear_idle-BindingSound :
      (pending : List DeliveryKey) (peer : Bytes) (topic : Topic) (b : Binding)
      → BindingSound b
      → BindingSound (clear_idle pending peer topic b)
  unfolding clear_idle
  clear_idle-BindingSound pending peer topic b h = ground (arith, h)

  return_credits-PeerSound :
      (pending : List DeliveryKey) (peer : Bytes) (m : Map Topic Binding) (p : Peer)
      → PeerSound settings p
      → PeerSound settings (return_credits out pending peer m p)
  unfolding return_credits
  return_credits-PeerSound pending peer [] p h = h
  return_credits-PeerSound pending peer ((topic, b) ∷ m) p h =
      let sent = send-PeerSound settings out (request_credit topic b.sub 0) p h in
      return_credits-PeerSound pending peer m _ (ground (arith, h, sent))

  return_idle-PeerSound :
      (pending : List DeliveryKey) (peer : Bytes) (p : Peer)
      → PeerSound settings p
      → PeerSound settings (return_idle out pending peer p)
  unfolding return_idle
  return_idle-PeerSound pending peer p h =
      let clear = clear_idle pending peer in
      return_credits-PeerSound pending peer p.outbound
        (record p { outbound = update_all clear p.outbound })
        (record {
          outbound_fit = omega (arith, h.outbound_fit, length-update_all clear p.outbound);
          inbound_fit = h.inbound_fit;
          outbound_sorted = update_all-IsSorted clear p.outbound h.outbound_sorted;
          inbound_sorted = h.inbound_sorted;
          bindings_sound =
              Each-update_all BindingSound clear p.outbound (clear_idle-BindingSound pending peer)
                h.bindings_sound;
        })

  send_outcomes-IsSound :
      (now : ℕ) (e : Option Error) (m : Map DedupKey Dedup) (o : Owner)
      → IsSound settings o
      → IsSound settings (send_outcomes out now e m o)
  unfolding send_outcomes
  send_outcomes-IsSound now e [] o h = h
  send_outcomes-IsSound now e ((key, d) ∷ m) o h =
      let sent =
        send_outcome-IsSound settings out key.id.publisher_endpoint_id key.sub key.id
          (outcome_code out now e (out.disposition key)) o h in
      send_outcomes-IsSound now e m _ (ground (arith, h, sent))

  sweep_dedup-IsSound :
      (now : ℕ) (e : Option Error) (o : Owner)
      → IsSound settings o
      → IsSound settings (sweep_dedup out now e o)
  unfolding sweep_dedup
  sweep_dedup-IsSound now e o h =
      let o1 = record o {
        dedup = update_all (settle out now e) o.dedup;
        completions = completions out now e o.dedup o.completions;
      } in
      let h1 : IsSound settings o1 = ground (arith, h) in
      ground (arith, send_outcomes-IsSound now e o.dedup o1 h1)

module _ ⦃m : Minicbor⦄ (settings : Settings) (out : Outside) where
  sweep-IsSound :
      (now : ℕ) (e : Option Error) (o : Owner)
      → IsSound settings o
      → IsSound settings (sweep settings out now e o)
  unfolding sweep retain_budgets
  sweep-IsSound now e o h =
      let stale = stale_peers out now e o.trust o.peers in
      let o1 = remove_peers settings out stale o in
      let h1 = remove_peers-IsSound settings out stale o h in
      let o2 = close_subscriptions out (keys o1.subscriptions) o1 in
      let h2 = close_subscriptions-IsSound settings out (keys o1.subscriptions) o1 h1 in
      let o3 = sweep_dedup out now e o2 in
      let h3 = sweep_dedup-IsSound settings out now e o2 h2 in
      let o4 = fail_pending settings (finished out now e o3 o3.pending) o3 in
      let h4 = fail_pending-IsSound settings out (finished out now e o3 o3.pending) o3 h3 in
      let h5 =
        update_peers-IsSound settings o4 h4 (return_idle out (keys o4.pending))
          (return_idle-PeerSound settings out (keys o4.pending)) in
      ground (arith, h5)

  pub maintenance-IsSound :
      (o : Owner) → IsSound settings o → IsSound settings (maintenance settings out o)
  unfolding maintenance watch_clock
  maintenance-IsSound o h =
      let o1 = record o { admission = prune_admission (out.wall 0) o.admission } in
      let o2 = watch_clock (out.wall 1) out.instant o1 in
      let h2 : IsSound settings o2 = ground (arith, h) in
      let now = unwrap_or_zero (out.wall 1) in
      let e = error_of (local_valid (out.wall 2) o2) in
      let o3 = sweep settings out now e o2 in
      let h3 = sweep-IsSound now e o2 h2 in
      schedule-IsSound settings out (grant_credits settings out (out.wall 3) o3)
        (grant_credits-IsSound settings out (out.wall 3) o3 h3)
