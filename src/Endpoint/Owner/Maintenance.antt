-- ===== src/Endpoint/Owner/Maintenance.antt =====
-- endpoint/owner.rs: `maintenance` and `metrics`, put together.
use rtn_mq.Prelude.{
  ℕ, Bool, true, false, not, ◌&&◌, ◌||◌, Option, none, some, List, [], ◌∷◌, any, if◌then◌else◌,
  is_some,
}
use rtn_mq.Prelude.Bytes.{Bytes, bytes_key, bytes_eq}
use rtn_mq.Prelude.Map.{Map, get, remove, update_all, retain, contains_key, keys}
use rtn_mq.Error.{Error, delivery_expired}
use rtn_mq.Cbor.{Minicbor}
use rtn_mq.Message.Topic.{Topic}
use rtn_mq.Message.Topic.Ordering.{topic_key}
use rtn_mq.Wire.Control.{unsubscribe, request_credit}
use rtn_mq.Endpoint.Outcome.{failed, increment}
use rtn_mq.Endpoint.Owner.{
  Owner, Settings, Outside, unwrap_or_zero, Peer, Binding, DeliveryKey, delivery_key,
}
use rtn_mq.Endpoint.Owner.Session.{local_valid, send, finish, remove_peer}
use rtn_mq.Endpoint.Owner.Remote.{is_for}
use rtn_mq.Endpoint.Owner.Schedule.{schedule}
use rtn_mq.Endpoint.Owner.Credits.{grant_credits}
use rtn_mq.Endpoint.Owner.Upkeep.{
  error_of, prune_admission, watch_clock, stale_peers, sweep_dedup, finished,
}

unfoldable pub remove_peers : Settings → Outside → List Bytes → Owner → Owner
unfolding remove_peer
remove_peers settings out [] o = o
remove_peers settings out (peer ∷ peers) o =
    remove_peers settings out peers (remove_peer settings out peer o)

unfoldable pub end_inbound : Outside → Topic → Bytes → Peer → Peer
unfolding send
end_inbound out topic sub p =
    send out (unsubscribe topic sub) (record p { inbound = remove topic p.inbound })

-- The subscriptions whose application has dropped its end.
unfoldable pub close_subscription : Outside → Topic → Owner → Owner
unfolding end_inbound
close_subscription out topic o = elim (get topic o.subscriptions) [
  | none ↦ o
  | some s ↦
      if out.delivery_closed topic
      then record o {
        subscriptions = remove topic o.subscriptions;
        peers = update_all (λ peer. end_inbound out topic s.id) o.peers;
      }
      else o
]

unfoldable pub close_subscriptions : Outside → List Topic → Owner → Owner
unfolding close_subscription
close_subscriptions out [] o = o
close_subscriptions out (topic ∷ topics) o =
    close_subscriptions out topics (close_subscription out topic o)

abbrev pub is_expiry : Error → Bool
is_expiry delivery_expired = true
is_expiry _ = false

unfoldable pub count_expired : Error → Owner → Owner
count_expired e o =
    if is_expiry e
    then record o { stats = record o.stats { expired = increment o.stats.expired } }
    else o

unfoldable pub fail_pending : Settings → List (DeliveryKey × Error) → Owner → Owner
unfolding count_expired finish
fail_pending settings [] o = o
fail_pending settings ((key, e) ∷ rest) o =
    fail_pending settings rest (finish settings key (failed e) (count_expired e o))

-- The credits of a peer's bindings that no delivery waits for.
unfoldable pub is_idle : List DeliveryKey → Bytes → Topic → Binding → Bool
is_idle pending peer topic b = is_some b.credit && not (any (is_for peer b.sub topic) pending)

unfoldable pub clear_idle : List DeliveryKey → Bytes → Topic → Binding → Binding
unfolding is_idle
clear_idle pending peer topic b =
    if is_idle pending peer topic b then record b { credit = none } else b

unfoldable pub return_credits : Outside → List DeliveryKey → Bytes → Map Topic Binding → Peer → Peer
unfolding is_idle send
return_credits out pending peer [] p = p
return_credits out pending peer ((topic, b) ∷ m) p =
    return_credits out pending peer m
      (if is_idle pending peer topic b then send out (request_credit topic b.sub 0) p else p)

unfoldable pub return_idle : Outside → List DeliveryKey → Bytes → Peer → Peer
unfolding return_credits clear_idle
return_idle out pending peer p =
    return_credits out pending peer p.outbound
      (record p { outbound = update_all (clear_idle pending peer) p.outbound })

abbrev pub is_to : Bytes → DeliveryKey → Bool
is_to peer k = bytes_eq k.peer peer

unfoldable pub retain_budgets : Owner → Owner
retain_budgets o = record o {
  peer_budgets =
      retain (λ id budgets. contains_key id o.peers || any (is_to id) (keys o.pending))
        o.peer_budgets;
}

module _ ⦃m : Minicbor⦄ (settings : Settings) (out : Outside) where
  -- The sweeps, under the time and the error of the local certificate.
  unfoldable pub sweep : ℕ → Option Error → Owner → Owner
  unfolding remove_peers close_subscriptions sweep_dedup finished fail_pending return_idle
      retain_budgets
  sweep now local_error o =
      let o1 = remove_peers settings out (stale_peers out now local_error o.trust o.peers) o in
      let o2 = close_subscriptions out (keys o1.subscriptions) o1 in
      let o3 = sweep_dedup out now local_error o2 in
      let o4 = fail_pending settings (finished out now local_error o3 o3.pending) o3 in
      let o5 = record o4 { peers = update_all (return_idle out (keys o4.pending)) o4.peers } in
      retain_budgets o5

  unfoldable pub maintenance : Owner → Owner
  unfolding sweep watch_clock prune_admission grant_credits schedule
  maintenance o =
      let o1 = record o { admission = prune_admission (out.wall 0) o.admission } in
      let o2 = watch_clock (out.wall 1) out.instant o1 in
      let o3 = sweep (unwrap_or_zero (out.wall 1)) (error_of (local_valid (out.wall 2) o2)) o2 in
      schedule settings out (grant_credits settings out (out.wall 3) o3)
