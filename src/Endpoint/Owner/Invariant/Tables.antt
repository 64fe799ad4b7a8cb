-- ===== src/Endpoint/Owner/Invariant/Tables.antt =====
-- endpoint/owner.rs: changes of one entry of a table within the invariant.
use rtn_mq.Prelude.{◌≡◌, some, arith}
use rtn_mq.Prelude.Bytes.{Bytes, bytes_key}
use rtn_mq.Prelude.Map.{
  get, insert, modify, update_all, length-insert-present, length-modify, length-update_all,
  insert-IsSorted,
}
use rtn_mq.Prelude.Map.Each.{Each-insert, Each-update, Each-update_all}
use rtn_mq.Message.Topic.{Topic}
use rtn_mq.Message.Topic.Ordering.{topic_key}
use rtn_mq.Endpoint.Owner.{Owner, Settings, Peer, Binding, LocalSub}
use rtn_mq.Endpoint.Owner.Invariant.{BindingSound, PeerSound, SubSound, IsSound}

-- A change of one peer, of all, and of one subscription.
module _ (settings : Settings) (o : Owner) (h : IsSound settings o) where
  pub modify_peer-IsSound :
      (peer : Bytes) (f : Peer → Peer)
      → ((p : Peer) → PeerSound settings p → PeerSound settings (f p))
      → IsSound settings (record o { peers = modify peer f o.peers })
  modify_peer-IsSound peer f keep = record {
    peers_fit = omega (arith, h.peers_fit, length-modify peer f o.peers);
    subscriptions_fit = h.subscriptions_fit;
    sequences_fit = h.sequences_fit;
    sequences_sorted = h.sequences_sorted;
    revoked_sound = h.revoked_sound;
    peers_sound = Each-update (PeerSound settings) peer f o.peers keep h.peers_sound;
    subscriptions_sound = h.subscriptions_sound;
  }

  pub update_peers-IsSound :
      (f : Bytes → Peer → Peer)
      → ((id : Bytes) (p : Peer) → PeerSound settings p → PeerSound settings (f id p))
      → IsSound settings (record o { peers = update_all f o.peers })
  update_peers-IsSound f keep = record {
    peers_fit = omega (arith, h.peers_fit, length-update_all f o.peers);
    subscriptions_fit = h.subscriptions_fit;
    sequences_fit = h.sequences_fit;
    sequences_sorted = h.sequences_sorted;
    revoked_sound = h.revoked_sound;
    peers_sound = Each-update_all (PeerSound settings) f o.peers keep h.peers_sound;
    subscriptions_sound = h.subscriptions_sound;
  }

  pub modify_subscription-IsSound :
      (topic : Topic) (f : LocalSub → LocalSub)
      → ((s : LocalSub) → SubSound settings s → SubSound settings (f s))
      → IsSound settings (record o { subscriptions = modify topic f o.subscriptions })
  modify_subscription-IsSound topic f keep = record {
    peers_fit = h.peers_fit;
    subscriptions_fit = omega (arith, h.subscriptions_fit, length-modify topic f o.subscriptions);
    sequences_fit = h.sequences_fit;
    sequences_sorted = h.sequences_sorted;
    revoked_sound = h.revoked_sound;
    peers_sound = h.peers_sound;
    subscriptions_sound =
        Each-update (SubSound settings) topic f o.subscriptions keep h.subscriptions_sound;
  }

-- A change of one binding that is there.
pub insert_binding-PeerSound :
    (settings : Settings) (topic : Topic) (b b' : Binding) (p : Peer)
    → get topic p.outbound ≡ some b
    → BindingSound b'
    → PeerSound settings p
    → PeerSound settings (record p { outbound = insert topic b' p.outbound })
insert_binding-PeerSound settings topic b b' p there sound h = record {
  outbound_fit =
      omega
        (arith, h.outbound_fit, length-insert-present topic b' p.outbound h.outbound_sorted there);
  inbound_fit = h.inbound_fit;
  outbound_sorted = insert-IsSorted topic b' p.outbound h.outbound_sorted;
  inbound_sorted = h.inbound_sorted;
  bindings_sound = Each-insert BindingSound topic b' p.outbound sound h.bindings_sound;
}
