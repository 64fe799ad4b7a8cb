-- ===== src/Endpoint/Owner/Invariant.antt =====
-- endpoint/owner.rs: what holds of the owner between its turns.
pub mod Sessions
pub mod Tables
pub mod Controls
pub mod Receiving
pub mod Delivering
pub mod Publishing
pub mod Sweeping
pub mod Turns
pub mod Running
use rtn_mq.Prelude.{
  ℕ, ◌+◌, ◌*◌, ◌≤◌, ◌≡◌, refl, Bool, true, false, ◌&&◌, List, [], ◌∷◌, length, is_some, arith,
}
use rtn_mq.Prelude.Bytes.{Bytes, bytes_key}
use rtn_mq.Prelude.Map.{IsSorted}
use rtn_mq.Prelude.Map.Each.{Each}
use rtn_mq.Message.Topic.Ordering.{topic_key}
use rtn_mq.Wire.Frame.{max_metadata}
use rtn_mq.Auth.Trust.Updates.{IsBounded}
use rtn_mq.Endpoint.Owner.{Owner, Settings, Peer, Binding, LocalSub, Grant}

-- A binding asks for a credit only while it has none.
abbrev pub BindingSound : Binding → Type 0
BindingSound b = (b.requested && is_some b.credit) ≡ false

module _ (settings : Settings) where
  pub record PeerSound (p : Peer) : Type 0 where
    pub outbound_fit : length p.outbound ≤ settings.max_topics
    pub inbound_fit : length p.inbound ≤ settings.max_topics
    pub outbound_sorted : IsSorted p.outbound
    pub inbound_sorted : IsSorted p.inbound
    pub bindings_sound : Each BindingSound p.outbound

  -- A grant is for one frame of the largest size, and its record is paid for.
  abbrev pub GrantSound : Grant → Type 0
  GrantSound g = (g.metadata ≡ 6144) × (g.bytes ≤ settings.max_payload + max_metadata + 12)

  abbrev pub SubSound : LocalSub → Type 0
  SubSound s = Each GrantSound s.grants

  pub record IsSound (o : Owner) : Type 0 where
    pub peers_fit : length o.peers ≤ settings.max_peers
    pub subscriptions_fit : length o.subscriptions ≤ settings.max_topics
    pub sequences_fit : length o.sequences ≤ settings.max_topics
    pub sequences_sorted : IsSorted o.sequences
    pub revoked_sound : IsBounded o.trust
    pub peers_sound : Each PeerSound o.peers
    pub subscriptions_sound : Each SubSound o.subscriptions
