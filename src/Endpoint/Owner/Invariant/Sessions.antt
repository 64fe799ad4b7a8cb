-- ===== src/Endpoint/Owner/Invariant/Sessions.antt =====
-- endpoint/owner.rs: sessions come and go within the invariant.
use rtn_mq.Prelude.{
  ℕ, ◌≤◌, ◌<◌, ◌≡◌, refl, inl, inr, true, false, List, [], ◌∷◌, length, arith, Option-cases, ◌∙◌,
  ap, subst, sym,
}
use rtn_mq.Prelude.Bytes.{Bytes, bytes_key}
use rtn_mq.Error.{ok, Result-cases}
use rtn_mq.Buffer.{Budget}
use rtn_mq.Cbor.{Minicbor}
use rtn_mq.Crypto.{Iroh}
use rtn_mq.Message.Topic.{Topic}
use rtn_mq.Message.Topic.Ordering.{topic_key}
use rtn_mq.Prelude.Map.{
  Map, get, remove, length-insert-le, length-remove-le, length-remove-lt, length-update_all,
}
use rtn_mq.Prelude.Map.Each.{Each-insert, Each-remove, Each-update_all}
use rtn_mq.Wire.Control.{Control, subscribe}
use rtn_mq.Endpoint.Outcome.{RecipientOutcome}
use rtn_mq.Endpoint.Owner.{Owner, Settings, Outside, Peer, Registration, LocalSub, DeliveryKey}
use rtn_mq.Endpoint.Owner.Commands.{state_of}
use rtn_mq.Endpoint.Owner.Session.{
  send, finish, finish_all, forget_peer, remove_peer, announce, admit_peer, may_register,
  reserve_peer, register,
}
use rtn_mq.Endpoint.Owner.Invariant.{PeerSound, SubSound, GrantSound, IsSound}

pub send-PeerSound :
    (settings : Settings) (out : Outside) (c : Control) (p : Peer)
    → PeerSound settings p
    → PeerSound settings (send out c p)
unfolding send
send-PeerSound settings out c p h = ground arith

pub finish-IsSound :
    (settings : Settings) (key : DeliveryKey) (outcome : RecipientOutcome) (o : Owner)
    → IsSound settings o
    → IsSound settings (finish settings key outcome o)
unfolding finish
finish-IsSound settings key outcome o h = ground arith

pub finish_all-IsSound :
    (settings : Settings) (keys : List DeliveryKey) (outcome : RecipientOutcome) (o : Owner)
    → IsSound settings o
    → IsSound settings (finish_all settings keys outcome o)
unfolding finish_all
finish_all-IsSound settings [] outcome o h = h
finish_all-IsSound settings (key ∷ keys) outcome o h =
    finish_all-IsSound settings keys outcome (finish settings key outcome o)
      (finish-IsSound settings key outcome o h)

pub forget_peer-SubSound :
    (settings : Settings) (peer : Bytes) (s : LocalSub)
    → SubSound settings s
    → SubSound settings (forget_peer peer s)
unfolding forget_peer
forget_peer-SubSound settings peer s h = Each-remove (GrantSound settings) peer s.grants h

module _ (settings : Settings) where
  pub finish-peers :
      (key : DeliveryKey) (outcome : RecipientOutcome) (o : Owner)
      → (finish settings key outcome o).peers ≡ o.peers
  unfolding finish
  finish-peers key outcome o = ground arith

  pub finish_all-peers :
      (keys : List DeliveryKey) (outcome : RecipientOutcome) (o : Owner)
      → (finish_all settings keys outcome o).peers ≡ o.peers
  unfolding finish_all
  finish_all-peers [] outcome o = refl
  finish_all-peers (key ∷ keys) outcome o =
      finish_all-peers keys outcome (finish settings key outcome o) ∙ finish-peers key outcome o

module _ (settings : Settings) (out : Outside) where
  pub remove_peer-peers :
      (peer : Bytes) (o : Owner) → (remove_peer settings out peer o).peers ≡ remove peer o.peers
  unfolding remove_peer
  remove_peer-peers peer o = finish_all-peers settings _ _ _

  pub remove_peer-IsSound :
      (peer : Bytes) (o : Owner)
      → IsSound settings o
      → IsSound settings (remove_peer settings out peer o)
  unfolding remove_peer
  remove_peer-IsSound peer o h = finish_all-IsSound settings _ _ _ (record {
    peers_fit = omega (arith, h.peers_fit, length-remove-le peer o.peers);
    subscriptions_fit =
        omega
          (arith, h.subscriptions_fit, length-update_all (λ t. forget_peer peer) o.subscriptions);
    sequences_fit = h.sequences_fit;
    sequences_sorted = h.sequences_sorted;
    revoked_sound = h.revoked_sound;
    peers_sound = Each-remove (PeerSound settings) peer o.peers h.peers_sound;
    subscriptions_sound =
        Each-update_all (SubSound settings) (λ t. forget_peer peer) o.subscriptions
          (λ t s. forget_peer-SubSound settings peer s) h.subscriptions_sound;
  })

  announce-PeerSound :
      (m : Map Topic LocalSub) (p : Peer)
      → PeerSound settings p
      → PeerSound settings (announce out m p)
  unfolding announce
  announce-PeerSound [] p h = h
  announce-PeerSound ((topic, s) ∷ m) p h =
      announce-PeerSound m (send out (subscribe topic s.id s.mode) p)
        (send-PeerSound settings out (subscribe topic s.id s.mode) p h)

  -- A session is admitted in the place of the one that was there, or in a free one.
  admit_peer-IsSound :
      (reg : Registration) (memory : ℕ) (o : Owner)
      → IsSound settings o
      → length (remove reg.remote_id o.peers) < settings.max_peers
      → IsSound settings (admit_peer settings out reg memory o)
  unfolding admit_peer
  admit_peer-IsSound reg memory o h free =
      let o' = remove_peer settings out reg.remote_id o in
      let h' = remove_peer-IsSound reg.remote_id o h in
      let p : Peer = record {
        reg = reg;
        control = [];
        outbound = [];
        inbound = [];
        memory = memory;
      } in
      let p' = announce out o'.subscriptions p in
      let same = remove_peer-peers reg.remote_id o in
      record {
        peers_fit = omega (
          arith,
          length-insert-le reg.remote_id p' o'.peers,
          ap (λ (m : Map Bytes Peer). length m) same,
        );
        subscriptions_fit = h'.subscriptions_fit;
        sequences_fit = h'.sequences_fit;
        sequences_sorted = h'.sequences_sorted;
        revoked_sound = h'.revoked_sound;
        peers_sound =
            Each-insert (PeerSound settings) reg.remote_id p' o'.peers
              (announce-PeerSound o'.subscriptions p (record {
                outbound_fit = omega arith;
                inbound_fit = omega arith;
                outbound_sorted = tt;
                inbound_sorted = tt;
                bindings_sound = tt;
              }))
              h'.peers_sound;
        subscriptions_sound = h'.subscriptions_sound;
      }

reserve_peer-remote_id :
    (reg : Registration) (budget : Budget) {reg' : Registration} {memory : ℕ}
    → (reserve_peer reg budget).0 ≡ ok (reg', memory)
    → reg'.remote_id ≡ reg.remote_id
unfolding reserve_peer
reserve_peer-remote_id reg budget h = ground arith

module _ ⦃m : Minicbor⦄ ⦃c : Iroh⦄ (settings : Settings) (out : Outside) where
  may_register-room :
      (reg : Registration) (o : Owner)
      → length o.peers ≤ settings.max_peers
      → may_register settings out reg o ≡ ok true
      → length (remove reg.remote_id o.peers) < settings.max_peers
  unfolding may_register
  may_register-room reg o fit h = elim (Option-cases (get reg.remote_id o.peers)) [
    | inl absent ↦ ground (arith, length-remove-le reg.remote_id o.peers)
    | inr (p, present) ↦ omega (arith, fit, length-remove-lt reg.remote_id o.peers present)
  ]

  pub register-IsSound :
      (reg : Registration) (o : Owner)
      → IsSound settings o
      → IsSound settings (state_of (register settings out reg o))
  unfolding register
  register-IsSound reg o h = elim (Result-cases (may_register settings out reg o)) [
    | inr (e, refused) ↦ rw (register, refused) h
    | inl (false, stays) ↦ rw (register, stays) h
    | inl (true, free) ↦ elim (Result-cases (reserve_peer reg o.metadata).0) [
      | inr (e, full) ↦ rw (register, free, full) (ground arith)
      | inl ((reg', memory), reserved) ↦
          let o' = record o { metadata = (reserve_peer reg o.metadata).1 } in
          let h' : IsSound settings o' = ground arith in
          let same = reserve_peer-remote_id reg o.metadata reserved in
          let room = may_register-room reg o h.peers_fit free in
          let room' : length (remove reg'.remote_id o.peers) < settings.max_peers =
            subst (λ id. length (remove id o.peers) < settings.max_peers) (sym same) room in
          rw (register, free, reserved) (admit_peer-IsSound settings out reg' memory o' h' room')
    ]
  ]
