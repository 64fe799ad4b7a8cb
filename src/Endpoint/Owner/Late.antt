-- ===== src/Endpoint/Owner/Late.antt =====
-- endpoint/owner.rs: a delivery that has ended, until its receipt expires. The operations that end
-- deliveries, publish them and write them.
pub mod Sweep
pub mod Commands
pub mod Publications
pub mod Runs
use rtn_mq.Prelude.{
  ℕ, ◌+◌, ◌≡◌, ◌≢◌, ◌≤◌, ◌<◌, refl, ap, ◌∙◌, sym, inl, inr, Bool, true, false, none, some, List, [],
  ◌∷◌, arith, Option-cases, Bool-cases,
}
use Prim.Native.Nat.{max}
use rtn_mq.Auth.Trust.{saturating_add}
use rtn_mq.Prelude.Bytes.{Bytes, bytes_key}
use rtn_mq.Prelude.Map.{
  Map, get, insert, modify, remove, update_all, get-insert, get-remove, modify-absent,
  update_all-absent,
}
use rtn_mq.Cbor.{Minicbor}
use rtn_mq.Message.Topic.Ordering.{topic_key}
use rtn_mq.Endpoint.Outcome.{RecipientOutcome, failed}
use rtn_mq.Error.{peer_unavailable}
use rtn_mq.Endpoint.Owner.{
  Owner, Settings, Outside, Pending, DeliveryKey, delivery_key, TerminalReceipt,
}
use rtn_mq.Endpoint.Owner.Session.{
  finish, finish_all, remove_peer, forget_peer, interrupt, unreliable_to,
}
use rtn_mq.Endpoint.Owner.Schedule.{schedule, schedule_one, schedule_loop, offer, write, written}
use rtn_mq.Endpoint.Owner.Publish.{last_sequence}

-- The delivery of this key has ended and its receipt lasts until `until`; it is one that this owner has
-- numbered.
pub record Ended (key : DeliveryKey) (until : ℕ) (o : Owner) : Type 0 where
  pub over : get key o.pending ≡ none
  pub receipt : TerminalReceipt
  pub kept : get key o.terminal ≡ some receipt
  pub lasts : receipt.expires ≡ until
  pub realm : o.trust.realm ≡ key.id.realm_id
  pub publisher : o.endpoint_id ≡ key.id.publisher_endpoint_id
  pub numbered : key.id.sequence ≤ last_sequence key.id.topic o.sequences

-- What most operations leave alone.
pub record SameEnds (o o' : Owner) : Type 0 where
  pub same_pending : o'.pending ≡ o.pending
  pub same_terminal : o'.terminal ≡ o.terminal
  pub same_sequences : o'.sequences ≡ o.sequences
  pub same_realm : o'.trust.realm ≡ o.trust.realm
  pub same_id : o'.endpoint_id ≡ o.endpoint_id

-- The receipt of another delivery stays.
finish-terminal_other :
    (settings : Settings) (k key : DeliveryKey) (outcome : RecipientOutcome) (o : Owner)
    → delivery_key.same k key ≡ false
    → get key (finish settings k outcome o).terminal ≡ get key o.terminal
unfolding finish
finish-terminal_other settings k key outcome o other = elim (Option-cases (get k o.pending)) [
  | inl absent ↦ rw (finish, absent) refl
  | inr (p, there) ↦
      let put =
        get-insert k key
          (record {
            expires = saturating_add p.envelope.expires (max settings.handshake_timeout.as_secs 1);
            memory = p.memory;
          })
          o.terminal in
      ground (arith, there, put, other)
]

pub SameEnds-refl : (o : Owner) → SameEnds o o
SameEnds-refl o = record {
  same_pending = refl;
  same_terminal = refl;
  same_sequences = refl;
  same_realm = refl;
  same_id = refl;
}

pub SameEnds-trans : {o p q : Owner} → SameEnds o p → SameEnds p q → SameEnds o q
SameEnds-trans a b = record {
  same_pending = b.same_pending ∙ a.same_pending;
  same_terminal = b.same_terminal ∙ a.same_terminal;
  same_sequences = b.same_sequences ∙ a.same_sequences;
  same_realm = b.same_realm ∙ a.same_realm;
  same_id = b.same_id ∙ a.same_id;
}

module _ (key : DeliveryKey) (until : ℕ) where
  pub quiet : {o o' : Owner} → SameEnds o o' → Ended key until o → Ended key until o'
  quiet s h = record {
    over = ap (get key) s.same_pending ∙ h.over;
    receipt = h.receipt;
    kept = ap (get key) s.same_terminal ∙ h.kept;
    lasts = h.lasts;
    realm = s.same_realm ∙ h.realm;
    publisher = s.same_id ∙ h.publisher;
    numbered = ground (arith, s.same_sequences, h.numbered);
  }

  -- A change of the pending deliveries that does not bring this one back.
  pub Ended-pending :
      (o : Owner) (m : Map DeliveryKey Pending)
      → get key m ≡ none
      → Ended key until o
      → Ended key until (record o { pending = m })
  Ended-pending o m none_there h = record {
    over = none_there;
    receipt = h.receipt;
    kept = h.kept;
    lasts = h.lasts;
    realm = h.realm;
    publisher = h.publisher;
    numbered = h.numbered;
  }

  pub finish-Ended :
      (settings : Settings) (k : DeliveryKey) (outcome : RecipientOutcome) (o : Owner)
      → Ended key until o
      → Ended key until (finish settings k outcome o)
  unfolding finish
  finish-Ended settings k outcome o h = elim (Option-cases (get k o.pending)) [
    | inl absent ↦ rw (finish, absent) h
    | inr (p, there) ↦ elim (Bool-cases (delivery_key.same k key)) [
      | inl same ↦
          let eq = (delivery_key.same_iff k key).0 same in
          absurd (ground (arith, there, eq, h.over))
      | inr other ↦
          let gone = get-remove k key o.pending in
          record {
            over = ground (arith, there, gone, other, h.over);
            receipt = h.receipt;
            kept = finish-terminal_other settings k key outcome o other ∙ h.kept;
            lasts = h.lasts;
            realm = ground (arith, there, h.realm);
            publisher = ground (arith, there, h.publisher);
            numbered = ground (arith, there, h.numbered);
          }
    ]
  ]

  pub finish_all-Ended :
      (settings : Settings) (ks : List DeliveryKey) (outcome : RecipientOutcome) (o : Owner)
      → Ended key until o
      → Ended key until (finish_all settings ks outcome o)
  unfolding finish_all
  finish_all-Ended settings [] outcome o h = h
  finish_all-Ended settings (k ∷ ks) outcome o h =
      finish_all-Ended settings ks outcome (finish settings k outcome o)
        (finish-Ended settings k outcome o h)

  pub remove_peer-Ended :
      (settings : Settings) (out : Outside) (peer : Bytes) (o : Owner)
      → Ended key until o
      → Ended key until (remove_peer settings out peer o)
  unfolding remove_peer
  remove_peer-Ended settings out peer o h =
      let o1 = record o {
        peers = remove peer o.peers;
        subscriptions = update_all (λ topic. forget_peer peer) o.subscriptions;
      } in
      let m = update_all (interrupt peer out.instant) o.pending in
      let o2 = record o1 { pending = m } in
      let none_there = update_all-absent (interrupt peer out.instant) key o.pending h.over in
      let h1 : Ended key until o1 = quiet (ground arith) h in
      finish_all-Ended settings (unreliable_to peer m) (failed peer_unavailable) o2
        (Ended-pending o1 m none_there h1)

module _ ⦃m : Minicbor⦄ (settings : Settings) (out : Outside) (key : DeliveryKey) (until : ℕ) where
  schedule_one-rest :
      (k : DeliveryKey) (p : Pending) (o : Owner)
      → let o' = schedule_one settings out k p o in
        (o'.terminal ≡ o.terminal)
        × (o'.sequences ≡ o.sequences)
        × (o'.trust.realm ≡ o.trust.realm)
        × (o'.endpoint_id ≡ o.endpoint_id)
  unfolding schedule_one offer write
  schedule_one-rest k p o = ground arith

  schedule_one-absent :
      (k : DeliveryKey) (p : Pending) (o : Owner)
      → get key o.pending ≡ none
      → get key (schedule_one settings out k p o).pending ≡ none
  unfolding schedule_one offer write
  schedule_one-absent k p o h =
      let still = modify-absent k key (written settings out k) o.pending h in
      ground (arith, h, still)

  schedule_loop-Ended :
      (pending : Map DeliveryKey Pending) (o : Owner)
      → Ended key until o
      → Ended key until (schedule_loop settings out pending o)
  unfolding schedule_loop
  schedule_loop-Ended [] o h = h
  schedule_loop-Ended ((k, p) ∷ rest) o h =
      let (terminal, sequences, realm, id) = schedule_one-rest k p o in
      schedule_loop-Ended rest (schedule_one settings out k p o) (record {
        over = schedule_one-absent k p o h.over;
        receipt = h.receipt;
        kept = ap (get key) terminal ∙ h.kept;
        lasts = h.lasts;
        realm = realm ∙ h.realm;
        publisher = id ∙ h.publisher;
        numbered = ground (arith, sequences, h.numbered);
      })

  pub schedule-Ended : (o : Owner) → Ended key until o → Ended key until (schedule settings out o)
  unfolding schedule
  schedule-Ended o h = schedule_loop-Ended o.pending o h
