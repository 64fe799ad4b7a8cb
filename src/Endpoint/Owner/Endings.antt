-- ===== src/Endpoint/Owner/Endings.antt =====
-- endpoint/owner.rs: a delivery ends once, and what `finish` leaves of it.
use rtn_mq.Prelude.{ℕ, ◌<◌, ◌≡◌, inl, inr, none, some, arith, Option-cases}
use Prim.Native.Nat.{max}
use rtn_mq.Prelude.Bytes.{Bytes}
use rtn_mq.Prelude.Map.{get, get-remove_self, get-insert_self}
use rtn_mq.Auth.Trust.{saturating_add}
use rtn_mq.Message.Topic.{Topic}
use rtn_mq.Endpoint.Outcome.{RecipientOutcome}
use rtn_mq.Endpoint.Owner.{Owner, Settings, Pending, DeliveryKey, delivery_key}
use rtn_mq.Endpoint.Owner.Session.{finish}

module _ (settings : Settings) where
  pub finish-pending :
      (key : DeliveryKey) (outcome : RecipientOutcome) (o : Owner)
      → get key (finish settings key outcome o).pending ≡ none
  unfolding finish
  finish-pending key outcome o = elim (Option-cases (get key o.pending)) [
    | inl absent ↦ rw (finish, absent) absent
    | inr (p, there) ↦ let gone = get-remove_self key o.pending in ground (arith, there, gone)
  ]

  -- A delivery ends once: a second outcome changes nothing, so its receipt has the first.
  finish-finish :
      (key : DeliveryKey) (first second : RecipientOutcome) (o : Owner)
      → finish settings key second (finish settings key first o) ≡ finish settings key first o
  unfolding finish
  finish-finish key first second o = rw (finish, finish-pending key first o)

  -- After the end of a delivery that was tried, a receipt of it is kept, with the time until which it lasts.
  pub finish-terminal :
      (key : DeliveryKey) (outcome : RecipientOutcome) (o : Owner) (p : Pending)
      → get key o.pending ≡ some p
      → 0 < p.attempts
      → get key (finish settings key outcome o).terminal
        ≡ some (record {
          expires = saturating_add p.envelope.expires (max settings.handshake_timeout.as_secs 1);
          memory = p.memory;
        })
  unfolding finish
  finish-terminal key outcome o p there tried =
      let put =
        get-insert_self key
          (record {
            expires = saturating_add p.envelope.expires (max settings.handshake_timeout.as_secs 1);
            memory = p.memory;
          })
          o.terminal in
      ground (arith, there, put)

  pub finish-identity :
      (key : DeliveryKey) (outcome : RecipientOutcome) (o : Owner)
      → ((finish settings key outcome o).trust ≡ o.trust)
        × ((finish settings key outcome o).endpoint_id ≡ o.endpoint_id)
        × ((finish settings key outcome o).sequences ≡ o.sequences)
  unfolding finish
  finish-identity key outcome o = ground arith

-- The delivery that an `Outcome` message of the peer speaks of.
abbrev pub own_key : Bytes → Bytes → Topic → Bytes → ℕ → Owner → DeliveryKey
own_key peer sub topic epoch sequence o = record {
  peer = peer;
  sub = sub;
  id = record {
    realm_id = o.trust.realm;
    publisher_endpoint_id = o.endpoint_id;
    publisher_epoch = epoch;
    topic = topic;
    sequence = sequence;
  };
}
