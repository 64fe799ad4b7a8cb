-- ===== src/Endpoint/Owner/Commands.antt =====
-- endpoint/owner.rs: the commands of the owner, its turns and its end.
use rtn_mq.Prelude.{ℕ, Bool, true, false, Option, none, some, List, [], ◌∷◌, if◌then◌else◌}
use rtn_mq.Prelude.Bytes.{Bytes, bytes_key, bytes_eq}
use rtn_mq.Prelude.Map.{Map, get, modify, update_all, keys}
use rtn_mq.Error.{Error, Result, ok, err, shutting_down, subscription_closed, is_ok}
use rtn_mq.Cbor.{Minicbor}
use rtn_mq.Crypto.{Iroh}
use rtn_mq.Auth.Claims.{Certificate}
use rtn_mq.Message.Topic.{Topic}
use rtn_mq.Message.Topic.Ordering.{topic_key}
use rtn_mq.Message.Envelope.{DeliveryMode, MessageId}
use rtn_mq.Wire.Control.{Control, goodbye}
use rtn_mq.Endpoint.Outcome.{RecipientOutcome, sent, failed, cancelled, PublishOptions, increment}
use rtn_mq.Endpoint.Owner.{
  Owner, Settings, Outside, Peer, Registration, Pending, Dedup, DedupKey, DeliveryKey, id_key,
  delivery_key, dedup_key,
}
use rtn_mq.Endpoint.Owner.Session.{
  peer_valid, send, finish, finish_all, remove_peer, register, is_best_effort,
}
use rtn_mq.Endpoint.Owner.Remote.{control, keys_for}
use rtn_mq.Endpoint.Owner.Subscribe.{subscribe_local}
use rtn_mq.Endpoint.Owner.Certificates.{deny_now, revoke_now, renew_now}
use rtn_mq.Endpoint.Owner.Release.{Release, release}
use rtn_mq.Endpoint.Owner.Receive.{ReceiveTicket, begin}
use rtn_mq.Endpoint.Owner.Deliver.{incoming}
use rtn_mq.Endpoint.Owner.Schedule.{schedule}
use rtn_mq.Endpoint.Owner.Publish.{publish}
use rtn_mq.Endpoint.Owner.Upkeep.{is_processing}
use rtn_mq.Endpoint.Owner.Maintenance.{maintenance}

-- Without the commands of the enrollment host, and `Connect`, `Metrics` and `TopicsReady`, which leave
-- the tables as they are.
pub data Command : Type 0 where
  disconnect : Bytes → Command
  subscribe : Topic → DeliveryMode → Command
  publishes : Topic → Bytes → PublishOptions → Command
  registers : Registration → Command
  -- peer, session and message
  remote : Bytes → Bytes → Control → Command
  -- peer, session, subscription, stream, signed envelope and length
  begins : Bytes → Bytes → Bytes → ℕ → Bytes → ℕ → Command
  -- peer, session, subscription, ticket and payload
  arrives : Bytes → Bytes → Bytes → ReceiveTicket → Bytes → Command
  wrote : DeliveryKey → Bytes → Result (Unit {0}) → Command
  ends : Bytes → Bytes → Command
  renew : Certificate → Command
  deny : Bytes → Command
  revoke : Bytes → Command
  cancel : MessageId → Command
  shutdown : Command
  -- A tick of the timer, or the wake-up by memory that is released.
  tick : Command
  -- No command of the channel: a permit of this size is dropped, by the owner or by another task.
  drops : Release → ℕ → Command

abbrev pub in_session : Bytes → Option Peer → Bool
in_session session none = false
in_session session (some p) = bytes_eq p.reg.session session

abbrev pub is_subscription_closed : Error → Bool
is_subscription_closed subscription_closed = true
is_subscription_closed _ = false

abbrev pub state_of {ℓ} : {A : Type ℓ} → A × Owner → Owner
state_of (a, o) = o

abbrev pub map_option {ℓ κ} : {A : Type ℓ} {B : Type κ} → (A → B) → Option A → Option B
map_option f none = none
map_option f (some a) = some (f a)

module _ (settings : Settings) (out : Outside) where
  -- `Sent` on a delivery that is pending, which is not being written any more.
  unfoldable pub write_ended : DeliveryKey → Pending → Result (Unit {0}) → Owner → Owner
  unfolding finish remove_peer
  write_ended key p (ok done) o =
      if is_best_effort p.envelope.mode then finish settings key sent o else o
  write_ended key p (err e) o =
      if is_best_effort p.envelope.mode
      then finish settings key (failed e) o
      else if is_subscription_closed e
      then finish settings key (failed subscription_closed) o
      else remove_peer settings out key.peer o

  unfoldable pub on_sent : DeliveryKey → Bytes → Result (Unit {0}) → Owner → Owner
  unfolding write_ended
  on_sent key session result o =
      if in_session session (get key.peer o.peers)
      then elim (get key o.pending) [
        | none ↦ o
        | some p ↦ write_ended key p result (record o {
          pending = modify key (λ (q : Pending). record q { writing = false }) o.pending;
        })
      ]
      else o

  unfoldable pub reject_remote : Bytes → Owner → Owner
  unfolding remove_peer
  reject_remote peer o = remove_peer settings out peer (record o {
    stats = record o.stats { authorization_failures = increment o.stats.authorization_failures };
  })

  unfoldable pub on_remote : Bytes → Bytes → Control → Owner → Owner
  unfolding control reject_remote
  on_remote peer session message o =
      if in_session session (get peer o.peers)
      then elim (peer_valid (out.wall 0) peer session o) [
        | err e ↦ reject_remote peer o
        | ok p ↦
            let (r, o') = control settings out peer o message in
            if is_ok r then o' else reject_remote peer o'
      ]
      else o

  unfoldable pub on_cancel : MessageId → Owner → Owner
  unfolding keys_for finish_all
  on_cancel id o =
      finish_all settings (keys_for (λ k. id_key.same k.id id) (keys o.pending)) cancelled o

  unfoldable pub on_shutdown : Owner → Owner
  unfolding send
  on_shutdown o =
      if o.draining
      then o
      else record o { draining = true; peers = update_all (λ peer. send out goodbye) o.peers }

  -- The end of `run`: what is pending fails, and deliveries that are open learn of it.
  unfoldable pub fail_all :
      Map DeliveryKey Pending
      → List (DeliveryKey × RecipientOutcome)
      → List (DeliveryKey × RecipientOutcome)
  fail_all [] outcomes = outcomes
  fail_all ((key, p) ∷ m) outcomes = fail_all m ((key, failed shutting_down) ∷ outcomes)

  unfoldable pub complete_all :
      Map DedupKey Dedup → List (DedupKey × Result (Unit {0})) → List (DedupKey × Result (Unit {0}))
  complete_all [] sent_on = sent_on
  complete_all ((key, d) ∷ m) sent_on =
      complete_all m (if is_processing d.state then (key, err shutting_down) ∷ sent_on else sent_on)

  unfoldable pub stop : Owner → Owner
  unfolding fail_all complete_all
  stop o = record o {
    outcomes = fail_all o.pending o.outcomes;
    completions = complete_all o.dedup o.completions;
    pending = [];
    dedup = [];
    peers = [];
    subscriptions = [];
  }

module _ ⦃m : Minicbor⦄ ⦃c : Iroh⦄ (settings : Settings) (out : Outside) where
  -- `delivery_size` is that of `subscribe_local`.
  unfoldable pub command : ℕ → Command → Owner → Option Owner
  unfolding begin incoming publish register on_remote on_sent on_cancel on_shutdown renew_now
      deny_now revoke_now maintenance subscribe_local release
  command delivery_size (disconnect peer) o = some (remove_peer settings out peer o)
  command delivery_size (subscribe topic mode) o =
      some (state_of (subscribe_local delivery_size settings out topic mode o))
  command delivery_size (publishes topic payload options) o =
      some (state_of (publish settings out topic payload options o))
  command delivery_size (registers reg) o = some (state_of (register settings out reg o))
  command delivery_size (remote peer session message) o =
      some (on_remote settings out peer session message o)
  command delivery_size (begins peer session sub stream signed len) o =
      map_option state_of (begin settings out peer session sub stream signed len o)
  command delivery_size (arrives peer session sub ticket payload) o =
      let (r, o') = incoming out peer session sub ticket payload o in
      some (if is_ok r then o' else remove_peer settings out peer o')
  command delivery_size (wrote key session result) o =
      some (on_sent settings out key session result o)
  command delivery_size (ends peer session) o =
      some (if in_session session (get peer o.peers) then remove_peer settings out peer o else o)
  command delivery_size (renew cert) o = some (renew_now settings out cert o)
  command delivery_size (deny id) o = some (maintenance settings out (deny_now settings out id o))
  command delivery_size (revoke snapshot) o =
      map_option (maintenance settings out) (revoke_now settings out snapshot o)
  command delivery_size (cancel id) o = some (on_cancel settings out id o)
  command delivery_size shutdown o = some (on_shutdown settings out o)
  command delivery_size tick o = some (maintenance settings out o)
  command delivery_size (drops from n) o = some (release from n o)

  -- A turn of the loop of `run`. The wake-up that follows a dropped permit is a turn too.
  unfoldable pub turn : ℕ → Command → Owner → Option Owner
  unfolding command schedule
  turn delivery_size x o = map_option (schedule settings out) (command delivery_size x o)

-- Turns one after another, each with what it reads from outside; `none` is the panic of
-- `Permit::shrink_to`. The loop of the source
-- also ends, when a drain is over; what it does then is `stop`.
module _ ⦃m : Minicbor⦄ ⦃c : Iroh⦄ (settings : Settings) (delivery_size : ℕ) where
  unfoldable pub run : List (Outside × Command) → Owner → Option Owner
  unfolding turn
  run [] o = some o
  run ((out, x) ∷ xs) o = elim (turn settings out delivery_size x o) [
    | none ↦ none
    | some o' ↦ run xs o'
  ]
