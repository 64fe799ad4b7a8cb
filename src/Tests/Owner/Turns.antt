-- ===== src/Tests/Owner/Turns.antt =====
-- Turns of an owner: a session, a subscription, a payload that arrives twice, and a late acknowledgement.
use rtn_mq.Auth.Trust.{is_stale, saturating_add, check}
use rtn_mq.Message.Topic.Ordering.{topic_key}
use rtn_mq.Prelude.Bytes.{bytes_eq}
use rtn_mq.Prelude.Map.{insert, get}
use rtn_mq.Prelude.{◌≡◌, ◌<◌, refl, false, none, some, List, [], ◌∷◌, replicate, arith}
use rtn_mq.Error.{ok, peer_unavailable}
use rtn_mq.Message.Envelope.{payload_matches, DeliveryMode}
use rtn_mq.Endpoint.Outcome.{failed}
use rtn_mq.Endpoint.Owner.{
  Owner, Outside, new_owner, DedupKey, DeliveryKey, Pending, delivery_key, dedup_key,
}
use rtn_mq.Endpoint.Owner.Session.{local_valid, peer_valid, finish}
use rtn_mq.Endpoint.Owner.Remote.{on_outcome}
use rtn_mq.Endpoint.Owner.Receive.{ReceiveTicket}
use rtn_mq.Endpoint.Owner.Deliver.{incoming}
use rtn_mq.Endpoint.Owner.Release.{of_metadata}
use rtn_mq.Endpoint.Owner.Commands.{Command, run, state_of}
use rtn_mq.Endpoint.Owner.Invariant.{IsSound}
use rtn_mq.Endpoint.Owner.Invariant.Running.{run-new_owner}
use rtn_mq.Endpoint.Owner.Schedule.{schedule}
use rtn_mq.Endpoint.Owner.Maintenance.{maintenance}
use rtn_mq.Endpoint.Owner.Late.Runs.{on_outcome-finish}
use rtn_mq.Endpoint.Owner.Once.{handed}
use rtn_mq.Endpoint.Owner.Once.Runs.{run-incoming}
use rtn_mq.Tests.Cbor.{minicbor, minicbor_laws}
use rtn_mq.Tests.Crypto.{iroh, pad}
use rtn_mq.Tests.Message.{jobs, secret, envelope}
use rtn_mq.Tests.Owner.{
  settings, outside, session, sub, peer, subscription, start, realm, me, certificate,
}

abbrev commands : List (Outside × Command)
commands =
    (outside 100, Command.registers (peer none false).reg)
    ∷ (outside 101, Command.subscribe jobs DeliveryMode.best_effort)
    ∷ (outside 102, Command.tick)
    ∷ (outside 102, Command.drops of_metadata 2048)
    ∷ (outside 103, Command.ends secret session)
    ∷ []

run-new_owner_example :
    (o : Owner) × (run settings 64 commands (new_owner start) ≡ some o) × IsSound settings o
run-new_owner_example = run-new_owner minicbor_laws settings 64 start commands (tt, omega arith)

-- An acknowledged delivery that was tried once.
abbrev key : DeliveryKey
key = record {
  peer = secret;
  sub = sub;
  id = record {
    realm_id = realm;
    publisher_endpoint_id = me;
    publisher_epoch = replicate 16 5;
    topic = jobs;
    sequence = 1;
  };
}

abbrev tried : Pending
tried = record {
  recipient_certificate = certificate (replicate 16 12) secret;
  signed = [];
  envelope = record envelope { mode = DeliveryMode.acknowledged };
  payload = 1 ∷ 2 ∷ 3 ∷ [];
  slot = 1;
  bytes = 300;
  memory = 2048;
  deadline = 300;
  next = 130;
  attempts = 1;
  writing = false;
}

abbrev sending : Owner
unfolding new_owner
sending = record (new_owner start) {
  peers = (secret, peer none false) ∷ [];
  pending = (key, tried) ∷ [];
  sequences = (jobs, 1) ∷ [];
}

-- The delivery has ended, and the owner has swept after its message has expired.
abbrev ended : Owner
ended = finish settings key (failed peer_unavailable) sending

abbrev swept : Owner
swept = schedule settings (outside 155) (maintenance settings (outside 155) ended)

abbrev sweeping : List (Outside × Command)
sweeping = (outside 155, Command.tick) ∷ []

runs_sweep : run settings 64 sweeping ended ≡ some swept
unfolding run
runs_sweep = refl

on_outcome-finish_example :
    on_outcome settings (outside 140) secret swept jobs sub (replicate 16 5) 1 0 ≡ (ok tt, swept)
unfolding sending get delivery_key bytes_eq topic_key saturating_add
on_outcome-finish_example =
    on_outcome-finish settings 64 (outside 140) secret sub jobs (replicate 16 5) 1 0
      (failed peer_unavailable) sending swept tried sweeping refl (omega arith) (omega arith)
      (omega arith, tt) runs_sweep

-- The ticket of a payload of three bytes.
abbrev ticket : ReceiveTicket
ticket = record {
  envelope = record envelope { digest = iroh.sha256 (1 ∷ 2 ∷ 3 ∷ []) };
  fingerprint = replicate 32 1;
  permits = [];
  metadata = 2400;
}

abbrev receiving : Owner
unfolding new_owner
receiving = record (new_owner start) {
  peers = (secret, peer none false) ∷ [];
  subscriptions = (jobs, subscription) ∷ [];
}

abbrev message : DedupKey
message = record { sub = sub; id = envelope.id }

abbrev delivered : Owner
delivered = state_of (incoming (outside 120) secret session sub ticket (1 ∷ 2 ∷ 3 ∷ []) receiving)

abbrev again : List (Outside × Command)
again = (outside 121, Command.arrives secret session sub ticket (1 ∷ 2 ∷ 3 ∷ [])) ∷ []

is_delivered : handed message receiving < handed message delivered
unfolding incoming receiving peer_valid local_valid check bytes_eq get saturating_add is_stale
    payload_matches iroh pad topic_key dedup_key
is_delivered = omega arith

runs_again : run settings 64 again delivered ≡ some delivered
unfolding run peer_valid local_valid receiving check bytes_eq get is_stale payload_matches iroh pad
    topic_key insert dedup_key
runs_again = refl

run-incoming_example : handed message delivered ≡ handed message delivered
run-incoming_example =
    run-incoming settings 64 (outside 120) secret session sub ticket (1 ∷ 2 ∷ 3 ∷ []) receiving
      delivered again is_delivered
      ((record { early = omega arith; no_retry = λ h. omega arith }), tt) runs_again
