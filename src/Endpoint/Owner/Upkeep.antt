-- ===== src/Endpoint/Owner/Upkeep.antt =====
-- endpoint/owner.rs: `maintenance`, which runs on a timer and when memory is released, part by part.
use rtn_mq.Prelude.{
  ℕ, ◌+◌, ◌-◌, ◌/◌, Bool, true, false, not, ◌||◌, Option, none, some, List, [], ◌∷◌, ltb, leb, ◌==◌,
  if◌then◌else◌, is_some,
}
use rtn_mq.Prelude.Bytes.{Bytes, bytes_key, bytes_eq}
use rtn_mq.Prelude.Map.{Map, get, update_all, retain}
use rtn_mq.Error.{Error, Result, ok, err, unauthorized, delivery_expired, subscription_closed}
use rtn_mq.Auth.Claims.{allows}
use rtn_mq.Auth.Trust.{Trust, check, saturating_add}
use rtn_mq.Message.Topic.Ordering.{topic_key}
use rtn_mq.Join.Admission.{Admission, host, client, prune}
use rtn_mq.Endpoint.Owner.{
  Owner, Outside, unwrap_or_zero, Peer, Pending, Dedup, DedupState, processing, retryable,
  processed, permanent, DedupKey, DeliveryKey, TerminalReceipt, delivery_key, dedup_key,
}
use rtn_mq.Endpoint.Owner.Remote.{same_mode}
use rtn_mq.Endpoint.Owner.Deliver.{send_outcome}

-- `result.err()`
abbrev pub error_of {ℓ} : {A : Type ℓ} → Result A → Option Error
error_of (ok a) = none
error_of (err e) = some e

abbrev pub or_else : Option Error → Option Error → Option Error
or_else none f = f
or_else (some e) f = some e

unfoldable pub prune_admission : Result ℕ → Admission → Admission
unfolding prune
prune_admission (err e) a = a
prune_admission (ok now) (host h) = host (prune now h)
prune_admission (ok now) (client h) = client h

unfoldable pub abs_diff : ℕ → ℕ → ℕ
abs_diff a b = (a - b) + (b - a)

-- The clock has failed once it cannot be read, or runs away from the time that has passed by more than
-- thirty seconds.
unfoldable pub watch_clock : Result ℕ → ℕ → Owner → Owner
unfolding abs_diff saturating_add
watch_clock wall instant o =
    let (start, started) = o.clock_start in
    let expected = saturating_add start ((instant - started) / 1000000000) in
    record o {
      clock_failed =
          o.clock_failed
          || (is_some (error_of wall) || ltb 30 (abs_diff (unwrap_or_zero wall) expected));
    }

abbrev pub is_processing : DedupState → Bool
is_processing processing = true
is_processing retryable = false
is_processing processed = false
is_processing permanent = false

module _ (out : Outside) (now : ℕ) (local_error : Option Error) where
  unfoldable pub is_stale_peer : Trust → Bytes → Peer → Bool
  is_stale_peer trust id p =
      is_some (or_else local_error (error_of (check trust p.reg.cert id now)))
      || (p.reg.cancelled || out.session_closed id)

  unfoldable pub stale_peers : Trust → Map Bytes Peer → List Bytes
  unfolding is_stale_peer
  stale_peers trust [] = []
  stale_peers trust ((id, p) ∷ m) =
      let rest = stale_peers trust m in if is_stale_peer trust id p then id ∷ rest else rest

  -- A delivery that the application has, by what it says of it.
  unfoldable pub settled : ℕ → DedupState
  settled code = if code == 1 then processed else if code == 2 then retryable else permanent

  abbrev pub outcome_code : ℕ → ℕ
  outcome_code code = if code == 1 then 0 else if code == 2 then 1 else 2

  unfoldable pub is_cut_off : Dedup → Bool
  is_cut_off d = is_some local_error || leb d.expires now

  unfoldable pub settle_state : ℕ → Bool → DedupState → DedupState
  unfolding settled
  settle_state code cut processing =
      if cut then permanent else if code == 0 then processing else settled code
  settle_state code cut retryable = retryable
  settle_state code cut processed = processed
  settle_state code cut permanent = permanent

  unfoldable pub settle : DedupKey → Dedup → Dedup
  unfolding settle_state is_cut_off
  settle key d = record d { state = settle_state (out.disposition key) (is_cut_off d) d.state }

  unfoldable pub completion : DedupKey → Dedup → Option (Result (Unit {0}))
  unfolding is_cut_off
  completion key d =
      if not (is_processing d.state)
      then none
      else if is_cut_off d
      then some (err (elim local_error [ none ↦ delivery_expired | some e ↦ e ]))
      else if out.disposition key == 0
      then none
      else some (ok tt)

  -- The loop over the records, as what it sends to deliveries and to publishers.
  unfoldable pub completions :
      Map DedupKey Dedup → List (DedupKey × Result (Unit {0})) → List (DedupKey × Result (Unit {0}))
  unfolding completion
  completions [] sent = sent
  completions ((key, d) ∷ m) sent =
      completions m (elim (completion key d) [ none ↦ sent | some r ↦ (key, r) ∷ sent ])

  unfoldable pub send_outcomes : Map DedupKey Dedup → Owner → Owner
  unfolding completion send_outcome
  send_outcomes [] o = o
  send_outcomes ((key, d) ∷ m) o = send_outcomes m (elim (completion key d) [
    | some (ok done) ↦
        send_outcome out key.id.publisher_endpoint_id key.sub key.id
          (outcome_code (out.disposition key)) o
    | some (err e) ↦ o
    | none ↦ o
  ])

  unfoldable pub sweep_dedup : Owner → Owner
  unfolding settle completions send_outcomes
  sweep_dedup o =
      let o' = record o {
        dedup = update_all settle o.dedup;
        completions = completions o.dedup o.completions;
      } in
      let o'' = send_outcomes o.dedup o' in
      record o'' {
        dedup = retain (λ key (d : Dedup). ltb now d.expires) o''.dedup;
        terminal = retain (λ key (t : TerminalReceipt). ltb now t.expires) o''.terminal;
      }

  -- What the connected peer, or its absence, says of a delivery.
  unfoldable pub peer_error : DeliveryKey → Pending → Option Peer → Option Error
  peer_error key p none = none
  peer_error key p (some peer) =
      if not (allows peer.reg.cert key.id.topic false)
      then some unauthorized
      else elim (get key.id.topic peer.outbound) [
        | none ↦ none
        | some b ↦
            if not (bytes_eq b.sub key.sub) || not (same_mode b.mode p.envelope.mode)
            then some subscription_closed
            else none
      ]

  unfoldable pub pending_error : Owner → DeliveryKey → Pending → Option Error
  unfolding peer_error
  pending_error o key p =
      if is_some local_error
      then local_error
      else if not (allows o.cert key.id.topic true)
      then some unauthorized
      else if leb p.deadline out.instant || leb p.envelope.expires now
      then some delivery_expired
      else or_else (error_of (check o.trust p.recipient_certificate key.peer now)) (
          if not (allows p.recipient_certificate key.id.topic false)
          then some unauthorized
          else peer_error key p (get key.peer o.peers))

  unfoldable pub finished : Owner → Map DeliveryKey Pending → List (DeliveryKey × Error)
  unfolding pending_error
  finished o [] = []
  finished o ((key, p) ∷ m) =
      let rest = finished o m in
      elim (pending_error o key p) [ none ↦ rest | some e ↦ (key, e) ∷ rest ]
