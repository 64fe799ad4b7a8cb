-- ===== src/Endpoint/Owner/Session.antt =====
-- endpoint/owner.rs: the checks that operations begin with, the sessions of peers, and the end of a
-- delivery.
use rtn_mq.Prelude.{
  ℕ, ◌+◌, Bool, true, false, not, ◌&&◌, ◌||◌, none, some, List, [], ◌∷◌, ◌++◌, length, ltb, leb,
  if◌then◌else◌,
}
use Prim.Native.Nat.{max}
use rtn_mq.Prelude.Bytes.{Bytes, bytes_key, bytes_eq, bytes_lt}
use rtn_mq.Prelude.Map.{Map, get, insert, remove, update_all}
use rtn_mq.Error.{
  Result, ok, err, clock, peer_unavailable, shutting_down, queue_full, ◌>>=◌, ◌>>◌, fail_if, ok_or,
}
use rtn_mq.Buffer.{Budget, new, reserve, drop_permit}
use rtn_mq.Cbor.{Minicbor}
use rtn_mq.Crypto.{Iroh}
use rtn_mq.Auth.Claims.{Certificate, metered}
use rtn_mq.Auth.Trust.{check, verify_certificate, saturating_add}
use rtn_mq.Message.Topic.{Topic}
use rtn_mq.Message.Envelope.{DeliveryMode, best_effort, acknowledged}
use rtn_mq.Wire.Control.{Control, subscribe}
use rtn_mq.Join.Admission.{check_member, permit_of}
use rtn_mq.Endpoint.Outcome.{RecipientOutcome, failed}
use rtn_mq.Endpoint.Owner.{
  Owner, Settings, Outside, Answer, Peer, Registration, LocalSub, Pending, DeliveryKey,
  delivery_key,
}

-- `now` is the reading of the clock.
unfoldable pub local_valid : Result ℕ → Owner → Result ℕ
local_valid now o = do
  fail_if o.clock_failed clock
  t ← now
  check o.trust o.cert o.endpoint_id t
  ok t

unfoldable pub peer_valid : Result ℕ → Bytes → Bytes → Owner → Result Peer
peer_valid now peer session o = do
  t ← local_valid now o
  p ← ok_or (get peer o.peers) peer_unavailable
  fail_if (not (bytes_eq p.reg.session session)) peer_unavailable
  check o.trust p.reg.cert peer t
  ok p

-- `Owner::send`: a channel that is full or closed cancels the session.
unfoldable pub send : Outside → Control → Peer → Peer
send out c p =
    if out.accepts p.reg.remote_id p.control c
    then record p { control = p.control ++ c ∷ [] }
    else record p { reg = record p.reg { cancelled = true } }

abbrev pub is_best_effort : DeliveryMode → Bool
is_best_effort best_effort = true
is_best_effort acknowledged = false

module _ (settings : Settings) where
  -- The receipt outlives the message by the time of a handshake, so that a late acknowledgement is known.
  unfoldable pub keep_receipt : DeliveryKey → Pending → Owner → Owner
  keep_receipt key p o =
      if ltb 0 p.attempts
      then record o {
        terminal =
            insert key
              (record {
                expires =
                    saturating_add p.envelope.expires (max settings.handshake_timeout.as_secs 1);
                memory = p.memory;
              })
              o.terminal;
      }
      else o

  unfoldable pub finish : DeliveryKey → RecipientOutcome → Owner → Owner
  unfolding keep_receipt
  finish key outcome o = elim (get key o.pending) [
    | none ↦ o
    | some p ↦
        let o' = keep_receipt key p (record o { pending = remove key o.pending }) in
        record o' { outcomes = (key, outcome) ∷ o'.outcomes }
  ]

  unfoldable pub finish_all : List DeliveryKey → RecipientOutcome → Owner → Owner
  finish_all [] outcome o = o
  finish_all (key ∷ keys) outcome o = finish_all keys outcome (finish key outcome o)

-- What a subscription knows of a peer.
unfoldable pub forget_peer : Bytes → LocalSub → LocalSub
forget_peer peer s = record s {
  confirmed = remove peer s.confirmed;
  grants = remove peer s.grants;
  demand = remove peer s.demand;
  ready = remove peer s.ready;
}

-- A delivery to the peer is not being written any more, and may be tried again at once.
unfoldable pub interrupt : Bytes → ℕ → DeliveryKey → Pending → Pending
interrupt peer now key p =
    if bytes_eq key.peer peer then record p { writing = false; next = now } else p

-- The best-effort deliveries to a peer, in the order of their keys.
unfoldable pub unreliable_to : Bytes → Map DeliveryKey Pending → List DeliveryKey
unreliable_to peer [] = []
unreliable_to peer ((key, p) ∷ m) =
    let rest = unreliable_to peer m in
    if bytes_eq key.peer peer && is_best_effort p.envelope.mode then key ∷ rest else rest

unfoldable pub remove_peer : Settings → Outside → Bytes → Owner → Owner
unfolding forget_peer interrupt unreliable_to
remove_peer settings out peer o =
    let o' = record o {
      peers = remove peer o.peers;
      subscriptions = update_all (λ topic. forget_peer peer) o.subscriptions;
      pending = update_all (interrupt peer out.instant) o.pending;
    } in
    finish_all settings (unreliable_to peer o'.pending) (failed peer_unavailable) o'

-- `(dialer, nonce) <= (dialer, nonce)` of the session that is there and the new one.
unfoldable pub keeps_existing : Registration → Registration → Bool
keeps_existing existing reg =
    bytes_lt existing.dialer reg.dialer
    || (bytes_eq existing.dialer reg.dialer && not (bytes_lt reg.nonce existing.nonce))

unfoldable pub announce : Outside → Map Topic LocalSub → Peer → Peer
announce out [] p = p
announce out ((topic, s) ∷ m) p = announce out m (send out (subscribe topic s.id s.mode) p)

unfoldable pub renew_recipient : Bytes → Certificate → DeliveryKey → Pending → Pending
renew_recipient peer cert key p =
    if bytes_eq key.peer peer then record p { recipient_certificate = cert } else p

-- `peer_budgets.entry(peer).or_insert_with(…)`
unfoldable pub budgets_of : Settings → Bytes → Owner → Budget × Budget
budgets_of settings peer o = elim (get peer o.peer_budgets) [
  | none ↦ (new settings.per_peer_messages, new settings.per_peer_bytes)
  | some b ↦ b
]

-- The rest of `register`, with the certificate and the memory that are reserved.
unfoldable pub admit_peer : Settings → Outside → Registration → ℕ → Owner → Owner
unfolding announce renew_recipient budgets_of
admit_peer settings out reg memory o =
    let o' = remove_peer settings out reg.remote_id o in
    let p : Peer = record {
      reg = reg;
      control = [];
      outbound = [];
      inbound = [];
      memory = memory;
    } in
    record o' {
      pending = update_all (renew_recipient reg.remote_id reg.cert) o'.pending;
      peer_budgets = insert reg.remote_id (budgets_of settings reg.remote_id o') o'.peer_budgets;
      peers = insert reg.remote_id (announce out o'.subscriptions p) o'.peers;
    }

-- The two reservations of `register`; the permit of the first goes back if the second fails.
unfoldable pub reserve_peer : Registration → Budget → Result (Registration × ℕ) × Budget
unfolding metered reserve drop_permit
reserve_peer reg budget = elim (metered reg.cert budget) [
  | err e ↦ (err e, budget)
  | ok (budget', cert) ↦ elim (reserve (length cert.bytes + 4096) budget') [
    | err e ↦ (err e, drop_permit (permit_of cert.memory) budget')
    | ok (budget'', memory) ↦ (ok (record reg { cert = cert }, memory), budget'')
  ]
]

module _ ⦃m : Minicbor⦄ ⦃c : Iroh⦄ (settings : Settings) (out : Outside) where
  -- `ok false` is the answer where the session that is there stays.
  unfoldable pub may_register : Registration → Owner → Result Bool
  unfolding keeps_existing
  may_register reg o = do
    now ← local_valid (out.wall 0) o
    fail_if o.draining shutting_down
    verify_certificate o.trust reg.cert reg.remote_id now
    check_member o.admission reg.remote_id reg.cert
    elim (get reg.remote_id o.peers) [
      | some existing ↦ ok (not (keeps_existing existing.reg reg))
      | none ↦ if leb settings.max_peers (length o.peers) then err queue_full else ok true
    ]

  unfoldable pub register : Registration → Owner → Answer Bool
  unfolding may_register reserve_peer admit_peer
  register reg o = elim (may_register reg o) [
    | err e ↦ (err e, o)
    | ok false ↦ (ok false, o)
    | ok true ↦
        let (reserved, budget) = reserve_peer reg o.metadata in
        let o' = record o { metadata = budget } in
        elim reserved [
          | err e ↦ (err e, o')
          | ok (reg', memory) ↦ (ok true, admit_peer settings out reg' memory o')
        ]
  ]
