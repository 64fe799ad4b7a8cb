-- ===== src/Endpoint/Owner/Once/Runs.antt =====
-- endpoint/owner.rs: over any turns of the owner a message is handed over once.
use rtn_mq.Prelude.{
  ℕ, ◌≡◌, ◌<◌, ap, subst, inl, inr, false, ◌||◌, not, Option, some, none, List, [], ◌∷◌, arith,
  Option-cases, Bool-cases, leb,
}
use rtn_mq.Prelude.Bytes.{Bytes, bytes_key, bytes_eq}
use rtn_mq.Prelude.Map.{get, retain, keys}
use rtn_mq.Error.{Result-cases, is_ok}
use rtn_mq.Cbor.{Minicbor}
use rtn_mq.Crypto.{Iroh}
use rtn_mq.Auth.Claims.{Certificate, allows}
use rtn_mq.Message.Topic.Ordering.{topic_key}
use rtn_mq.Endpoint.Outcome.{cancelled}
use rtn_mq.Endpoint.Owner.{
  Owner, Settings, Outside, Dedup, DedupKey, dedup_key, DedupState, processing, retryable,
  processed, permanent, id_key,
}
use rtn_mq.Endpoint.Owner.Remote.{keys_for}
use rtn_mq.Endpoint.Owner.Receive.{ReceiveTicket, begin}
use rtn_mq.Endpoint.Owner.Deliver.{repeat, take_message, is_sub, incoming, check_payload}
use rtn_mq.Endpoint.Owner.Schedule.{schedule}
use rtn_mq.Endpoint.Owner.Maintenance.{remove_peers, maintenance}
use rtn_mq.Endpoint.Owner.Commands.{Command, state_of, command, turn, run}
use rtn_mq.Endpoint.Owner.Certificates.{deny_now, revoke_now, check_renewal, renew_now}
use rtn_mq.Endpoint.Owner.Once.{Held, Calm, handed, times, SameLog, SameLog-refl}
use rtn_mq.Endpoint.Owner.Once.Quiet.{
  finish_all-SameLog, remove_peer-SameLog, publish-SameLog, register-SameLog, schedule-SameLog,
}
use rtn_mq.Endpoint.Owner.Once.Commands.{
  release-SameLog, subscribe_local-SameLog, on_sent-SameLog, on_remote-SameLog, on_shutdown-SameLog,
  begin-SameLog, deny_now-SameLog, revoke_now-SameLog,
}
use rtn_mq.Endpoint.Owner.Once.Sweep.{
  Keeps, Keeps-SameLog, Keeps-trans, remove_peers-SameLog, maintenance-Keeps,
}
use rtn_mq.Endpoint.Owner.Once.Replay.{key_of, send_outcome-SameLog, incoming-Keeps, deliver-Held}

module _ ⦃m : Minicbor⦄ ⦃c : Iroh⦄ (settings : Settings) (out : Outside) (key : DedupKey)
    (expires : ℕ) where
  quietly : {o o' : Owner} → SameLog o o' → Keeps key expires o o'
  quietly s = Keeps-SameLog key expires s

  renew_now-Keeps :
      (cert : Certificate) (o : Owner)
      → Calm key expires out
      → Keeps key expires o (renew_now settings out cert o)
  unfolding renew_now
  renew_now-Keeps cert o calm = elim (Result-cases (check_renewal settings out cert o)) [
    | inr (e, refused) ↦ rw (renew_now, refused) (quietly (SameLog-refl o))
    | inl ((budget, cert'), checked) ↦
        let o1 = record o { metadata = budget; cert = cert' } in
        let o2 = remove_peers settings out (keys o1.peers) o1 in
        let removed = remove_peers-SameLog settings out (keys o1.peers) o1 in
        let o3 = record o2 {
          subscriptions = retain (λ topic s. allows cert' topic false) o2.subscriptions;
        } in
        let before : SameLog o o3 = ground (arith, removed) in
        rw (renew_now, checked)
          (Keeps-trans key expires (quietly before)
            (maintenance-Keeps settings out key expires o3 calm))
  ]

  command-Keeps :
      (size : ℕ) (x : Command) (o o' : Owner)
      → Calm key expires out
      → command settings out size x o ≡ some o'
      → Keeps key expires o o'
  unfolding command
  command-Keeps size (Command.disconnect peer) o o' calm h =
      subst (Keeps key expires o) (cc h) (quietly (remove_peer-SameLog settings out peer o))
  command-Keeps size (Command.subscribe topic mode) o o' calm h =
      subst (Keeps key expires o) (cc h)
        (quietly (subscribe_local-SameLog settings out size topic mode o))
  command-Keeps size (Command.publishes topic payload options) o o' calm h =
      subst (Keeps key expires o) (cc h)
        (quietly (publish-SameLog settings out topic payload options o))
  command-Keeps size (Command.registers reg) o o' calm h =
      subst (Keeps key expires o) (cc h) (quietly (register-SameLog settings out reg o))
  command-Keeps size (Command.remote peer session message) o o' calm h =
      subst (Keeps key expires o) (cc h)
        (quietly (on_remote-SameLog settings out peer session message o))
  command-Keeps size (Command.begins peer session sub stream signed len) o o' calm h =
      elim (Option-cases (begin settings out peer session sub stream signed len o)) [
        | inl panics ↦ absurd (ground (arith, panics, h))
        | inr ((r, o1), begun) ↦
            let eq : o1 ≡ o' = ground (arith, begun, h) in
            subst (Keeps key expires o) eq
              (quietly (begin-SameLog settings out peer session sub stream signed len o o1 r begun))
      ]
  command-Keeps size (Command.arrives peer session sub ticket payload) o o' calm h =
      let got = incoming-Keeps settings out key expires peer session sub ticket payload o in
      let o1 = state_of (incoming out peer session sub ticket payload o) in
      let cut = Keeps-trans key expires got (quietly (remove_peer-SameLog settings out peer o1)) in
      elim (Bool-cases (is_ok (incoming out peer session sub ticket payload o).0)) [
        | inl good ↦ subst (Keeps key expires o) (ground (arith, good, h)) got
        | inr bad ↦ subst (Keeps key expires o) (ground (arith, bad, h)) cut
      ]
  command-Keeps size (Command.wrote k session result) o o' calm h =
      subst (Keeps key expires o) (cc h) (quietly (on_sent-SameLog settings out k session result o))
  command-Keeps size (Command.ends peer session) o o' calm h =
      let removed = remove_peer-SameLog settings out peer o in quietly (ground (arith, removed, h))
  command-Keeps size (Command.renew cert) o o' calm h =
      subst (Keeps key expires o) (cc h) (renew_now-Keeps cert o calm)
  command-Keeps size (Command.deny id) o o' calm h = subst (Keeps key expires o) (cc h) (
      Keeps-trans key expires (quietly (deny_now-SameLog settings out id o))
        (maintenance-Keeps settings out key expires (deny_now settings out id o) calm))
  command-Keeps size (Command.revoke snapshot) o o' calm h =
      elim (Option-cases (revoke_now settings out snapshot o)) [
        | inl panics ↦ absurd (ground (arith, panics, h))
        | inr (o1, revoked) ↦
            let eq : maintenance settings out o1 ≡ o' = ground (arith, revoked, h) in
            subst (Keeps key expires o) eq (
              Keeps-trans key expires
                (quietly (revoke_now-SameLog settings out snapshot o o1 revoked))
                (maintenance-Keeps settings out key expires o1 calm))
      ]
  command-Keeps size (Command.cancel id) o o' calm h =
      let mine = keys_for (λ k. id_key.same k.id id) (keys o.pending) in
      subst (Keeps key expires o) (cc h) (quietly (finish_all-SameLog settings mine cancelled o))
  command-Keeps size Command.shutdown o o' calm h =
      subst (Keeps key expires o) (cc h) (quietly (on_shutdown-SameLog settings out o))
  command-Keeps size Command.tick o o' calm h =
      subst (Keeps key expires o) (cc h) (maintenance-Keeps settings out key expires o calm)
  command-Keeps size (Command.drops from n) o o' calm h =
      subst (Keeps key expires o) (cc h) (quietly (release-SameLog from n o))

abbrev pub AllCalm : DedupKey → ℕ → List (Outside × Command) → Type 0
AllCalm key expires [] = Unit
AllCalm key expires ((out, x) ∷ xs) = Calm key expires out × AllCalm key expires xs

module _ ⦃m : Minicbor⦄ ⦃c : Iroh⦄ (settings : Settings) (size : ℕ) where
  run-Keeps :
      (key : DedupKey) (expires : ℕ) (xs : List (Outside × Command)) (o o' : Owner)
      → AllCalm key expires xs
      → run settings size xs o ≡ some o'
      → Keeps key expires o o'
  unfolding run turn
  run-Keeps key expires [] o o' calm h =
      subst (Keeps key expires o) (cc h) (Keeps-SameLog key expires (SameLog-refl o))
  run-Keeps key expires ((out, x) ∷ xs) o o' (calm, rest) h =
      elim (Option-cases (command settings out size x o)) [
        | inl panics ↦ absurd (ground (arith, panics, h))
        | inr (o1, runs) ↦
            let later : run settings size xs (schedule settings out o1) ≡ some o' =
              ground (arith, runs, h) in
            let written = Keeps-SameLog key expires (schedule-SameLog settings out o1) in
            Keeps-trans key expires (command-Keeps settings out key expires size x o o1 calm runs) (
              Keeps-trans key expires written
                (run-Keeps key expires xs (schedule settings out o1) o' rest later))
      ]

same_handed : (key : DedupKey) {o o' : Owner} → SameLog o o' → ¬ (handed key o < handed key o')
same_handed key s h = omega (arith, ap (times key) s.same_delivered, h)

module _ (out : Outside) where
  repeat-Held :
      (peer sub : Bytes) (ticket : ReceiveTicket) (payload : Bytes) (s : DedupState) (o : Owner)
      → let o' = repeat out peer sub ticket payload s o in
        handed (key_of sub ticket) o < handed (key_of sub ticket) o'
        → Held (key_of sub ticket) ticket.envelope.expires o'
  unfolding repeat
  repeat-Held peer sub ticket payload processed o h =
      absurd (same_handed (key_of sub ticket) (send_outcome-SameLog out peer sub ticket 0 o) h)
  repeat-Held peer sub ticket payload permanent o h =
      absurd (same_handed (key_of sub ticket) (send_outcome-SameLog out peer sub ticket 2 o) h)
  repeat-Held peer sub ticket payload processing o h =
      absurd (same_handed (key_of sub ticket) (SameLog-refl o) h)
  repeat-Held peer sub ticket payload retryable o h = deliver-Held out peer sub ticket payload o h

  take_message-Held :
      (peer sub : Bytes) (ticket : ReceiveTicket) (payload : Bytes) (entry : Option Dedup)
      (o : Owner)
      → let o' = state_of (take_message out peer sub ticket payload entry o) in
        handed (key_of sub ticket) o < handed (key_of sub ticket) o'
        → Held (key_of sub ticket) ticket.envelope.expires o'
  unfolding take_message
  take_message-Held peer sub ticket payload none o h = deliver-Held out peer sub ticket payload o h
  take_message-Held peer sub ticket payload (some d) o h =
      elim (Bool-cases (bytes_eq d.fingerprint ticket.fingerprint)) [
        | inr differs ↦ absurd (ground (arith, differs, h))
        | inl agrees ↦
            let grown : handed (key_of sub ticket) o
                < handed (key_of sub ticket) (repeat out peer sub ticket payload d.state o) =
              ground (arith, agrees, h) in
            rw (take_message, agrees) (repeat-Held peer sub ticket payload d.state o grown)
      ]

module _ ⦃m : Minicbor⦄ ⦃c : Iroh⦄ (out : Outside) where
  incoming-Held :
      (peer session sub : Bytes) (ticket : ReceiveTicket) (payload : Bytes) (o : Owner)
      → let o' = state_of (incoming out peer session sub ticket payload o) in
        handed (key_of sub ticket) o < handed (key_of sub ticket) o'
        → Held (key_of sub ticket) ticket.envelope.expires o'
  unfolding incoming
  incoming-Held peer session sub ticket payload o h =
      let key = key_of sub ticket in
      let entry = get key o.dedup in
      elim (Result-cases (check_payload out peer session ticket payload o)) [
        | inr (e, refused) ↦ absurd (ground (arith, refused, h))
        | inl (now, checked) ↦
            elim (Bool-cases (
              leb ticket.envelope.expires now
              || not (is_sub sub (get ticket.envelope.topic o.subscriptions)))) [
                | inl late ↦
                    let told =
                      ap (times key)
                        (send_outcome-SameLog out peer sub ticket 2 o).same_delivered in
                    absurd (ground (arith, checked, late, h, told))
                | inr on_time ↦
                    let grown : handed key o
                        < handed key (state_of (take_message out peer sub ticket payload entry o)) =
                      ground (arith, checked, on_time, h) in
                    rw (incoming, checked, on_time)
                      (take_message-Held out peer sub ticket payload entry o grown)
              ]
      ]

module _ ⦃m : Minicbor⦄ ⦃c : Iroh⦄ (settings : Settings) (size : ℕ) where
  -- A message is handed to the application once. If `incoming` hands one over, then in any turns after it,
  -- whatever arrives in them, repeated data and new sessions included, it is not handed over again under
  -- that subscription, as long as the clock reads less than its expiry and the application does not ask for
  -- a retry.
  pub run-incoming :
      (out : Outside) (peer session sub : Bytes) (ticket : ReceiveTicket) (payload : Bytes)
      (o o' : Owner) (xs : List (Outside × Command))
      → let key = key_of sub ticket in
        let o1 = state_of (incoming out peer session sub ticket payload o) in
        handed key o < handed key o1
        → AllCalm key ticket.envelope.expires xs
        → run settings size xs o1 ≡ some o'
        → handed key o' ≡ handed key o1
  run-incoming out peer session sub ticket payload o o' xs grown calm runs =
      let key = key_of sub ticket in
      let o1 = state_of (incoming out peer session sub ticket payload o) in
      let kept = run-Keeps settings size key ticket.envelope.expires xs o1 o' calm runs in
      kept.same_handed (incoming-Held out peer session sub ticket payload o grown)
