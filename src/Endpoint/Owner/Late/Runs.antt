-- ===== src/Endpoint/Owner/Late/Runs.antt =====
-- endpoint/owner.rs: over any turns of the owner a late acknowledgement is known.
use Prim.Native.Nat.{max}
use rtn_mq.Prelude.{
  ℕ, ◌≡◌, ◌≤◌, ◌<◌, refl, ap, ◌∙◌, subst, inl, inr, false, some, List, [], ◌∷◌, arith, Option-cases,
  Bool-cases,
}
use rtn_mq.Prelude.Bytes.{Bytes, bytes_key}
use rtn_mq.Prelude.Map.{get, retain, keys}
use rtn_mq.Error.{Result-cases, is_ok, ok}
use rtn_mq.Cbor.{Minicbor}
use rtn_mq.Crypto.{Iroh}
use rtn_mq.Auth.Claims.{Certificate, allows}
use rtn_mq.Auth.Trust.{saturating_add}
use rtn_mq.Message.Topic.{Topic}
use rtn_mq.Message.Topic.Ordering.{topic_key}
use rtn_mq.Endpoint.Outcome.{RecipientOutcome, cancelled}
use rtn_mq.Endpoint.Owner.{
  Owner, Settings, Outside, Pending, DeliveryKey, delivery_key, unwrap_or_zero, id_key,
}
use rtn_mq.Endpoint.Owner.Session.{finish}
use rtn_mq.Endpoint.Owner.Publish.{last_sequence}
use rtn_mq.Endpoint.Owner.Remote.{keys_for, on_outcome}
use rtn_mq.Endpoint.Owner.Receive.{begin}
use rtn_mq.Endpoint.Owner.Deliver.{incoming}
use rtn_mq.Endpoint.Owner.Schedule.{schedule}
use rtn_mq.Endpoint.Owner.Maintenance.{remove_peers, maintenance}
use rtn_mq.Endpoint.Owner.Commands.{Command, state_of, command, turn, run}
use rtn_mq.Endpoint.Owner.Certificates.{deny_now, revoke_now, check_renewal, renew_now}
use rtn_mq.Endpoint.Owner.Endings.{own_key, finish-terminal, finish-pending, finish-identity}
use rtn_mq.Endpoint.Owner.Late.{Ended, quiet, finish_all-Ended, remove_peer-Ended, schedule-Ended}
use rtn_mq.Endpoint.Owner.Late.Sweep.{remove_peers-Ended, maintenance-Ended}
use rtn_mq.Endpoint.Owner.Late.Commands.{
  release-SameEnds, subscribe_local-SameEnds, on_shutdown-SameEnds, on_sent-Ended, on_remote-Ended,
  begin-SameEnds, incoming-SameEnds, deny_now-SameEnds, revoke_now-SameEnds, register-Ended,
}
use rtn_mq.Endpoint.Owner.Late.Publications.{publish-Ended}

module _ ⦃m : Minicbor⦄ ⦃c : Iroh⦄ (settings : Settings) (out : Outside) (key : DeliveryKey)
    (until : ℕ) where
  renew_now-Ended :
      (cert : Certificate) (o : Owner)
      → unwrap_or_zero (out.wall 1) < until
      → Ended key until o
      → Ended key until (renew_now settings out cert o)
  unfolding renew_now
  renew_now-Ended cert o early h = elim (Result-cases (check_renewal settings out cert o)) [
    | inr (e, refused) ↦ rw (renew_now, refused) h
    | inl ((budget, cert'), checked) ↦
        let o1 = record o { metadata = budget; cert = cert' } in
        let h1 : Ended key until o1 = quiet key until (ground arith) h in
        let o2 = remove_peers settings out (keys o1.peers) o1 in
        let h2 = remove_peers-Ended settings out key until (keys o1.peers) o1 h1 in
        let o3 = record o2 {
          subscriptions = retain (λ topic s. allows cert' topic false) o2.subscriptions;
        } in
        let h3 : Ended key until o3 = quiet key until (ground arith) h2 in
        rw (renew_now, checked) (maintenance-Ended settings out key until o3 early h3)
  ]

  command-Ended :
      (size : ℕ) (x : Command) (o o' : Owner)
      → unwrap_or_zero (out.wall 1) < until
      → command settings out size x o ≡ some o'
      → Ended key until o
      → Ended key until o'
  unfolding command
  command-Ended size (Command.disconnect peer) o o' early c h =
      subst (Ended key until) (cc c) (remove_peer-Ended key until settings out peer o h)
  command-Ended size (Command.subscribe topic mode) o o' early c h =
      subst (Ended key until) (cc c)
        (quiet key until (subscribe_local-SameEnds settings out size topic mode o) h)
  command-Ended size (Command.publishes topic payload options) o o' early c h =
      subst (Ended key until) (cc c)
        (publish-Ended settings out key until topic payload options o h)
  command-Ended size (Command.registers reg) o o' early c h =
      subst (Ended key until) (cc c) (register-Ended settings out key until reg o h)
  command-Ended size (Command.remote peer session message) o o' early c h =
      subst (Ended key until) (cc c)
        (on_remote-Ended settings out key until peer session message o h)
  command-Ended size (Command.begins peer session sub stream signed len) o o' early c h =
      elim (Option-cases (begin settings out peer session sub stream signed len o)) [
        | inl panics ↦ absurd (ground (arith, panics, c))
        | inr ((r, o1), begun) ↦
            let eq : o1 ≡ o' = ground (arith, begun, c) in
            let same =
              begin-SameEnds settings out peer session sub stream signed len o o1 r begun in
            subst (Ended key until) eq (quiet key until same h)
      ]
  command-Ended size (Command.arrives peer session sub ticket payload) o o' early c h =
      let o1 = state_of (incoming out peer session sub ticket payload o) in
      let got =
        quiet key until (incoming-SameEnds settings out peer session sub ticket payload o) h in
      let cut = remove_peer-Ended key until settings out peer o1 got in
      elim (Bool-cases (is_ok (incoming out peer session sub ticket payload o).0)) [
        | inl good ↦ subst (Ended key until) (ground (arith, good, c)) got
        | inr bad ↦ subst (Ended key until) (ground (arith, bad, c)) cut
      ]
  command-Ended size (Command.wrote k session result) o o' early c h =
      subst (Ended key until) (cc c) (on_sent-Ended settings out key until k session result o h)
  command-Ended size (Command.ends peer session) o o' early c h =
      let removed = remove_peer-Ended key until settings out peer o h in
      ground (arith, removed, h, c)
  command-Ended size (Command.renew cert) o o' early c h =
      subst (Ended key until) (cc c) (renew_now-Ended cert o early h)
  command-Ended size (Command.deny id) o o' early c h =
      let h1 = quiet key until (deny_now-SameEnds settings out id o) h in
      subst (Ended key until) (cc c)
        (maintenance-Ended settings out key until (deny_now settings out id o) early h1)
  command-Ended size (Command.revoke snapshot) o o' early c h =
      elim (Option-cases (revoke_now settings out snapshot o)) [
        | inl panics ↦ absurd (ground (arith, panics, c))
        | inr (o1, revoked) ↦
            let eq : maintenance settings out o1 ≡ o' = ground (arith, revoked, c) in
            let h1 = quiet key until (revoke_now-SameEnds settings out snapshot o o1 revoked) h in
            subst (Ended key until) eq (maintenance-Ended settings out key until o1 early h1)
      ]
  command-Ended size (Command.cancel id) o o' early c h =
      let mine = keys_for (λ k. id_key.same k.id id) (keys o.pending) in
      subst (Ended key until) (cc c) (finish_all-Ended key until settings mine cancelled o h)
  command-Ended size Command.shutdown o o' early c h =
      subst (Ended key until) (cc c) (quiet key until (on_shutdown-SameEnds settings out o) h)
  command-Ended size Command.tick o o' early c h =
      subst (Ended key until) (cc c) (maintenance-Ended settings out key until o early h)
  command-Ended size (Command.drops from n) o o' early c h =
      subst (Ended key until) (cc c) (quiet key until (release-SameEnds from n o) h)

-- In each turn `maintenance` reads a time before this one.
abbrev pub AllBefore : ℕ → List (Outside × Command) → Type 0
AllBefore until [] = Unit
AllBefore until ((out, x) ∷ xs) = (unwrap_or_zero (out.wall 1) < until) × AllBefore until xs

module _ ⦃m : Minicbor⦄ ⦃c : Iroh⦄ (settings : Settings) (size : ℕ) where
  run-Ended :
      (key : DeliveryKey) (until : ℕ) (xs : List (Outside × Command)) (o o' : Owner)
      → AllBefore until xs
      → run settings size xs o ≡ some o'
      → Ended key until o
      → Ended key until o'
  unfolding run turn
  run-Ended key until [] o o' early r h = subst (Ended key until) (cc r) h
  run-Ended key until ((out, x) ∷ xs) o o' (early, rest) r h =
      elim (Option-cases (command settings out size x o)) [
        | inl panics ↦ absurd (ground (arith, panics, r))
        | inr (o1, runs) ↦
            let later : run settings size xs (schedule settings out o1) ≡ some o' =
              ground (arith, runs, r) in
            let h1 = command-Ended settings out key until size x o o1 early runs h in
            run-Ended key until xs (schedule settings out o1) o' rest later
              (schedule-Ended settings out key until o1 h1)
      ]

  on_outcome-Ended :
      (out : Outside) (until : ℕ) (peer sub : Bytes) (topic : Topic) (epoch : Bytes)
      (sequence code : ℕ) (o o' : Owner)
      → Ended (own_key peer sub topic epoch sequence o) until o'
      → on_outcome settings out peer o' topic sub epoch sequence code ≡ (ok tt, o')
  unfolding on_outcome
  on_outcome-Ended out until peer sub topic epoch sequence code o o' h =
      let key = own_key peer sub topic epoch sequence o in
      let same : own_key peer sub topic epoch sequence o' ≡ key =
        ground (arith, h.realm, h.publisher) in
      let gone = ap (λ k. get k o'.pending) same ∙ h.over in
      let kept = ap (λ k. get k o'.terminal) same ∙ h.kept in rw (on_outcome, gone, kept)

  -- An acknowledgement that comes late is known. When a delivery that was tried, with a number that its
  -- topic has given out, has ended, however it ended, then after any turns whose clock reads less than
  -- the expiry of its message and the grace period, the handshake timeout in whole seconds or one second if
  -- that is more, an acknowledgement of it is accepted and changes nothing, so that it does not cost the
  -- peer its session.
  pub on_outcome-finish :
      (out : Outside) (peer sub : Bytes) (topic : Topic) (epoch : Bytes) (sequence code : ℕ)
      (ending : RecipientOutcome) (o o' : Owner) (p : Pending) (xs : List (Outside × Command))
      → let key = own_key peer sub topic epoch sequence o in
        get key o.pending ≡ some p
        → 0 < p.attempts
        → sequence ≤ last_sequence topic o.sequences
        → AllBefore
            (saturating_add p.envelope.expires (max settings.handshake_timeout.as_secs 1))
            xs
        → run settings size xs (finish settings key ending o) ≡ some o'
        → on_outcome settings out peer o' topic sub epoch sequence code ≡ (ok tt, o')
  on_outcome-finish out peer sub topic epoch sequence code ending o o' p xs there tried given early
        r =
      let key = own_key peer sub topic epoch sequence o in
      let until = saturating_add p.envelope.expires (max settings.handshake_timeout.as_secs 1) in
      let (trust, id, sequences) = finish-identity settings key ending o in
      let h : Ended key until (finish settings key ending o) = record {
        over = finish-pending settings key ending o;
        receipt = record { expires = until; memory = p.memory };
        kept = finish-terminal settings key ending o p there tried;
        lasts = refl;
        realm = ground (arith, trust);
        publisher = id;
        numbered = ground (arith, sequences, given);
      } in
      let after = run-Ended key until xs (finish settings key ending o) o' early r h in
      on_outcome-Ended out until peer sub topic epoch sequence code o o' after
