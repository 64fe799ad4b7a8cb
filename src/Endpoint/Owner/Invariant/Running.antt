-- ===== src/Endpoint/Owner/Invariant/Running.antt =====
-- endpoint/owner.rs: the turns of `run` keep the invariant, and `Permit::shrink_to` does not panic in them.
use rtn_mq.Prelude.{
  ℕ, ◌-◌, ◌*◌, ◌≤◌, ◌≡◌, ◌≢◌, refl, inl, inr, false, none, some, List, [], ◌∷◌, length, arith, ltb,
  if◌then◌else◌, Option-cases,
}
use rtn_mq.Prelude.Bytes.{Bytes, bytes_key}
use rtn_mq.Prelude.Map.{retain, keys, length-retain-le}
use rtn_mq.Prelude.Map.Each.{Each-retain}
use rtn_mq.Error.{ok, Result-cases, >>=-eq-ok}
use rtn_mq.Buffer.{Budget, reserve, shrink_to, drop_permit}
use rtn_mq.Cbor.{Minicbor, MinicborLaws}
use rtn_mq.Crypto.{Iroh}
use rtn_mq.Auth.Claims.{Certificate, allows}
use rtn_mq.Auth.Trust.{Trust, deny_certificate, apply_revocations}
use rtn_mq.Auth.Trust.Updates.{IsBounded, deny-Grows, apply-Grows}
use rtn_mq.Message.Topic.{Topic}
use rtn_mq.Message.Topic.Ordering.{topic_key}
use rtn_mq.Endpoint.Outcome.{cancelled}
use rtn_mq.Endpoint.Owner.{Owner, Settings, Outside, LocalSub, Start, new_owner, id_key}
use rtn_mq.Endpoint.Owner.Schedule.{schedule}
use rtn_mq.Endpoint.Owner.Remote.{keys_for}
use rtn_mq.Endpoint.Owner.Maintenance.{remove_peers, maintenance}
use rtn_mq.Endpoint.Owner.Commands.{Command, command, turn, run}
use rtn_mq.Endpoint.Owner.Certificates.{
  deny_now, revoke_now, read_revocations, merge_revocations, check_renewal, renew_now,
}
use rtn_mq.Endpoint.Owner.Invariant.{SubSound, IsSound}
use rtn_mq.Endpoint.Owner.Invariant.Sessions.{
  finish_all-IsSound, remove_peer-IsSound, register-IsSound,
}
use rtn_mq.Endpoint.Owner.Invariant.Turns.{
  release-IsSound, subscribe_local-IsSound, on_sent-IsSound, on_remote-IsSound, on_shutdown-IsSound,
}
use rtn_mq.Endpoint.Owner.Invariant.Receiving.{begin-total}
use rtn_mq.Endpoint.Owner.Invariant.Delivering.{incoming-IsSound}
use rtn_mq.Endpoint.Owner.Invariant.Publishing.{publish-IsSound, schedule-IsSound}
use rtn_mq.Endpoint.Owner.Invariant.Sweeping.{remove_peers-IsSound, maintenance-IsSound}

shrink_to-ne-none : (n permit : ℕ) (b : Budget) → n ≤ permit → shrink_to n permit b ≢ none
unfolding shrink_to
shrink_to-ne-none n permit b h = ground arith

reserve-permit :
    (n : ℕ) (b : Budget) {b' : Budget} {permit : ℕ} → reserve n b ≡ ok (b', permit) → permit ≡ n
unfolding reserve
reserve-permit n b h = ground arith

module _ ⦃m : Minicbor⦄ (laws : MinicborLaws m) ⦃c : Iroh⦄ (settings : Settings)
    (out : Outside) where
  deny_now-IsSound :
      (id : Bytes) (o : Owner) → IsSound settings o → IsSound settings (deny_now settings out id o)
  unfolding deny_now
  deny_now-IsSound id o h = elim (Result-cases (reserve 96 o.metadata)) [
    | inr (e, full) ↦ rw (deny_now, full) h
    | inl ((budget, permit), paid) ↦ elim (Result-cases (deny_certificate id o.trust)) [
      | inr (e, refused) ↦ ground (arith, paid, refused, h)
      | inl (trust, denied) ↦
          let bounded = (deny-Grows laws id o.trust trust denied).bounded h.revoked_sound in
          ground (arith, paid, denied, bounded, h)
    ]
  ]

  merge_revocations-total :
      (budget : Budget) (trust : Trust) (o : Owner)
      → IsBounded trust
      → IsSound settings o
      → (o' : Owner) × (merge_revocations settings out (4096 * 96) budget trust o ≡ some o')
        × IsSound settings o'
  unfolding merge_revocations
  merge_revocations-total budget trust o bounded h =
      let added = length trust.revoked - length o.trust.revoked in
      elim (Option-cases (shrink_to (added * 96) (4096 * 96) budget)) [
        | inl panics ↦
            absurd
              (shrink_to-ne-none (added * 96) (4096 * 96) budget (omega (arith, bounded)) panics)
        | inr ((budget', permit), cut) ↦
            let memory =
              if ltb 0 added then permit ∷ o.revocation_memory else o.revocation_memory in
            (
              record o { metadata = budget'; trust = trust; revocation_memory = memory },
              rw (merge_revocations, cut),
              ground (arith, bounded, h),
            )
      ]

  revoke_now-total :
      (snapshot : Bytes) (o : Owner)
      → IsSound settings o
      → (o' : Owner) × (revoke_now settings out snapshot o ≡ some o') × IsSound settings o'
  unfolding revoke_now
  revoke_now-total snapshot o h = elim (Result-cases (reserve (4096 * 96) o.metadata)) [
    | inr (e, full) ↦ (o, rw (revoke_now, full), h)
    | inl ((budget, permit), paid) ↦
        elim (Result-cases (read_revocations settings out snapshot o)) [
          | inr (e, refused) ↦ (
            record o { metadata = drop_permit permit budget },
            rw (revoke_now, paid, refused),
            ground (arith, h),
          )
          | inl (trust, new) ↦
              let (now, read, applied) =
                >>=-eq-ok (out.wall 4) (λ now. apply_revocations snapshot now o.trust) new in
              let bounded =
                (apply-Grows laws snapshot now o.trust trust applied).bounded h.revoked_sound in
              let (o', merged, h') = merge_revocations-total budget trust o bounded h in
              let size = reserve-permit (4096 * 96) o.metadata paid in
              (o', rw (revoke_now, paid, new, size) merged, h')
        ]
  ]

  renew_now-IsSound :
      (cert : Certificate) (o : Owner)
      → IsSound settings o
      → IsSound settings (renew_now settings out cert o)
  unfolding renew_now
  renew_now-IsSound cert o h = elim (Result-cases (check_renewal settings out cert o)) [
    | inr (e, refused) ↦ rw (renew_now, refused) h
    | inl ((budget, cert'), checked) ↦
        let o1 = record o { metadata = budget; cert = cert' } in
        let h1 : IsSound settings o1 = ground (arith, h) in
        let o2 = remove_peers settings out (keys o1.peers) o1 in
        let h2 = remove_peers-IsSound settings out (keys o1.peers) o1 h1 in
        let keep = λ (topic : Topic) (s : LocalSub). allows cert' topic false in
        let o3 = record o2 { subscriptions = retain keep o2.subscriptions } in
        let h3 : IsSound settings o3 = record {
          peers_fit = h2.peers_fit;
          subscriptions_fit =
              omega (arith, h2.subscriptions_fit, length-retain-le keep o2.subscriptions);
          sequences_fit = h2.sequences_fit;
          sequences_sorted = h2.sequences_sorted;
          revoked_sound = h2.revoked_sound;
          peers_sound = h2.peers_sound;
          subscriptions_sound =
              Each-retain (SubSound settings) keep o2.subscriptions h2.subscriptions_sound;
        } in
        rw (renew_now, checked) (maintenance-IsSound settings out o3 h3)
  ]

  command-total :
      (size : ℕ) (x : Command) (o : Owner)
      → IsSound settings o
      → (o' : Owner) × (command settings out size x o ≡ some o') × IsSound settings o'
  unfolding command
  command-total size (Command.disconnect peer) o h =
      (_, refl, remove_peer-IsSound settings out peer o h)
  command-total size (Command.subscribe topic mode) o h =
      (_, refl, subscribe_local-IsSound settings out size topic mode o h)
  command-total size (Command.publishes topic payload options) o h =
      (_, refl, publish-IsSound settings out topic payload options o h)
  command-total size (Command.registers reg) o h = (_, refl, register-IsSound settings out reg o h)
  command-total size (Command.remote peer session message) o h =
      (_, refl, on_remote-IsSound settings out peer session message o h)
  command-total size (Command.begins peer session sub stream signed len) o h =
      let (r, o', runs, h') = begin-total settings out peer session sub stream signed len o h in
      (o', rw runs, h')
  command-total size (Command.arrives peer session sub ticket payload) o h =
      let kept = incoming-IsSound settings out peer session sub ticket payload o h in
      let removed = remove_peer-IsSound settings out peer _ kept in
      (_, refl, ground (arith, kept, removed))
  command-total size (Command.wrote key session result) o h =
      (_, refl, on_sent-IsSound settings out key session result o h)
  command-total size (Command.ends peer session) o h =
      (_, refl, ground (arith, h, remove_peer-IsSound settings out peer o h))
  command-total size (Command.renew cert) o h = (_, refl, renew_now-IsSound cert o h)
  command-total size (Command.deny id) o h =
      (_, refl, maintenance-IsSound settings out _ (deny_now-IsSound id o h))
  command-total size (Command.revoke snapshot) o h =
      let (o', runs, h') = revoke_now-total snapshot o h in
      (maintenance settings out o', rw runs, maintenance-IsSound settings out o' h')
  command-total size (Command.cancel id) o h =
      let mine = keys_for (λ k. id_key.same k.id id) (keys o.pending) in
      (_, refl, finish_all-IsSound settings mine cancelled o h)
  command-total size Command.shutdown o h = (_, refl, on_shutdown-IsSound settings out o h)
  command-total size Command.tick o h = (_, refl, maintenance-IsSound settings out o h)
  command-total size (Command.drops from n) o h = (_, refl, release-IsSound settings from n o h)

module _ ⦃m : Minicbor⦄ (laws : MinicborLaws m) ⦃c : Iroh⦄ (settings : Settings) (size : ℕ) where
  -- From a sound owner no sequence of commands panics, and the owner stays sound.
  pub run-total :
      (xs : List (Outside × Command)) (o : Owner)
      → IsSound settings o
      → (o' : Owner) × (run settings size xs o ≡ some o') × IsSound settings o'
  unfolding run turn
  run-total [] o h = (o, refl, h)
  run-total ((out, x) ∷ xs) o h =
      let (o1, runs, h1) = command-total laws settings out size x o h in
      let h2 = schedule-IsSound settings out o1 h1 in
      let (o', rest, h') = run-total xs (schedule settings out o1) h2 in
      (o', rw (run, runs) rest, h')

  new_owner-IsSound : (s : Start) → IsBounded s.trust → IsSound settings (new_owner s)
  unfolding new_owner
  new_owner-IsSound s h = record {
    peers_fit = omega arith;
    subscriptions_fit = omega arith;
    sequences_fit = omega arith;
    sequences_sorted = tt;
    revoked_sound = h;
    peers_sound = tt;
    subscriptions_sound = tt;
  }

  -- From a new owner, whose trust denies a set of at most 4096 certificates, no sequence of commands and
  -- dropped permits ends at the panic of `Permit::shrink_to`, whatever the clock, the channels and the
  -- queues answer. After it there are at most `max_peers` peers, `max_topics` subscriptions and `max_topics` sequence numbers; each peer has at
  -- most `max_topics` bindings and streams; no binding asks for a credit while it has one; and each grant is
  -- for one frame of at most the largest size.
  pub run-new_owner :
      (s : Start) (xs : List (Outside × Command))
      → IsBounded s.trust
      → (o : Owner) × (run settings size xs (new_owner s) ≡ some o) × IsSound settings o
  run-new_owner s xs h = run-total xs (new_owner s) (new_owner-IsSound s h)
