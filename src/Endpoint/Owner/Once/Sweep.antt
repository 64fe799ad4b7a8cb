-- ===== src/Endpoint/Owner/Once/Sweep.antt =====
-- endpoint/owner.rs: `maintenance` keeps the record of a message until it expires.
use rtn_mq.Prelude.{
  ℕ, ◌≡◌, ◌≢◌, ◌<◌, refl, ap, ◌∙◌, Bool, true, false, Option, List, [], ◌∷◌, arith, ltb, lt→ltb,
}
use rtn_mq.Prelude.Bytes.{Bytes, bytes_key}
use rtn_mq.Prelude.Map.{Map, get, retain, update_all, keys, get-retain, get-update_all}
use rtn_mq.Error.{Error}
use rtn_mq.Cbor.{Minicbor}
use rtn_mq.Message.Topic.{Topic}
use rtn_mq.Message.Topic.Ordering.{topic_key}
use rtn_mq.Endpoint.Outcome.{failed}
use rtn_mq.Endpoint.Owner.{
  Owner, Settings, Outside, unwrap_or_zero, Dedup, DedupKey, dedup_key, DedupState, processing,
  retryable, processed, permanent, DeliveryKey, delivery_key,
}
use rtn_mq.Endpoint.Owner.Session.{local_valid, finish, remove_peer}
use rtn_mq.Endpoint.Owner.Deliver.{is_fresh, send_outcome}
use rtn_mq.Endpoint.Owner.Upkeep.{
  error_of, prune_admission, watch_clock, stale_peers, sweep_dedup, finished, send_outcomes,
  completions, settle, settle_state,
}
use rtn_mq.Endpoint.Owner.Credits.{grant_credits}
use rtn_mq.Endpoint.Owner.Maintenance.{
  remove_peers, close_subscription, close_subscriptions, count_expired, fail_pending,
  retain_budgets, sweep, maintenance,
}
use rtn_mq.Endpoint.Owner.Once.{Held, Calm, handed, times, SameLog, SameLog-refl, SameLog-trans}
use rtn_mq.Endpoint.Owner.Once.Quiet.{
  finish-SameLog, remove_peer-SameLog, grant_credits-SameLog, schedule-SameLog,
}

-- The record stays and nothing more is handed over.
pub record Keeps (key : DedupKey) (expires : ℕ) (o o' : Owner) : Type 0 where
  pub held : Held key expires o → Held key expires o'
  pub same_handed : Held key expires o → handed key o' ≡ handed key o

module _ (key : DedupKey) (expires : ℕ) where
  pub Keeps-SameLog : {o o' : Owner} → SameLog o o' → Keeps key expires o o'
  Keeps-SameLog s = record {
    held = λ h. record {
      entry = h.entry;
      there = ap (get key) s.same_dedup ∙ h.there;
      until = h.until;
      settled = h.settled;
    };
    same_handed = λ h. ap (times key) s.same_delivered;
  }

  pub Keeps-trans :
      {o p q : Owner} → Keeps key expires o p → Keeps key expires p q → Keeps key expires o q
  Keeps-trans a b = record {
    held = λ h. b.held (a.held h);
    same_handed = λ h. b.same_handed (a.held h) ∙ a.same_handed h;
  }

module _ (settings : Settings) (out : Outside) where
  pub remove_peers-SameLog :
      (peers : List Bytes) (o : Owner) → SameLog o (remove_peers settings out peers o)
  unfolding remove_peers
  remove_peers-SameLog [] o = SameLog-refl o
  remove_peers-SameLog (peer ∷ peers) o =
      SameLog-trans (remove_peer-SameLog settings out peer o)
        (remove_peers-SameLog peers (remove_peer settings out peer o))

  close_subscription-SameLog :
      (topic : Topic) (o : Owner) → SameLog o (close_subscription out topic o)
  unfolding close_subscription
  close_subscription-SameLog topic o = ground arith

  close_subscriptions-SameLog :
      (topics : List Topic) (o : Owner) → SameLog o (close_subscriptions out topics o)
  unfolding close_subscriptions
  close_subscriptions-SameLog [] o = SameLog-refl o
  close_subscriptions-SameLog (topic ∷ topics) o =
      SameLog-trans (close_subscription-SameLog topic o)
        (close_subscriptions-SameLog topics (close_subscription out topic o))

  fail_pending-SameLog :
      (xs : List (DeliveryKey × Error)) (o : Owner) → SameLog o (fail_pending settings xs o)
  unfolding fail_pending count_expired
  fail_pending-SameLog [] o = SameLog-refl o
  fail_pending-SameLog ((key, e) ∷ rest) o =
      let counted : SameLog o (count_expired e o) = ground arith in
      SameLog-trans counted (
        SameLog-trans (finish-SameLog settings key (failed e) (count_expired e o))
          (fail_pending-SameLog rest (finish settings key (failed e) (count_expired e o))))

  send_outcomes-SameLog :
      (now : ℕ) (e : Option Error) (m : Map DedupKey Dedup) (o : Owner)
      → SameLog o (send_outcomes out now e m o)
  unfolding send_outcomes send_outcome
  send_outcomes-SameLog now e [] o = SameLog-refl o
  send_outcomes-SameLog now e ((key, d) ∷ m) o =
      SameLog-trans (ground arith) (send_outcomes-SameLog now e m _)

  settle_settled :
      (now : ℕ) (e : Option Error) (code : ℕ) (cut : Bool) (s : DedupState)
      → code ≢ 2
      → is_fresh s ≡ false
      → is_fresh (settle_state out now e code cut s) ≡ false
  unfolding settle_state
  settle_settled now e code cut processing n h = ground arith
  settle_settled now e code cut retryable n h = ground arith
  settle_settled now e code cut processed n h = refl
  settle_settled now e code cut permanent n h = refl

  sweep_dedup-Keeps :
      (now : ℕ) (e : Option Error) (key : DedupKey) (expires : ℕ) (o : Owner)
      → now < expires
      → out.disposition key ≢ 2
      → Keeps key expires o (sweep_dedup out now e o)
  unfolding sweep_dedup settle
  sweep_dedup-Keeps now e key expires o early no_retry =
      let settled = update_all (settle out now e) o.dedup in
      let o1 = record o {
        dedup = settled;
        completions = completions out now e o.dedup o.completions;
      } in
      let told = send_outcomes-SameLog now e o.dedup o1 in
      let test = λ (k : DedupKey) (d : Dedup). ltb now d.expires in
      record {
        held = λ h.
            let swept = get-update_all (settle out now e) key o.dedup h.entry h.there in
            let d = settle out now e key h.entry in
            let fresh : test key d ≡ true = lt→ltb now d.expires (omega (arith, early, h.until)) in
            record {
              entry = d;
              there =
                  ap (λ m. get key (retain test m)) told.same_dedup
                  ∙ get-retain test key settled d swept fresh;
              until = h.until;
              settled =
                  settle_settled now e (out.disposition key) _ h.entry.state no_retry h.settled;
            };
        same_handed = λ h. ap (times key) told.same_delivered;
      }

module _ ⦃m : Minicbor⦄ (settings : Settings) (out : Outside) where
  sweep-Keeps :
      (e : Option Error) (key : DedupKey) (expires : ℕ) (o : Owner)
      → Calm key expires out
      → Keeps key expires o (sweep settings out (unwrap_or_zero (out.wall 1)) e o)
  unfolding sweep retain_budgets
  sweep-Keeps e key expires o calm =
      let now = unwrap_or_zero (out.wall 1) in
      let stale = stale_peers out now e o.trust o.peers in
      let o1 = remove_peers settings out stale o in
      let o2 = close_subscriptions out (keys o1.subscriptions) o1 in
      let o3 = sweep_dedup out now e o2 in
      let o4 = fail_pending settings (finished out now e o3 o3.pending) o3 in
      let before =
        SameLog-trans (remove_peers-SameLog settings out stale o)
          (close_subscriptions-SameLog settings out (keys o1.subscriptions) o1) in
      let swept = sweep_dedup-Keeps settings out now e key expires o2 calm.early calm.no_retry in
      let after = fail_pending-SameLog settings out (finished out now e o3 o3.pending) o3 in
      Keeps-trans key expires (Keeps-SameLog key expires before)
        (Keeps-trans key expires swept (Keeps-SameLog key expires (ground (arith, after))))

  pub maintenance-Keeps :
      (key : DedupKey) (expires : ℕ) (o : Owner)
      → Calm key expires out
      → Keeps key expires o (maintenance settings out o)
  unfolding maintenance watch_clock
  maintenance-Keeps key expires o calm =
      let o1 = record o { admission = prune_admission (out.wall 0) o.admission } in
      let o2 = watch_clock (out.wall 1) out.instant o1 in
      let begun : SameLog o o2 = ground arith in
      let e = error_of (local_valid (out.wall 2) o2) in
      let o3 = sweep settings out (unwrap_or_zero (out.wall 1)) e o2 in
      let o4 = grant_credits settings out (out.wall 3) o3 in
      let after =
        SameLog-trans (grant_credits-SameLog settings out (out.wall 3) o3)
          (schedule-SameLog settings out o4) in
      Keeps-trans key expires (Keeps-SameLog key expires begun) (
        Keeps-trans key expires (sweep-Keeps e key expires o2 calm)
          (Keeps-SameLog key expires after))
