-- ===== src/Endpoint/Owner/Late/Sweep.antt =====
-- endpoint/owner.rs: `maintenance` keeps the receipt of a delivery that has ended until it expires.
use rtn_mq.Prelude.{ℕ, ◌+◌, ◌%◌, ◌≡◌, ◌<◌, true, Option, List, [], ◌∷◌, length, arith, ltb, lt→ltb}
use rtn_mq.Prelude.Bytes.{Bytes, bytes_key}
use rtn_mq.Prelude.Map.{Map, update_all, keys, get-retain}
use rtn_mq.Error.{Error, Result}
use rtn_mq.Cbor.{Minicbor}
use rtn_mq.Buffer.{usize_mod}
use rtn_mq.Message.Topic.{Topic}
use rtn_mq.Message.Topic.Ordering.{topic_key}
use rtn_mq.Endpoint.Outcome.{failed}
use rtn_mq.Endpoint.Owner.{
  Owner, Settings, Outside, unwrap_or_zero, Dedup, DedupKey, dedup_key, DeliveryKey, delivery_key,
  TerminalReceipt,
}
use rtn_mq.Endpoint.Owner.Session.{local_valid, finish, remove_peer}
use rtn_mq.Endpoint.Owner.Deliver.{send_outcome}
use rtn_mq.Endpoint.Owner.Upkeep.{
  error_of, prune_admission, watch_clock, stale_peers, sweep_dedup, finished, send_outcomes, settle,
  completions,
}
use rtn_mq.Endpoint.Owner.Credits.{
  grant_one, grant_turn, grant_loop, rotated_grants, grant_credits, candidates, rotate_left,
}
use rtn_mq.Endpoint.Owner.Maintenance.{
  remove_peers, close_subscription, close_subscriptions, count_expired, fail_pending,
  retain_budgets, sweep, maintenance,
}
use rtn_mq.Endpoint.Owner.Late.{
  Ended, SameEnds, SameEnds-refl, SameEnds-trans, quiet, finish-Ended, remove_peer-Ended,
  schedule-Ended,
}

module _ (settings : Settings) (out : Outside) (key : DeliveryKey) (until : ℕ) where
  pub remove_peers-Ended :
      (peers : List Bytes) (o : Owner)
      → Ended key until o
      → Ended key until (remove_peers settings out peers o)
  unfolding remove_peers
  remove_peers-Ended [] o h = h
  remove_peers-Ended (peer ∷ peers) o h =
      remove_peers-Ended peers (remove_peer settings out peer o)
        (remove_peer-Ended key until settings out peer o h)

  fail_pending-Ended :
      (xs : List (DeliveryKey × Error)) (o : Owner)
      → Ended key until o
      → Ended key until (fail_pending settings xs o)
  unfolding fail_pending count_expired
  fail_pending-Ended [] o h = h
  fail_pending-Ended ((k, e) ∷ rest) o h =
      let counted : SameEnds o (count_expired e o) = ground arith in
      fail_pending-Ended rest (finish settings k (failed e) (count_expired e o)) (
        finish-Ended key until settings k (failed e) (count_expired e o)
          (quiet key until counted h))

module _ (settings : Settings) (out : Outside) where
  close_subscription-SameEnds :
      (topic : Topic) (o : Owner) → SameEnds o (close_subscription out topic o)
  unfolding close_subscription
  close_subscription-SameEnds topic o = ground arith

  close_subscriptions-SameEnds :
      (topics : List Topic) (o : Owner) → SameEnds o (close_subscriptions out topics o)
  unfolding close_subscriptions
  close_subscriptions-SameEnds [] o = SameEnds-refl o
  close_subscriptions-SameEnds (topic ∷ topics) o =
      SameEnds-trans (close_subscription-SameEnds topic o)
        (close_subscriptions-SameEnds topics (close_subscription out topic o))

  send_outcomes-SameEnds :
      (now : ℕ) (e : Option Error) (m : Map DedupKey Dedup) (o : Owner)
      → SameEnds o (send_outcomes out now e m o)
  unfolding send_outcomes send_outcome
  send_outcomes-SameEnds now e [] o = SameEnds-refl o
  send_outcomes-SameEnds now e ((key, d) ∷ m) o =
      SameEnds-trans (ground arith) (send_outcomes-SameEnds now e m _)

  grant_turn-SameEnds : (x : Topic × Bytes) (o : Owner) → SameEnds o (grant_turn settings out x o)
  unfolding grant_turn grant_one
  grant_turn-SameEnds (topic, peer) o = ground arith

  grant_loop-SameEnds :
      (xs : List (Topic × Bytes)) (o : Owner) → SameEnds o (grant_loop settings out xs o)
  unfolding grant_loop
  grant_loop-SameEnds [] o = SameEnds-refl o
  grant_loop-SameEnds (x ∷ xs) o =
      SameEnds-trans (grant_turn-SameEnds x o)
        (grant_loop-SameEnds xs (grant_turn settings out x o))

  rotated_grants-SameEnds :
      (xs : List (Topic × Bytes)) (o : Owner) → SameEnds o (rotated_grants settings out xs o)
  unfolding rotated_grants
  rotated_grants-SameEnds [] o = SameEnds-refl o
  rotated_grants-SameEnds (x ∷ xs) o =
      let list = x ∷ xs in
      let o' = record o { credit_cursor = (o.credit_cursor + 1) % usize_mod } in
      let rest = grant_loop-SameEnds (rotate_left (o.credit_cursor % length list) list) o' in
      SameEnds-trans (ground arith) rest

  grant_credits-SameEnds :
      (now : Result ℕ) (o : Owner) → SameEnds o (grant_credits settings out now o)
  unfolding grant_credits
  grant_credits-SameEnds now o =
      let same = SameEnds-refl o in
      ground (arith, same, rotated_grants-SameEnds (candidates o.subscriptions) o)

  sweep_dedup-Ended :
      (now : ℕ) (e : Option Error) (key : DeliveryKey) (until : ℕ) (o : Owner)
      → now < until
      → Ended key until o
      → Ended key until (sweep_dedup out now e o)
  unfolding sweep_dedup
  sweep_dedup-Ended now e key until o early h =
      let o1 = record o {
        dedup = update_all (settle out now e) o.dedup;
        completions = completions out now e o.dedup o.completions;
      } in
      let told = SameEnds-trans (ground arith) (send_outcomes-SameEnds now e o.dedup o1) in
      let h2 = quiet key until told h in
      let test = λ (k : DeliveryKey) (t : TerminalReceipt). ltb now t.expires in
      let fresh : test key h2.receipt ≡ true =
        lt→ltb now h2.receipt.expires (omega (arith, early, h2.lasts)) in
      record {
        over = h2.over;
        receipt = h2.receipt;
        kept =
            get-retain test key (send_outcomes out now e o.dedup o1).terminal h2.receipt h2.kept
              fresh;
        lasts = h2.lasts;
        realm = h2.realm;
        publisher = h2.publisher;
        numbered = h2.numbered;
      }

module _ ⦃m : Minicbor⦄ (settings : Settings) (out : Outside) (key : DeliveryKey) (until : ℕ) where
  sweep-Ended :
      (e : Option Error) (o : Owner)
      → unwrap_or_zero (out.wall 1) < until
      → Ended key until o
      → Ended key until (sweep settings out (unwrap_or_zero (out.wall 1)) e o)
  unfolding sweep retain_budgets
  sweep-Ended e o early h =
      let now = unwrap_or_zero (out.wall 1) in
      let stale = stale_peers out now e o.trust o.peers in
      let o1 = remove_peers settings out stale o in
      let o2 = close_subscriptions out (keys o1.subscriptions) o1 in
      let o3 = sweep_dedup out now e o2 in
      let o4 = fail_pending settings (finished out now e o3 o3.pending) o3 in
      let h1 = remove_peers-Ended settings out key until stale o h in
      let h2 =
        quiet key until (close_subscriptions-SameEnds settings out (keys o1.subscriptions) o1) h1 in
      let h3 = sweep_dedup-Ended settings out now e key until o2 early h2 in
      let h4 = fail_pending-Ended settings out key until (finished out now e o3 o3.pending) o3 h3 in
      let last : SameEnds o4 (sweep settings out now e o) = ground arith in quiet key until last h4

  pub maintenance-Ended :
      (o : Owner)
      → unwrap_or_zero (out.wall 1) < until
      → Ended key until o
      → Ended key until (maintenance settings out o)
  unfolding maintenance watch_clock
  maintenance-Ended o early h =
      let o1 = record o { admission = prune_admission (out.wall 0) o.admission } in
      let o2 = watch_clock (out.wall 1) out.instant o1 in
      let begun : SameEnds o o2 = ground arith in
      let e = error_of (local_valid (out.wall 2) o2) in
      let o3 = sweep settings out (unwrap_or_zero (out.wall 1)) e o2 in
      let o4 = grant_credits settings out (out.wall 3) o3 in
      let h3 = sweep-Ended e o2 early (quiet key until begun h) in
      let h4 = quiet key until (grant_credits-SameEnds settings out (out.wall 3) o3) h3 in
      schedule-Ended settings out key until o4 h4
