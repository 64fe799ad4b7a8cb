-- ===== src/Endpoint/Owner/Release.antt =====
-- buffer.rs: permits of an owner's budgets that are dropped. What holds a permit may be dropped by the
-- owner, or later by another task that has a share of it, so that the release is an event of its own.
use rtn_mq.Prelude.{ℕ}
use rtn_mq.Prelude.Bytes.{Bytes, bytes_key}
use rtn_mq.Prelude.Map.{modify}
use rtn_mq.Buffer.{Budget, drop_permit}
use rtn_mq.Message.Topic.{Topic}
use rtn_mq.Message.Topic.Ordering.{topic_key}
use rtn_mq.Endpoint.Owner.{Owner, LocalSub}

-- The budget that a permit belongs to.
pub data Release : Type 0 where
  of_metadata of_pool : Release
  of_peer_slots of_peer_bytes : Bytes → Release
  of_topic_slots of_topic_bytes : Topic → Release

unfoldable pub release : Release → ℕ → Owner → Owner
unfolding drop_permit
release of_metadata n o = record o { metadata = drop_permit n o.metadata }
release of_pool n o = record o { pool = drop_permit n o.pool }
release (of_peer_slots peer) n o = record o {
  peer_budgets =
      modify peer (λ (b : Budget × Budget). let (slots, bytes) = b in (drop_permit n slots, bytes))
        o.peer_budgets;
}
release (of_peer_bytes peer) n o = record o {
  peer_budgets =
      modify peer (λ (b : Budget × Budget). let (slots, bytes) = b in (slots, drop_permit n bytes))
        o.peer_budgets;
}
release (of_topic_slots topic) n o = record o {
  subscriptions =
      modify topic (λ (s : LocalSub). record s { slots = drop_permit n s.slots }) o.subscriptions;
}
release (of_topic_bytes topic) n o = record o {
  subscriptions =
      modify topic (λ (s : LocalSub). record s { bytes = drop_permit n s.bytes }) o.subscriptions;
}
