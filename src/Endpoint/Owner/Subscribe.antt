-- ===== src/Endpoint/Owner/Subscribe.antt =====
-- endpoint/owner.rs: `subscribe`.
use rtn_mq.Prelude.{ℕ, ◌+◌, ◌*◌, Bool, false, not, ◌&&◌, ◌||◌, [], length, leb, ◌==◌}
use rtn_mq.Prelude.Bytes.{Bytes, bytes_key}
use rtn_mq.Prelude.Map.{insert, update_all, contains_key}
use rtn_mq.Error.{
  Result, ok, err, unauthorized, already_subscribed, shutting_down, queue_full, ◌>>=◌, ◌>>◌,
  fail_if,
}
use rtn_mq.Buffer.{new, reserve}
use rtn_mq.Auth.Claims.{allows}
use rtn_mq.Message.Topic.{Topic}
use rtn_mq.Message.Topic.Ordering.{topic_key}
use rtn_mq.Message.Envelope.{DeliveryMode}
use rtn_mq.Wire.Control.{subscribe}
use rtn_mq.Endpoint.Owner.{Owner, Settings, Outside, Answer, LocalSub, delivery_key}
use rtn_mq.Endpoint.Owner.Session.{local_valid, send}

-- A limit of 0 is none.
abbrev pub at_ceiling : ℕ → ℕ → Bool
at_ceiling ceiling n = not (ceiling == 0) && leb ceiling n

-- The tests of `Owner::subscribe`.
unfoldable pub may_subscribe : Settings → Outside → Topic → Owner → Result (Unit {0})
may_subscribe settings out topic o = do
  now ← local_valid (out.wall 0) o
  fail_if o.draining shutting_down
  fail_if (not (allows o.cert topic false)) unauthorized
  fail_if (contains_key topic o.subscriptions) already_subscribed
  fail_if
      (leb settings.max_topics (length o.subscriptions)
        || at_ceiling o.cert.limits.max_subscriptions (length o.subscriptions))
      queue_full

unfoldable pub new_subscription : Settings → Bytes → DeliveryMode → LocalSub
new_subscription settings id mode = record {
  id = id;
  mode = mode;
  ready = [];
  slots = new settings.subscription_messages;
  bytes = new settings.subscription_bytes;
  confirmed = [];
  grants = [];
  demand = [];
}

-- `delivery_size` is `size_of::<Delivery>()`, which the compiler decides. The queue and the watch that are
-- returned are the subscription's.
unfoldable pub subscribe_local :
    ℕ → Settings → Outside → Topic → DeliveryMode → Owner → Answer Bytes
unfolding may_subscribe reserve new_subscription send
subscribe_local delivery_size settings out topic mode o =
    elim (may_subscribe settings out topic o) [
      | err e ↦ (err e, o)
      | ok done ↦
          elim (reserve
            (2048 + settings.max_peers * 128 + settings.subscription_messages * delivery_size)
            o.metadata) [
              | err e ↦ (err e, o)
              | ok (budget, memory) ↦
                  let id = out.random_id in
                  (
                    ok id,
                    record o {
                      metadata = budget;
                      peers = update_all (λ peer. send out (subscribe topic id mode)) o.peers;
                      subscriptions =
                          insert topic (new_subscription settings id mode) o.subscriptions;
                    },
                  )
            ]
    ]
