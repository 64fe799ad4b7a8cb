-- ===== src/Message/Topic/Ordering.antt =====
-- Topics as keys of a map, and as the text of a message.
use rtn_mq.Prelude.{ℕ, ◌≡◌, ◌↔◌, ap, true, ltb, all, [], ◌∷◌, arith}
use rtn_mq.Prelude.Order.{Key}
use rtn_mq.Prelude.Bytes.{Bytes, bytes_eq_iff, bytes_lt_irrefl, bytes_lt_trans, bytes_lt_total}
use rtn_mq.Message.Topic.{Topic, is_topic_byte, topic_eq, topic_lt}

pub topic_eq_iff : (a b : Topic) → (topic_eq a b ≡ true) ↔ (a ≡ b)
unfolding topic_eq
topic_eq_iff a b = (
  λ h. let e = (bytes_eq_iff a.name b.name).0 h in cc e,
  λ e. (bytes_eq_iff a.name b.name).1 (ap (λ (t : Topic). t.name) e),
)

instance unfoldable pub topic_key : Key Topic
unfolding topic_eq topic_lt
topic_key = record {
  same = topic_eq;
  less = topic_lt;
  same_iff = topic_eq_iff;
  less_irrefl = λ a. bytes_lt_irrefl a.name;
  less_trans = λ a b c. bytes_lt_trans a.name b.name c.name;
  less_total = λ a b. bytes_lt_total a.name b.name;
}

byte_is_ascii : (c : ℕ) → is_topic_byte c ≡ true → ltb c 128 ≡ true
unfolding is_topic_byte
byte_is_ascii c h = ground arith

pub topic_is_ascii : (s : Bytes) → all is_topic_byte s ≡ true → all (λ c. ltb c 128) s ≡ true
topic_is_ascii [] h = h
topic_is_ascii (c ∷ s) h = ground (arith, byte_is_ascii c, topic_is_ascii s)
