-- ===== src/Message/Topic.antt =====
-- message.rs: `Topic`, an exact channel name. A string is its UTF-8 bytes.
pub mod Names
pub mod Ordering
use rtn_mq.Prelude.{
  ℕ, ◌≡◌, Bool, true, false, not, ◌&&◌, ◌||◌, List, [], ◌∷◌, length, ltb, leb, ◌==◌, all, any,
  if◌then◌else◌, arith,
}
use rtn_mq.Prelude.Order.{Key}
use rtn_mq.Prelude.Bytes.{Bytes, bytes_eq, bytes_lt, bytes_key}
use rtn_mq.Error.{Result, ok, err, invalid_topic}

pub record Topic : Type 0 where
  pub name : Bytes

abbrev pub is_empty : Bytes → Bool
is_empty [] = true
is_empty (c ∷ s) = false

-- A byte in front of the first segment.
unfoldable pub push_head : ℕ → List Bytes → List Bytes
push_head c [] = (c ∷ []) ∷ []
push_head c (s ∷ ss) = (c ∷ s) ∷ ss

-- `str::split` at a byte: one segment more than there are separators.
unfoldable pub split : ℕ → Bytes → List Bytes
split sep [] = [] ∷ []
split sep (c ∷ s) = let rest = split sep s in if c == sep then [] ∷ rest else push_head c rest

unfoldable pub is_ascii_alphanumeric : ℕ → Bool
is_ascii_alphanumeric c =
    (leb b'0' c && leb c b'9') || (leb b'A' c && leb c b'Z') || (leb b'a' c && leb c b'z')

-- b"-_./"
unfoldable pub is_topic_byte : ℕ → Bool
unfolding is_ascii_alphanumeric
is_topic_byte c = is_ascii_alphanumeric c || (c == b'-' || c == b'_' || c == b'.' || c == b'/')

-- `Topic::new`
unfoldable pub new_topic : Bytes → Result Topic
unfolding split push_head is_topic_byte
new_topic s =
    if is_empty s || ltb 256 (length s) || any is_empty (split b'/' s) || not (all is_topic_byte s)
    then err invalid_topic
    else ok (record { name = s })

unfoldable pub topic_eq : Topic → Topic → Bool
topic_eq a b = bytes_eq a.name b.name

unfoldable pub topic_lt : Topic → Topic → Bool
topic_lt a b = bytes_lt a.name b.name
