-- ===== src/Message/Topic/Names.antt =====
-- Which names are topics, told without splitting: by the slashes.
use rtn_mq.Prelude.{
  ℕ, ◌≤◌, ◌<◌, ◌≡◌, refl, Bool, true, false, not, ◌&&◌, List, [], ◌∷◌, length, ◌==◌, all, any,
  if◌then◌else◌, arith, ◌↔◌,
}
use rtn_mq.Prelude.Bytes.{Bytes, bytes_key}
use rtn_mq.Error.{ok}
use rtn_mq.Message.Topic.{Topic, is_empty, push_head, split, is_topic_byte, new_topic}

-- No slash at the front, none at the end, no two in a row; `fresh` says that a segment begins.
abbrev pub has_segments : Bool → Bytes → Bool
has_segments fresh [] = not fresh
has_segments fresh (c ∷ s) =
    if c == b'/' then (not fresh && has_segments true s) else has_segments false s

abbrev tail_any : List Bytes → Bool
tail_any [] = false
tail_any (s ∷ ss) = any is_empty ss

any-push_head : (c : ℕ) (ss : List Bytes) → any is_empty (push_head c ss) ≡ tail_any ss
unfolding push_head
any-push_head c [] = refl
any-push_head c (s ∷ ss) = refl

tail_any-push_head : (c : ℕ) (ss : List Bytes) → tail_any (push_head c ss) ≡ tail_any ss
unfolding push_head
tail_any-push_head c [] = refl
tail_any-push_head c (s ∷ ss) = refl

split_segments :
    (s : Bytes)
    → (any is_empty (split b'/' s) ≡ not (has_segments true s))
      × (tail_any (split b'/' s) ≡ not (has_segments false s))
unfolding split
split_segments [] = (refl, refl)
split_segments (c ∷ s) =
    let (whole, rest) = split_segments s in
    ground (arith, any-push_head c (split b'/' s), tail_any-push_head c (split b'/' s))

-- A name is accepted, and then unchanged, exactly when it has 1 to 256 bytes, all of them letters,
-- digits or one of "-_./", and no slash stands at its front, at its end or behind another slash.
pub new_topic_iff :
    (s : Bytes) (t : Topic)
    → (new_topic s ≡ ok t) ↔ (
        (t.name ≡ s)
        × (0 < length s)
        × (length s ≤ 256)
        × (has_segments true s ≡ true)
        × (all is_topic_byte s ≡ true))
unfolding new_topic
new_topic_iff s t =
    (λ h. ground (arith, (split_segments s).0), λ h. ground (arith, (split_segments s).0))
