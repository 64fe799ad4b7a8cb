-- ===== src/Wire/Control.antt =====
-- wire.rs: the control messages of a session.
pub mod RoundTrip
use rtn_mq.Prelude.{
  ℕ, zero, suc, Bool, true, false, not, ◌&&◌, ◌||◌, Option, none, some, List, [], ◌∷◌, ltb, leb,
  ◌==◌, if◌then◌else◌, String,
}
use rtn_mq.Prelude.Bytes.{Bytes, bytes_eq}
use rtn_mq.Error.{Error, Result, ok, err, protocol, fail_if, and_then, ok_or}
use rtn_mq.Cbor.{
  Minicbor, Reader, Writer, finish, put_array, put_u, put_bytes, put_text, array, u, fixed, text,
  end, canonical, lift, pure, run_reader, ◌>>=◌, ◌>>◌,
}
use rtn_mq.Auth.Cose.{version}
use rtn_mq.Message.Topic.{Topic, new_topic}
use rtn_mq.Message.Envelope.{DeliveryMode, number, decode_mode, usize_try_from}

pub data Control : Type 0 where
  subscribe : Topic → Bytes → DeliveryMode → Control
  suback : Topic → Bytes → ℕ → Control
  unsubscribe : Topic → Bytes → Control
  credit : Topic → Bytes → ℕ → Control
  request_credit : Topic → Bytes → ℕ → Control
  -- topic, subscription, epoch, sequence, code
  outcome : Topic → Bytes → Bytes → ℕ → ℕ → Control
  error : ℕ → Control
  goodbye : Control

-- The frame kind and the length of the array.
unfoldable pub kind_and_length : Control → ℕ × ℕ
kind_and_length (subscribe topic sub mode) = (3, 5)
kind_and_length (suback topic sub code) = (4, 5)
kind_and_length (unsubscribe topic sub) = (5, 4)
kind_and_length (credit topic sub bytes) = (6, 6)
kind_and_length (request_credit topic sub bytes) = (6, 6)
kind_and_length (outcome topic sub epoch sequence code) = (if code == 0 then 8 else 9, 7)
kind_and_length (error code) = (11, 3)
kind_and_length goodbye = (12, 2)

-- The array length that a frame kind asks for.
unfoldable pub length_of_kind : ℕ → Result ℕ
length_of_kind kind =
    if kind == 3 || kind == 4
    then ok 5
    else if kind == 5
    then ok 4
    else if kind == 6
    then ok 6
    else if kind == 8 || kind == 9
    then ok 7
    else if kind == 11
    then ok 3
    else if kind == 12
    then ok 2
    else err (protocol "control frame type")

unfoldable pub credit_of_slots : Topic → Bytes → ℕ → ℕ → Result Control
credit_of_slots topic sub slots bytes =
    if slots == 0
    then ok (request_credit topic sub bytes)
    else if slots == 1
    then ok (credit topic sub bytes)
    else err (protocol "credit slots")

module _ ⦃m : Minicbor⦄ where
  unfoldable pub body : Control → Writer
  body (subscribe topic sub mode) = put_text topic.name ∷ put_bytes sub ∷ put_u (number mode) ∷ []
  body (suback topic sub code) = put_text topic.name ∷ put_bytes sub ∷ put_u code ∷ []
  body (unsubscribe topic sub) = put_text topic.name ∷ put_bytes sub ∷ []
  body (request_credit topic sub bytes) =
      put_text topic.name ∷ put_bytes sub ∷ put_u 0 ∷ put_u bytes ∷ []
  body (credit topic sub bytes) = put_text topic.name ∷ put_bytes sub ∷ put_u 1 ∷ put_u bytes ∷ []
  body (outcome topic sub epoch sequence code) =
      put_text topic.name ∷ put_bytes sub ∷ put_bytes epoch ∷ put_u sequence ∷ put_u code ∷ []
  body (error code) = put_u code ∷ []
  body goodbye = []

  unfoldable pub encode_control : Control → Bytes → ℕ × Bytes
  unfolding finish kind_and_length body
  encode_control c session =
      let (kind, len) = kind_and_length c in
      (kind, finish (put_array len ∷ put_u 1 ∷ put_bytes session ∷ body c))

  read_topic : Reader Topic
  read_topic = do name ← text 256; lift (new_topic name)

  read_subscribe : Reader Control
  unfolding read_topic
  read_subscribe = do
    topic ← read_topic
    sub ← fixed 16
    code ← u
    mode ← lift (decode_mode code)
    pure (subscribe topic sub mode)

  read_suback : Reader Control
  unfolding read_topic
  read_suback = do topic ← read_topic; sub ← fixed 16; code ← u; pure (suback topic sub code)

  read_unsubscribe : Reader Control
  unfolding read_topic
  read_unsubscribe = do topic ← read_topic; sub ← fixed 16; pure (unsubscribe topic sub)

  read_credit : Reader Control
  unfolding read_topic
  read_credit = do
    topic ← read_topic
    sub ← fixed 16
    slots ← u
    n ← u
    bytes ← lift (usize_try_from n)
    lift (credit_of_slots topic sub slots bytes)

  read_outcome : ℕ → Reader Control
  unfolding read_topic
  read_outcome kind = do
    topic ← read_topic
    sub ← fixed 16
    epoch ← fixed 16
    sequence ← u
    code ← u
    lift (
        fail_if ((kind == 8 && not (code == 0)) || (kind == 9 && not (leb 1 code && leb code 2)))
          (protocol "outcome code"))
    pure (outcome topic sub epoch sequence code)

  read_error : Reader Control
  read_error = do code ← u; pure (error code)

  -- The last case is not reached: the kind has a length.
  unfoldable pub read_kind : ℕ → Reader Control
  unfolding read_subscribe read_suback read_unsubscribe read_credit read_outcome read_error
  read_kind kind =
      if kind == 3
      then read_subscribe
      else if kind == 4
      then read_suback
      else if kind == 5
      then read_unsubscribe
      else if kind == 6
      then read_credit
      else if kind == 8 || kind == 9
      then read_outcome kind
      else if kind == 11
      then read_error
      else pure goodbye

  -- The head that all control messages share.
  unfoldable pub read_session : ℕ → Bytes → Reader (Unit {0})
  read_session len session = do
    array len
    v ← u
    lift (version v)
    s ← fixed 16
    lift (fail_if (not (bytes_eq s session)) (protocol "session mismatch"))

  unfoldable pub read_control : ℕ → ℕ → Bytes → Bytes → Reader Control
  unfolding read_session
  read_control kind len b session = do
    read_session len session
    c ← read_kind kind
    end
    lift (canonical b (encode_control c session).1)
    pure c

  unfoldable pub decode_control : ℕ → Bytes → Bytes → Result Control
  decode_control kind b session =
      and_then (length_of_kind kind) (λ len. run_reader (read_control kind len b session) b)
