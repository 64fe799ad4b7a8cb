-- ===== src/Wire/Control/RoundTrip.antt =====
-- A control message is decoded as it was encoded, and has one accepted encoding.
use rtn_mq.Prelude.{
  ℕ, ◌<◌, ◌≤◌, ◌≡◌, refl, sym, ◌∙◌, false, [], ◌++◌, length, arith, inl, inr, ◌==◌, Bool-cases,
  ◌&&◌, ◌||◌, not, leb,
}
use rtn_mq.Prelude.Bytes.{Bytes, bytes_eq_refl, concat}
use rtn_mq.Error.{ok, Result-cases}
use rtn_mq.Cbor.{
  Minicbor, MinicborLaws, u64_mod, text, end, canonical, run_reader-eq-ok, run_reader-ok, >>=-eq-ok,
  Reader, lift, pure, ◌>>=◌, ◌>>◌,
}
use rtn_mq.Cbor.RoundTrip.{array-put, u-put, fixed-put, text-put, canonical_refl, canonical_sound}
use rtn_mq.Auth.Cose.{version}
use rtn_mq.Message.Topic.{Topic, new_topic}
use rtn_mq.Message.Topic.Names.{new_topic_iff}
use rtn_mq.Message.Topic.Ordering.{topic_is_ascii}
use rtn_mq.Message.Envelope.{number, usize_try_from_lem}
use rtn_mq.Message.Envelope.RoundTrip.{mode_range, decode_mode-number}
use rtn_mq.Wire.Control.{
  Control, subscribe, suback, unsubscribe, credit, request_credit, outcome, error, goodbye,
  kind_and_length, length_of_kind, credit_of_slots, body, encode_control, read_outcome, read_kind,
  read_session, read_control, decode_control,
}

abbrev IsAddress : Topic → Bytes → Type 0
IsAddress topic sub = (new_topic topic.name ≡ ok topic) × (length sub ≡ 16)

-- The sizes and ranges that the types of the fields give; an outcome has a code of at most 2.
abbrev pub IsWellFormed : Control → Type 0
IsWellFormed (subscribe topic sub mode) = IsAddress topic sub
IsWellFormed (suback topic sub code) = IsAddress topic sub × (code < u64_mod)
IsWellFormed (unsubscribe topic sub) = IsAddress topic sub
IsWellFormed (credit topic sub bytes) = IsAddress topic sub × (bytes < u64_mod)
IsWellFormed (request_credit topic sub bytes) = IsAddress topic sub × (bytes < u64_mod)
IsWellFormed (outcome topic sub epoch sequence code) =
    IsAddress topic sub × (length epoch ≡ 16) × (sequence < u64_mod) × (code ≤ 2)
IsWellFormed (error code) = code < u64_mod
IsWellFormed goodbye = Unit {0}

module _ ⦃m : Minicbor⦄ where
  kind-encode_control :
      (c : Control) (session : Bytes) → (encode_control c session).0 ≡ (kind_and_length c).0
  unfolding encode_control
  kind-encode_control c session = refl

module _ ⦃m : Minicbor⦄ (laws : MinicborLaws m) where
  name-put :
      (topic : Topic) (rest : Bytes)
      → new_topic topic.name ≡ ok topic
      → text 256 (m.put_text topic.name ++ rest) ≡ ok (topic.name, rest)
  name-put topic rest h =
      let named = (new_topic_iff topic.name topic).0 h in
      text-put laws 256 topic.name rest (laws.ascii_is_text _ (topic_is_ascii _ named.4)) named.2
        (omega arith)

  read_outcome-body :
      (kind : ℕ) (topic : Topic) (sub epoch : Bytes) (sequence code : ℕ)
      → IsWellFormed (outcome topic sub epoch sequence code)
      → ((kind == 8 && not (code == 0)) || (kind == 9 && not (leb 1 code && leb code 2))) ≡ false
      → read_outcome kind (concat (body (outcome topic sub epoch sequence code)))
        ≡ ok (outcome topic sub epoch sequence code, [])
  unfolding read_outcome body
  read_outcome-body kind topic sub epoch sequence code w allowed = simp (
    λ (rest : Bytes). name-put topic rest w.0.0,
    w.0.0,
    λ (rest : Bytes). fixed-put laws 16 sub rest w.0.1 (omega arith),
    λ (rest : Bytes). fixed-put laws 16 epoch rest w.1 (omega arith),
    λ (rest : Bytes). u-put laws sequence rest w.2,
    λ (rest : Bytes). u-put laws code rest (omega (arith, w.3)),
    allowed,
  )

  read_kind-body :
      (c : Control)
      → IsWellFormed c
      → read_kind (kind_and_length c).0 (concat (body c)) ≡ ok (c, [])
  unfolding read_kind body kind_and_length credit_of_slots
  read_kind-body (subscribe topic sub mode) w = simp (
    λ (rest : Bytes). name-put topic rest w.0,
    w.0,
    λ (rest : Bytes). fixed-put laws 16 sub rest w.1 (omega arith),
    λ (rest : Bytes). u-put laws (number mode) rest (mode_range mode),
    decode_mode-number mode,
  )
  read_kind-body (suback topic sub code) w = simp (
    λ (rest : Bytes). name-put topic rest w.0.0,
    w.0.0,
    λ (rest : Bytes). fixed-put laws 16 sub rest w.0.1 (omega arith),
    λ (rest : Bytes). u-put laws code rest w.1,
  )
  read_kind-body (unsubscribe topic sub) w = simp (
    λ (rest : Bytes). name-put topic rest w.0,
    w.0,
    λ (rest : Bytes). fixed-put laws 16 sub rest w.1 (omega arith),
  )
  read_kind-body (credit topic sub bytes) w = simp (
    λ (rest : Bytes). name-put topic rest w.0.0,
    w.0.0,
    λ (rest : Bytes). fixed-put laws 16 sub rest w.0.1 (omega arith),
    λ (rest : Bytes). u-put laws 1 rest (omega arith),
    λ (rest : Bytes). u-put laws bytes rest w.1,
    usize_try_from_lem bytes w.1,
  )
  read_kind-body (request_credit topic sub bytes) w = simp (
    λ (rest : Bytes). name-put topic rest w.0.0,
    w.0.0,
    λ (rest : Bytes). fixed-put laws 16 sub rest w.0.1 (omega arith),
    λ (rest : Bytes). u-put laws 0 rest (omega arith),
    λ (rest : Bytes). u-put laws bytes rest w.1,
    usize_try_from_lem bytes w.1,
  )
  read_kind-body (outcome topic sub epoch sequence code) w = elim (Bool-cases (code == 0)) [
    | inl none ↦ rw none (read_outcome-body 8 topic sub epoch sequence code w (ground arith))
    | inr some ↦ rw some (read_outcome-body 9 topic sub epoch sequence code w (ground arith))
  ]
  read_kind-body (error code) w = simp (λ (rest : Bytes). u-put laws code rest w)
  read_kind-body goodbye w = refl

  length_of_kind-kind :
      (c : Control) → length_of_kind (kind_and_length c).0 ≡ ok (kind_and_length c).1
  unfolding length_of_kind kind_and_length
  length_of_kind-kind (outcome topic sub epoch sequence code) = ground arith
  length_of_kind-kind _ = refl

  length_range : (c : Control) → (kind_and_length c).1 < u64_mod
  unfolding kind_and_length
  length_range (outcome topic sub epoch sequence code) = omega arith
  length_range _ = omega arith

  read_control-encode :
      (input : Bytes) (c : Control) (session : Bytes)
      → IsWellFormed c
      → length session ≡ 16
      → canonical input (encode_control c session).1 ≡ ok tt
      → read_control
          (kind_and_length c).0
          (kind_and_length c).1
          input
          session
          (encode_control c session).1
        ≡ ok (c, [])
  unfolding read_control encode_control version end
  read_control-encode input c session w h same = simp (
    λ (rest : Bytes). array-put laws (kind_and_length c).1 rest (length_range c),
    λ (rest : Bytes). u-put laws 1 rest (omega arith),
    λ (rest : Bytes). fixed-put laws 16 session rest h (omega arith),
    bytes_eq_refl session,
    read_kind-body c w,
    same,
  )

  -- A well-formed control message is decoded, in the session in which it was encoded and whose
  -- identity has 16 bytes, as the same message.
  pub decode-encode_control :
      (c : Control) (session : Bytes)
      → IsWellFormed c
      → length session ≡ 16
      → decode_control (encode_control c session).0 (encode_control c session).1 session ≡ ok c
  unfolding decode_control
  decode-encode_control c session w h =
      rw (kind-encode_control c session, length_of_kind-kind c)
        (run_reader-ok (read_control _ _ _ session) _
          (read_control-encode _ c session w h (canonical_refl _)))

module _ ⦃m : Minicbor⦄ where
  read_kind-kind :
      (kind len : ℕ) (b : Bytes) (c : Control) (rest : Bytes)
      → length_of_kind kind ≡ ok len
      → read_kind kind b ≡ ok (c, rest)
      → (kind_and_length c).0 ≡ kind
  unfolding length_of_kind read_kind credit_of_slots kind_and_length
  read_kind-kind kind len b c rest l e = ground arith

  read_control_sound :
      (kind len : ℕ) (input session : Bytes) (c : Control) (rest : Bytes)
      → length_of_kind kind ≡ ok len
      → read_control kind len input session input ≡ ok (c, rest)
      → (canonical input (encode_control c session).1 ≡ ok tt) × ((kind_and_length c).0 ≡ kind)
  unfolding read_control
  read_control_sound kind len input session c rest l e =
      let (_, b, _, e1) =
        >>=-eq-ok (read_session len session) (λ _. tail) input {res = (c, rest)} e in
      let (d, rest', read, e2) = >>=-eq-ok (read_kind kind) finishes b {res = (c, rest)} e1 in
      let same = read_kind-kind kind len b d rest' l read in ground (arith, e2, same)
    where
      finishes : Control → Reader Control
      finishes c = do end; lift (canonical input (encode_control c session).1); pure c

      tail : Reader Control
      tail = do c ← read_kind kind; finishes c

  -- An accepted control frame is the one encoding of its message in the session: both the kind of
  -- the frame and its bytes are those that `encode` gives.
  pub decode_control_sound :
      (kind : ℕ) (input session : Bytes) (c : Control)
      → decode_control kind input session ≡ ok c
      → encode_control c session ≡ (kind, input)
  unfolding decode_control
  decode_control_sound kind input session c h = elim (Result-cases (length_of_kind kind)) [
    | inl (len, l) ↦
        let (rest, read) =
          run_reader-eq-ok (read_control kind len input session) input {a = c} (rw l at h) in
        let (same, k) = read_control_sound kind len input session c rest l read in
        let e = canonical_sound input _ same in
        λ i. ((kind-encode_control c session ∙ k) i, sym e i)
    | inr (x, l) ↦ absurd (cc (rw l at h))
  ]
