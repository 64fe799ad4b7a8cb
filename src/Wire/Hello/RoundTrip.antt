-- ===== src/Wire/Hello/RoundTrip.antt =====
-- Which HELLO bodies are accepted.
use rtn_mq.Prelude.{◌*◌, ◌<◌, ◌≤◌, ◌≡◌, false, ◌||◌, ltb, ◌==◌, [], length, arith, ◌↔◌}
use rtn_mq.Prelude.Bytes.{Bytes}
use rtn_mq.Error.{ok}
use rtn_mq.Cbor.{
  Minicbor, MinicborLaws, bytes, fixed, end, canonical, run_reader-eq-ok, run_reader-ok,
}
use rtn_mq.Cbor.RoundTrip.{array-put, u-put, bytes-put, fixed-put, canonical_refl, canonical_sound}
use rtn_mq.Auth.Cose.{version}
use rtn_mq.Message.Envelope.{usize_try_from, usize_try_from_lem}
use rtn_mq.Wire.Hello.{Hello, max_cert, hello, read_hello, parse_hello}

pub record IsAcceptable (h : Hello) : Type 0 where
  pub cert_size : length h.cert ≤ max_cert
  pub nonce_size : length h.nonce ≡ 16
  pub payload_limit : (0 < h.max_payload) × (h.max_payload ≤ 1024 * 1024)
  pub topic_limit : (0 < h.max_topics) × (h.max_topics ≤ 256)
  pub window_limit : (0 < h.window_secs) × (h.window_secs ≤ 300)

module _ ⦃m : Minicbor⦄ where
  abbrev pub hello_bytes : Hello → Bytes
  hello_bytes h = hello h.cert h.nonce h.max_payload h.max_topics h.window_secs

  module _ (laws : MinicborLaws m) where
    read_hello-hello :
        (input : Bytes) (h : Hello)
        → IsAcceptable h
        → canonical input (hello_bytes h) ≡ ok tt
        → read_hello input (hello_bytes h) ≡ ok (h, [])
    unfolding read_hello hello version end
    read_hello-hello input h a same =
        let payload = usize_try_from_lem h.max_payload (omega (arith, a.payload_limit)) in
        let topics = usize_try_from_lem h.max_topics (omega (arith, a.topic_limit)) in
        let limits : (h.max_payload == 0
              || ltb (1024 * 1024) h.max_payload
              || h.max_topics == 0
              || ltb 256 h.max_topics
              || h.window_secs == 0
              || ltb 300 h.window_secs)
            ≡ false =
          ground arith in
        simp (
          λ (rest : Bytes). array-put laws 6 rest (omega arith),
          λ (rest : Bytes). u-put laws 1 rest (omega arith),
          λ (rest : Bytes). bytes-put laws max_cert h.cert rest a.cert_size (omega arith),
          λ (rest : Bytes). fixed-put laws 16 h.nonce rest a.nonce_size (omega arith),
          λ (rest : Bytes). u-put laws h.max_payload rest (omega (arith, a.payload_limit)),
          λ (rest : Bytes). u-put laws h.max_topics rest (omega (arith, a.topic_limit)),
          λ (rest : Bytes). u-put laws h.window_secs rest (omega (arith, a.window_limit)),
          payload,
          topics,
          limits,
          same,
        )

    read_hello_sound :
        (input : Bytes) (h : Hello) (rest : Bytes)
        → read_hello input input ≡ ok (h, rest)
        → (canonical input (hello_bytes h) ≡ ok tt) × IsAcceptable h
    unfolding read_hello bytes fixed usize_try_from
    read_hello_sound input h rest e = ground arith

    -- A HELLO body is accepted exactly when it is the one encoding of values within the limits: a
    -- certificate of at most 15 KiB, a nonce of 16 bytes, 1 byte to 1 MiB of payload, 1 to 256
    -- topics and a window of 1 to 300 seconds.
    pub parse_hello_iff :
        (input : Bytes) (h : Hello)
        → (parse_hello input ≡ ok h) ↔ ((input ≡ hello_bytes h) × IsAcceptable h)
    unfolding parse_hello
    parse_hello_iff input h = (
      λ e.
          let (rest, read) = run_reader-eq-ok (read_hello input) input {a = h} e in
          let (same, a) = read_hello_sound input h rest read in (canonical_sound input _ same, a),
      λ (same, a). rw same (
          run_reader-ok (read_hello (hello_bytes h)) (hello_bytes h)
            (read_hello-hello (hello_bytes h) h a (canonical_refl _))),
    )
