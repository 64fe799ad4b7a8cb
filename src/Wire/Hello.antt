-- ===== src/Wire/Hello.antt =====
-- wire.rs: the HELLO and READY bodies of the handshake.
pub mod RoundTrip
use rtn_mq.Prelude.{ℕ, ◌*◌, Bool, not, ◌||◌, List, [], ◌∷◌, length, ltb, ◌==◌, if◌then◌else◌}
use rtn_mq.Prelude.Bytes.{Bytes}
use rtn_mq.Error.{Result, ok, err, protocol, fail_if}
use rtn_mq.Cbor.{
  Minicbor, Reader, finish, put_array, put_u, put_bytes, array, u, bytes, fixed, end, canonical,
  lift, pure, run_reader, ◌>>=◌, ◌>>◌,
}
use rtn_mq.Auth.Cose.{version}
use rtn_mq.Message.Envelope.{usize_try_from}

abbrev pub max_cert : ℕ
max_cert = 15 * 1024

pub record Hello : Type 0 where
  pub cert : Bytes
  pub nonce : Bytes
  pub max_payload : ℕ
  pub max_topics : ℕ
  pub window_secs : ℕ

module _ ⦃m : Minicbor⦄ where
  unfoldable pub hello : Bytes → Bytes → ℕ → ℕ → ℕ → Bytes
  unfolding finish
  hello cert nonce max_payload max_topics window_secs = finish (
      put_array 6
      ∷ put_u 1
      ∷ put_bytes cert
      ∷ put_bytes nonce
      ∷ put_u max_payload
      ∷ put_u max_topics
      ∷ put_u window_secs
      ∷ [])

  unfoldable pub read_hello : Bytes → Reader Hello
  read_hello b = do
    array 6
    v ← u
    lift (version v)
    cert ← bytes max_cert
    nonce ← fixed 16
    p ← u
    max_payload ← lift (usize_try_from p)
    t ← u
    max_topics ← lift (usize_try_from t)
    window_secs ← u
    end
    lift (
        fail_if
          (max_payload == 0
            || ltb (1024 * 1024) max_payload
            || max_topics == 0
            || ltb 256 max_topics
            || window_secs == 0
            || ltb 300 window_secs)
          (protocol "HELLO limits"))
    lift (canonical b (hello cert nonce max_payload max_topics window_secs))
    pure (record {
      cert = cert;
      nonce = nonce;
      max_payload = max_payload;
      max_topics = max_topics;
      window_secs = window_secs;
    })

  unfoldable pub parse_hello : Bytes → Result Hello
  parse_hello b = run_reader (read_hello b) b

  unfoldable pub ready : Bytes → Bytes → Bytes
  unfolding finish
  ready local remote = finish (put_array 3 ∷ put_u 1 ∷ put_bytes local ∷ put_bytes remote ∷ [])
