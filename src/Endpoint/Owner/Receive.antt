-- ===== src/Endpoint/Owner/Receive.antt =====
-- endpoint/owner.rs: the receiving side, `begin`, `incoming` and `grant_credits`.
use rtn_mq.Prelude.{
  ℕ, ◌+◌, ◌-◌, Bool, true, false, not, ◌&&◌, ◌||◌, Option, none, some, List, length, ltb, leb, ◌==◌,
  if◌then◌else◌,
}
use rtn_mq.Prelude.Bytes.{Bytes, bytes_key, bytes_eq}
use rtn_mq.Prelude.Map.{get, insert, remove, modify, contains_key}
use rtn_mq.Error.{
  Result, ok, err, protocol, unauthorized, message_too_large, delivery_expired, queue_full,
  subscription_closed, ◌>>=◌, ◌>>◌, fail_if,
}
use rtn_mq.Buffer.{Budget, shrink_to}
use rtn_mq.Cbor.{Minicbor}
use rtn_mq.Crypto.{Iroh}
use rtn_mq.Auth.Claims.{allows}
use rtn_mq.Auth.Trust.{saturating_add}
use rtn_mq.Message.Topic.{Topic}
use rtn_mq.Message.Topic.Ordering.{topic_key}
use rtn_mq.Message.Envelope.{Envelope, verify}
use rtn_mq.Wire.Data.{data_frame}
use rtn_mq.Endpoint.Owner.{
  Owner, Settings, Outside, Answer, Peer, LocalSub, Grant, Dedup, dedup_key,
}
use rtn_mq.Endpoint.Owner.Session.{peer_valid}
use rtn_mq.Endpoint.Owner.Remote.{same_mode}

pub record ReceiveTicket : Type 0 where
  pub envelope : Envelope
  pub fingerprint : Bytes
  pub permits : List ℕ
  pub metadata : ℕ

-- A limit of 0 is none.
abbrev pub over : ℕ → ℕ → Bool
over limit n = not (limit == 0) && ltb limit n

-- Another stream carries frames of this binding already.
abbrev pub other_stream : Bytes → ℕ → Option (Bytes × ℕ) → Bool
other_stream sub stream none = false
other_stream sub stream (some (sub', stream')) = bytes_eq sub' sub && not (stream' == stream)

abbrev pub other_fingerprint : Bytes → Option Dedup → Bool
other_fingerprint fingerprint none = false
other_fingerprint fingerprint (some d) = not (bytes_eq d.fingerprint fingerprint)

unfoldable pub drop_grant : Bytes → LocalSub → LocalSub
drop_grant peer s = record s { grants = remove peer s.grants }

module _ ⦃m : Minicbor⦄ ⦃c : Iroh⦄ (settings : Settings) (out : Outside) where
  -- The tests of `begin` before it changes anything.
  unfoldable pub check_frame : Bytes → Bytes → Bytes → ℕ → Owner → Result (Peer × Envelope)
  check_frame peer session signed len o = do
    p ← peer_valid (out.wall 0) peer session o
    e ← verify signed peer
    now ← out.wall 1
    fail_if
        (not (bytes_eq e.realm_id o.trust.realm)
          || not (allows p.reg.cert e.topic true)
          || not (allows o.cert e.topic false))
        unauthorized
    fail_if
        (not (e.len == len)
          || ltb settings.max_payload len
          || over o.cert.limits.max_payload len
          || over p.reg.cert.limits.max_payload len)
        message_too_large
    fail_if
        (ltb (saturating_add now o.trust.clock_skew_secs) e.created
          || ltb settings.delivery_window.as_secs (e.expires - e.created))
        delivery_expired
    ok (p, e)

  -- The stream of a topic's frames.
  unfoldable pub claim_stream : Bytes → ℕ → Topic → Peer → Result Peer
  claim_stream sub stream topic p = do
    fail_if (other_stream sub stream (get topic p.inbound))
        (protocol "multiple streams for a topic binding")
    fail_if (not (contains_key topic p.inbound) && leb settings.max_topics (length p.inbound))
        queue_full
    ok (record p { inbound = insert topic (sub, stream) p.inbound })

  unfoldable pub find_grant : Bytes → Bytes → Envelope → Owner → Result Grant
  find_grant peer sub e o = elim (get e.topic o.subscriptions) [
    | none ↦ err subscription_closed
    | some s ↦
        if not (bytes_eq s.id sub)
          || not (same_mode s.mode e.mode)
          || not (contains_key peer s.confirmed)
        then err unauthorized
        else elim (get peer s.grants) [
          | none ↦ err (protocol "DATA without credit")
          | some g ↦ ok g
        ]
  ]

  -- The tests that follow the removal of the grant. `none` would be the panic of `shrink_to`.
  unfoldable pub open_ticket :
      Bytes
      → Bytes
      → Bytes
      → ℕ
      → Envelope
      → Grant
      → Owner
      → Option (Result (ReceiveTicket × Budget))
  open_ticket session sub signed len e g o =
      if ltb g.bytes (len + length (data_frame session sub signed) + 12)
      then some (err (protocol "DATA exceeds credit"))
      else if other_fingerprint (c.sha256 signed) (get (record { sub = sub; id = e.id }) o.dedup)
      then some (err (protocol "conflicting message identity"))
      else elim (shrink_to (length signed + 2048) g.metadata o.metadata) [
        | none ↦ none
        | some (budget, metadata) ↦ some (
            ok (
              record {
                envelope = e;
                fingerprint = c.sha256 signed;
                permits = g.permits;
                metadata = metadata;
              },
              budget,
            ))
      ]

  -- The last part of `begin`, on the grant that is found.
  unfoldable pub use_grant :
      Bytes → Bytes → Bytes → Bytes → ℕ → Envelope → Grant → Owner → Option (Answer ReceiveTicket)
  unfolding open_ticket drop_grant
  use_grant peer session sub signed len e g o =
      let o' = record o { subscriptions = modify e.topic (drop_grant peer) o.subscriptions } in
      elim (open_ticket session sub signed len e g o') [
        | none ↦ none
        | some (err error) ↦ some (err error, o')
        | some (ok (ticket, budget)) ↦ some (ok ticket, record o' { metadata = budget })
      ]

  unfoldable pub begin :
      Bytes → Bytes → Bytes → ℕ → Bytes → ℕ → Owner → Option (Answer ReceiveTicket)
  unfolding check_frame claim_stream find_grant use_grant
  begin peer session sub stream signed len o = elim (check_frame peer session signed len o) [
    | err e ↦ some (err e, o)
    | ok (p, e) ↦ elim (claim_stream sub stream e.topic p) [
      | err error ↦ some (err error, o)
      | ok p' ↦
          let o' = record o { peers = modify peer (λ (q : Peer). p') o.peers } in
          elim (find_grant peer sub e o') [
            | err error ↦ some (err error, o')
            | ok g ↦ use_grant peer session sub signed len e g o'
          ]
    ]
  ]
