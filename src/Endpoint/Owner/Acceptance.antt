-- ===== src/Endpoint/Owner/Acceptance.antt =====
-- endpoint/owner.rs: what `begin` admits, and what it uses up.
use rtn_mq.Prelude.{
  ℕ, ◌+◌, ◌≤◌, ◌<◌, ◌≡◌, ◌≢◌, refl, inl, inr, true, false, none, some, length, arith, Option-cases,
  ◌⊎◌,
}
use rtn_mq.Prelude.Bytes.{Bytes, bytes_key, bytes_eq, bytes_eq_iff, bytes_eq_refl}
use rtn_mq.Prelude.Map.{get, modify, contains_key, get-modify, get-remove_self}
use rtn_mq.Prelude.Order.{same_refl}
use rtn_mq.Error.{ok, Result-cases}
use rtn_mq.Buffer.{shrink_to}
use rtn_mq.Cbor.{Minicbor}
use rtn_mq.Crypto.{Iroh}
use rtn_mq.Auth.Claims.{allows}
use rtn_mq.Auth.Trust.{saturating_add}
use rtn_mq.Message.Topic.{Topic}
use rtn_mq.Message.Topic.Ordering.{topic_key}
use rtn_mq.Message.Envelope.{Envelope, verify}
use rtn_mq.Wire.Data.{data_frame}
use rtn_mq.Endpoint.Owner.{Owner, Settings, Outside, Peer, LocalSub, Grant, dedup_key}
use rtn_mq.Endpoint.Owner.Session.{peer_valid}
use rtn_mq.Endpoint.Owner.Remote.{same_mode}
use rtn_mq.Endpoint.Owner.Receive.{
  ReceiveTicket, check_frame, claim_stream, find_grant, open_ticket, use_grant, drop_grant, begin,
  other_fingerprint,
}

-- A ceiling of 0 is none.
abbrev pub Under : ℕ → ℕ → Type 0
Under ceiling n = (ceiling ≡ 0) ⊎ (n ≤ ceiling)

-- A subscription of this owner that holds a grant of the peer.
pub record Paid (peer sub : Bytes) (e : Envelope) (size : ℕ) (o : Owner) (s : LocalSub) (g : Grant)
    : Type 0 where
  pub there : get e.topic o.subscriptions ≡ some s
  pub same_sub : s.id ≡ sub
  pub mode : same_mode s.mode e.mode ≡ true
  pub confirmed : contains_key peer s.confirmed ≡ true
  pub held : get peer s.grants ≡ some g
  pub fits : size ≤ g.bytes

module _ ⦃m : Minicbor⦄ ⦃c : Iroh⦄ (settings : Settings) (out : Outside) where
  -- The frame of a peer in a session, with what makes it acceptable to the owner.
  pub record Accepted (peer session sub : Bytes) (stream : ℕ) (signed : Bytes) (len : ℕ)
      (o o' : Owner) (t : ReceiveTicket) : Type 0 where
    pub state : Peer
    pub valid : peer_valid (out.wall 0) peer session o ≡ ok state
    pub verified : verify signed peer ≡ ok t.envelope
    pub realm : t.envelope.realm_id ≡ o.trust.realm
    pub may_publish : allows state.reg.cert t.envelope.topic true ≡ true
    pub may_subscribe : allows o.cert t.envelope.topic false ≡ true
    pub length_eq : t.envelope.len ≡ len
    pub fits : len ≤ settings.max_payload
    pub own_ceiling : Under o.cert.limits.max_payload len
    pub peer_ceiling : Under state.reg.cert.limits.max_payload len
    pub now : ℕ
    pub clock : out.wall 1 ≡ ok now
    pub not_from_future : t.envelope.created ≤ saturating_add now o.trust.clock_skew_secs
    pub within_window : t.envelope.expires ≤ t.envelope.created + settings.delivery_window.as_secs
    pub one_stream :
        (other : ℕ) → get t.envelope.topic state.inbound ≡ some (sub, other) → other ≡ stream
    pub room :
        get t.envelope.topic state.inbound ≡ none → length state.inbound < settings.max_topics
    pub subscription : LocalSub
    pub grant : Grant
    pub paid :
        Paid peer sub t.envelope
          (len + length (data_frame session sub signed) + 12)
          o
          subscription
          grant
    pub permits_eq : t.permits ≡ grant.permits
    pub metadata_eq : t.metadata ≡ length signed + 2048
    pub fingerprint_eq : t.fingerprint ≡ c.sha256 signed
    pub no_conflict :
        other_fingerprint (c.sha256 signed) (get (record { sub = sub; id = t.envelope.id }) o.dedup)
        ≡ false
    pub used : get t.envelope.topic o'.subscriptions ≡ some (drop_grant peer subscription)

  check_frame_sound :
      (peer session signed : Bytes) (len : ℕ) (o : Owner) {p : Peer} {e : Envelope}
      → check_frame settings out peer session signed len o ≡ ok (p, e)
      → (bytes_eq e.realm_id o.trust.realm ≡ true)
        × (allows p.reg.cert e.topic true ≡ true)
        × (allows o.cert e.topic false ≡ true)
        × (e.len ≡ len)
        × (len ≤ settings.max_payload)
  unfolding check_frame
  check_frame_sound peer session signed len o h = ground arith

  -- The ceilings of both certificates, and the times of the message by the second reading of the clock.
  check_frame-limits :
      (peer session signed : Bytes) (len : ℕ) (o : Owner) {p : Peer} {e : Envelope}
      → check_frame settings out peer session signed len o ≡ ok (p, e)
      → (now : ℕ) × (out.wall 1 ≡ ok now)
        × Under o.cert.limits.max_payload len
        × Under p.reg.cert.limits.max_payload len
        × (e.created ≤ saturating_add now o.trust.clock_skew_secs)
        × (e.expires ≤ e.created + settings.delivery_window.as_secs)
  unfolding check_frame
  check_frame-limits peer session signed len o h = elim (Result-cases (out.wall 1)) [
    | inr (error, broken) ↦ absurd (ground (arith, broken, h))
    | inl (now, read) ↦ (
      now,
      read,
      ground (arith, read, h),
      ground (arith, read, h),
      ground (arith, read, h),
      ground (arith, read, h),
    )
  ]

  claim_stream_sound :
      (sub : Bytes) (stream : ℕ) (topic : Topic) (p : Peer) {p' : Peer} (other : ℕ)
      → claim_stream settings out sub stream topic p ≡ ok p'
      → get topic p.inbound ≡ some (sub, other)
      → other ≡ stream
  unfolding claim_stream
  claim_stream_sound sub stream topic p other h there = ground (arith, there, bytes_eq_refl sub)

  claim_stream-room :
      (sub : Bytes) (stream : ℕ) (topic : Topic) (p : Peer) {p' : Peer}
      → claim_stream settings out sub stream topic p ≡ ok p'
      → get topic p.inbound ≡ none
      → length p.inbound < settings.max_topics
  unfolding claim_stream
  claim_stream-room sub stream topic p h absent = ground (arith, absent)

  check_frame-valid :
      (peer session signed : Bytes) (len : ℕ) (o : Owner) {p : Peer} {e : Envelope}
      → check_frame settings out peer session signed len o ≡ ok (p, e)
      → (peer_valid (out.wall 0) peer session o ≡ ok p) × (verify signed peer ≡ ok e)
  unfolding check_frame
  check_frame-valid peer session signed len o h = ground arith

  find_grant_sound :
      (peer sub : Bytes) (e : Envelope) (o : Owner) {g : Grant}
      → find_grant settings out peer sub e o ≡ ok g
      → (s : LocalSub) × (get e.topic o.subscriptions ≡ some s)
        × (bytes_eq s.id sub ≡ true)
        × (same_mode s.mode e.mode ≡ true)
        × (contains_key peer s.confirmed ≡ true)
        × (get peer s.grants ≡ some g)
  unfolding find_grant
  find_grant_sound peer sub e o {g} h = elim (Option-cases (get e.topic o.subscriptions)) [
    | inl absent ↦ absurd (ground (arith, absent))
    | inr (s, there) ↦ (
      s,
      there,
      ground (arith, there),
      ground (arith, there),
      ground (arith, there),
      ground (arith, there),
    )
  ]

  use_grant_sound :
      (peer session sub signed : Bytes) (len : ℕ) (e : Envelope) (g : Grant) (o : Owner)
      {t : ReceiveTicket} {o' : Owner}
      → use_grant settings out peer session sub signed len e g o ≡ some (ok t, o')
      → (t.envelope ≡ e)
        × (t.fingerprint ≡ c.sha256 signed)
        × (t.permits ≡ g.permits)
        × (t.metadata ≡ length signed + 2048)
        × (len + length (data_frame session sub signed) + 12 ≤ g.bytes)
        × (other_fingerprint (c.sha256 signed) (get (record { sub = sub; id = e.id }) o.dedup)
            ≡ false)
        × (o'.subscriptions ≡ modify e.topic (drop_grant peer) o.subscriptions)
  unfolding use_grant open_ticket shrink_to
  use_grant_sound peer session sub signed len e g o h = ground arith

  -- `begin` accepts a frame only of a peer whose session and certificate are valid, signed by that peer,
  -- for this realm and a topic that the peer may publish and this endpoint may receive; of the length that
  -- it says, within the limit of the configuration and the ceilings of both certificates; not created in
  -- the future beyond the clock skew, nor with a longer life than the delivery window; on the stream that
  -- the binding has used before, or on a first one for which there is room; under a subscription with a grant of the peer that covers the
  -- frame, and not in conflict with a recorded message. The ticket is for that message, with
  -- the permits of the grant and its metadata cut to the envelope, and the grant is used up.
  pub begin_sound :
      (peer session sub : Bytes) (stream : ℕ) (signed : Bytes) (len : ℕ) (o o' : Owner)
      (t : ReceiveTicket)
      → begin settings out peer session sub stream signed len o ≡ some (ok t, o')
      → Accepted peer session sub stream signed len o o' t
  unfolding begin
  begin_sound peer session sub stream signed len o o' t h =
      elim (Result-cases (check_frame settings out peer session signed len o)) [
        | inr (error, refused) ↦ absurd (ground (arith, refused))
        | inl ((p, e), checked) ↦
            elim (Result-cases (claim_stream settings out sub stream e.topic p)) [
              | inr (error, refused) ↦ absurd (ground (arith, checked, refused))
              | inl (p', claimed) ↦
                  let o1 = record o { peers = modify peer (λ (q : Peer). p') o.peers } in
                  elim (Result-cases (find_grant settings out peer sub e o1)) [
                    | inr (error, refused) ↦ absurd (ground (arith, checked, claimed, refused))
                    | inl (g, held) ↦
                        let used : use_grant settings out peer session sub signed len e g o1
                            ≡ some (ok t, o') =
                          ground (arith, checked, claimed, held) in
                        accept p p' e g o1 checked claimed held used refl refl
                  ]
            ]
      ]
    where
      accept :
          (p p' : Peer) (e : Envelope) (g : Grant) (o1 : Owner)
          → check_frame settings out peer session signed len o ≡ ok (p, e)
          → claim_stream settings out sub stream e.topic p ≡ ok p'
          → find_grant settings out peer sub e o1 ≡ ok g
          → use_grant settings out peer session sub signed len e g o1 ≡ some (ok t, o')
          → o1.subscriptions ≡ o.subscriptions
          → o1.dedup ≡ o.dedup
          → Accepted peer session sub stream signed len o o' t
      accept p p' e g o1 checked claimed held used same_subs same_dedup =
          let (now, clock, own, theirs, past, window) =
            check_frame-limits peer session signed len o checked in
          let (valid, verified) = check_frame-valid peer session signed len o checked in
          let (realm, publish, subscribe, len_eq, fits) =
            check_frame_sound peer session signed len o checked in
          let (s, there, mine, mode, confirmed, grant) = find_grant_sound peer sub e o1 held in
          let (same, print, permits, metadata, covers, new, spends) =
            use_grant_sound peer session sub signed len e g o1 used in
          let there' : get e.topic o.subscriptions ≡ some s = ground (arith, there, same_subs) in
          let after = get-modify e.topic e.topic (drop_grant peer) o.subscriptions s there' in
          rw same (record {
            state = p;
            valid = valid;
            verified = ground (arith, verified, same);
            realm = (bytes_eq_iff e.realm_id o.trust.realm).0 realm;
            may_publish = ground (arith, publish, same);
            may_subscribe = ground (arith, subscribe, same);
            length_eq = ground (arith, len_eq, same);
            fits = fits;
            permits_eq = permits;
            metadata_eq = metadata;
            room = λ absent.
                claim_stream-room sub stream e.topic p claimed (ground (arith, absent, same));
            own_ceiling = own;
            peer_ceiling = theirs;
            now = now;
            clock = clock;
            not_from_future = ground (arith, past, same);
            within_window = ground (arith, window, same);
            one_stream = λ other there.
                claim_stream_sound sub stream e.topic p other claimed (ground (arith, there, same));
            subscription = s;
            grant = g;
            paid = record {
              there = there';
              same_sub = (bytes_eq_iff s.id sub).0 mine;
              mode = mode;
              confirmed = confirmed;
              held = grant;
              fits = covers;
            };
            fingerprint_eq = print;
            no_conflict = ground (arith, new, same_dedup);
            used = ground (arith, spends, same_subs, after, same_refl {K = Topic} e.topic);
          })

dropped_grant : (peer : Bytes) (s : LocalSub) → get peer (drop_grant peer s).grants ≡ none
unfolding drop_grant
dropped_grant peer s = get-remove_self peer s.grants

module _ ⦃m : Minicbor⦄ ⦃c : Iroh⦄ (settings : Settings) where
  -- A grant is good for one frame: once `begin` has accepted a frame of a peer for a topic, it accepts no
  -- other frame of that peer for that topic on the owner that it leaves, on any stream and in any session.
  pub begin-begin :
      (out out' : Outside) (peer session sub : Bytes) (stream : ℕ) (signed : Bytes) (len : ℕ)
      (o o' o'' : Owner) (t t' : ReceiveTicket) (session' sub' : Bytes) (stream' : ℕ)
      (signed' : Bytes) (len' : ℕ)
      → begin settings out peer session sub stream signed len o ≡ some (ok t, o')
      → t'.envelope.topic ≡ t.envelope.topic
      → begin settings out' peer session' sub' stream' signed' len' o' ≢ some (ok t', o'')
  begin-begin out out' peer session sub stream signed len o o' o'' t t' session' sub' stream'
        signed' len' first same second =
      let a = begin_sound settings out peer session sub stream signed len o o' t first in
      let b = begin_sound settings out' peer session' sub' stream' signed' len' o' o'' t' second in
      let left : get t'.envelope.topic o'.subscriptions ≡ some (drop_grant peer a.subscription) =
        rw same a.used in
      let eq : b.subscription ≡ drop_grant peer a.subscription =
        ground (arith, left, b.paid.there) in
      let gone = dropped_grant peer a.subscription in ground (arith, b.paid.held, eq, gone)
