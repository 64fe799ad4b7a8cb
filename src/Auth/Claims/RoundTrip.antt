-- ===== src/Auth/Claims/RoundTrip.antt =====
-- Which claims a certificate can carry: `decode` accepts exactly the encodings of well-formed claims.
use rtn_mq.Prelude.{
  ℕ, zero, suc, ◌+◌, ◌*◌, ◌<◌, ◌≤◌, ◌≡◌, refl, sym, subst, Bool, true, ◌||◌, List, [], ◌∷◌, ◌++◌,
  length, All, arith, ◌↔◌,
}
use rtn_mq.Prelude.Bytes.{Bytes, concat}
use rtn_mq.Error.{ok}
use rtn_mq.Crypto.{Iroh}
use rtn_mq.Cbor.{
  Minicbor, MinicborLaws, Writer, u64_mod, u, bytes, fixed, end, canonical, run_reader-eq-ok,
  run_reader-ok,
}
use rtn_mq.Cbor.RoundTrip.{
  array-put, list-put, u-put, fixed-put, text-put, canonical_refl, canonical_sound,
}
use rtn_mq.Auth.Cose.{version, endpoint}
use rtn_mq.Auth.Claims.{
  max_permissions, Permission, Claims, bit, permission_of_mask, validate, put_permissions, encode,
  read_permission, read_permissions, read_claims, decode,
}
use rtn_mq.Message.Topic.{Topic, new_topic}
use rtn_mq.Message.Topic.Names.{new_topic_iff}
use rtn_mq.Message.Topic.Ordering.{topic_is_ascii}

-- A permission grants something, on a topic that `Topic::new` has made.
abbrev pub Grants : Permission → Type 0
Grants p = (new_topic p.topic.name ≡ ok p.topic) × ((p.publish || p.subscribe) ≡ true)

-- The sizes and ranges that the types of the fields give, and the check of the encoder.
pub record IsWellFormed ⦃c : Iroh⦄ (claims : Claims) : Type 0 where
  pub realm : length claims.realm ≡ 16
  pub issuer : length claims.issuer ≡ 32
  pub issuer_key : c.is_key claims.issuer ≡ true
  pub id : length claims.id ≡ 16
  pub subject : length claims.subject ≡ 32
  pub subject_key : c.is_key claims.subject ≡ true
  pub not_before_range : claims.not_before < u64_mod
  pub expires_range : claims.expires < u64_mod
  pub permissions : All Grants claims.permissions
  pub max_payload_range : claims.limits.max_payload < u64_mod
  pub max_subscriptions_range : claims.limits.max_subscriptions < u64_mod
  pub valid : validate claims ≡ ok tt

new_topic-name : (s : Bytes) (t : Topic) → new_topic s ≡ ok t → new_topic t.name ≡ ok t
new_topic-name s t h =
    let same : t.name ≡ s = ((new_topic_iff s t).0 h).0 in
    subst (λ n. new_topic n ≡ ok t) (sym same) h

permission_of_mask-bits :
    (p : Permission)
    → (p.publish || p.subscribe) ≡ true
    → permission_of_mask p.topic (bit p.publish + 2 * bit p.subscribe) ≡ ok p
unfolding permission_of_mask
permission_of_mask-bits p h = ground arith

validate-length :
    (claims : Claims) → validate claims ≡ ok tt → length claims.permissions ≤ max_permissions
unfolding validate
validate-length claims h = ground arith

module _ ⦃m : Minicbor⦄ (laws : MinicborLaws m) where
  read_permission-put :
      (p : Permission) (rest : Bytes)
      → Grants p
      → read_permission (
          m.put_array 2
          ++ (m.put_text p.topic.name ++ (m.put_u (bit p.publish + 2 * bit p.subscribe) ++ rest)))
        ≡ ok (p, rest)
  unfolding read_permission
  read_permission-put p rest (named, some_right) =
      let name = (new_topic_iff p.topic.name p.topic).0 named in
      let range : (b : Bool) → bit b ≤ 1 = λ b. ground arith in
      simp (
        λ (rest : Bytes). array-put laws 2 rest (omega arith),
        λ (rest : Bytes).
            text-put laws 256 p.topic.name rest (laws.ascii_is_text _ (topic_is_ascii _ name.4))
              name.2 (omega arith),
        named,
        λ (rest : Bytes).
            u-put laws (bit p.publish + 2 * bit p.subscribe) rest
              (omega (arith, range p.publish, range p.subscribe)),
        permission_of_mask-bits p some_right,
      )

  read_permissions-put :
      (ps : List Permission) (w : Writer)
      → All Grants ps
      → read_permissions (length ps) (concat (put_permissions ps w)) ≡ ok (ps, concat w)
  unfolding read_permissions put_permissions
  read_permissions-put [] w h = refl
  read_permissions-put (p ∷ ps) w (h, hs) =
      simp (read_permission-put p (concat (put_permissions ps w)) h, read_permissions-put ps w hs)

  module _ ⦃c : Iroh⦄ where
    read_claims-encode :
        (input : Bytes) (claims : Claims)
        → IsWellFormed claims
        → canonical input (encode claims) ≡ ok tt
        → read_claims input (encode claims) ≡ ok (claims, [])
    unfolding read_claims encode version endpoint end validate
    read_claims-encode input claims w same =
        let count = validate-length claims w.valid in
        simp (
          λ (rest : Bytes). array-put laws 9 rest (omega arith),
          λ (rest : Bytes). u-put laws 1 rest (omega arith),
          λ (rest : Bytes). fixed-put laws 16 claims.realm rest w.realm (omega arith),
          λ (rest : Bytes). fixed-put laws 32 claims.issuer rest w.issuer (omega arith),
          w.issuer_key,
          λ (rest : Bytes). fixed-put laws 16 claims.id rest w.id (omega arith),
          λ (rest : Bytes). fixed-put laws 32 claims.subject rest w.subject (omega arith),
          w.subject_key,
          λ (rest : Bytes). u-put laws claims.not_before rest w.not_before_range,
          λ (rest : Bytes). u-put laws claims.expires rest w.expires_range,
          λ (rest : Bytes).
              list-put laws max_permissions (length claims.permissions) rest count
                (omega (arith, count)),
          λ (w' : Writer). read_permissions-put claims.permissions w' w.permissions,
          λ (rest : Bytes). array-put laws 2 rest (omega arith),
          λ (rest : Bytes). u-put laws claims.limits.max_payload rest w.max_payload_range,
          λ (rest : Bytes).
              u-put laws claims.limits.max_subscriptions rest w.max_subscriptions_range,
          w.valid,
          same,
        )

    u_range : (b : Bytes) (r : ℕ × Bytes) → u b ≡ ok r → r.0 < u64_mod
    unfolding u
    u_range b r h = ground (arith, laws.u_range b r.0 r.1)

    read_permission_sound :
        (b rest : Bytes) (p : Permission) → read_permission b ≡ ok (p, rest) → Grants p
    unfolding read_permission permission_of_mask
    read_permission_sound b rest p h = grind (arith, new_topic-name)

    read_permissions_sound :
        (n : ℕ) (b rest : Bytes) (ps : List Permission)
        → read_permissions n b ≡ ok (ps, rest)
        → All Grants ps
    unfolding read_permissions
    read_permissions_sound zero b rest ps h = ground arith
    read_permissions_sound (suc n) b rest ps h =
        grind (arith, read_permission_sound, read_permissions_sound n)

    -- What the reader of the claims has checked, in three parts.
    read_claims_valid :
        (input rest : Bytes) (claims : Claims)
        → read_claims input input ≡ ok (claims, rest)
        → (canonical input (encode claims) ≡ ok tt) × (validate claims ≡ ok tt)
    unfolding read_claims
    read_claims_valid input rest claims h = ground arith

    read_claims_ids :
        (input rest : Bytes) (claims : Claims)
        → read_claims input input ≡ ok (claims, rest)
        → (length claims.realm ≡ 16)
          × (length claims.issuer ≡ 32)
          × (c.is_key claims.issuer ≡ true)
          × (length claims.id ≡ 16)
          × (length claims.subject ≡ 32)
          × (c.is_key claims.subject ≡ true)
    unfolding read_claims endpoint fixed bytes
    read_claims_ids input rest claims h = ground arith

    read_claims_ranges :
        (input rest : Bytes) (claims : Claims)
        → read_claims input input ≡ ok (claims, rest)
        → (claims.not_before < u64_mod)
          × (claims.expires < u64_mod)
          × (claims.limits.max_payload < u64_mod)
          × (claims.limits.max_subscriptions < u64_mod)
    unfolding read_claims
    read_claims_ranges input rest claims h = grind (arith, u_range)

    read_claims_permissions :
        (input rest : Bytes) (claims : Claims)
        → read_claims input input ≡ ok (claims, rest)
        → All Grants claims.permissions
    unfolding read_claims
    read_claims_permissions input rest claims h = grind (arith, read_permissions_sound)

    read_claims_sound :
        (input rest : Bytes) (claims : Claims)
        → read_claims input input ≡ ok (claims, rest)
        → (canonical input (encode claims) ≡ ok tt) × IsWellFormed claims
    read_claims_sound input rest claims h =
        let (same, valid) = read_claims_valid input rest claims h in
        let (realm, issuer, issuer_key, id, subject, subject_key) =
          read_claims_ids input rest claims h in
        let (before, expires, payload, subscriptions) = read_claims_ranges input rest claims h in
        (
          same,
          record {
            realm = realm;
            issuer = issuer;
            issuer_key = issuer_key;
            id = id;
            subject = subject;
            subject_key = subject_key;
            not_before_range = before;
            expires_range = expires;
            permissions = read_claims_permissions input rest claims h;
            max_payload_range = payload;
            max_subscriptions_range = subscriptions;
            valid = valid;
          },
        )

    -- The claims of a certificate are accepted exactly when they are the one encoding of well-formed
    -- claims: valid keys and topics, at most 256 permissions in strictly rising order of topics that each
    -- grant something, and a time of validity that is not empty.
    pub decode_iff :
        (input : Bytes) (claims : Claims)
        → (decode input ≡ ok claims) ↔ ((input ≡ encode claims) × IsWellFormed claims)
    unfolding decode
    decode_iff input claims = (
      λ e.
          let (rest, read) = run_reader-eq-ok (read_claims input) input {a = claims} e in
          let (same, a) = read_claims_sound input rest claims read in
          (canonical_sound input _ same, a),
      λ (same, w). rw same (
          run_reader-ok (read_claims (encode claims)) (encode claims)
            (read_claims-encode (encode claims) claims w (canonical_refl _))),
    )
