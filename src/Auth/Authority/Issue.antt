-- ===== src/Auth/Authority/Issue.antt =====
-- What an authority issues: certificates that its trust accepts, with exactly the rights asked for.
use rtn_mq.Prelude.{
  ℕ, ◌<◌, ◌≤◌, ◌≡◌, refl, subst, Bool, ◌||◌, List, [], ◌∷◌, any, length, arith, none, leb,
  if◌then◌else◌,
}
use rtn_mq.Prelude.Bytes.{Bytes, bytes_key}
use rtn_mq.Prelude.Map.{get}
use rtn_mq.Error.{ok, err, message_too_large}
use rtn_mq.Crypto.{Iroh, IrohLaws}
use rtn_mq.Cbor.{Minicbor, MinicborLaws}
use rtn_mq.Auth.Cose.{sign_cose, parse_cose, cose, signing_bytes}
use rtn_mq.Auth.Cose.Acceptance.{parse_cose-cose}
use rtn_mq.Auth.Claims.{
  Permission, CertificateLimits, Claims, Certificate, cert_context, grants, allows, encode,
  from_bytes,
}
use rtn_mq.Auth.Claims.RoundTrip.{IsWellFormed, decode_iff}
use rtn_mq.Auth.Trust.{new_trust, saturating_add, is_stale, verify_certificate}
use rtn_mq.Auth.Trust.Acceptance.{verify_certificate_iff}
use rtn_mq.Auth.Authority.{Authority, insert_permission, sort_by_topic, trust, new_claims, issue}
use rtn_mq.Message.Topic.{Topic}
use rtn_mq.Wire.Hello.{max_cert}

any-insert_permission :
    (q : Permission → Bool) (p : Permission) (ps : List Permission)
    → any q (insert_permission p ps) ≡ (q p || any q ps)
unfolding insert_permission
any-insert_permission q p [] = refl
any-insert_permission q p (r ∷ ps) = ground (arith, any-insert_permission q p ps)

any-sort_by_topic :
    (q : Permission → Bool) (ps : List Permission) → any q (sort_by_topic ps) ≡ any q ps
unfolding sort_by_topic
any-sort_by_topic q [] = refl
any-sort_by_topic q (p ∷ ps) =
    ground (arith, any-sort_by_topic q ps, any-insert_permission q p (sort_by_topic ps))

module _ ⦃m : Minicbor⦄ (laws : MinicborLaws m) ⦃c : Iroh⦄ where
  pub from_bytes-cose :
      (claims : Claims) (signature : Bytes)
      → IsWellFormed claims
      → length signature ≡ 64
      → length (cose (encode claims) signature) ≤ max_cert
      → from_bytes (cose (encode claims) signature)
        ≡ ok (record { claims = claims; bytes = cose (encode claims) signature; memory = none })
  unfolding from_bytes
  from_bytes-cose claims signature w size fits =
      rw
        (
          parse_cose-cose laws max_cert (encode claims) signature size fits (omega arith),
          (decode_iff laws (encode claims) claims).1 (refl, w),
        )
        refl

  from_bytes_large : (b : Bytes) → max_cert < length b → from_bytes b ≡ err message_too_large
  unfolding from_bytes parse_cose
  from_bytes_large b h = ground arith

  module _ (keys : IrohLaws c) (a : Authority) (id subject : Bytes) (permissions : List Permission)
      (not_before expires_at : ℕ) (limits : CertificateLimits) where
    abbrev claims : Claims
    claims = new_claims a id subject permissions not_before expires_at limits

    abbrev certificate : Certificate
    certificate = record {
      claims = claims;
      bytes = sign_cose (encode claims) a.key cert_context;
      memory = none;
    }

    -- Well-formed claims are issued as they are, unless the certificate is larger than 15 KiB.
    pub issue_lem :
        IsWellFormed claims
        → issue a id subject permissions not_before expires_at limits ≡ (
            if leb (length (sign_cose (encode claims) a.key cert_context)) max_cert
            then ok certificate
            else err message_too_large)
    unfolding issue sign_cose
    issue_lem w =
        let size = keys.sign_size a.key (signing_bytes (encode claims) cert_context) in
        let fits =
          from_bytes-cose claims (c.sign a.key (signing_bytes (encode claims) cert_context)) w
            size in
        let large = from_bytes_large (sign_cose (encode claims) a.key cert_context) in
        rw w.valid (ground (arith, fits, large))

    issue-eq-ok :
        (cert : Certificate)
        → IsWellFormed claims
        → issue a id subject permissions not_before expires_at limits ≡ ok cert
        → (length certificate.bytes ≤ max_cert) × (certificate ≡ cert)
    issue-eq-ok cert w issued = let e = issue_lem w in ground (arith, e, issued)

    -- What was issued from well-formed claims is accepted by the trust of the authority, for the subject,
    -- from the start of its validity until its end.
    pub verify_certificate-issue :
        (cert : Certificate) (now : ℕ)
        → IsWellFormed claims
        → issue a id subject permissions not_before expires_at limits ≡ ok cert
        → not_before ≤ now
        → now < expires_at
        → verify_certificate (trust a) cert subject now ≡ ok tt
    unfolding trust new_trust new_claims saturating_add is_stale sign_cose get
    verify_certificate-issue cert now w issued begun not_over =
        let (fits, same) = issue-eq-ok cert w issued in
        subst (λ cert. verify_certificate (trust a) cert subject now ≡ ok tt) same
          ((verify_certificate_iff laws certificate.bytes (trust a) certificate subject now
              (from_bytes-cose claims _ w (keys.sign_size a.key _) fits)).1
            (
              record {
                signature = c.sign a.key (signing_bytes (encode claims) cert_context);
                encoding = refl;
                size = keys.sign_size a.key _;
                within = fits;
                verified = keys.verify_sign a.key _;
              },
              record { same_realm = refl; same_root = refl; same_peer = refl; allowed = refl },
              record {
                begun = ground (arith, w.expires_range);
                not_over = ground (arith, w.expires_range);
                fresh = refl;
              },
            ))

    -- It grants on a topic what one of the given permissions grants on it, and nothing else.
    pub allows-issue :
        (cert : Certificate) (topic : Topic) (publish : Bool)
        → IsWellFormed claims
        → issue a id subject permissions not_before expires_at limits ≡ ok cert
        → allows cert topic publish ≡ any (grants topic publish) permissions
    unfolding allows new_claims
    allows-issue cert topic publish w issued =
        let (fits, same) = issue-eq-ok cert w issued in
        subst (λ cert. allows cert topic publish ≡ any (grants topic publish) permissions) same
          (any-sort_by_topic (grants topic publish) permissions)
