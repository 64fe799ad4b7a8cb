-- ===== src/Auth/Trust/Acceptance.antt =====
-- Which certificates a trust accepts.
use rtn_mq.Prelude.{ℕ, ◌<◌, ◌≤◌, ◌≡◌, subst, false, arith, ◌↔◌, inl, inr}
use rtn_mq.Prelude.Bytes.{Bytes, bytes_key, bytes_eq_iff}
use rtn_mq.Prelude.Map.{contains_key}
use rtn_mq.Error.{ok, Result-cases, >>=-eq-ok}
use rtn_mq.Crypto.{Iroh}
use rtn_mq.Cbor.{Minicbor, MinicborLaws}
use rtn_mq.Auth.Cose.{parse_cose, verify_cose}
use rtn_mq.Auth.Cose.Acceptance.{Signed, verify_cose-payload, verify_cose_iff}
use rtn_mq.Auth.Claims.{Certificate, cert_context, encode, decode, from_bytes}
use rtn_mq.Auth.Claims.RoundTrip.{decode_iff, IsWellFormed}
use rtn_mq.Auth.Trust.{Trust, saturating_add, is_stale, check, verify_certificate}
use rtn_mq.Wire.Hello.{max_cert}

-- The time is in the validity of the certificate, widened by the skew, and before the deadline of the
-- last revocations.
pub record IsCurrent (t : Trust) (cert : Certificate) (now : ℕ) : Type 0 where
  pub begun : cert.not_before ≤ saturating_add now t.clock_skew_secs
  pub not_over : now < saturating_add cert.expires t.clock_skew_secs
  pub fresh : is_stale t.freshness now ≡ false

-- The certificate names the realm, the root and the peer, and is not denied.
pub record IsFor (t : Trust) (cert : Certificate) (peer : Bytes) : Type 0 where
  pub same_realm : cert.realm ≡ t.realm
  pub same_root : cert.issuer ≡ t.root
  pub same_peer : cert.subject ≡ peer
  pub allowed : contains_key cert.id t.revoked ≡ false

-- The check passes exactly on a certificate of the realm and the root for the peer, which is not denied,
-- while it is valid and the revocations are fresh.
pub check_iff :
    (t : Trust) (cert : Certificate) (peer : Bytes) (now : ℕ)
    → (check t cert peer now ≡ ok tt) ↔ (IsFor t cert peer × IsCurrent t cert now)
unfolding check
check_iff t cert peer now =
    let realm = bytes_eq_iff cert.realm t.realm in
    let root = bytes_eq_iff cert.issuer t.root in
    let subject = bytes_eq_iff cert.subject peer in
    (λ h. ground (arith, realm, root, subject), λ h. ground (arith, realm, root, subject))

module _ ⦃m : Minicbor⦄ (laws : MinicborLaws m) ⦃c : Iroh⦄ where
  -- A parsed certificate holds its input, and the claims that the input encodes.
  pub from_bytes_sound :
      (input : Bytes) (cert : Certificate)
      → from_bytes input ≡ ok cert
      → (signature : Bytes) × (cert.bytes ≡ input)
        × (parse_cose input max_cert ≡ ok (encode cert.claims, signature))
        × IsWellFormed cert.claims
  unfolding from_bytes
  from_bytes_sound input cert h = elim (Result-cases (parse_cose input max_cert)) [
    | inl ((payload, signature), e) ↦ elim (Result-cases (decode payload)) [
      | inl (claims, d) ↦
          let (same, w) = (decode_iff laws payload claims).0 d in
          let named : claims ≡ cert.claims = ground arith in
          (
            signature,
            ground arith,
            subst (λ cs. parse_cose input max_cert ≡ ok (encode cs, signature)) named
                (subst (λ b. parse_cose input max_cert ≡ ok (b, signature)) same e),
            subst (λ cs. IsWellFormed cs) named w,
          )
      | inr (x, d) ↦ absurd (ground arith)
    ]
    | inr (x, e) ↦ absurd (ground arith)
  ]

  -- A parsed certificate verifies for a peer exactly when its input is the one encoding of its claims
  -- with a signature of the root in the certificate context, it names the realm, the root and the peer,
  -- it is not denied, it is valid at the time and the revocations are fresh.
  pub verify_certificate_iff :
      (input : Bytes) (t : Trust) (cert : Certificate) (peer : Bytes) (now : ℕ)
      → from_bytes input ≡ ok cert
      → (verify_certificate t cert peer now ≡ ok tt) ↔ (
          Signed laws input t.root cert_context max_cert (encode cert.claims)
          × IsFor t cert peer
          × IsCurrent t cert now)
  unfolding verify_certificate check
  verify_certificate_iff input t cert peer now parsed =
      let (signature, kept, read, w) = from_bytes_sound input cert parsed in
      let root =
        verify_cose_iff laws input t.root cert_context max_cert (encode cert.claims)
          (omega arith) in
      let rule = check_iff t cert peer now in
      (
        λ h.
            let (payload, signed, passes) =
              >>=-eq-ok (verify_cose cert.bytes t.root cert_context max_cert)
                (λ b. check t cert peer now) h in
            (
              root.0 (
                  verify_cose-payload input t.root cert_context max_cert read (
                    subst (λ b. verify_cose b t.root cert_context max_cert ≡ ok payload) kept
                      signed)),
              (rule.0 passes).0,
              (rule.0 passes).1,
            ),
        λ (signed, named, current). rw (kept, root.1 signed) (rule.1 (named, current)),
      )
