-- ===== src/Join/Reply/Acceptance.antt =====
-- What a peer that joins accepts as the reply of the host.
use rtn_mq.Prelude.{ℕ, ◌<◌, ◌≡◌, refl, subst, sym, false, Option, none, some, arith}
use rtn_mq.Prelude.Bytes.{Bytes, bytes_eq_iff}
use rtn_mq.Error.{ok}
use rtn_mq.Crypto.{Iroh}
use rtn_mq.Cbor.{Minicbor, MinicborLaws, canonical, run_reader-eq-ok}
use rtn_mq.Cbor.RoundTrip.{canonical_sound}
use rtn_mq.Auth.Claims.{cert_context, encode}
use rtn_mq.Auth.Cose.Acceptance.{Signed}
use rtn_mq.Auth.Trust.{Trust, new_trust, verify_certificate}
use rtn_mq.Auth.Trust.Acceptance.{IsFor, IsCurrent, verify_certificate_iff, from_bytes_sound}
use rtn_mq.Auth.Claims.{Certificate, from_bytes}
use rtn_mq.Join.Admission.{Enrollment}
use rtn_mq.Join.Reply.{is_other, unwrap_or, encode_enrollment, read_enrollment, decode_enrollment}
use rtn_mq.Wire.Hello.{max_cert}

-- What holds of a reply that was accepted, where `t` is the trust of before, or that of the reply.
pub record Joined ⦃m : Minicbor⦄ (laws : MinicborLaws m) ⦃c : Iroh⦄ (input peer : Bytes) (t : Trust)
    (now : ℕ) (e : Enrollment) : Type 0 where
  pub encoding : input ≡ encode_enrollment e
  pub same_realm : e.trust.realm ≡ t.realm
  pub same_root : e.trust.root ≡ t.root
  pub open_code : now < e.expires
  pub signed :
      Signed laws e.certificate.bytes t.root cert_context max_cert (encode e.certificate.claims)
  pub for_peer : IsFor t e.certificate peer
  pub current : IsCurrent t e.certificate now

module _ ⦃m : Minicbor⦄ (laws : MinicborLaws m) ⦃c : Iroh⦄ where
  is_other_sound :
      (expected : Option Trust) (realm root : Bytes)
      → is_other expected realm root ≡ false
      → (realm ≡ (unwrap_or expected (new_trust realm root)).realm)
        × (root ≡ (unwrap_or expected (new_trust realm root)).root)
  unfolding is_other new_trust
  is_other_sound none realm root h = (refl, refl)
  is_other_sound (some t) realm root h =
      ground (arith, bytes_eq_iff t.root root, bytes_eq_iff t.realm realm)

  read_enrollment_sound :
      (input peer : Bytes) (expected : Option Trust) (now : ℕ) (e : Enrollment) (rest : Bytes)
      → read_enrollment input peer expected now input ≡ ok (e, rest)
      → (canonical input (encode_enrollment e) ≡ ok tt)
        × (e.trust ≡ new_trust e.trust.realm e.trust.root)
        × (is_other expected e.trust.realm e.trust.root ≡ false)
        × (now < e.expires)
        × (verify_certificate (unwrap_or expected e.trust) e.certificate peer now ≡ ok tt)
  unfolding read_enrollment new_trust
  read_enrollment_sound input peer expected now e rest h = ground arith

  from_bytes-bytes :
      (b : Bytes) (cert : Certificate) → from_bytes b ≡ ok cert → from_bytes cert.bytes ≡ ok cert
  from_bytes-bytes b cert h =
      let (signature, same, parsed, w) = from_bytes_sound laws b cert h in
      subst (λ b. from_bytes b ≡ ok cert) (sym same) h

  read_enrollment-from_bytes :
      (input peer : Bytes) (expected : Option Trust) (now : ℕ) (e : Enrollment) (rest : Bytes)
      → read_enrollment input peer expected now input ≡ ok (e, rest)
      → from_bytes e.certificate.bytes ≡ ok e.certificate
  unfolding read_enrollment
  read_enrollment-from_bytes input peer expected now e rest h = grind (arith, from_bytes-bytes)

  -- An accepted reply is the one encoding of its enrollment. It names the realm and the root that the peer
  -- trusted before, if it trusted any; the code is not over; and its certificate is signed by that root,
  -- names that realm and this peer, and is valid now.
  pub decode_enrollment_sound :
      (input peer : Bytes) (expected : Option Trust) (now : ℕ) (e : Enrollment)
      → decode_enrollment input peer expected now ≡ ok e
      → Joined laws input peer (unwrap_or expected e.trust) now e
  unfolding decode_enrollment
  decode_enrollment_sound input peer expected now e h =
      let (rest, read) =
        run_reader-eq-ok (read_enrollment input peer expected now) input {a = e} h in
      let (same, fresh, agrees, open_code, verified) =
        read_enrollment_sound input peer expected now e rest read in
      let parsed = read_enrollment-from_bytes input peer expected now e rest read in
      let t = unwrap_or expected e.trust in
      let (signed, for_peer, current) =
        (verify_certificate_iff laws e.certificate.bytes t e.certificate peer now parsed).0
          verified in
      let named =
        subst
          (λ u.
            (e.trust.realm ≡ (unwrap_or expected u).realm)
            × (e.trust.root ≡ (unwrap_or expected u).root))
          (sym fresh) (is_other_sound expected e.trust.realm e.trust.root agrees) in
      record {
        encoding = canonical_sound input (encode_enrollment e) same;
        same_realm = named.0;
        same_root = named.1;
        open_code = open_code;
        signed = signed;
        for_peer = for_peer;
        current = current;
      }
