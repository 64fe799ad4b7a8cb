-- ===== src/Tests/Auth.antt =====
-- Certificates, their trust and its revocations.
use rtn_mq.Prelude.{
  ◌*◌, ◌≡◌, ◌↔◌, ◌≤◌, refl, List, [], ◌∷◌, length, replicate, take, drop, any, arith, true, false,
  leb, if◌then◌else◌, none, some,
}
use rtn_mq.Prelude.Bytes.{Bytes, bytes_key, bytes_eq, bytes_lt}
use rtn_mq.Prelude.Map.{get, insert}
use rtn_mq.Error.{ok, err, unauthorized, message_too_large}
use rtn_mq.Cbor.{array, list, u, bytes, fixed, end, canonical, empty_map}
use rtn_mq.Auth.Cose.{version, cose, signing_bytes, read_cose, parse_cose, sign_cose, verify_cose}
use rtn_mq.Auth.Cose.Acceptance.{Signed, verify_cose_iff}
use rtn_mq.Auth.Claims.{
  Permission, CertificateLimits, Claims, Certificate, cert_context, validate, validate_permissions,
  encode, put_permissions, decode, from_bytes, allows, grants,
}
use rtn_mq.Auth.Claims.RoundTrip.{IsWellFormed, decode_iff}
use rtn_mq.Auth.Trust.{
  Trust, Snapshot, new_trust, revocation_context, snapshot_bytes, put_ids, read_ids, read_snapshot,
  accept_snapshot, extend, ids_of, apply_revocations, check, verify_certificate, max_revoked,
}
use rtn_mq.Auth.Trust.Acceptance.{IsFor, IsCurrent, verify_certificate_iff}
use rtn_mq.Auth.Trust.Revocation.{Accepted, apply_revocations_sound}
use rtn_mq.Auth.Trust.Updates.{Update, updates, updates-bounded, check-updates}
use rtn_mq.Auth.Authority.{Authority, sort_by_topic, insert_permission, trust, new_claims, issue}
use rtn_mq.Auth.Authority.Issue.{from_bytes-cose, issue_lem, verify_certificate-issue, allows-issue}
use rtn_mq.Message.Topic.{Topic, topic_lt, new_topic}
use rtn_mq.Wire.Hello.{max_cert}
use rtn_mq.Tests.Cbor.{get_head, get_u, get_string, put_head, put_string, minicbor, minicbor_laws}
use rtn_mq.Tests.Crypto.{pad, iroh, iroh_laws}
use rtn_mq.Tests.Fixtures.{certificate_hex}

-- "context"
abbrev context : Bytes
context = 99 ∷ 111 ∷ 110 ∷ 116 ∷ 101 ∷ 120 ∷ 116 ∷ []

abbrev pub root_key : Bytes
root_key = replicate 32 1

signed_fits : length (sign_cose (1 ∷ 2 ∷ []) root_key context) ≤ 100
unfolding sign_cose cose iroh minicbor put_head put_string pad signing_bytes
signed_fits = omega arith

verify_cose_iff_example :
    (verify_cose certificate_hex root_key cert_context max_cert
      ≡ ok (take 121 (drop 8 certificate_hex)))
    ↔ Signed minicbor_laws certificate_hex root_key cert_context max_cert
        (take 121 (drop 8 certificate_hex))
verify_cose_iff_example =
    verify_cose_iff minicbor_laws certificate_hex root_key cert_context max_cert
      (take 121 (drop 8 certificate_hex)) (omega arith)

abbrev jobs : Topic
jobs = record { name = b'j' ∷ b'o' ∷ b'b' ∷ b's' ∷ [] }

abbrev logs : Topic
logs = record { name = b'l' ∷ b'o' ∷ b'g' ∷ b's' ∷ [] }

-- The permissions are given out of order.
abbrev pub permissions : List Permission
permissions =
    record { topic = logs; publish = false; subscribe = true }
    ∷ record { topic = jobs; publish = true; subscribe = true }
    ∷ []

abbrev pub authority : Authority
authority = record { key = root_key; realm = replicate 16 3 }

abbrev pub no_limits : CertificateLimits
no_limits = record { max_payload = 0; max_subscriptions = 0 }

abbrev pub certificate_id : Bytes
certificate_id = replicate 16 4

abbrev pub subject : Bytes
subject = replicate 32 2

abbrev pub issued_claims : Claims
issued_claims = record {
  realm = replicate 16 3;
  issuer = root_key;
  id = certificate_id;
  subject = subject;
  not_before = 100;
  expires = 200;
  permissions =
      record { topic = jobs; publish = true; subscribe = true }
      ∷ record { topic = logs; publish = false; subscribe = true }
      ∷ [];
  limits = no_limits;
}

claims-IsWellFormed :
    IsWellFormed (new_claims authority certificate_id subject permissions 100 200 no_limits)
unfolding iroh pad new_claims sort_by_topic insert_permission topic_lt bytes_lt new_topic validate
    validate_permissions
claims-IsWellFormed = record {
  realm = refl;
  issuer = refl;
  issuer_key = refl;
  id = refl;
  subject = refl;
  subject_key = refl;
  not_before_range = omega arith;
  expires_range = omega arith;
  permissions = ((refl, refl), ((refl, refl), tt));
  max_payload_range = omega arith;
  max_subscriptions_range = omega arith;
  valid = refl;
}

decode_iff_example :
    (decode (encode issued_claims) ≡ ok issued_claims)
    ↔ ((encode issued_claims ≡ encode issued_claims) × IsWellFormed issued_claims)
decode_iff_example = decode_iff minicbor_laws (encode issued_claims) issued_claims

issues_whole : issue authority certificate_id subject permissions 100 200 no_limits ≡ (
    if leb
      (length (
        sign_cose
          (encode (new_claims authority certificate_id subject permissions 100 200 no_limits))
          root_key
          cert_context))
      max_cert
    then ok (record {
      claims = new_claims authority certificate_id subject permissions 100 200 no_limits;
      bytes =
          sign_cose
            (encode (new_claims authority certificate_id subject permissions 100 200 no_limits))
            root_key
            cert_context;
      memory = none;
    })
    else err message_too_large)
issues_whole =
    issue_lem minicbor_laws iroh_laws authority certificate_id subject permissions 100 200 no_limits
      claims-IsWellFormed

abbrev pub issued_bytes : Bytes
issued_bytes =
    sign_cose (encode (new_claims authority certificate_id subject permissions 100 200 no_limits))
      root_key cert_context

abbrev issued : Certificate
issued = record {
  claims = new_claims authority certificate_id subject permissions 100 200 no_limits;
  bytes = issued_bytes;
  memory = none;
}

issued_fits : length issued_bytes ≤ max_cert
unfolding sign_cose cose iroh minicbor put_head put_string pad signing_bytes encode put_permissions
    new_claims sort_by_topic insert_permission topic_lt bytes_lt
issued_fits = omega arith

issues : issue authority certificate_id subject permissions 100 200 no_limits ≡ ok issued
issues = ground (arith, issues_whole, issued_fits)

verify_certificate-issue_example : verify_certificate (trust authority) issued subject 150 ≡ ok tt
verify_certificate-issue_example =
    verify_certificate-issue minicbor_laws iroh_laws authority certificate_id subject permissions
      100 200 no_limits issued 150 claims-IsWellFormed issues (omega arith) (omega arith)

allows-issue_example : allows issued jobs true ≡ any (grants jobs true) permissions
allows-issue_example =
    allows-issue minicbor_laws iroh_laws authority certificate_id subject permissions 100 200
      no_limits issued jobs true claims-IsWellFormed issues

issued_parses : from_bytes issued_bytes ≡ ok issued
unfolding sign_cose
issued_parses =
    from_bytes-cose minicbor_laws issued.claims _ claims-IsWellFormed
      (iroh_laws.sign_size root_key _) issued_fits

verify_certificate_iff_example :
    (verify_certificate (trust authority) issued subject 150 ≡ ok tt) ↔ (
      Signed minicbor_laws issued_bytes
        (trust authority).root
        cert_context
        max_cert
        (encode issued.claims)
      × IsFor (trust authority) issued subject
      × IsCurrent (trust authority) issued 150)
verify_certificate_iff_example =
    verify_certificate_iff minicbor_laws issued_bytes (trust authority) issued subject 150
      issued_parses

-- A snapshot that denies the certificate.
abbrev snapshot : Snapshot
snapshot = record { number = 1; issued = 120; expires = 300; ids = certificate_id ∷ [] }

abbrev before : Trust
before = new_trust (replicate 16 3) root_key

abbrev denying : Trust
denying = record {
  realm = replicate 16 3;
  root = root_key;
  revoked = (certificate_id, tt) ∷ [];
  revocation_version = 1;
  freshness = some 300;
  clock_skew_secs = 0;
}

abbrev revocation : Bytes
revocation = sign_cose (snapshot_bytes (replicate 16 3) snapshot) root_key revocation_context

applies : apply_revocations revocation 150 before ≡ ok denying
unfolding apply_revocations minicbor iroh verify_cose parse_cose sign_cose cose put_head put_string
    snapshot_bytes put_ids pad signing_bytes read_cose array get_head bytes get_string bytes_eq
    empty_map version accept_snapshot extend ids_of read_ids read_snapshot canonical end fixed list
    u get_u bytes_lt insert new_trust
applies = refl

apply_revocations_sound_example :
    (s : Snapshot) × Signed minicbor_laws revocation root_key revocation_context
      (128 * 1024)
      (snapshot_bytes (replicate 16 3) s)
    × Accepted before denying 150 s
unfolding new_trust
apply_revocations_sound_example =
    apply_revocations_sound minicbor_laws revocation 150 before denying applies

updates-bounded_example :
    let t = updates (Update.apply revocation 150 ∷ []) before in
    (length t.revoked ≤ max_revoked)
    × (t.revocation_version ≤ (updates (Update.deny subject ∷ []) t).revocation_version)
    × (t.realm ≡ replicate 16 3)
updates-bounded_example =
    updates-bounded minicbor_laws (replicate 16 3) root_key (Update.apply revocation 150 ∷ [])
      (Update.deny subject ∷ [])

check-updates_example :
    check (updates (Update.deny subject ∷ []) denying) issued subject 150 ≡ err unauthorized
unfolding new_claims get bytes_eq
check-updates_example =
    check-updates minicbor_laws denying (Update.deny subject ∷ []) issued subject 150 refl
