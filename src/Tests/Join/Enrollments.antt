-- ===== src/Tests/Join/Enrollments.antt =====
-- Enrollments, and the reply as the peer accepts it.
use rtn_mq.Prelude.{◌+◌, ◌*◌, ◌≡◌, refl, [], ◌∷◌, length, subst, arith, true, false, none, some}
use rtn_mq.Prelude.Bytes.{bytes_key, bytes_eq, bytes_lt}
use rtn_mq.Prelude.Map.{get, insert, remove, modify, retain, IsSorted}
use rtn_mq.Error.{ok, err, io, unauthorized}
use rtn_mq.Buffer.{checked_add, charge_used, raise_peak, reserve, sub_used, drop_permit}
use rtn_mq.Cbor.{array, list, u, bytes, fixed, text, end, canonical, empty_map}
use rtn_mq.Auth.Cose.{
  version, endpoint, cose, signing_bytes, read_cose, parse_cose, sign_cose, verify_cose,
}
use rtn_mq.Auth.Claims.{
  validate, validate_permissions, permission_of_mask, encode, put_permissions, read_permission,
  read_permissions, read_claims, decode, from_bytes, metered,
}
use rtn_mq.Auth.Trust.{new_trust, saturating_add, is_stale, check, verify_certificate}
use rtn_mq.Auth.Authority.{sort_by_topic, insert_permission, public_key, trust, new_claims, issue}
use rtn_mq.Message.Topic.{topic_lt, new_topic}
use rtn_mq.Join.Host.{Grant, new_host, put_redeemed, put_codes, put_members, encode_host, persist}
use rtn_mq.Join.Admission.{
  State, Enrollment, retained, retain_members, add_u64, insert_redeemed, restore_redeemed,
  permit_of,
}
use rtn_mq.Join.Operations.{
  find_grant, cached_certificate, find_redeemed, admit_member, enrollment, record_admission, enroll,
}
use rtn_mq.Join.Operations.Rollback.{Unchanged, enroll-failed}
use rtn_mq.Join.Operations.Enrolled.{Granted, enroll-Granted, enroll-again}
use rtn_mq.Join.Operations.Limits.{Limits}
use rtn_mq.Join.Operations.Sequences.{Op, apply_all, apply_all-Limits}
use rtn_mq.Join.Operations.Stored.{enroll-revoke_code}
use rtn_mq.Join.Reply.{
  join_version, is_other, encode_enrollment, read_enrollment, decode_enrollment,
}
use rtn_mq.Join.Reply.Acceptance.{Joined, decode_enrollment_sound}
use rtn_mq.Tests.Cbor.{
  get_head, get_u, get_string, get_text, is_ascii, put_head, put_string, minicbor, minicbor_laws,
}
use rtn_mq.Tests.Crypto.{pad, iroh}
use rtn_mq.Tests.Auth.{authority, certificate_id, subject, issued_claims, issued_bytes}
use rtn_mq.Tests.Join.{
  Medium, medium, base64, options, address, secret, id, grant, with_code, root_trust, was_revoked,
  revoke_works,
}

enroll-revoke_code_example :
    enroll medium subject id secret certificate_id 100 5000 root_trust 8 was_revoked
    ≡ (err unauthorized, retained 100 was_revoked)
enroll-revoke_code_example =
    enroll-revoke_code medium subject id secret certificate_id 100 5000 root_trust 8
      (with_code false) was_revoked revoke_works

abbrev reply : Enrollment
reply = record {
  trust = root_trust;
  expires = 1100;
  certificate = record {
    claims = issued_claims;
    bytes = issued_bytes;
    memory = some (length issued_bytes * 4 + 16 * 1024);
  };
}

abbrev enrolled : State Medium
enrolled =
    (enroll medium subject id secret certificate_id 100 5000 root_trust 8 (with_code false)).1

enroll_works :
    enroll medium subject id secret certificate_id 100 5000 root_trust 8 (with_code false)
    ≡ (ok reply, enrolled)
unfolding enroll find_grant find_redeemed cached_certificate admit_member record_admission
    enrollment metered modify insert_redeemed restore_redeemed permit_of retain_members retain trust
    new_trust check saturating_add is_stale issue new_claims public_key sort_by_topic
    insert_permission topic_lt validate validate_permissions sign_cose cose signing_bytes encode
    put_permissions from_bytes parse_cose read_cose decode read_claims read_permissions
    read_permission permission_of_mask new_topic array bytes fixed list text u end empty_map
    canonical put_head put_string get_head get_string get_u get_text is_ascii minicbor iroh pad
    bytes_eq bytes_lt version endpoint reserve charge_used checked_add raise_peak drop_permit
    sub_used medium persist encode_host put_codes put_redeemed put_members get insert remove
    new_host add_u64
enroll_works = refl

enroll-Granted_example : Granted subject id secret 100 (with_code false) enrolled reply
enroll-Granted_example =
    enroll-Granted medium subject id secret certificate_id 100 5000 root_trust 8 (with_code false)
      enrolled reply enroll_works

still_good : check root_trust reply.certificate subject 150 ≡ ok tt
unfolding check new_trust saturating_add is_stale bytes_eq get
still_good = refl

enroll-again_example :
    enroll medium subject id secret id 150 5000 root_trust 8 enrolled
    ≡ (ok reply, retained 150 enrolled)
enroll-again_example =
    enroll-again medium subject id secret certificate_id id 100 150 5000 5000 root_trust 8
      (with_code false) enrolled reply enroll_works (omega arith) still_good (omega arith)

abbrev not_enrolled : State Medium
not_enrolled =
    (enroll medium subject id secret certificate_id 100 5000 root_trust 8 (with_code true)).1

enroll_fails :
    enroll medium subject id secret certificate_id 100 5000 root_trust 8 (with_code true)
    ≡ (err (io "broken"), not_enrolled)
unfolding enroll find_grant find_redeemed cached_certificate admit_member record_admission
    enrollment metered modify insert_redeemed restore_redeemed permit_of retain_members retain trust
    new_trust check saturating_add is_stale issue new_claims public_key sort_by_topic
    insert_permission topic_lt validate validate_permissions sign_cose cose signing_bytes encode
    put_permissions from_bytes parse_cose read_cose decode read_claims read_permissions
    read_permission permission_of_mask new_topic array bytes fixed list text u end empty_map
    canonical put_head put_string get_head get_string get_u get_text is_ascii minicbor iroh pad
    bytes_eq bytes_lt version endpoint reserve charge_used checked_add raise_peak drop_permit
    sub_used medium persist encode_host put_codes put_redeemed put_members get insert remove
    new_host add_u64
enroll_fails = refl

redeemed-IsSorted : (g : Grant) → get id (with_code true).host.codes ≡ some g → IsSorted g.redeemed
unfolding get
redeemed-IsSorted g h =
    let only : grant ≡ g = ground (arith, h) in subst (λ (g : Grant). IsSorted g.redeemed) only tt

enroll-failed_example : Unchanged medium 100 (with_code true) not_enrolled (io "broken")
unfolding get retain_members retain
enroll-failed_example =
    enroll-failed medium subject id secret certificate_id 100 5000 root_trust 8 (with_code true)
      not_enrolled (io "broken") tt redeemed-IsSorted (λ g cert memory h. refl) enroll_fails

apply_all-Limits_example :
    Limits 4 8
      (apply_all medium base64 4 8
        (Op.issues options address 100 certificate_id secret
          ∷ Op.enrolls subject id secret certificate_id 100 5000 root_trust
          ∷ Op.prunes 300
          ∷ Op.revokes id
          ∷ [])
        (record {
          host = new_host authority true;
          disk = record { content = none; is_broken = false };
          budget = record { limit = 1000000; used = 0; peak = 0 };
        })).host
apply_all-Limits_example =
    apply_all-Limits medium base64 4 8 authority true (record { content = none; is_broken = false })
      (record { limit = 1000000; used = 0; peak = 0 })
      (Op.issues options address 100 certificate_id secret
        ∷ Op.enrolls subject id secret certificate_id 100 5000 root_trust
        ∷ Op.prunes 300
        ∷ Op.revokes id
        ∷ [])

-- The reply as the peer receives it: the memory is the host's.
abbrev received : Enrollment
received = record {
  trust = root_trust;
  expires = 1100;
  certificate = record { claims = issued_claims; bytes = issued_bytes; memory = none };
}

reply_decodes : decode_enrollment (encode_enrollment reply) subject none 150 ≡ ok received
unfolding decode_enrollment read_enrollment encode_enrollment join_version is_other
    verify_certificate verify_cose issue new_claims public_key sort_by_topic insert_permission
    topic_lt validate validate_permissions sign_cose cose signing_bytes encode put_permissions
    from_bytes parse_cose read_cose decode read_claims read_permissions read_permission
    permission_of_mask new_topic array bytes fixed list text u end empty_map canonical put_head
    put_string get_head get_string get_u get_text is_ascii minicbor iroh pad bytes_eq bytes_lt
    version endpoint check new_trust saturating_add is_stale get
reply_decodes = refl

decode_enrollment_sound_example :
    Joined minicbor_laws (encode_enrollment reply) subject root_trust 150 received
decode_enrollment_sound_example =
    decode_enrollment_sound minicbor_laws (encode_enrollment reply) subject none 150 received
      reply_decodes
