-- ===== src/Tests/Join/Codes.antt =====
-- Codes that are issued and revoked, and their storage.
use rtn_mq.Prelude.{◌≡◌, refl, true, false}
use rtn_mq.Prelude.Bytes.{bytes_key, bytes_eq, bytes_lt}
use rtn_mq.Prelude.Map.{get, insert, remove}
use rtn_mq.Error.{ok, err, io}
use rtn_mq.Buffer.{checked_add, charge_used, raise_peak, reserve, sub_used, drop_permit}
use rtn_mq.Cbor.{array, list, u, bytes, fixed, text, end, canonical, empty_map}
use rtn_mq.Auth.Cose.{version, endpoint, cose, signing_bytes, read_cose, parse_cose, sign_cose}
use rtn_mq.Auth.Claims.{
  validate, validate_permissions, permission_of_mask, encode, put_permissions, read_permission,
  read_permissions, read_claims, decode, from_bytes,
}
use rtn_mq.Auth.Authority.{sort_by_topic, insert_permission, public_key, new_claims, issue}
use rtn_mq.Message.Topic.{topic_lt, new_topic}
use rtn_mq.Join.Options.{duration_lt, validate_options}
use rtn_mq.Join.Code.{
  JoinCode, code_id, compact_address, port_bytes, put_ips, put_relays, encode_code,
}
use rtn_mq.Join.Host.{
  FailedSave, new_host, put_redeemed, put_codes, put_members, encode_host, persist,
  permissions_charge,
}
use rtn_mq.Join.Admission.{State, add_u64}
use rtn_mq.Join.Operations.{admit_code, new_grant, issue_code, revoke_code}
use rtn_mq.Join.Operations.Rollback.{revoke_code-failed}
use rtn_mq.Tests.Cbor.{
  get_head, get_u, get_string, get_text, is_ascii, put_head, put_string, minicbor,
}
use rtn_mq.Tests.Crypto.{pad, iroh}
use rtn_mq.Tests.Auth.{certificate_id}
use rtn_mq.Tests.Join.{Medium, medium, base64, options, address, secret, id, fresh, with_code}

abbrev not_issued : State Medium
not_issued = (issue_code medium base64 options address 100 4 certificate_id secret (fresh true)).1

abbrev code : JoinCode
code = record { address = address; secret = secret }

abbrev was_issued : State Medium
was_issued = (issue_code medium base64 options address 100 4 certificate_id secret (fresh false)).1

issue_works :
    issue_code medium base64 options address 100 4 certificate_id secret (fresh false)
    ≡ (ok code, was_issued)
unfolding issue_code admit_code validate_options duration_lt add_u64 permissions_charge new_grant
    code_id compact_address encode_code port_bytes put_ips put_relays issue new_claims public_key
    sort_by_topic insert_permission topic_lt validate validate_permissions sign_cose cose
    signing_bytes encode put_permissions from_bytes parse_cose read_cose decode read_claims
    read_permissions read_permission permission_of_mask new_topic array bytes fixed list text u end
    empty_map canonical put_head put_string get_head get_string get_u get_text is_ascii minicbor
    iroh pad bytes_eq bytes_lt version endpoint reserve charge_used checked_add raise_peak
    drop_permit sub_used medium persist encode_host put_codes put_redeemed put_members get insert
    remove new_host
issue_works = refl

abbrev not_revoked : State Medium
not_revoked = (revoke_code medium id (with_code true)).1

revoke_fails : revoke_code medium id (with_code true) ≡ (err (io "broken"), not_revoked)
unfolding revoke_code medium persist encode_host put_codes put_redeemed put_members get insert
    remove new_host array bytes fixed list text u end empty_map canonical put_head put_string
    get_head get_string get_u get_text is_ascii minicbor iroh pad bytes_eq bytes_lt version endpoint
    put_permissions
revoke_fails = refl

revoke_code-failed_example :
    (not_revoked.host ≡ (with_code true).host)
    × (not_revoked.budget ≡ (with_code true).budget)
    × FailedSave medium (with_code true).disk (io "broken") not_revoked.disk
revoke_code-failed_example =
    revoke_code-failed medium id (with_code true) not_revoked (io "broken") tt revoke_fails
