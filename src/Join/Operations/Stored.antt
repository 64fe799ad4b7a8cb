-- ===== src/Join/Operations/Stored.antt =====
-- What is stored after an operation that succeeded, and that a revoked code lets nobody in.
use rtn_mq.Prelude.{ℕ, ◌≡◌, refl, true, none, some, arith}
use rtn_mq.Prelude.Bytes.{Bytes, bytes_key}
use rtn_mq.Prelude.Map.{get, get-remove_self}
use rtn_mq.Error.{ok, err, unauthorized}
use rtn_mq.Crypto.{Iroh}
use rtn_mq.Cbor.{Minicbor}
use rtn_mq.Auth.Trust.{Trust}
use rtn_mq.Join.Options.{JoinOptions}
use rtn_mq.Join.Code.{Base64, EndpointAddr, JoinCode}
use rtn_mq.Join.Host.{Host, HostStorage, StorageLaws, encode_host}
use rtn_mq.Join.Admission.{State, retained}
use rtn_mq.Join.Operations.{find_grant, issue_code, revoke_code, enroll}
use rtn_mq.Join.Operations.Rollback.{persist-ok}

module _ ⦃m : Minicbor⦄ ⦃c : Iroh⦄ {Disk : Type 0} (storage : HostStorage Disk) where
  find_grant-absent :
      (id secret : Bytes) (now : ℕ) (h : Host)
      → get id h.codes ≡ none
      → find_grant id secret now h ≡ err unauthorized
  unfolding find_grant
  find_grant-absent id secret now h e = ground arith

  revoke_code-get :
      (id : Bytes) (s s' : State Disk)
      → revoke_code storage id s ≡ (ok tt, s')
      → get id s'.host.codes ≡ none
  unfolding revoke_code
  revoke_code-get id s s' h = let gone = get-remove_self id s.host.codes in ground (arith, gone, h)

  -- After a revocation that succeeded, the code lets nobody in: every enrollment under it, whatever the
  -- secret, is refused as unauthorized, and changes nothing but the members that have expired.
  pub enroll-revoke_code :
      (peer id secret cert_id : Bytes) (now host_expires : ℕ) (t : Trust) (max_members : ℕ)
      (s s' : State Disk)
      → revoke_code storage id s ≡ (ok tt, s')
      → enroll storage peer id secret cert_id now host_expires t max_members s'
        ≡ (err unauthorized, retained now s')
  unfolding enroll
  enroll-revoke_code peer id secret cert_id now host_expires t max_members s s' h =
      rw
        (enroll, find_grant-absent id secret now (retained now s').host (revoke_code-get id s s' h))
        refl

  -- A host that is persistent is stored as it is, once a code was issued.
  issue_code-stored :
      (laws : StorageLaws storage) (base64 : Base64) (options : JoinOptions)
      (address : EndpointAddr) (now max_codes : ℕ) (probe_id secret : Bytes) (s s' : State Disk)
      (code : JoinCode)
      → s.host.is_persistent ≡ true
      → issue_code storage base64 options address now max_codes probe_id secret s ≡ (ok code, s')
      → storage.load s'.disk ≡ ok (some (encode_host s'.host))
  unfolding issue_code
  issue_code-stored laws base64 options address now max_codes probe_id secret s s' code on h =
      grind (arith, persist-ok storage laws)

  -- A host that is persistent is stored as it is, once a code was revoked.
  revoke_code-stored :
      (laws : StorageLaws storage) (id : Bytes) (s s' : State Disk)
      → s.host.is_persistent ≡ true
      → revoke_code storage id s ≡ (ok tt, s')
      → storage.load s'.disk ≡ ok (some (encode_host s'.host))
  unfolding revoke_code
  revoke_code-stored laws id s s' on h = grind (arith, persist-ok storage laws)
