-- ===== src/Join/Operations.antt =====
-- join.rs: the operations of a host, `issue`, `revoke_code` and `enroll`. The random bytes that an
-- operation draws are arguments. A permit that an operation drops is given back; the permits of
-- members that have expired and of certificates that another one replaces are not followed here.
pub mod Rollback
pub mod Enrolled
pub mod Limits
pub mod Enrolling
pub mod Sequences
pub mod Stored
use Prim.Native.Nat.{min}
use rtn_mq.Prelude.{
  ℕ, ◌+◌, Bool, true, false, not, ◌&&◌, ◌||◌, Option, none, some, List, [], ◌∷◌, length, ltb, leb,
  if◌then◌else◌,
}
use rtn_mq.Prelude.Bytes.{Bytes, bytes_key, bytes_eq}
use rtn_mq.Prelude.Map.{get, insert, remove, modify}
use rtn_mq.Error.{
  Error, Result, ok, err, unauthorized, queue_full, certificate_expired, fail_if, ok_or, ◌>>=◌,
  ◌>>◌,
}
use rtn_mq.Buffer.{Budget, reserve, drop_permit}
use rtn_mq.Crypto.{Iroh}
use rtn_mq.Cbor.{Minicbor}
use rtn_mq.Auth.Claims.{Certificate, metered}
use rtn_mq.Auth.Trust.{Trust, check}
use rtn_mq.Auth.Authority.{issue, trust}
use rtn_mq.Join.Options.{JoinOptions, validate_options}
use rtn_mq.Join.Code.{Base64, EndpointAddr, JoinCode, code_id, compact_address, encode_code}
use rtn_mq.Join.Host.{Grant, Member, Host, HostStorage, persist, permissions_charge}
use rtn_mq.Join.Admission.{
  State, Enrollment, add_u64, retain_members, insert_redeemed, restore_redeemed, permit_of,
}

module _ ⦃m : Minicbor⦄ ⦃c : Iroh⦄ where
  -- What `issue` checks before it makes a code, and the memory that it reserves.
  unfoldable pub admit_code :
      JoinOptions → EndpointAddr → ℕ → ℕ → Bytes → Host → Budget → Result (Budget × ℕ)
  admit_code options address now max_codes probe_id h budget = do
    validate_options options
    fail_if (leb max_codes (length h.codes)) queue_full
    probe ←
        issue h.authority probe_id address.id options.permissions now
          (add_u64 now options.certificate_lifetime.as_secs) options.limits
    reserve (1024 + permissions_charge options.permissions) budget

  unfoldable pub new_grant : JoinOptions → ℕ → Bytes → ℕ → Grant
  new_grant options now secret memory = record {
    hash = c.sha256 secret;
    expires = add_u64 now options.lifetime.as_secs;
    options = options;
    redeemed = [];
    memory = some memory;
  }

  -- The grant that a code unlocks.
  unfoldable pub find_grant : Bytes → Bytes → ℕ → Host → Result Grant
  find_grant id secret now h = do
    g ← ok_or (get id h.codes) unauthorized
    fail_if (leb g.expires now || not (bytes_eq g.hash (c.sha256 secret))) unauthorized
    ok g

  -- A certificate that was given before and is still good: the reply is cached.
  unfoldable pub cached_certificate : Trust → Bytes → ℕ → Certificate → Result (Option Certificate)
  cached_certificate t peer now cert = elim (check t cert peer now) [
    | ok done ↦ if ltb now cert.expires then ok (some cert) else ok none
    | err certificate_expired ↦ ok none
    | err e ↦ err e
  ]

  unfoldable pub find_redeemed : Trust → Bytes → ℕ → Grant → Result (Option Certificate)
  unfolding cached_certificate
  find_redeemed t peer now g = elim (get peer g.redeemed) [
    | some cert ↦ cached_certificate t peer now cert
    | none ↦ if leb g.options.max_uses (length g.redeemed) then err queue_full else ok none
  ]

  -- A new certificate for the peer, its member's memory, and the budget.
  unfoldable pub admit_member :
      Grant → Bytes → Bytes → ℕ → ℕ → ℕ → Host → Budget → Result (Certificate × ℕ) × Budget
  admit_member g peer cert_id now host_expires max_members h budget =
      if leb max_members (length h.members)
      then (err queue_full, budget)
      else elim (reserve 1024 budget) [
        | err e ↦ (err e, budget)
        | ok (b1, memory) ↦
            elim (issue h.authority cert_id peer g.options.permissions now
              (min (add_u64 now g.options.certificate_lifetime.as_secs) host_expires)
              g.options.limits) [
                | err e ↦ (err e, drop_permit memory b1)
                | ok issued ↦ elim (metered issued b1) [
                  | err e ↦ (err e, drop_permit memory b1)
                  | ok (b2, cert) ↦ (ok (cert, memory), b2)
                ]
              ]
      ]

  unfoldable pub enrollment : Host → Grant → Certificate → Enrollment
  enrollment h g cert = record {
    trust = trust h.authority;
    expires = g.expires;
    certificate = cert;
  }

  module _ {Disk : Type 0} (storage : HostStorage Disk) where
    unfoldable pub issue_code :
        Base64
        → JoinOptions
        → EndpointAddr
        → ℕ
        → ℕ
        → Bytes
        → Bytes
        → State Disk
        → Result JoinCode × State Disk
    unfolding new_grant
    issue_code base64 options address now max_codes probe_id secret s =
        elim (admit_code options address now max_codes probe_id s.host s.budget) [
          | err e ↦ (err e, s)
          | ok (budget, memory) ↦
              let code : JoinCode = record { address = compact_address address; secret = secret } in
              let id = code_id secret in
              let h : Host = record s.host {
                codes = insert id (new_grant options now secret memory) s.host.codes;
              } in
              elim (encode_code base64 code) [
                | err e ↦ (err e, record s { budget = drop_permit memory budget })
                | ok encoded ↦
                    let (saved, disk) = persist storage h s.disk in
                    elim saved [
                      | ok done ↦ (ok code, record { host = h; disk = disk; budget = budget })
                      | err e ↦ (
                        err e,
                        record {
                          host = record h { codes = remove id h.codes };
                          disk = disk;
                          budget = drop_permit memory budget;
                        },
                      )
                    ]
              ]
        ]

    -- The removed grant is put back, or dropped with its memory.
    unfoldable pub revoke_code : Bytes → State Disk → Result (Unit {0}) × State Disk
    revoke_code id s =
        let h : Host = record s.host { codes = remove id s.host.codes } in
        let (saved, disk) = persist storage h s.disk in
        elim saved [
          | ok done ↦ elim (get id s.host.codes) [
            | none ↦ (ok tt, record { host = h; disk = disk; budget = s.budget })
            | some g ↦ (
              ok tt,
              record { host = h; disk = disk; budget = drop_permit (permit_of g.memory) s.budget },
            )
          ]
          | err e ↦ elim (get id s.host.codes) [
            | none ↦ (err e, record { host = h; disk = disk; budget = s.budget })
            | some g ↦ (
              err e,
              record {
                host = record h { codes = insert id g h.codes };
                disk = disk;
                budget = s.budget;
              },
            )
          ]
        ]

    -- The records of an admission, and their rollback where the storage fails.
    unfoldable pub record_admission :
        Bytes → Bytes → Grant → Certificate → ℕ → State Disk → Result Enrollment × State Disk
    unfolding enrollment
    record_admission id peer g cert memory s =
        let h : Host = record s.host {
          members =
              insert cert.id (record { certificate = cert; memory = some memory }) s.host.members;
          codes = modify id (insert_redeemed peer cert) s.host.codes;
        } in
        let (saved, disk) = persist storage h s.disk in
        elim saved [
          | ok done ↦ (ok (enrollment h g cert), record s { host = h; disk = disk })
          | err e ↦ (
            err e,
            record {
              host = record h {
                members = remove cert.id h.members;
                codes = modify id (restore_redeemed peer (get peer g.redeemed)) h.codes;
              };
              disk = disk;
              budget = drop_permit (permit_of cert.memory) (drop_permit memory s.budget);
            },
          )
        ]

    unfoldable pub enroll :
        Bytes
        → Bytes
        → Bytes
        → Bytes
        → ℕ
        → ℕ
        → Trust
        → ℕ
        → State Disk
        → Result Enrollment × State Disk
    unfolding enrollment record_admission
    enroll peer id secret cert_id now host_expires t max_members s0 =
        let h : Host = record s0.host { members = retain_members now s0.host.members } in
        let s : State Disk = record s0 { host = h } in
        elim (find_grant id secret now h) [
          | err e ↦ (err e, s)
          | ok g ↦ elim (find_redeemed t peer now g) [
            | err e ↦ (err e, s)
            | ok (some cert) ↦ (ok (enrollment h g cert), s)
            | ok none ↦
                let (admitted, budget) =
                  admit_member g peer cert_id now host_expires max_members h s.budget in
                elim admitted [
                  | err e ↦ (err e, record s { budget = budget })
                  | ok (cert, memory) ↦
                      record_admission id peer g cert memory (record s { budget = budget })
                ]
          ]
        ]
