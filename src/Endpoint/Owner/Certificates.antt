-- ===== src/Endpoint/Owner/Certificates.antt =====
-- endpoint/owner.rs: the commands that change what the owner trusts, and its own certificate.
use rtn_mq.Prelude.{ℕ, ◌-◌, ◌*◌, false, Option, none, some, ◌∷◌, length, ltb, if◌then◌else◌}
use rtn_mq.Prelude.Bytes.{Bytes, bytes_key}
use rtn_mq.Prelude.Map.{retain, keys}
use rtn_mq.Error.{Result, ok, err, shutting_down, ◌>>=◌, ◌>>◌, fail_if}
use rtn_mq.Buffer.{Budget, reserve, shrink_to, drop_permit}
use rtn_mq.Cbor.{Minicbor}
use rtn_mq.Crypto.{Iroh}
use rtn_mq.Auth.Claims.{Certificate, allows, metered}
use rtn_mq.Auth.Trust.{Trust, verify_certificate, deny_certificate, apply_revocations}
use rtn_mq.Message.Topic.Ordering.{topic_key}
use rtn_mq.Endpoint.Owner.{Owner, Settings, Outside, id_key, delivery_key, dedup_key}
use rtn_mq.Endpoint.Owner.Maintenance.{remove_peers, maintenance}

module _ ⦃m : Minicbor⦄ ⦃c : Iroh⦄ (settings : Settings) (out : Outside) where
  -- `Deny` before its maintenance.
  unfoldable pub deny_now : Bytes → Owner → Owner
  unfolding reserve drop_permit
  deny_now id o = elim (reserve 96 o.metadata) [
    | err e ↦ o
    | ok (budget, permit) ↦ elim (deny_certificate id o.trust) [
      | err e ↦ record o { metadata = drop_permit permit budget }
      | ok trust ↦
          if ltb (length o.trust.revoked) (length trust.revoked)
          then record o {
            metadata = budget;
            trust = trust;
            revocation_memory = permit ∷ o.revocation_memory;
          }
          else record o { metadata = drop_permit permit budget; trust = trust }
    ]
  ]

  unfoldable pub read_revocations : Bytes → Owner → Result Trust
  read_revocations snapshot o = do now ← out.wall 4; apply_revocations snapshot now o.trust

  -- The memory is cut to what the trust has grown by. `none` would be the panic of `shrink_to`.
  unfoldable pub merge_revocations : ℕ → Budget → Trust → Owner → Option Owner
  unfolding shrink_to
  merge_revocations permit budget trust o =
      let added = length trust.revoked - length o.trust.revoked in
      elim (shrink_to (added * 96) permit budget) [
        | none ↦ none
        | some (budget', permit') ↦ some (record o {
          metadata = budget';
          trust = trust;
          revocation_memory =
              if ltb 0 added then permit' ∷ o.revocation_memory else o.revocation_memory;
        })
      ]

  -- `Revoke` before its maintenance.
  unfoldable pub revoke_now : Bytes → Owner → Option Owner
  unfolding reserve drop_permit read_revocations merge_revocations
  revoke_now snapshot o = elim (reserve (4096 * 96) o.metadata) [
    | err e ↦ some o
    | ok (budget, permit) ↦ elim (read_revocations snapshot o) [
      | err e ↦ some (record o { metadata = drop_permit permit budget })
      | ok trust ↦ merge_revocations permit budget trust o
    ]
  ]

  unfoldable pub check_renewal : Certificate → Owner → Result (Budget × Certificate)
  check_renewal cert o = do
    fail_if o.draining shutting_down
    now ← out.wall 4
    verify_certificate o.trust cert o.endpoint_id now
    metered cert o.metadata

  unfoldable pub renew_now : Certificate → Owner → Owner
  unfolding check_renewal remove_peers maintenance
  renew_now cert o = elim (check_renewal cert o) [
    | err e ↦ o
    | ok (budget, cert') ↦
        let o1 = record o { metadata = budget; cert = cert' } in
        let o2 = remove_peers settings out (keys o1.peers) o1 in
        maintenance settings out (record o2 {
          subscriptions = retain (λ topic s. allows cert' topic false) o2.subscriptions;
        })
  ]
