-- ===== src/Join/Operations/Enrolled.antt =====
-- What an enrollment that succeeds has checked, what it records, and that it can be repeated.
use rtn_mq.Prelude.{ℕ, ◌<◌, ◌≡◌, refl, sym, ap, ◌∙◌, subst, none, some, arith, inl, inr}
use rtn_mq.Prelude.Order.{same_refl}
use rtn_mq.Prelude.Bytes.{Bytes, bytes_key, bytes_eq_iff}
use rtn_mq.Prelude.Map.{get, get-modify, get-insert_self}
use rtn_mq.Error.{ok, Result-cases}
use rtn_mq.Crypto.{Iroh}
use rtn_mq.Cbor.{Minicbor}
use rtn_mq.Auth.Claims.{Certificate}
use rtn_mq.Auth.Trust.{Trust, check}
use rtn_mq.Auth.Authority.{trust}
use rtn_mq.Join.Host.{Grant, Host, HostStorage}
use rtn_mq.Join.Admission.{State, retained, Enrollment, insert_redeemed}
use rtn_mq.Join.Operations.{
  find_grant, cached_certificate, find_redeemed, admit_member, enrollment, record_admission, enroll,
}
use rtn_mq.Join.Operations.Rollback.{find_grant-get}

-- The grant `g` of the code that let the enrollment in, and what stands there afterwards.
pub record Granted ⦃c : Iroh⦄ {Disk : Type 0} (peer id secret : Bytes) (now : ℕ) (s s' : State Disk)
    (r : Enrollment) : Type 0 where
  pub grant : Grant
  pub found : get id s.host.codes ≡ some grant
  pub current : now < grant.expires
  pub unlocked : grant.hash ≡ c.sha256 secret
  pub same_trust : r.trust ≡ trust s.host.authority
  pub same_expiry : r.expires ≡ grant.expires
  pub after : Grant
  pub found_after : get id s'.host.codes ≡ some after
  pub redeemed : get peer after.redeemed ≡ some r.certificate
  pub same_hash : after.hash ≡ grant.hash
  pub same_end : after.expires ≡ grant.expires
  pub same_authority : s'.host.authority ≡ s.host.authority

-- Neither the codes nor the authority depend on the members and the budget of the state before.
from-codes :
    ⦃c : Iroh⦄ {Disk : Type 0} (peer id secret : Bytes) (now : ℕ) (s1 s s' : State Disk)
    (r : Enrollment)
    → s1.host.codes ≡ s.host.codes
    → s1.host.authority ≡ s.host.authority
    → Granted peer id secret now s1 s' r
    → Granted peer id secret now s s' r
from-codes peer id secret now s1 s s' r codes authority x = record {
  grant = x.grant;
  found = subst (λ m. get id m ≡ some x.grant) codes x.found;
  current = x.current;
  unlocked = x.unlocked;
  same_trust = x.same_trust ∙ ap trust authority;
  same_expiry = x.same_expiry;
  after = x.after;
  found_after = x.found_after;
  redeemed = x.redeemed;
  same_hash = x.same_hash;
  same_end = x.same_end;
  same_authority = x.same_authority ∙ authority;
}

module _ ⦃m : Minicbor⦄ ⦃c : Iroh⦄ {Disk : Type 0} (storage : HostStorage Disk) where
  record_admission-Granted :
      (peer id secret : Bytes) (now : ℕ) (g : Grant) (cert : Certificate) (memory : ℕ)
      (s s' : State Disk) (r : Enrollment)
      → find_grant id secret now s.host ≡ ok g
      → record_admission storage id peer g cert memory s ≡ (ok r, s')
      → Granted peer id secret now s s' r
  unfolding record_admission insert_redeemed
  record_admission-Granted peer id secret now g cert memory s s' r granted h =
      let (found, current, unlocked) = find_grant-get id secret now s.host g granted in
      let modified = get-modify id id (insert_redeemed peer cert) s.host.codes g found in
      let self = same_refl id in
      let put = get-insert_self peer cert g.redeemed in
      record {
        grant = g;
        found = found;
        current = current;
        unlocked = unlocked;
        same_trust = ground (arith, h);
        same_expiry = ground (arith, h);
        after = insert_redeemed peer cert g;
        found_after = ground (arith, h, modified, self);
        redeemed = ground (arith, h, put);
        same_hash = refl;
        same_end = refl;
        same_authority = ground (arith, h);
      }

  cached_certificate-eq-some :
      (t : Trust) (peer : Bytes) (now : ℕ) (g : Grant) (cert : Certificate)
      → find_redeemed t peer now g ≡ ok (some cert)
      → get peer g.redeemed ≡ some cert
  unfolding find_redeemed cached_certificate
  cached_certificate-eq-some t peer now g cert h = ground arith

  cached-Granted :
      (peer id secret : Bytes) (now : ℕ) (g : Grant) (cert : Certificate) (s : State Disk)
      → find_grant id secret now (retained now s).host ≡ ok g
      → get peer g.redeemed ≡ some cert
      → Granted peer id secret now s (retained now s) (enrollment (retained now s).host g cert)
  unfolding enrollment
  cached-Granted peer id secret now g cert s granted e =
      let (found, current, unlocked) =
        find_grant-get id secret now (retained now s).host g granted in
      record {
        grant = g;
        found = found;
        current = current;
        unlocked = unlocked;
        same_trust = refl;
        same_expiry = refl;
        after = g;
        found_after = found;
        redeemed = e;
        same_hash = refl;
        same_end = refl;
        same_authority = refl;
      }

  -- An enrollment that succeeded was let in by a code of the host that had not expired, under the secret of
  -- that code. It answers with the trust of the host, the end of the code and a certificate, which stands
  -- with the code as the one of this peer.
  pub enroll-Granted :
      (peer id secret cert_id : Bytes) (now host_expires : ℕ) (t : Trust) (max_members : ℕ)
      (s s' : State Disk) (r : Enrollment)
      → enroll storage peer id secret cert_id now host_expires t max_members s ≡ (ok r, s')
      → Granted peer id secret now s s' r
  unfolding enroll
  enroll-Granted peer id secret cert_id now host_expires t max_members s s' r h =
      let h1 = (retained now s).host in
      elim (Result-cases (find_grant id secret now h1)) [
        | inr (x, no_grant) ↦ absurd (ground (arith, no_grant))
        | inl (g, granted) ↦ elim (Result-cases (find_redeemed t peer now g)) [
          | inr (x, refused) ↦ absurd (ground (arith, granted, refused))
          | inl (some cert, cached) ↦
              let same_reply : enrollment h1 g cert ≡ r = ground (arith, granted, cached, h) in
              let same_state : retained now s ≡ s' = ground (arith, granted, cached, h) in
              subst (λ s'. Granted peer id secret now s s' r) same_state
                (subst (Granted peer id secret now s (retained now s)) same_reply (
                  cached-Granted peer id secret now g cert s granted
                    (cached_certificate-eq-some t peer now g cert cached)))
          | inl (none, new) ↦
              elim (Result-cases
                (admit_member g peer cert_id now host_expires max_members h1 s.budget).0) [
                  | inr (x, full) ↦ absurd (ground (arith, granted, new, full))
                  | inl ((cert, memory), admitted) ↦
                      let s1 : State Disk = record (retained now s) {
                        budget =
                            (admit_member g peer cert_id now host_expires max_members h1
                              s.budget).1;
                      } in
                      from-codes peer id secret now s1 s s' r refl refl (
                        record_admission-Granted peer id secret now g cert memory s1 s' r granted
                          (ground (arith, granted, new, admitted, h)))
                ]
        ]
      ]

  find_grant-ok :
      (id secret : Bytes) (now : ℕ) (h : Host) (g : Grant)
      → get id h.codes ≡ some g
      → now < g.expires
      → g.hash ≡ c.sha256 secret
      → find_grant id secret now h ≡ ok g
  unfolding find_grant
  find_grant-ok id secret now h g found current unlocked =
      let same = (bytes_eq_iff g.hash (c.sha256 secret)).1 unlocked in ground (arith, same)

  find_redeemed-cached :
      (t : Trust) (peer : Bytes) (now : ℕ) (g : Grant) (cert : Certificate)
      → get peer g.redeemed ≡ some cert
      → check t cert peer now ≡ ok tt
      → now < cert.expires
      → find_redeemed t peer now g ≡ ok (some cert)
  unfolding find_redeemed cached_certificate
  find_redeemed-cached t peer now g cert found good unexpired = ground arith

  -- An enrollment can be repeated while its certificate is good: under the same code and secret, the peer
  -- gets the same answer again, and only members that have expired leave the host.
  pub enroll-again :
      (peer id secret cert_id cert_id' : Bytes) (now now' host_expires host_expires' : ℕ)
      (t : Trust) (max_members : ℕ) (s s' : State Disk) (r : Enrollment)
      → enroll storage peer id secret cert_id now host_expires t max_members s ≡ (ok r, s')
      → now' < r.expires
      → check t r.certificate peer now' ≡ ok tt
      → now' < r.certificate.expires
      → enroll storage peer id secret cert_id' now' host_expires' t max_members s'
        ≡ (ok r, retained now' s')
  unfolding enroll enrollment
  enroll-again peer id secret cert_id cert_id' now now' host_expires host_expires' t max_members s
        s' r first current good unexpired =
      let x = enroll-Granted peer id secret cert_id now host_expires t max_members s s' r first in
      let granted =
        find_grant-ok id secret now' (retained now' s').host x.after x.found_after
          (omega (arith, x.same_expiry, x.same_end)) (x.same_hash ∙ x.unlocked) in
      let cached =
        find_redeemed-cached t peer now' x.after r.certificate x.redeemed good unexpired in
      let same_trust : trust s'.host.authority ≡ r.trust =
        ap trust x.same_authority ∙ sym x.same_trust in
      let same_end : x.after.expires ≡ r.expires = x.same_end ∙ sym x.same_expiry in
      ground (arith, granted, cached, same_trust, same_end)
