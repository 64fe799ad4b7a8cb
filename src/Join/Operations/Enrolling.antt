-- ===== src/Join/Operations/Enrolling.antt =====
-- That `enroll` keeps the limits of a host.
use rtn_mq.Prelude.{ℕ, ◌<◌, ◌≡◌, none, some, length, arith, inl, inr, Option-cases, ltb}
use rtn_mq.Prelude.Bytes.{Bytes, bytes_key}
use rtn_mq.Prelude.Map.{
  get, insert, modify, insert-IsSorted, length-insert-le, length-insert-present, length-remove-le,
  length-retain-le, length-modify,
}
use rtn_mq.Prelude.Map.Undo.{modify-modify}
use rtn_mq.Prelude.Map.Each.{Each-get, Each-modify, modify-IsSorted}
use rtn_mq.Error.{ok, Result-cases}
use rtn_mq.Crypto.{Iroh}
use rtn_mq.Cbor.{Minicbor}
use rtn_mq.Auth.Claims.{Certificate}
use rtn_mq.Auth.Trust.{Trust}
use rtn_mq.Buffer.{Budget}
use rtn_mq.Join.Host.{Grant, Member, Host, HostStorage, persist}
use rtn_mq.Join.Admission.{State, retained, retain_members, insert_redeemed, restore_redeemed}
use rtn_mq.Join.Operations.{find_grant, find_redeemed, admit_member, record_admission, enroll}
use rtn_mq.Join.Operations.Rollback.{find_grant-get, restore-insert_redeemed}
use rtn_mq.Join.Operations.Limits.{IsWithin, Limits}

module _ ⦃m : Minicbor⦄ ⦃c : Iroh⦄ {Disk : Type 0} (storage : HostStorage Disk)
    (max_codes max_members : ℕ) where
  admit_member-length :
      (g : Grant) (peer cert_id : Bytes) (now host_expires : ℕ) (h : Host) (b : Budget)
      (r : Certificate × ℕ)
      → (admit_member g peer cert_id now host_expires max_members h b).0 ≡ ok r
      → length h.members < max_members
  unfolding admit_member
  admit_member-length g peer cert_id now host_expires h b r e = ground arith

  retained-Limits :
      (now : ℕ) (s : State Disk)
      → Limits max_codes max_members s.host
      → Limits max_codes max_members (retained now s).host
  unfolding retain_members
  retained-Limits now s l = record {
    codes_sorted = l.codes_sorted;
    uses = l.uses;
    codes_bound = l.codes_bound;
    members_bound = omega (
      arith,
      length-retain-le (λ id (x : Member). ltb now x.certificate.expires) s.host.members,
      l.members_bound,
    );
  }

  -- A redemption that `enroll` goes on to make leaves the code within its uses.
  insert_redeemed-IsWithin :
      (t : Trust) (peer : Bytes) (now : ℕ) (g : Grant) (cert : Certificate)
      → IsWithin g
      → find_redeemed t peer now g ≡ ok none
      → IsWithin (insert_redeemed peer cert g)
  unfolding insert_redeemed find_redeemed
  insert_redeemed-IsWithin t peer now g cert (bound, sorted) e =
      elim (Option-cases (get peer g.redeemed)) [
        | inl new ↦ (
          ground (arith, length-insert-le peer cert g.redeemed),
          insert-IsSorted peer cert g.redeemed sorted,
        )
        | inr (old, found) ↦ (
          omega (arith, length-insert-present peer cert g.redeemed sorted found),
          insert-IsSorted peer cert g.redeemed sorted,
        )
      ]

  record-Limits :
      (id peer : Bytes) (g : Grant) (cert : Certificate) (n : ℕ) (s : State Disk)
      → Limits max_codes max_members s.host
      → get id s.host.codes ≡ some g
      → IsWithin (insert_redeemed peer cert g)
      → length s.host.members < max_members
      → Limits max_codes max_members (record_admission storage id peer g cert n s).1.host
  unfolding record_admission
  record-Limits id peer g cert n s l found within room =
      let x : Member = record { certificate = cert; memory = some n } in
      let h : Host = record s.host {
        members = insert cert.id x s.host.members;
        codes = modify id (insert_redeemed peer cert) s.host.codes;
      } in
      let size = length-insert-le cert.id x s.host.members in
      let undone =
        modify-modify id (insert_redeemed peer cert) (restore_redeemed peer (get peer g.redeemed))
          s.host.codes g l.codes_sorted found
          (restore-insert_redeemed peer cert g
            (Each-get IsWithin id s.host.codes g l.uses found).1) in
      elim (Result-cases (persist storage h s.disk).0) [
        | inl (done, e) ↦
            rw (record_admission, e)
              (record {
                codes_sorted =
                    modify-IsSorted id (insert_redeemed peer cert) s.host.codes l.codes_sorted;
                uses =
                    Each-modify IsWithin id (insert_redeemed peer cert) s.host.codes g
                      l.codes_sorted found within l.uses;
                codes_bound = omega (
                  arith,
                  length-modify id (insert_redeemed peer cert) s.host.codes,
                  l.codes_bound,
                );
                members_bound = omega (arith, size, room);
              })
        | inr (y, e) ↦
            rw (record_admission, e, undone)
              (record {
                codes_sorted = l.codes_sorted;
                uses = l.uses;
                codes_bound = l.codes_bound;
                members_bound =
                    omega (
                      arith,
                      size,
                      room,
                      length-remove-le cert.id (insert cert.id x s.host.members),
                    );
              })
      ]

  pub enroll-Limits :
      (peer id secret cert_id : Bytes) (now host_expires : ℕ) (t : Trust) (s : State Disk)
      → Limits max_codes max_members s.host
      → Limits max_codes max_members
          (enroll storage peer id secret cert_id now host_expires t max_members s).1.host
  unfolding enroll
  enroll-Limits peer id secret cert_id now host_expires t s l =
      let h = (retained now s).host in
      let kept = retained-Limits now s l in
      elim (Result-cases (find_grant id secret now h)) [
        | inr (x, e) ↦ rw (enroll, e) kept
        | inl (g, e) ↦ elim (Result-cases (find_redeemed t peer now g)) [
          | inr (x, e2) ↦ rw (enroll, e, e2) kept
          | inl (some cert, e2) ↦ rw (enroll, e, e2) kept
          | inl (none, e2) ↦
              elim (Result-cases
                (admit_member g peer cert_id now host_expires max_members h s.budget).0) [
                  | inr (x, e3) ↦ rw (enroll, e, e2, e3) kept
                  | inl ((cert, n), e3) ↦
                      let found = (find_grant-get id secret now h g e).0 in
                      rw (enroll, e, e2, e3)
                        (record-Limits id peer g cert n
                          (record (retained now s) {
                            budget =
                                (admit_member g peer cert_id now host_expires max_members h
                                  s.budget).1;
                          })
                          kept found
                          (insert_redeemed-IsWithin t peer now g cert
                            (Each-get IsWithin id h.codes g kept.uses found) e2)
                          (admit_member-length g peer cert_id now host_expires h s.budget (cert, n)
                            e3))
                ]
        ]
      ]
