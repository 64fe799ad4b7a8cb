-- ===== src/Join/Operations/Rollback.antt =====
-- An operation that fails changes neither the codes of the host nor its members, also where the storage has
-- failed, and one that succeeds has stored the host.
use rtn_mq.Prelude.{
  ℕ, ◌<◌, ◌≡◌, ap, subst, sym, length, ltb, Bool-cases, true, none, some, arith, inl, inr,
  Option-cases,
}
use rtn_mq.Prelude.Bytes.{Bytes, bytes_key, bytes_eq_iff}
use rtn_mq.Prelude.Map.{get, insert, modify, remove, IsSorted}
use rtn_mq.Prelude.Map.Undo.{
  remove_absent, remove-insert, insert-remove, modify-modify, insert-insert,
}
use rtn_mq.Error.{Error, ok, err, Result-cases}
use rtn_mq.Crypto.{Iroh}
use rtn_mq.Cbor.{Minicbor}
use rtn_mq.Auth.Claims.{Certificate}
use rtn_mq.Auth.Trust.{Trust}
use rtn_mq.Join.Host.{
  Grant, Host, HostStorage, StorageLaws, FailedSave, untouched, attempted, max_bytes, encode_host,
  persist,
}
use rtn_mq.Join.Admission.{State, retained, retain_members, insert_redeemed, restore_redeemed}
use rtn_mq.Join.Operations.{
  find_grant, find_redeemed, admit_member, revoke_code, record_admission, enroll,
}

module _ ⦃m : Minicbor⦄ ⦃c : Iroh⦄ where
  pub find_grant-get :
      (id secret : Bytes) (now : ℕ) (h : Host) (g : Grant)
      → find_grant id secret now h ≡ ok g
      → (get id h.codes ≡ some g) × (now < g.expires) × (g.hash ≡ c.sha256 secret)
  unfolding find_grant
  find_grant-get id secret now h g e = ground (arith, bytes_eq_iff g.hash (c.sha256 secret))

pub restore-insert_redeemed :
    (peer : Bytes) (cert : Certificate) (g : Grant)
    → IsSorted g.redeemed
    → restore_redeemed peer (get peer g.redeemed) (insert_redeemed peer cert g) ≡ g
unfolding restore_redeemed insert_redeemed
restore-insert_redeemed peer cert g sorted = elim (Option-cases (get peer g.redeemed)) [
  | inl e ↦
      rw (restore_redeemed, e)
        (ap (λ r. record g { redeemed = r }) (remove-insert peer cert g.redeemed e))
  | inr (old, e) ↦
      rw (restore_redeemed, e)
        (ap (λ r. record g { redeemed = r }) (insert-insert peer old cert g.redeemed sorted e))
]

pub persist-ok :
    ⦃m : Minicbor⦄
    → {Disk : Type 0} (storage : HostStorage Disk) (laws : StorageLaws storage) (h : Host)
      (d : Disk)
    → h.is_persistent ≡ true
    → (persist storage h d).0 ≡ ok tt
    → storage.load (persist storage h d).1 ≡ ok (some (encode_host h))
unfolding persist
persist-ok storage laws h d on p = ground (arith, laws.saved (encode_host h) d)

module _ ⦃m : Minicbor⦄ ⦃c : Iroh⦄ {Disk : Type 0} (storage : HostStorage Disk) where
  persist-err :
      (h : Host) (d : Disk) (e : Error)
      → (persist storage h d).0 ≡ err e
      → FailedSave storage d e (persist storage h d).1
  unfolding persist
  persist-err h d e p = elim (Bool-cases h.is_persistent) [
    | inr off ↦ absurd (ground (arith, off, p))
    | inl on ↦ elim (Bool-cases (ltb max_bytes (length (encode_host h)))) [
      | inl large ↦ untouched (ground (arith, on, large))
      | inr fits ↦ attempted (encode_host h) (ground (arith, on, fits, p))
    ]
  ]

  -- The disk that a failed persist leaves is the one of the state.
  persist-FailedSave :
      (h : Host) (d d' : Disk) (e : Error)
      → (persist storage h d).0 ≡ err e
      → d' ≡ (persist storage h d).1
      → FailedSave storage d e d'
  persist-FailedSave h d d' e p same =
      subst (FailedSave storage d e) (sym same) (persist-err h d e p)

  -- A revocation that failed, where the codes are in order: the host is as it was, the grant with its memory
  -- included, and the storage was either left alone or has failed one save with the error that is returned.
  pub revoke_code-failed :
      (id : Bytes) (s s' : State Disk) (e : Error)
      → IsSorted s.host.codes
      → revoke_code storage id s ≡ (err e, s')
      → (s'.host ≡ s.host) × (s'.budget ≡ s.budget) × FailedSave storage s.disk e s'.disk
  unfolding revoke_code
  revoke_code-failed id s s' e sorted h =
      let without : Host = record s.host { codes = remove id s.host.codes } in
      elim (Result-cases (persist storage without s.disk).0) [
        | inl (done, saved) ↦ absurd (ground (arith, saved, h))
        | inr (x, failed) ↦ elim (Option-cases (get id s.host.codes)) [
          | inl none_there ↦
              let same = remove_absent id s.host.codes none_there in
              revoked without x failed (ground (arith, failed, none_there, same, h))
          | inr (g, found) ↦
              let same = insert-remove id g s.host.codes sorted found in
              revoked without x failed (ground (arith, failed, found, same, h))
        ]
      ]
    where
      revoked :
          (without : Host) (x : Error)
          → (persist storage without s.disk).0 ≡ err x
          → (s'.host ≡ s.host)
            × (s'.budget ≡ s.budget)
            × (x ≡ e)
            × (s'.disk ≡ (persist storage without s.disk).1)
          → (s'.host ≡ s.host) × (s'.budget ≡ s.budget) × FailedSave storage s.disk e s'.disk
      revoked without x failed (host, budget, is_e, disk) =
          (host, budget, persist-FailedSave without s.disk s'.disk e (rw (sym is_e) failed) disk)

  -- What `enroll` keeps when it fails: the codes and the members that have not expired; and what it did to
  -- the storage.
  pub record Unchanged (now : ℕ) (s s' : State Disk) (e : Error) : Type 0 where
    pub same_codes : s'.host.codes ≡ s.host.codes
    pub same_members : s'.host.members ≡ retain_members now s.host.members
    pub save : FailedSave storage s.disk e s'.disk

  record_admission-failed :
      (id peer : Bytes) (g : Grant) (cert : Certificate) (memory : ℕ) (s s' : State Disk)
      (e : Error)
      → IsSorted s.host.codes
      → IsSorted g.redeemed
      → get id s.host.codes ≡ some g
      → get cert.id s.host.members ≡ none
      → record_admission storage id peer g cert memory s ≡ (err e, s')
      → (s'.host ≡ s.host) × FailedSave storage s.disk e s'.disk
  unfolding record_admission
  record_admission-failed id peer g cert memory s s' e codes_sorted redeemed-IsSorted found fresh
        h =
      let undone : restore_redeemed peer (get peer g.redeemed) (insert_redeemed peer cert g) ≡ g =
        restore-insert_redeemed peer cert g redeemed-IsSorted in
      let codes =
        modify-modify id (insert_redeemed peer cert) (restore_redeemed peer (get peer g.redeemed))
          s.host.codes g codes_sorted found undone in
      let members =
        remove-insert cert.id (record { certificate = cert; memory = some memory }) s.host.members
          fresh in
      let h1 : Host = record s.host {
        members =
            insert cert.id (record { certificate = cert; memory = some memory }) s.host.members;
        codes = modify id (insert_redeemed peer cert) s.host.codes;
      } in
      elim (Result-cases (persist storage h1 s.disk).0) [
        | inl (done, saved) ↦ absurd (ground (arith, saved, h))
        | inr (x, failed) ↦
            let is_e : x ≡ e = ground (arith, failed, h) in
            (
              ground (arith, failed, codes, members, h),
              persist-FailedSave h1 s.disk s'.disk e (rw (sym is_e) failed)
                  (ground (arith, failed, h)),
            )
      ]

  -- An enrollment that failed, where the codes are in order, each grant lists its peers in order and the id
  -- of the certificate that is issued is new among the members: no code, no redemption and no member that
  -- has not expired was touched, and the storage was either left alone or has failed one save with the error
  -- that is returned.
  pub enroll-failed :
      (peer id secret cert_id : Bytes) (now host_expires : ℕ) (t : Trust) (max_members : ℕ)
      (s s' : State Disk) (e : Error)
      → IsSorted s.host.codes
      → ((g : Grant) → get id s.host.codes ≡ some g → IsSorted g.redeemed)
      → ((g : Grant) (cert : Certificate) (memory : ℕ)
          → (admit_member g peer cert_id now host_expires max_members
              (retained now s).host
              s.budget).0
            ≡ ok (cert, memory)
          → get cert.id (retained now s).host.members ≡ none)
      → enroll storage peer id secret cert_id now host_expires t max_members s ≡ (err e, s')
      → Unchanged now s s' e
  unfolding enroll
  enroll-failed peer id secret cert_id now host_expires t max_members s s' e codes_sorted sorted
        fresh h =
      let h1 = (retained now s).host in
      elim (Result-cases (find_grant id secret now h1)) [
        | inr (x, no_grant) ↦ kept (ground (arith, no_grant, h))
        | inl (g, granted) ↦
            let found = (find_grant-get id secret now h1 g granted).0 in
            elim (Result-cases (find_redeemed t peer now g)) [
              | inr (x, refused) ↦ kept (ground (arith, granted, refused, h))
              | inl (some cert, cached) ↦ absurd (ground (arith, granted, cached))
              | inl (none, new) ↦
                  elim (Result-cases
                    (admit_member g peer cert_id now host_expires max_members h1 s.budget).0) [
                      | inr (x, full) ↦ kept (ground (arith, granted, new, full, h))
                      | inl ((cert, memory), admitted) ↦
                          let s1 : State Disk = record (retained now s) {
                            budget =
                                (admit_member g peer cert_id now host_expires max_members h1
                                  s.budget).1;
                          } in
                          let rolled =
                            record_admission-failed id peer g cert memory s1 s' e codes_sorted
                              (sorted g found) found (fresh g cert memory admitted) in
                          let (host, save) = rolled (ground (arith, granted, new, admitted, h)) in
                          record {
                            same_codes = ap (λ (x : Host). x.codes) host;
                            same_members = ap (λ (x : Host). x.members) host;
                            save = save;
                          }
                    ]
            ]
      ]
    where
      kept :
          (s'.host.codes ≡ s.host.codes)
            × (s'.host.members ≡ retain_members now s.host.members)
            × (s'.disk ≡ s.disk)
          → Unchanged now s s' e
      kept (codes, members, disk) = record {
        same_codes = codes;
        same_members = members;
        save = untouched disk;
      }
