-- ===== src/Join/Operations/Limits.antt =====
-- The limits of a host, and that `issue` and `revoke_code` keep them.
use rtn_mq.Prelude.{ℕ, ◌≤◌, ◌<◌, ◌≡◌, length, arith, inl, inr, Option-cases}
use rtn_mq.Prelude.Bytes.{Bytes, bytes_key}
use rtn_mq.Prelude.Map.{
  Map, get, insert, remove, IsSorted, insert-IsSorted, length-insert-le, length-remove-le,
}
use rtn_mq.Prelude.Map.Undo.{insert-remove}
use rtn_mq.Prelude.Map.Each.{Each, Each-insert, Each-remove, remove-IsSorted}
use rtn_mq.Error.{ok, Result-cases}
use rtn_mq.Crypto.{Iroh}
use rtn_mq.Cbor.{Minicbor}
use rtn_mq.Buffer.{Budget}
use rtn_mq.Join.Options.{JoinOptions}
use rtn_mq.Join.Code.{Base64, EndpointAddr, JoinCode, code_id, compact_address, encode_code}
use rtn_mq.Join.Host.{Grant, Host, HostStorage, persist}
use rtn_mq.Join.Admission.{State}
use rtn_mq.Join.Operations.{admit_code, new_grant, issue_code, revoke_code}

-- A code has let in at most as many peers as it says.
abbrev pub IsWithin : Grant → Type 0
IsWithin g = (length g.redeemed ≤ g.options.max_uses) × IsSorted g.redeemed

pub record Limits (max_codes max_members : ℕ) (h : Host) : Type 0 where
  pub codes_sorted : IsSorted h.codes
  pub uses : Each IsWithin h.codes
  pub codes_bound : length h.codes ≤ max_codes
  pub members_bound : length h.members ≤ max_members

module _ ⦃m : Minicbor⦄ ⦃c : Iroh⦄ {Disk : Type 0} (storage : HostStorage Disk) (base64 : Base64)
    (max_codes max_members : ℕ) where
  -- Room for one code more.
  admit_code-length :
      (options : JoinOptions) (address : EndpointAddr) (now : ℕ) (probe_id : Bytes) (h : Host)
      (b b' : Budget) (n : ℕ)
      → admit_code options address now max_codes probe_id h b ≡ ok (b', n)
      → length h.codes < max_codes
  unfolding admit_code
  admit_code-length options address now probe_id h b b' n e = ground arith

  with_codes :
      (h : Host) (codes : Map Bytes Grant)
      → Limits max_codes max_members h
      → IsSorted codes
      → Each IsWithin codes
      → length codes ≤ max_codes
      → Limits max_codes max_members (record h { codes = codes })
  with_codes h codes l sorted uses bound = record {
    codes_sorted = sorted;
    uses = uses;
    codes_bound = bound;
    members_bound = l.members_bound;
  }

  removed-Limits :
      (id : Bytes) (h : Host)
      → Limits max_codes max_members h
      → Limits max_codes max_members (record h { codes = remove id h.codes })
  removed-Limits id h l =
      with_codes h (remove id h.codes) l (remove-IsSorted id h.codes l.codes_sorted)
        (Each-remove IsWithin id h.codes l.uses)
        (omega (arith, length-remove-le id h.codes, l.codes_bound))

  inserted-Limits :
      (id : Bytes) (g : Grant) (h : Host)
      → Limits max_codes max_members h
      → length h.codes < max_codes
      → IsWithin g
      → Limits max_codes max_members (record h { codes = insert id g h.codes })
  inserted-Limits id g h l room within =
      with_codes h (insert id g h.codes) l (insert-IsSorted id g h.codes l.codes_sorted)
        (Each-insert IsWithin id g h.codes within l.uses)
        (omega (arith, length-insert-le id g h.codes))

  pub issue-Limits :
      (options : JoinOptions) (address : EndpointAddr) (now : ℕ) (probe_id secret : Bytes)
      (s : State Disk)
      → Limits max_codes max_members s.host
      → Limits max_codes max_members
          (issue_code storage base64 options address now max_codes probe_id secret s).1.host
  unfolding issue_code new_grant
  issue-Limits options address now probe_id secret s l =
      let code : JoinCode = record { address = compact_address address; secret = secret } in
      elim (Result-cases (admit_code options address now max_codes probe_id s.host s.budget)) [
        | inr (x, e) ↦ rw (issue_code, e) l
        | inl ((b, n), e) ↦
            let g = new_grant options now secret n in
            let id = code_id secret in
            let added =
              inserted-Limits id g s.host l
                (admit_code-length options address now probe_id s.host s.budget b n e)
                (omega arith, tt) in
            elim (Result-cases (encode_code base64 code)) [
              | inr (x, e2) ↦ rw (issue_code, e, e2) l
              | inl (text, e2) ↦
                  elim (Result-cases
                    (persist storage (record s.host { codes = insert id g s.host.codes })
                      s.disk).0) [
                        | inl (done, e3) ↦ rw (issue_code, e, e2, e3) added
                        | inr (x, e3) ↦
                            rw (issue_code, e, e2, e3)
                              (removed-Limits id
                                (record s.host { codes = insert id g s.host.codes }) added)
                      ]
            ]
      ]

  pub revoke-Limits :
      (id : Bytes) (s : State Disk)
      → Limits max_codes max_members s.host
      → Limits max_codes max_members (revoke_code storage id s).1.host
  unfolding revoke_code
  revoke-Limits id s l =
      let h : Host = record s.host { codes = remove id s.host.codes } in
      let without = removed-Limits id s.host l in
      elim (Result-cases (persist storage h s.disk).0) [
        | inl (done, e) ↦ elim (Option-cases (get id s.host.codes)) [
          | inl none_there ↦ rw (revoke_code, e, none_there) without
          | inr (g, found) ↦ rw (revoke_code, e, found) without
        ]
        | inr (x, e) ↦ elim (Option-cases (get id s.host.codes)) [
          | inl none_there ↦ rw (revoke_code, e, none_there) without
          | inr (g, found) ↦
              rw (revoke_code, e, found, insert-remove id g s.host.codes l.codes_sorted found) l
        ]
      ]
