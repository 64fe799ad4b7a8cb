-- ===== src/Join/Operations/Sequences.antt =====
-- The limits of a host, over any sequence of its operations.
use rtn_mq.Prelude.{ℕ, Bool, List, [], ◌∷◌, arith, ltb}
use rtn_mq.Prelude.Bytes.{Bytes, bytes_key}
use rtn_mq.Prelude.Map.{length-retain-le}
use rtn_mq.Prelude.Map.Each.{Each-retain, retain-IsSorted}
use rtn_mq.Crypto.{Iroh}
use rtn_mq.Cbor.{Minicbor}
use rtn_mq.Auth.Authority.{Authority}
use rtn_mq.Auth.Trust.{Trust}
use rtn_mq.Buffer.{Budget}
use rtn_mq.Join.Options.{JoinOptions}
use rtn_mq.Join.Code.{Base64, EndpointAddr}
use rtn_mq.Join.Host.{Grant, Member, Host, HostStorage, new_host}
use rtn_mq.Join.Admission.{State, retain_members, prune}
use rtn_mq.Join.Operations.{issue_code, revoke_code, enroll}
use rtn_mq.Join.Operations.Limits.{IsWithin, Limits, issue-Limits, revoke-Limits}
use rtn_mq.Join.Operations.Enrolling.{enroll-Limits}

-- The calls of the owner on a host: what `issue` draws and is told, a revocation, an enrollment, a prune.
pub data Op : Type 0 where
  issues : JoinOptions → EndpointAddr → ℕ → Bytes → Bytes → Op
  revokes : Bytes → Op
  enrolls : Bytes → Bytes → Bytes → Bytes → ℕ → ℕ → Trust → Op
  prunes : ℕ → Op

module _ ⦃m : Minicbor⦄ ⦃c : Iroh⦄ {Disk : Type 0} (storage : HostStorage Disk) (base64 : Base64)
    (max_codes max_members : ℕ) where
  unfoldable pub apply : Op → State Disk → State Disk
  apply (issues options address now probe_id secret) s =
      (issue_code storage base64 options address now max_codes probe_id secret s).1
  apply (revokes id) s = (revoke_code storage id s).1
  apply (enrolls peer id secret cert_id now host_expires t) s =
      (enroll storage peer id secret cert_id now host_expires t max_members s).1
  apply (prunes now) s = record s { host = prune now s.host }

  unfoldable pub apply_all : List Op → State Disk → State Disk
  apply_all [] s = s
  apply_all (op ∷ ops) s = apply_all ops (apply op s)

  prune-Limits :
      (now : ℕ) (h : Host)
      → Limits max_codes max_members h
      → Limits max_codes max_members (prune now h)
  unfolding prune retain_members
  prune-Limits now h l =
      let kept : Bytes → Grant → Bool = λ id g. ltb now g.expires in
      record {
        codes_sorted = retain-IsSorted kept h.codes l.codes_sorted;
        uses = Each-retain IsWithin kept h.codes l.uses;
        codes_bound = omega (arith, length-retain-le kept h.codes, l.codes_bound);
        members_bound = omega (
          arith,
          length-retain-le (λ id (x : Member). ltb now x.certificate.expires) h.members,
          l.members_bound,
        );
      }

  apply-Limits :
      (op : Op) (s : State Disk)
      → Limits max_codes max_members s.host
      → Limits max_codes max_members (apply op s).host
  unfolding apply
  apply-Limits (issues options address now probe_id secret) s l =
      issue-Limits storage base64 max_codes max_members options address now probe_id secret s l
  apply-Limits (revokes id) s l = revoke-Limits storage base64 max_codes max_members id s l
  apply-Limits (enrolls peer id secret cert_id now host_expires t) s l =
      enroll-Limits storage max_codes max_members peer id secret cert_id now host_expires t s l
  apply-Limits (prunes now) s l = prune-Limits now s.host l

  apply_all-keeps :
      (ops : List Op) (s : State Disk)
      → Limits max_codes max_members s.host
      → Limits max_codes max_members (apply_all ops s).host
  unfolding apply_all
  apply_all-keeps [] s l = l
  apply_all-keeps (op ∷ ops) s l = apply_all-keeps ops (apply op s) (apply-Limits op s l)

  -- From a new host on, whatever calls arrive in whatever order, whether they succeed or the storage fails
  -- them: no code has let in more peers than it says, each peer stands with a code at most once, and the
  -- host holds at most `max_codes` codes and `max_members` members.
  pub apply_all-Limits :
      (authority : Authority) (is_persistent : Bool) (disk : Disk) (budget : Budget) (ops : List Op)
      → Limits max_codes max_members
          (apply_all ops
            (record { host = new_host authority is_persistent; disk = disk; budget = budget })).host
  unfolding new_host
  apply_all-Limits authority is_persistent disk budget ops = apply_all-keeps ops _ (record {
    codes_sorted = tt;
    uses = tt;
    codes_bound = omega arith;
    members_bound = omega arith;
  })
