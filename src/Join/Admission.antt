-- ===== src/Join/Admission.antt =====
-- join.rs: `Admission`, what it checks, what it prunes, and the parts of its operations.
use rtn_mq.Prelude.{ℕ, ◌+◌, ◌%◌, Bool, false, not, Option, none, some, ltb}
use rtn_mq.Prelude.Bytes.{Bytes, bytes_key, bytes_eq}
use rtn_mq.Prelude.Map.{Map, get, insert, remove, retain}
use rtn_mq.Error.{Result, err, unauthorized, fail_if}
use rtn_mq.Buffer.{Budget}
use rtn_mq.Cbor.{u64_mod}
use rtn_mq.Auth.Claims.{Certificate}
use rtn_mq.Auth.Trust.{Trust}
use rtn_mq.Join.Host.{Grant, Member, Host}

pub data Admission : Type 0 where
  host : Host → Admission
  client : Bytes → Admission

-- `can_dial`
unfoldable pub can_dial : Admission → Bytes → Bool
can_dial (host h) peer = false
can_dial (client h) peer = bytes_eq h peer

unfoldable pub is_member : Host → Bytes → Certificate → Bool
is_member h peer certificate = elim (get certificate.id h.members) [
  | none ↦ false
  | some member ↦ bytes_eq member.certificate.subject peer
]

-- `Admission::check`
unfoldable pub check_member : Admission → Bytes → Certificate → Result (Unit {0})
unfolding is_member
check_member (host h) peer certificate = fail_if (not (is_member h peer certificate)) unauthorized
check_member (client h) peer certificate = fail_if (not (bytes_eq h peer)) unauthorized

-- `+` on `u64`, which wraps in a release build.
unfoldable pub add_u64 : ℕ → ℕ → ℕ
add_u64 a b = (a + b) % u64_mod

pub record Enrollment : Type 0 where
  pub trust : Trust
  pub expires : ℕ
  pub certificate : Certificate

-- What the operations change.
pub record State (Disk : Type 0) : Type 0 where
  pub host : Host
  pub disk : Disk
  pub budget : Budget

unfoldable pub retain_members : ℕ → Map Bytes Member → Map Bytes Member
retain_members now members = retain (λ id (x : Member). ltb now x.certificate.expires) members

-- `Admission::prune`
unfoldable pub prune : ℕ → Host → Host
unfolding retain_members
prune now h = record h {
  codes = retain (λ id (g : Grant). ltb now g.expires) h.codes;
  members = retain_members now h.members;
}

unfoldable pub insert_redeemed : Bytes → Certificate → Grant → Grant
insert_redeemed peer cert g = record g { redeemed = insert peer cert g.redeemed }

-- The rollback of a redemption, to what stood there before it.
unfoldable pub restore_redeemed : Bytes → Option Certificate → Grant → Grant
restore_redeemed peer none g = record g { redeemed = remove peer g.redeemed }
restore_redeemed peer (some previous) g = record g { redeemed = insert peer previous g.redeemed }

unfoldable pub permit_of : Option ℕ → ℕ
permit_of none = 0
permit_of (some n) = n

-- The state on which `enroll` goes on once it has removed the members that have expired.
abbrev pub retained : {Disk : Type 0} → ℕ → State Disk → State Disk
retained now s = record s { host = record s.host { members = retain_members now s.host.members } }

-- An endpoint's admission with what its operations change.
pub record World (Disk : Type 0) : Type 0 where
  pub admission : Admission
  pub disk : Disk
  pub budget : Budget

-- `issue`, `revoke_code` and `enroll` begin with `let Self::Host(host) = self else …`.
unfoldable pub on_host :
    {A : Type 0} {Disk : Type 0}
    → (State Disk → Result A × State Disk)
    → World Disk
    → Result A × World Disk
on_host f w = elim w.admission [
  | host h ↦
      let (r, s) = f (record { host = h; disk = w.disk; budget = w.budget }) in
      (r, record { admission = host s.host; disk = s.disk; budget = s.budget })
  | client h ↦ (err unauthorized, w)
]
