-- ===== src/Auth/Trust.antt =====
-- auth.rs: `Trust`, its revocations and its check of certificates.
pub mod Acceptance
pub mod Revocation
pub mod Updates
use rtn_mq.Prelude.{
  ℕ, zero, suc, ◌+◌, ◌*◌, ◌-◌, Bool, false, not, ◌&&◌, ◌||◌, Option, none, some, List, [], ◌∷◌,
  length, ltb, leb, if◌then◌else◌,
}
use rtn_mq.Prelude.Bytes.{Bytes, bytes_key, bytes_eq}
use rtn_mq.Prelude.Map.{Map, contains_key, insert}
use rtn_mq.Error.{Result, ok, err, unauthorized, certificate_expired, queue_full, fail_if, and_then}
use rtn_mq.Crypto.{Iroh}
use rtn_mq.Cbor.{
  Minicbor, Writer, Reader, u64_mod, finish, put_array, put_u, put_bytes, array, list, u, fixed,
  end, canonical, lift, pure, run_reader, ◌>>=◌, ◌>>◌,
}
use rtn_mq.Auth.Cose.{version, verify_cose, parse_cose}
use rtn_mq.Auth.Claims.{Certificate, cert_context}
use rtn_mq.Wire.Hello.{max_cert}

-- b"iroh-mq/revocation/v1"
abbrev pub revocation_context : Bytes
revocation_context =
    b'i' ∷ b'r' ∷ b'o' ∷ b'h' ∷ b'-' ∷ b'm' ∷ b'q' ∷ b'/' ∷ b'r' ∷ b'e' ∷ b'v' ∷ b'o' ∷ b'c' ∷ b'a'
    ∷ b't' ∷ b'i' ∷ b'o' ∷ b'n' ∷ b'/' ∷ b'v' ∷ b'1' ∷ []

abbrev pub max_revoked : ℕ
max_revoked = 4096

-- `BTreeSet<[u8; 16]>`
abbrev pub IdSet : Type 0
IdSet = Map Bytes (Unit {0})

pub record Trust : Type 0 where
  pub realm : Bytes
  pub root : Bytes
  pub revoked : IdSet
  pub revocation_version : ℕ
  pub freshness : Option ℕ
  pub clock_skew_secs : ℕ

unfoldable pub new_trust : Bytes → Bytes → Trust
new_trust realm root = record {
  realm = realm;
  root = root;
  revoked = [];
  revocation_version = 0;
  freshness = none;
  clock_skew_secs = 0;
}

-- `u64::saturating_add`
unfoldable pub saturating_add : ℕ → ℕ → ℕ
saturating_add a b = if ltb (a + b) u64_mod then a + b else u64_mod - 1

unfoldable pub deny_certificate : Bytes → Trust → Result Trust
deny_certificate id t =
    if leb max_revoked (length t.revoked) && not (contains_key id t.revoked)
    then err queue_full
    else ok (record t { revoked = insert id tt t.revoked })

-- `BTreeSet::extend`
unfoldable pub extend : List Bytes → IdSet → IdSet
extend [] s = s
extend (id ∷ ids) s = extend ids (insert id tt s)

unfoldable pub ids_of : IdSet → List Bytes
ids_of [] = []
ids_of ((id, v) ∷ s) = id ∷ ids_of s

-- What a snapshot says.
pub record Snapshot : Type 0 where
  pub number : ℕ
  pub issued : ℕ
  pub expires : ℕ
  pub ids : List Bytes

module _ ⦃m : Minicbor⦄ where
  unfoldable pub put_ids : List Bytes → Writer
  put_ids [] = []
  put_ids (id ∷ ids) = put_bytes id ∷ put_ids ids

  unfoldable pub snapshot_bytes : Bytes → Snapshot → Bytes
  unfolding finish
  snapshot_bytes realm s = finish (
      put_array 6
      ∷ put_u 1
      ∷ put_bytes realm
      ∷ put_u s.number
      ∷ put_u s.issued
      ∷ put_u s.expires
      ∷ put_array (length s.ids)
      ∷ put_ids s.ids)

  unfoldable pub read_ids : ℕ → Reader (List Bytes)
  read_ids zero = pure []
  read_ids (suc n) = do id ← fixed 16; ids ← read_ids n; pure (id ∷ ids)

  unfoldable pub read_snapshot : Trust → ℕ → Bytes → Reader Snapshot
  read_snapshot t now b = do
    array 6
    v ← u
    lift (version v)
    realm ← fixed 16
    lift (fail_if (not (bytes_eq realm t.realm)) unauthorized)
    number ← u
    issued ← u
    expires ← u
    lift (
        fail_if
          (leb number t.revocation_version
            || ltb now issued
            || leb expires now
            || leb expires issued)
          unauthorized)
    n ← list max_revoked
    ids ← read_ids n
    end
    let s : Snapshot = record { number = number; issued = issued; expires = expires; ids = ids }
    lift (canonical b (snapshot_bytes t.realm s))
    pure s

  -- `RevocationSnapshot::from_bytes`
  unfoldable pub snapshot_from_bytes : Bytes → Result Bytes
  snapshot_from_bytes b = and_then (parse_cose b (128 * 1024)) (λ parts. ok b)

-- The end of `apply_revocations`: the ids that the snapshot and the trust name.
unfoldable pub accept_snapshot : Trust → Snapshot → Result Trust
accept_snapshot t s =
    let ids = extend (ids_of t.revoked) (extend s.ids []) in
    if ltb max_revoked (length ids)
    then err queue_full
    else ok (record t { revoked = ids; revocation_version = s.number; freshness = some s.expires })

module _ ⦃m : Minicbor⦄ ⦃c : Iroh⦄ where
  unfoldable pub apply_revocations : Bytes → ℕ → Trust → Result Trust
  apply_revocations snapshot now t =
      and_then (verify_cose snapshot t.root revocation_context (128 * 1024))
        (λ b. and_then (run_reader (read_snapshot t now b) b) (accept_snapshot t))

-- A deadline of freshness that has passed.
unfoldable pub is_stale : Option ℕ → ℕ → Bool
is_stale none now = false
is_stale (some deadline) now = leb deadline now

unfoldable pub check : Trust → Certificate → Bytes → ℕ → Result (Unit {0})
check t c peer now =
    if not (bytes_eq c.realm t.realm)
      || not (bytes_eq c.issuer t.root)
      || not (bytes_eq c.subject peer)
      || contains_key c.id t.revoked
    then err unauthorized
    else if ltb (saturating_add now t.clock_skew_secs) c.not_before
        || leb (saturating_add c.expires t.clock_skew_secs) now
    then err certificate_expired
    else if is_stale t.freshness now
    then err unauthorized
    else ok tt

module _ ⦃m : Minicbor⦄ ⦃c : Iroh⦄ where
  unfoldable pub verify_certificate : Trust → Certificate → Bytes → ℕ → Result (Unit {0})
  verify_certificate t cert peer now =
      and_then (verify_cose cert.bytes t.root cert_context max_cert) (λ b. check t cert peer now)
