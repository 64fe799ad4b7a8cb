-- ===== src/Join/Host.antt =====
-- join.rs: the state of an enrollment host, its encoding and its storage, which is a parameter.
use rtn_mq.Prelude.{
  ℕ, ◌+◌, ◌*◌, Bool, Option, none, some, List, [], ◌∷◌, length, ltb, ◌≡◌, if◌then◌else◌,
}
use rtn_mq.Prelude.Bytes.{Bytes}
use rtn_mq.Prelude.Map.{Map}
use rtn_mq.Error.{Error, Result, ok, err, message_too_large}
use rtn_mq.Buffer.{Budget, reserve}
use rtn_mq.Cbor.{Minicbor, Writer, finish, put_array, put_u, put_bytes}
use rtn_mq.Auth.Claims.{Permission, Certificate, put_permissions}
use rtn_mq.Auth.Authority.{Authority}
use rtn_mq.Join.Options.{JoinOptions}

-- The memory of a grant, of a member and of a certificate is the size of the permit that it holds.
pub record Grant : Type 0 where
  pub hash : Bytes
  pub expires : ℕ
  pub options : JoinOptions
  pub redeemed : Map Bytes Certificate
  pub memory : Option ℕ

pub record Member : Type 0 where
  pub certificate : Certificate
  pub memory : Option ℕ

-- Whether it has a storage; which one is a parameter of the operations.
pub record Host : Type 0 where
  pub authority : Authority
  pub codes : Map Bytes Grant
  pub members : Map Bytes Member
  pub is_persistent : Bool

unfoldable pub new_host : Authority → Bool → Host
new_host authority is_persistent = record {
  authority = authority;
  codes = [];
  members = [];
  is_persistent = is_persistent;
}

-- `HostStorage`, over the state of the medium.
pub record HostStorage (Disk : Type 0) : Type 0 where
  pub load : Disk → Result (Option Bytes)
  pub save : Bytes → Disk → Result (Unit {0}) × Disk

-- What the trait asks of an implementation: a save that succeeds has replaced the entire value. Of a save
-- that fails it asks nothing.
pub record StorageLaws {Disk : Type 0} (s : HostStorage Disk) : Type 0 where
  pub saved : (b : Bytes) (d : Disk) → (s.save b d).0 ≡ ok tt → s.load (s.save b d).1 ≡ ok (some b)

-- What an operation that fails with `e` has done to the medium: nothing, or a single save, which failed with
-- that error.
pub data FailedSave {Disk : Type 0} (s : HostStorage Disk) (d : Disk) (e : Error) (d' : Disk)
    : Type 0 where
  untouched : d' ≡ d → FailedSave s d e d'
  attempted : (b : Bytes) → s.save b d ≡ (err e, d') → FailedSave s d e d'

abbrev pub max_bytes : ℕ
max_bytes = 4 * 1024 * 1024

module _ ⦃m : Minicbor⦄ where
  unfoldable pub put_redeemed : Map Bytes Certificate → Writer → Writer
  put_redeemed [] w = w
  put_redeemed ((endpoint, certificate) ∷ rest) w =
      put_array 2 ∷ put_bytes endpoint ∷ put_bytes certificate.bytes ∷ put_redeemed rest w

  unfoldable pub put_codes : Map Bytes Grant → Writer → Writer
  unfolding put_redeemed
  put_codes [] w = w
  put_codes ((id, g) ∷ codes) w =
      put_array 9
      ∷ put_bytes id
      ∷ put_bytes g.hash
      ∷ put_u g.expires
      ∷ put_u g.options.lifetime.as_secs
      ∷ put_u g.options.certificate_lifetime.as_secs
      ∷ put_u g.options.max_uses
      ∷ put_array 2
      ∷ put_u g.options.limits.max_payload
      ∷ put_u g.options.limits.max_subscriptions
      ∷ put_array (length g.options.permissions)
      ∷ put_permissions g.options.permissions
          (put_array (length g.redeemed) ∷ put_redeemed g.redeemed (put_codes codes w))

  unfoldable pub put_members : Map Bytes Member → Writer → Writer
  put_members [] w = w
  put_members ((id, member) ∷ members) w =
      put_bytes member.certificate.bytes ∷ put_members members w

  unfoldable pub encode_host : Host → Bytes
  unfolding finish
  encode_host h = finish (
      put_array 6
      ∷ put_u 1
      ∷ put_bytes h.authority.key
      ∷ put_bytes h.authority.realm
      ∷ put_array (length h.codes)
      ∷ put_codes h.codes (put_array (length h.members) ∷ put_members h.members (put_array 0 ∷ [])))

  module _ {Disk : Type 0} (storage : HostStorage Disk) where
    unfoldable pub persist : Host → Disk → Result (Unit {0}) × Disk
    persist h disk =
        if h.is_persistent
        then (if ltb max_bytes (length (encode_host h))
            then (err message_too_large, disk)
            else storage.save (encode_host h) disk)
        else (ok tt, disk)

-- What a grant is charged for its permissions.
unfoldable pub permissions_charge : List Permission → ℕ
permissions_charge [] = 0
permissions_charge (p ∷ ps) = length p.topic.name + 128 + permissions_charge ps

-- `meter`: the first reservation that fails ends the loop; what was charged before it stays.
unfoldable pub meter_codes : Map Bytes Grant → Budget → Result (Unit {0}) × Map Bytes Grant × Budget
meter_codes [] b = (ok tt, [], b)
meter_codes ((id, g) ∷ codes) b =
    let (r, codes', b') = meter_codes codes b in
    elim g.memory [
      | some n ↦ (r, (id, g) ∷ codes', b')
      | none ↦ elim (reserve (1024 + permissions_charge g.options.permissions) b) [
        | err e ↦ (err e, (id, g) ∷ codes, b)
        | ok (b1, n) ↦
            let (r2, codes2, b2) = meter_codes codes b1 in
            (r2, (id, record g { memory = some n }) ∷ codes2, b2)
      ]
    ]

unfoldable pub meter_members :
    Map Bytes Member → Budget → Result (Unit {0}) × Map Bytes Member × Budget
meter_members [] b = (ok tt, [], b)
meter_members ((id, x) ∷ members) b =
    let (r, members', b') = meter_members members b in
    elim x.memory [
      | some n ↦ (r, (id, x) ∷ members', b')
      | none ↦ elim (reserve 1024 b) [
        | err e ↦ (err e, (id, x) ∷ members, b)
        | ok (b1, n) ↦
            let (r2, members2, b2) = meter_members members b1 in
            (r2, (id, record x { memory = some n }) ∷ members2, b2)
      ]
    ]

unfoldable pub meter : Host → Budget → Result (Unit {0}) × Host × Budget
unfolding meter_codes meter_members
meter h b =
    let (r, codes, b1) = meter_codes h.codes b in
    elim r [
      | err e ↦ (err e, record h { codes = codes }, b1)
      | ok done ↦
          let (r2, members, b2) = meter_members h.members b1 in
          (r2, record h { codes = codes; members = members }, b2)
    ]
