-- ===== src/Auth/Claims.antt =====
-- auth.rs: permissions, the claims of a certificate, and `Certificate` as it is parsed.
pub mod RoundTrip
use rtn_mq.Prelude.{
  ℕ, zero, suc, ◌+◌, ◌*◌, ◌/◌, ◌%◌, Bool, true, false, not, ◌&&◌, ◌||◌, Option, none, some, List,
  [], ◌∷◌, length, any, ltb, leb, ◌==◌, if◌then◌else◌,
}
use rtn_mq.Prelude.Bytes.{Bytes}
use rtn_mq.Error.{Result, ok, err, protocol, and_then, map_ok}
use rtn_mq.Buffer.{Budget, reserve}
use rtn_mq.Crypto.{Iroh}
use rtn_mq.Cbor.{
  Minicbor, Writer, Reader, finish, put_array, put_u, put_bytes, put_text, array, list, u, fixed,
  text, end, canonical, lift, pure, run_reader, ◌>>=◌, ◌>>◌,
}
use rtn_mq.Auth.Cose.{version, endpoint, parse_cose}
use rtn_mq.Message.Topic.{Topic, new_topic, topic_eq, topic_lt}
use rtn_mq.Wire.Hello.{max_cert}

abbrev pub max_permissions : ℕ
max_permissions = 256

-- b"iroh-mq/certificate/v1"
abbrev pub cert_context : Bytes
cert_context =
    b'i' ∷ b'r' ∷ b'o' ∷ b'h' ∷ b'-' ∷ b'm' ∷ b'q' ∷ b'/' ∷ b'c' ∷ b'e' ∷ b'r' ∷ b't' ∷ b'i' ∷ b'f'
    ∷ b'i' ∷ b'c' ∷ b'a' ∷ b't' ∷ b'e' ∷ b'/' ∷ b'v' ∷ b'1' ∷ []

pub record Permission : Type 0 where
  pub topic : Topic
  pub publish : Bool
  pub subscribe : Bool

pub record CertificateLimits : Type 0 where
  pub max_payload : ℕ
  pub max_subscriptions : ℕ

pub record Claims : Type 0 where
  pub realm : Bytes
  pub issuer : Bytes
  pub id : Bytes
  pub subject : Bytes
  pub not_before : ℕ
  pub expires : ℕ
  pub permissions : List Permission
  pub limits : CertificateLimits

pub record Certificate : Type 0 where
  pub claims : Claims
  pub open claims use *
  pub bytes : Bytes
  pub memory : Option ℕ

-- `u64::from` of a `bool`
abbrev pub bit : Bool → ℕ
bit true = 1
bit false = 0

-- The permission of a mask from 1 to 3.
unfoldable pub permission_of_mask : Topic → ℕ → Result Permission
permission_of_mask t mask =
    if leb 1 mask && leb mask 3
    then ok (record { topic = t; publish = mask % 2 == 1; subscribe = (mask / 2) % 2 == 1 })
    else err (protocol "permission mask")

-- The loop of `validate`, with the topic before.
unfoldable pub validate_permissions : Option Topic → List Permission → Result (Unit {0})
validate_permissions previous [] = ok tt
validate_permissions previous (p ∷ ps) =
    let rest = validate_permissions (some p.topic) ps in
    if (not p.publish && not p.subscribe) || is_not_below previous p.topic
    then err (protocol "permissions must be unique and sorted")
    else rest
  where
    is_not_below : Option Topic → Topic → Bool
    is_not_below none t = false
    is_not_below (some v) t = not (topic_lt v t)

unfoldable pub validate : Claims → Result (Unit {0})
validate c =
    if leb c.expires c.not_before || ltb max_permissions (length c.permissions)
    then err (protocol "certificate claims")
    else validate_permissions none c.permissions

module _ ⦃m : Minicbor⦄ where
  -- The loop of `encode`, before the rest of the pieces.
  unfoldable pub put_permissions : List Permission → Writer → Writer
  put_permissions [] w = w
  put_permissions (p ∷ ps) w =
      put_array 2
      ∷ put_text p.topic.name
      ∷ put_u (bit p.publish + 2 * bit p.subscribe)
      ∷ put_permissions ps w

  unfoldable pub encode : Claims → Bytes
  unfolding finish
  encode c = finish (
      put_array 9
      ∷ put_u 1
      ∷ put_bytes c.realm
      ∷ put_bytes c.issuer
      ∷ put_bytes c.id
      ∷ put_bytes c.subject
      ∷ put_u c.not_before
      ∷ put_u c.expires
      ∷ put_array (length c.permissions)
      ∷ put_permissions c.permissions
          (put_array 2 ∷ put_u c.limits.max_payload ∷ put_u c.limits.max_subscriptions ∷ []))

  -- One turn of the loop of `decode`.
  unfoldable pub read_permission : Reader Permission
  read_permission = do
    array 2
    name ← text 256
    topic ← lift (new_topic name)
    mask ← u
    lift (permission_of_mask topic mask)

  unfoldable pub read_permissions : ℕ → Reader (List Permission)
  read_permissions zero = pure []
  read_permissions (suc n) = do p ← read_permission; ps ← read_permissions n; pure (p ∷ ps)

module _ ⦃m : Minicbor⦄ ⦃c : Iroh⦄ where
  unfoldable pub read_claims : Bytes → Reader Claims
  read_claims b = do
    array 9
    v ← u
    lift (version v)
    realm ← fixed 16
    i ← fixed 32
    issuer ← lift (endpoint i)
    id ← fixed 16
    s ← fixed 32
    subject ← lift (endpoint s)
    not_before ← u
    expires ← u
    count ← list max_permissions
    permissions ← read_permissions count
    array 2
    max_payload ← u
    max_subscriptions ← u
    end
    let claims : Claims = record {
      realm = realm;
      issuer = issuer;
      id = id;
      subject = subject;
      not_before = not_before;
      expires = expires;
      permissions = permissions;
      limits = record { max_payload = max_payload; max_subscriptions = max_subscriptions };
    }
    lift (validate claims)
    lift (canonical b (encode claims))
    pure claims

  unfoldable pub decode : Bytes → Result Claims
  decode b = run_reader (read_claims b) b

  unfoldable pub from_bytes : Bytes → Result Certificate
  from_bytes b = and_then (parse_cose b max_cert) (λ (payload, signature).
      map_ok (λ claims. record { claims = claims; bytes = b; memory = none }) (decode payload))

abbrev pub grants : Topic → Bool → Permission → Bool
grants topic publish p = topic_eq p.topic topic && (if publish then p.publish else p.subscribe)

unfoldable pub allows : Certificate → Topic → Bool → Bool
allows c topic publish = any (grants topic publish) c.permissions

-- The permit is the amount that the certificate holds of the budget.
unfoldable pub metered : Certificate → Budget → Result (Budget × Certificate)
metered c budget =
    map_ok (λ (budget', permit). (budget', record c { memory = some permit }))
      (reserve (length c.bytes * 4 + 16 * 1024) budget)
