-- ===== src/Auth/Authority.antt =====
-- auth.rs: `Authority`, which issues certificates.
pub mod Issue
use rtn_mq.Prelude.{ℕ, Bool, List, [], ◌∷◌, if◌then◌else◌}
use rtn_mq.Prelude.Bytes.{Bytes}
use rtn_mq.Error.{Result, ◌>>=◌, ◌>>◌}
use rtn_mq.Crypto.{Iroh}
use rtn_mq.Cbor.{Minicbor}
use rtn_mq.Auth.Cose.{sign_cose}
use rtn_mq.Auth.Claims.{
  Permission, CertificateLimits, Claims, Certificate, cert_context, validate, encode, from_bytes,
}
use rtn_mq.Auth.Trust.{Trust, new_trust}
use rtn_mq.Message.Topic.{topic_lt}

pub record Authority : Type 0 where
  pub key : Bytes
  pub realm : Bytes

-- `sort_by` on the topics, a stable sort: equal topics stay in their order.
unfoldable pub insert_permission : Permission → List Permission → List Permission
insert_permission p [] = p ∷ []
insert_permission p (q ∷ qs) =
    let rest = insert_permission p qs in if topic_lt q.topic p.topic then q ∷ rest else p ∷ q ∷ qs

unfoldable pub sort_by_topic : List Permission → List Permission
sort_by_topic [] = []
sort_by_topic (p ∷ ps) = insert_permission p (sort_by_topic ps)

module _ ⦃c : Iroh⦄ where
  unfoldable pub public_key : Authority → Bytes
  public_key a = c.public a.key

  unfoldable pub trust : Authority → Trust
  unfolding public_key
  trust a = new_trust a.realm (public_key a)

  -- The claims that `issue` makes, with the random id.
  unfoldable pub new_claims :
      Authority → Bytes → Bytes → List Permission → ℕ → ℕ → CertificateLimits → Claims
  unfolding public_key
  new_claims a id subject permissions not_before expires_at limits = record {
    realm = a.realm;
    issuer = public_key a;
    id = id;
    subject = subject;
    not_before = not_before;
    expires = expires_at;
    permissions = sort_by_topic permissions;
    limits = limits;
  }

module _ ⦃m : Minicbor⦄ ⦃c : Iroh⦄ where
  unfoldable pub issue :
      Authority → Bytes → Bytes → List Permission → ℕ → ℕ → CertificateLimits → Result Certificate
  unfolding new_claims
  issue a id subject permissions not_before expires_at limits = do
    let claims = new_claims a id subject permissions not_before expires_at limits
    validate claims
    let bytes = sign_cose (encode claims) a.key cert_context
    from_bytes bytes
