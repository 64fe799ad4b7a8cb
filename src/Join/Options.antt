-- ===== src/Join/Options.antt =====
-- join.rs: `JoinOptions`; and `std::time::Duration` as far as it is compared.
use rtn_mq.Prelude.{ℕ, ◌*◌, Bool, not, ◌&&◌, ◌||◌, List, length, ltb, leb, ◌==◌, if◌then◌else◌}
use rtn_mq.Error.{Result, ok, err, config}
use rtn_mq.Auth.Claims.{Permission, CertificateLimits, max_permissions}

pub record Duration : Type 0 where
  pub as_secs : ℕ
  pub nanos : ℕ

abbrev pub from_secs : ℕ → Duration
from_secs n = record { as_secs = n; nanos = 0 }

unfoldable pub duration_lt : Duration → Duration → Bool
duration_lt a b = ltb a.as_secs b.as_secs || (a.as_secs == b.as_secs && ltb a.nanos b.nanos)

abbrev pub max_join_lifetime : Duration
max_join_lifetime = from_secs (10 * 365 * 24 * 60 * 60)

pub record JoinOptions : Type 0 where
  pub permissions : List Permission
  pub limits : CertificateLimits
  pub lifetime : Duration
  pub certificate_lifetime : Duration
  pub max_uses : ℕ

unfoldable pub new_options : List Permission → JoinOptions
new_options permissions = record {
  permissions = permissions;
  limits = record { max_payload = 0; max_subscriptions = 0 };
  lifetime = from_secs 3600;
  certificate_lifetime = from_secs 3600;
  max_uses = 256;
}

unfoldable pub validate_options : JoinOptions → Result (Unit {0})
unfolding duration_lt
validate_options o =
    if ltb max_permissions (length o.permissions)
      || o.lifetime.as_secs == 0
      || duration_lt max_join_lifetime o.lifetime
      || o.certificate_lifetime.as_secs == 0
      || duration_lt max_join_lifetime o.certificate_lifetime
      || not (leb 1 o.max_uses && leb o.max_uses 256)
    then err (config "invalid join code limits")
    else ok tt
