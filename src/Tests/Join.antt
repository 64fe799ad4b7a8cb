-- ===== src/Tests/Join.antt =====
-- Codes, enrollments and their storage.
pub mod Codes
pub mod Reading
pub mod Enrollments
use rtn_mq.Prelude.{
  ◌≡◌, refl, [], ◌∷◌, replicate, arith, Bool, true, false, if◌then◌else◌, Option, none, some,
}
use rtn_mq.Prelude.Bytes.{Bytes, bytes_key, bytes_eq, bytes_lt}
use rtn_mq.Prelude.Map.{get, insert, remove}
use rtn_mq.Error.{ok, err, io}
use rtn_mq.Cbor.{array, list, u, bytes, fixed, text, end, canonical, empty_map}
use rtn_mq.Auth.Cose.{version, endpoint}
use rtn_mq.Auth.Claims.{put_permissions}
use rtn_mq.Auth.Trust.{Trust, new_trust}
use rtn_mq.Join.Options.{JoinOptions, from_secs}
use rtn_mq.Join.Code.{Base64, SocketAddr, EndpointAddr}
use rtn_mq.Join.Host.{
  Grant, HostStorage, StorageLaws, new_host, put_redeemed, put_codes, put_members, encode_host,
  persist,
}
use rtn_mq.Join.Admission.{State}
use rtn_mq.Join.Operations.{revoke_code}
use rtn_mq.Tests.Cbor.{
  get_head, get_u, get_string, get_text, is_ascii, put_head, put_string, minicbor,
}
use rtn_mq.Tests.Crypto.{pad, iroh}
use rtn_mq.Tests.Auth.{root_key, permissions, authority, no_limits}

-- A medium that holds one value, or is out of order.
pub record Medium : Type 0 where
  pub content : Option Bytes
  pub is_broken : Bool

unfoldable pub medium : HostStorage Medium
medium = record {
  load = λ d. ok d.content;
  save =
      λ b d. if d.is_broken then (err (io "broken"), d) else (ok tt, record d { content = some b });
}

medium_laws : StorageLaws medium
unfolding medium
medium_laws = record { saved = λ b d h. ground arith }

abbrev base64 : Base64
base64 = record { to_text = λ b. b; of_text = λ b. some b }

abbrev options : JoinOptions
options = record {
  permissions = permissions;
  limits = no_limits;
  lifetime = from_secs 1000;
  certificate_lifetime = from_secs 100;
  max_uses = 2;
}

abbrev address : EndpointAddr
address = record {
  id = root_key;
  ip_addrs = SocketAddr.v4 (127 ∷ 0 ∷ 0 ∷ 1 ∷ []) 4433 ∷ [];
  relay_urls = [];
}

abbrev secret : Bytes
secret = replicate 32 9

-- The digest of the toy instance is the start of its input.
abbrev id : Bytes
id =
    b'i' ∷ b'r' ∷ b'o' ∷ b'h' ∷ b'-' ∷ b'm' ∷ b'q' ∷ b'/' ∷ b'j' ∷ b'o' ∷ b'i' ∷ b'n' ∷ b'-' ∷ b'c'
    ∷ b'o' ∷ b'd' ∷ []

abbrev grant : Grant
grant = record {
  hash = secret;
  expires = 1100;
  options = options;
  redeemed = [];
  memory = some 1288;
}

abbrev fresh : Bool → State Medium
fresh is_broken = record {
  host = new_host authority true;
  disk = record { content = none; is_broken = is_broken };
  budget = record { limit = 1000000; used = 0; peak = 0 };
}

abbrev with_code : Bool → State Medium
with_code is_broken = record {
  host = record {
    authority = authority;
    codes = (id, grant) ∷ [];
    members = [];
    is_persistent = true;
  };
  disk = record { content = none; is_broken = is_broken };
  budget = record { limit = 1000000; used = 1288; peak = 1288 };
}

abbrev was_revoked : State Medium
was_revoked = (revoke_code medium id (with_code false)).1

revoke_works : revoke_code medium id (with_code false) ≡ (ok tt, was_revoked)
unfolding revoke_code medium persist encode_host put_codes put_redeemed put_members get insert
    remove new_host array bytes fixed list text u end empty_map canonical put_head put_string
    get_head get_string get_u get_text is_ascii minicbor iroh pad bytes_eq bytes_lt version endpoint
    put_permissions
revoke_works = refl

abbrev root_trust : Trust
root_trust = new_trust (replicate 16 3) root_key
