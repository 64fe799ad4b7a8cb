-- ===== src/Join/Code.antt =====
-- join.rs: `JoinCode` and its encoding; iroh's `EndpointAddr` as the lists that its iterators give, and
-- base64 as a parameter.
use rtn_mq.Prelude.{
  ℕ, ◌+◌, ◌/◌, ◌%◌, ◌||◌, Option, List, [], ◌∷◌, ◌++◌, length, take, any, ltb, ◌==◌,
}
use rtn_mq.Prelude.Bytes.{Bytes}
use rtn_mq.Error.{Result, ok, protocol, message_too_large, fail_if, ◌>>◌}
use rtn_mq.Crypto.{Iroh}
use rtn_mq.Cbor.{Minicbor, Writer, finish, put_array, put_u, put_bytes, put_text}
use rtn_mq.Wire.Frame.{to_be_bytes}

-- `URL_SAFE_NO_PAD.encode` and `decode`
pub record Base64 : Type 0 where
  pub to_text : Bytes → Bytes
  pub of_text : Bytes → Option Bytes

pub data SocketAddr : Type 0 where
  -- octets and port
  v4 : Bytes → ℕ → SocketAddr
  -- octets, port, flow information and scope
  v6 : Bytes → ℕ → ℕ → ℕ → SocketAddr

pub record EndpointAddr : Type 0 where
  pub id : Bytes
  pub ip_addrs : List SocketAddr
  pub relay_urls : List Bytes

pub record JoinCode : Type 0 where
  pub address : EndpointAddr
  pub secret : Bytes

-- "rtn-mq://join/"
abbrev pub prefix : Bytes
prefix =
    b'r' ∷ b't' ∷ b'n' ∷ b'-' ∷ b'm' ∷ b'q' ∷ b':' ∷ b'/' ∷ b'/' ∷ b'j' ∷ b'o' ∷ b'i' ∷ b'n' ∷ b'/'
    ∷ []

-- b"iroh-mq/join-code-id/v3"
abbrev pub id_domain : Bytes
id_domain =
    b'i' ∷ b'r' ∷ b'o' ∷ b'h' ∷ b'-' ∷ b'm' ∷ b'q' ∷ b'/' ∷ b'j' ∷ b'o' ∷ b'i' ∷ b'n' ∷ b'-' ∷ b'c'
    ∷ b'o' ∷ b'd' ∷ b'e' ∷ b'-' ∷ b'i' ∷ b'd' ∷ b'/' ∷ b'v' ∷ b'3' ∷ []

unfoldable pub code_id : ⦃c : Iroh⦄ → Bytes → Bytes
code_id ⦃c = c⦄ secret = take 16 (c.sha256 (id_domain ++ secret))

-- `u16::to_be_bytes`
unfoldable pub port_bytes : ℕ → Bytes
port_bytes n = (n / 256) % 256 ∷ n % 256 ∷ []

unfoldable pub compact_address : EndpointAddr → EndpointAddr
compact_address a = elim a.relay_urls [ [] ↦ a | url ∷ urls ↦ record a { ip_addrs = [] } ]

module _ ⦃m : Minicbor⦄ where
  unfoldable pub put_ips : List SocketAddr → Writer → Writer
  unfolding port_bytes
  put_ips [] w = w
  put_ips (v4 octets port ∷ ips) w =
      put_array 2 ∷ put_u 0 ∷ put_bytes (octets ++ port_bytes port) ∷ put_ips ips w
  put_ips (v6 octets port flow scope ∷ ips) w =
      put_array 2
      ∷ put_u 1
      ∷ put_bytes (octets ++ (port_bytes port ++ (to_be_bytes flow ++ to_be_bytes scope)))
      ∷ put_ips ips w

  unfoldable pub put_relays : List Bytes → Writer → Writer
  put_relays [] w = w
  put_relays (url ∷ urls) w = put_array 2 ∷ put_u 2 ∷ put_text url ∷ put_relays urls w

  unfoldable pub encode_code : Base64 → JoinCode → Result Bytes
  unfolding finish compact_address
  encode_code base64 code = do
    let address = compact_address code.address
    let count = length address.ip_addrs + length address.relay_urls
    fail_if (count == 0 || ltb 16 count) (protocol "join address count")
    fail_if (any (λ url. ltb 1024 (length url)) address.relay_urls) message_too_large
    let w =
        put_array 4
        ∷ put_u 3
        ∷ put_bytes address.id
        ∷ put_array count
        ∷ put_ips address.ip_addrs (put_relays address.relay_urls (put_bytes code.secret ∷ []))
    ok (prefix ++ base64.to_text (finish w))
