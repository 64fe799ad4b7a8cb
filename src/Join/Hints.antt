-- ===== src/Join/Hints.antt =====
-- join.rs: the reader of `JoinCode::decode`. How iroh adds an address to an `EndpointAddr` and reads a
-- relay's URL is a parameter.
use rtn_mq.Prelude.{ℕ, zero, suc, ◌+◌, ◌*◌, not, Option, [], ◌∷◌, take, drop, ◌==◌}
use rtn_mq.Prelude.Bytes.{Bytes}
use rtn_mq.Error.{err, protocol, fail_if, ok_or}
use rtn_mq.Crypto.{Iroh}
use rtn_mq.Cbor.{Minicbor, Reader, array, list, u, fixed, text, end, lift, pure, ◌>>=◌, ◌>>◌}
use rtn_mq.Auth.Cose.{endpoint}
use rtn_mq.Wire.Frame.{from_be_bytes}
use rtn_mq.Join.Code.{SocketAddr, v4, v6, EndpointAddr, JoinCode}

-- `EndpointAddr::with_ip_addr`, `EndpointAddr::with_relay_url`, and the text of a URL that parses.
pub record Addresses : Type 0 where
  pub with_ip_addr : SocketAddr → EndpointAddr → EndpointAddr
  pub with_relay_url : Bytes → EndpointAddr → EndpointAddr
  pub parse_url : Bytes → Option Bytes

-- `u16::from_be_bytes` and `u32::from_be_bytes` of the first bytes.
unfoldable pub be16 : Bytes → ℕ
be16 (a ∷ b ∷ rest) = a * 256 + b
be16 _ = 0

unfoldable pub be32 : Bytes → ℕ
unfolding from_be_bytes
be32 (a ∷ b ∷ c ∷ d ∷ rest) = from_be_bytes a b c d
be32 _ = 0

unfoldable pub v4_of : Bytes → SocketAddr
unfolding be16
v4_of b = v4 (take 4 b) (be16 (drop 4 b))

unfoldable pub v6_of : Bytes → SocketAddr
unfolding be16 be32
v6_of b =
    let rest = drop 16 b in v6 (take 16 b) (be16 rest) (be32 (drop 2 rest)) (be32 (drop 6 rest))

module _ ⦃m : Minicbor⦄ (iroh : Addresses) where
  unfoldable pub read_kind : ℕ → EndpointAddr → Reader EndpointAddr
  unfolding v4_of v6_of
  read_kind zero a = do b ← fixed 6; pure (iroh.with_ip_addr (v4_of b) a)
  read_kind (suc zero) a = do b ← fixed 26; pure (iroh.with_ip_addr (v6_of b) a)
  read_kind (suc (suc zero)) a = do
    s ← text 1024
    url ← lift (ok_or (iroh.parse_url s) (protocol "join relay address"))
    pure (iroh.with_relay_url url a)
  read_kind _ a = lift (err (protocol "join address type"))

  unfoldable pub read_addresses : ℕ → EndpointAddr → Reader EndpointAddr
  unfolding read_kind
  read_addresses zero a = pure a
  read_addresses (suc n) a = do array 2; kind ← u; a' ← read_kind kind a; read_addresses n a'

  module _ ⦃c : Iroh⦄ where
    unfoldable pub read_code : Reader JoinCode
    unfolding read_addresses
    read_code = do
      array 4
      v ← u
      lift (fail_if (not (v == 3)) (protocol "join code version"))
      b ← fixed 32
      id ← lift (endpoint b)
      n ← list 16
      a ← read_addresses n (record { id = id; ip_addrs = []; relay_urls = [] })
      secret ← fixed 32
      end
      pure (record { address = a; secret = secret })
