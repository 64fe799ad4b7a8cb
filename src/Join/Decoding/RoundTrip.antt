-- ===== src/Join/Decoding/RoundTrip.antt =====
-- What `JoinCode::decode` returns of what `JoinCode::encode` wrote.
use rtn_mq.Prelude.{
  ℕ, suc, ◌+◌, ◌^◌, ◌<◌, ◌≤◌, ◌≡◌, refl, ap, subst, ◌∙◌, true, some, List, [], ◌∷◌, ◌++◌, length,
  take, drop, take-append, drop-append, length-append, All, List-cases, inl, inr, arith,
}
use rtn_mq.Prelude.Bytes.{Bytes, concat, bytes_eq_refl}
use rtn_mq.Error.{ok}
use rtn_mq.Crypto.{Iroh}
use rtn_mq.Cbor.{Minicbor, MinicborLaws, Writer, end, run_reader-ok}
use rtn_mq.Cbor.RoundTrip.{array-put, list-put, u-put, fixed-put, text-put}
use rtn_mq.Auth.Cose.{endpoint}
use rtn_mq.Wire.Frame.{to_be_bytes, from_be_bytes}
use rtn_mq.Join.Code.{
  Base64, SocketAddr, v4, v6, EndpointAddr, JoinCode, prefix, port_bytes, compact_address, put_ips,
  put_relays, encode_code,
}
use rtn_mq.Join.Hints.{Addresses, be16, be32, v4_of, v6_of, read_addresses, read_code}
use rtn_mq.Join.Decoding.{strip_prefix, decode_code}

-- The sizes that the types of an address give.
abbrev pub IsIp : SocketAddr → Type 0
IsIp (v4 octets port) = (length octets ≡ 4) × (port < 2 ^ 16)
IsIp (v6 octets port flow scope) =
    (length octets ≡ 16) × (port < 2 ^ 16) × (flow < 2 ^ 32) × (scope < 2 ^ 32)

strip_prefix-append : (p b : Bytes) → strip_prefix p (p ++ b) ≡ some b
unfolding strip_prefix
strip_prefix-append [] b = refl
strip_prefix-append (x ∷ p) b = ground (arith, strip_prefix-append p b)

be16-port_bytes : (n : ℕ) (rest : Bytes) → n < 2 ^ 16 → be16 (port_bytes n ++ rest) ≡ n
unfolding be16 port_bytes
be16-port_bytes n rest h = omega arith

be32-to_be_bytes : (n : ℕ) (rest : Bytes) → n < 2 ^ 32 → be32 (to_be_bytes n ++ rest) ≡ n
unfolding be32 to_be_bytes from_be_bytes
be32-to_be_bytes n rest h = omega arith

v4_of-octets :
    (octets : Bytes) (port : ℕ)
    → length octets ≡ 4
    → port < 2 ^ 16
    → v4_of (octets ++ port_bytes port) ≡ v4 octets port
unfolding v4_of port_bytes
v4_of-octets octets port size range =
    let b = octets ++ port_bytes port in
    let first : take 4 b ≡ octets = subst (λ n. take n b ≡ octets) size (take-append octets _) in
    let last : drop 4 b ≡ port_bytes port =
      subst (λ n. drop n b ≡ port_bytes port) size (drop-append octets _) in
    let read : be16 (port_bytes port) ≡ port = be16-port_bytes port [] range in
    ap (λ x. v4 x (be16 (drop 4 b))) first ∙ ap (λ x. v4 octets (be16 x)) last ∙ ap (v4 octets) read

v6_of-octets :
    (octets : Bytes) (port flow scope : ℕ)
    → IsIp (v6 octets port flow scope)
    → v6_of (octets ++ (port_bytes port ++ (to_be_bytes flow ++ to_be_bytes scope)))
      ≡ v6 octets port flow scope
unfolding v6_of port_bytes to_be_bytes
v6_of-octets octets port flow scope (size, range, flow_range, scope_range) =
    let numbers = port_bytes port ++ (to_be_bytes flow ++ to_be_bytes scope) in
    let b = octets ++ numbers in
    let first : take 16 b ≡ octets = subst (λ n. take n b ≡ octets) size (take-append octets _) in
    let last : drop 16 b ≡ numbers = subst (λ n. drop n b ≡ numbers) size (drop-append octets _) in
    let port_read : be16 numbers ≡ port =
      be16-port_bytes port (to_be_bytes flow ++ to_be_bytes scope) range in
    let flow_read : be32 (drop 2 numbers) ≡ flow =
      be32-to_be_bytes flow (to_be_bytes scope) flow_range in
    let scope_read : be32 (drop 6 numbers) ≡ scope = be32-to_be_bytes scope [] scope_range in
    ap (λ x. v6 x (be16 (drop 16 b)) (be32 (drop 2 (drop 16 b))) (be32 (drop 6 (drop 16 b)))) first
    ∙ ap (λ x. v6 octets (be16 x) (be32 (drop 2 x)) (be32 (drop 6 x))) last
    ∙ ap (λ x. v6 octets x (be32 (drop 2 numbers)) (be32 (drop 6 numbers))) port_read
    ∙ ap (λ x. v6 octets port x (be32 (drop 6 numbers))) flow_read
    ∙ ap (v6 octets port flow) scope_read

module _ (iroh : Addresses) where
  -- The addresses added one after another.
  abbrev pub add_ips : List SocketAddr → EndpointAddr → EndpointAddr
  add_ips [] a = a
  add_ips (ip ∷ ips) a = add_ips ips (iroh.with_ip_addr ip a)

  abbrev pub add_relays : List Bytes → EndpointAddr → EndpointAddr
  add_relays [] a = a
  add_relays (url ∷ urls) a = add_relays urls (iroh.with_relay_url url a)

  -- A URL is text that a code has room for, and parses as itself.
  abbrev pub IsUrl : ⦃m : Minicbor⦄ → Bytes → Type 0
  IsUrl ⦃m = m⦄ url = (m.is_text url ≡ true) × (length url ≤ 1024) × (iroh.parse_url url ≡ some url)

module _ ⦃m : Minicbor⦄ (laws : MinicborLaws m) (iroh : Addresses) where
  length-port_bytes : (port : ℕ) → length (port_bytes port) ≡ 2
  unfolding port_bytes
  length-port_bytes port = refl

  length-numbers :
      (port flow scope : ℕ)
      → length (port_bytes port ++ (to_be_bytes flow ++ to_be_bytes scope)) ≡ 10
  unfolding port_bytes to_be_bytes
  length-numbers port flow scope = refl

  one_more : (ips : List SocketAddr) (n : ℕ) → suc (length ips) + n ≡ suc (length ips + n)
  one_more ips n = omega arith

  read_addresses-put_ips :
      (ips : List SocketAddr) (n : ℕ) (w : Writer) (a : EndpointAddr)
      → All IsIp ips
      → read_addresses iroh (length ips + n) a (concat (put_ips ips w))
        ≡ read_addresses iroh n (add_ips iroh ips a) (concat w)
  unfolding read_addresses put_ips
  read_addresses-put_ips [] n w a h =
      let none_added : 0 + n ≡ n = omega arith in
      ap (λ k. read_addresses iroh k a (concat w)) none_added
  read_addresses-put_ips (v4 octets port ∷ ips) n w a ((size, range), h) =
      rw (one_more ips n) simp (
        λ (rest : Bytes). array-put laws 2 rest (omega arith),
        λ (rest : Bytes). u-put laws 0 rest (omega arith),
        λ (rest : Bytes).
            fixed-put laws 6 (octets ++ port_bytes port) rest
              (omega (arith, length-append octets (port_bytes port), size, length-port_bytes port))
              (omega arith),
        v4_of-octets octets port size range,
        read_addresses-put_ips ips n w (iroh.with_ip_addr (v4 octets port) a) h,
      )
  read_addresses-put_ips (v6 octets port flow scope ∷ ips) n w a (ip, h) =
      let (size, range, flow_range, scope_range) = ip in
      let numbers = port_bytes port ++ (to_be_bytes flow ++ to_be_bytes scope) in
      rw (one_more ips n) simp (
        λ (rest : Bytes). array-put laws 2 rest (omega arith),
        λ (rest : Bytes). u-put laws 1 rest (omega arith),
        λ (rest : Bytes).
            fixed-put laws 26 (octets ++ numbers) rest
              (omega (arith, length-append octets numbers, size, length-numbers port flow scope))
              (omega arith),
        v6_of-octets octets port flow scope ip,
        read_addresses-put_ips ips n w (iroh.with_ip_addr (v6 octets port flow scope) a) h,
      )

  read_addresses-put_relays :
      (urls : List Bytes) (w : Writer) (a : EndpointAddr)
      → All (IsUrl iroh) urls
      → read_addresses iroh (length urls) a (concat (put_relays urls w))
        ≡ ok (add_relays iroh urls a, concat w)
  unfolding read_addresses put_relays
  read_addresses-put_relays [] w a h = refl
  read_addresses-put_relays (url ∷ urls) w a ((is_text, fits, parses), h) = simp (
    λ (rest : Bytes). array-put laws 2 rest (omega arith),
    λ (rest : Bytes). u-put laws 2 rest (omega arith),
    λ (rest : Bytes). text-put laws 1024 url rest is_text fits (omega arith),
    parses,
    read_addresses-put_relays urls w (iroh.with_relay_url url a) h,
  )

abbrev bare_address : Bytes → EndpointAddr
bare_address id = record { id = id; ip_addrs = []; relay_urls = [] }

-- What a code encodes has the sizes that its types give. Its addresses are a set: adding those that its
-- iterators give, in their order, makes the same address.
pub record IsWellFormed ⦃m : Minicbor⦄ ⦃c : Iroh⦄ (iroh : Addresses) (a : EndpointAddr)
    (secret : Bytes) : Type 0 where
  pub id_size : length a.id ≡ 32
  pub id_key : c.is_key a.id ≡ true
  pub ips : All IsIp a.ip_addrs
  pub urls : All (IsUrl iroh) a.relay_urls
  pub secret_size : length secret ≡ 32
  pub is_set : add_relays iroh a.relay_urls (add_ips iroh a.ip_addrs (bare_address a.id)) ≡ a

compact_address-compact_address :
    (a : EndpointAddr) → compact_address (compact_address a) ≡ compact_address a
unfolding compact_address
compact_address-compact_address a = elim (List-cases a.relay_urls) [
  | inl no_relay ↦ ground (arith, no_relay)
  | inr (url, urls, relays) ↦ ground (arith, relays)
]

-- The pieces of an encoded code, by its compact address.
abbrev pub pieces : ⦃m : Minicbor⦄ → EndpointAddr → Bytes → Writer
pieces ⦃m = m⦄ a secret =
    m.put_array 4
    ∷ m.put_u 3
    ∷ m.put_bytes a.id
    ∷ m.put_array (length a.ip_addrs + length a.relay_urls)
    ∷ put_ips a.ip_addrs (put_relays a.relay_urls (m.put_bytes secret ∷ []))

module _ ⦃m : Minicbor⦄ (base64 : Base64) where
  encode_code-eq-ok :
      (code : JoinCode) (text : Bytes)
      → encode_code base64 code ≡ ok text
      → let a = compact_address code.address in
        (length a.ip_addrs + length a.relay_urls ≤ 16)
        × (text ≡ prefix ++ base64.to_text (concat (pieces a code.secret)))
  unfolding encode_code
  encode_code-eq-ok code text h = ground arith

  encode_code-compact :
      (code : JoinCode)
      → encode_code base64 (record code { address = compact_address code.address })
        ≡ encode_code base64 code
  unfolding encode_code
  encode_code-compact code = rw (compact_address-compact_address code.address) refl

module _ ⦃m : Minicbor⦄ (laws : MinicborLaws m) ⦃c : Iroh⦄ (iroh : Addresses) where
  read_code-pieces :
      (a : EndpointAddr) (secret : Bytes)
      → length a.ip_addrs + length a.relay_urls ≤ 16
      → IsWellFormed iroh a secret
      → read_code iroh (concat (pieces a secret)) ≡ ok (record { address = a; secret = secret }, [])
  unfolding read_code endpoint end
  read_code-pieces a secret few w =
      let n = length a.ip_addrs + length a.relay_urls in
      simp (
        λ (rest : Bytes). array-put laws 4 rest (omega arith),
        λ (rest : Bytes). u-put laws 3 rest (omega arith),
        λ (rest : Bytes). fixed-put laws 32 a.id rest w.id_size (omega arith),
        w.id_key,
        λ (rest : Bytes). list-put laws 16 n rest few (omega (arith, few)),
        λ (w' : Writer).
            read_addresses-put_ips laws iroh a.ip_addrs (length a.relay_urls) w' (bare_address a.id)
              w.ips,
        λ (w' : Writer).
            read_addresses-put_relays laws iroh a.relay_urls w'
              (add_ips iroh a.ip_addrs (bare_address a.id)) w.urls,
        w.is_set,
        λ (rest : Bytes). fixed-put laws 32 secret rest w.secret_size (omega arith),
      )

  -- A code that is well-formed is decoded as it was encoded, if its text is at most 32768 bytes and base64
  -- decodes what it encodes: the same secret, with the compact address, which is the relays where there are
  -- any, and the interfaces else.
  pub decode-encode_code :
      (base64 : Base64) (code : JoinCode) (text : Bytes)
      → ((b : Bytes) → base64.of_text (base64.to_text b) ≡ some b)
      → IsWellFormed iroh (compact_address code.address) code.secret
      → encode_code base64 code ≡ ok text
      → length text ≤ 32768
      → decode_code iroh base64 text ≡ ok (record code { address = compact_address code.address })
  unfolding decode_code
  decode-encode_code base64 code text back w encoded short =
      let a = compact_address code.address in
      let (few, is_text) = encode_code-eq-ok base64 code text encoded in
      let encoded_bytes = concat (pieces a code.secret) in
      let stripped : strip_prefix prefix text ≡ some (base64.to_text encoded_bytes) =
        ap (strip_prefix prefix) is_text
        ∙ strip_prefix-append prefix (base64.to_text encoded_bytes) in
      let read =
        run_reader-ok (read_code iroh) encoded_bytes (read_code-pieces a code.secret few w) in
      let again = encode_code-compact base64 code ∙ encoded in
      let same = bytes_eq_refl text in
      ground (arith, stripped, back encoded_bytes, read, again, same)
