-- ===== src/Tests/Join/Reading.antt =====
-- A code that is read again, over addresses as lists.
use rtn_mq.Prelude.{◌≡◌, ◌≤◌, refl, some, [], ◌∷◌, ◌++◌, length, arith}
use rtn_mq.Prelude.Bytes.{Bytes, concat}
use rtn_mq.Error.{ok}
use rtn_mq.Join.Code.{
  JoinCode, encode_code, compact_address, put_ips, put_relays, port_bytes, prefix,
}
use rtn_mq.Join.Hints.{Addresses}
use rtn_mq.Join.Decoding.{decode_code}
use rtn_mq.Join.Decoding.RoundTrip.{IsWellFormed, pieces, decode-encode_code}
use rtn_mq.Tests.Cbor.{minicbor, minicbor_laws, put_head, put_string}
use rtn_mq.Tests.Crypto.{iroh}
use rtn_mq.Tests.Join.{base64, address, secret}

abbrev addresses : Addresses
addresses = record {
  with_ip_addr = λ ip a. record a { ip_addrs = a.ip_addrs ++ ip ∷ [] };
  with_relay_url = λ url a. record a { relay_urls = a.relay_urls ++ url ∷ [] };
  parse_url = λ s. some s;
}

abbrev code : JoinCode
code = record { address = address; secret = secret }

abbrev text : Bytes
text = prefix ++ concat (pieces address secret)

encodes : encode_code base64 code ≡ ok text
unfolding encode_code compact_address
encodes = refl

is_short : length text ≤ 32768
unfolding minicbor put_head put_string put_ips port_bytes put_relays
is_short = omega arith

well_formed : IsWellFormed addresses (compact_address address) secret
unfolding compact_address iroh
well_formed = record {
  id_size = refl;
  id_key = refl;
  ips = ((refl, omega arith), tt);
  urls = tt;
  secret_size = refl;
  is_set = refl;
}

decode-encode_code_example :
    decode_code addresses base64 text ≡ ok (record code { address = compact_address address })
decode-encode_code_example =
    decode-encode_code minicbor_laws addresses base64 code text (λ b. refl) well_formed encodes
      is_short
