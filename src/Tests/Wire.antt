-- ===== src/Tests/Wire.antt =====
-- Frames, HELLO, DATA and control messages, on the bytes of the fixtures where there are some.
use rtn_mq.Prelude.{
  ℕ, ◌≡◌, ◌↔◌, ◌≤◌, refl, some, [], ◌∷◌, ◌++◌, length, take, drop, replicate, arith, inl, All,
}
use rtn_mq.Prelude.Bytes.{Bytes, bytes_eq}
use rtn_mq.Error.{ok}
use rtn_mq.Wire.Frame.{Header, encode_header, decode_header, read_header, write_frame}
use rtn_mq.Wire.Frame.RoundTrip.{IsAllowed, IsByte, encode-decode_header, read_header-write_frame}
use rtn_mq.Cbor.{array, u, bytes, text, fixed, end, canonical}
use rtn_mq.Auth.Cose.{version}
use rtn_mq.Message.Envelope.{usize_try_from, decode_mode, DeliveryMode}
use rtn_mq.Message.Topic.{Topic, new_topic}
use rtn_mq.Wire.Control.{
  Control, length_of_kind, kind_and_length, body, read_kind, read_control, encode_control,
  decode_control,
}
use rtn_mq.Wire.Control.RoundTrip.{IsWellFormed, decode-encode_control, decode_control_sound}
use rtn_mq.Wire.Hello.{read_hello, Hello, parse_hello, hello}
use rtn_mq.Wire.Hello.RoundTrip.{IsAcceptable, hello_bytes, parse_hello_iff}
use rtn_mq.Wire.Data.{read_data, parse_data, data_frame}
use rtn_mq.Wire.Data.RoundTrip.{parse_data_iff}
use rtn_mq.Tests.Cbor.{
  get_head, get_u, get_string, get_text, is_ascii, put_head, put_string, minicbor, minicbor_laws,
}
use rtn_mq.Tests.Fixtures.{certificate_hex, hello_hex, data_hex, message_hex}

abbrev header : Header
header = record { kind = 7; metadata = 235; payload = 3 }

header-IsAllowed : IsAllowed 1024 header
header-IsAllowed = record {
  kind_range = omega arith;
  metadata_fits = omega arith;
  payload_fits = omega arith;
  control_is_empty = inl refl;
}

data_header : decode_header (take 12 data_hex) 1024 ≡ ok header
unfolding decode_header
data_header = refl

bytes_in_range : All IsByte (take 12 data_hex)
bytes_in_range = ground arith

encode-decode_header_example :
    (encode_header header ≡ ok (take 12 data_hex)) × IsAllowed 1024 header
encode-decode_header_example =
    encode-decode_header (take 12 data_hex) 1024 header bytes_in_range data_header

abbrev accepted_hello : Hello
accepted_hello = record {
  cert = certificate_hex;
  nonce = replicate 16 6;
  max_payload = 1024;
  max_topics = 8;
  window_secs = 300;
}

hello_parses : parse_hello hello_hex ≡ ok accepted_hello
unfolding parse_hello minicbor read_hello array get_head u get_u version bytes get_string fixed
    usize_try_from end canonical bytes_eq hello put_head put_string
hello_parses = refl

hello-IsAcceptable : IsAcceptable accepted_hello
hello-IsAcceptable = record {
  cert_size = omega arith;
  nonce_size = refl;
  payload_limit = omega arith;
  topic_limit = omega arith;
  window_limit = omega arith;
}

parse_hello_iff_example :
    (parse_hello hello_hex ≡ ok accepted_hello)
    ↔ ((hello_hex ≡ hello_bytes accepted_hello) × IsAcceptable accepted_hello)
parse_hello_iff_example = parse_hello_iff minicbor_laws hello_hex accepted_hello

abbrev data_metadata : Bytes
data_metadata = take 235 (drop 12 data_hex)

data_parses : parse_data data_metadata (replicate 16 7) ≡ ok (replicate 16 8, message_hex)
unfolding parse_data minicbor read_data array get_head u get_u version fixed bytes get_string
    bytes_eq end canonical data_frame put_head put_string
data_parses = refl

parse_data_iff_example :
    (parse_data data_metadata (replicate 16 7) ≡ ok (replicate 16 8, message_hex)) ↔ (
      (data_metadata ≡ data_frame (replicate 16 7) (replicate 16 8) message_hex)
      × (length (replicate {A = ℕ} 16 8) ≡ 16)
      × (length message_hex ≤ 4096))
parse_data_iff_example =
    parse_data_iff minicbor_laws data_metadata (replicate 16 7) (replicate 16 8) message_hex refl

frame_writes : write_frame 7 data_metadata (97 ∷ 98 ∷ 99 ∷ []) ≡ ok data_hex
unfolding write_frame encode_header
frame_writes = refl

read_header-write_frame_example :
    read_header (data_hex ++ (1 ∷ 2 ∷ [])) 1024
    ≡ ok (some header, (data_metadata ++ (97 ∷ 98 ∷ 99 ∷ [])) ++ (1 ∷ 2 ∷ []))
read_header-write_frame_example =
    read_header-write_frame 7 data_metadata (97 ∷ 98 ∷ 99 ∷ []) (1 ∷ 2 ∷ []) 1024 header-IsAllowed
      frame_writes

-- The topic "jobs", and a subscription to it.
abbrev jobs : Topic
jobs = record { name = b'j' ∷ b'o' ∷ b'b' ∷ b's' ∷ [] }

abbrev session : Bytes
session = replicate 16 7

abbrev subscribe_jobs : Control
subscribe_jobs = Control.subscribe jobs (replicate 16 8) DeliveryMode.acknowledged

subscribe-IsWellFormed : IsWellFormed subscribe_jobs
unfolding new_topic
subscribe-IsWellFormed = (refl, refl)

decode-encode_control_example :
    decode_control
      (encode_control subscribe_jobs session).0
      (encode_control subscribe_jobs session).1
      session
    ≡ ok subscribe_jobs
decode-encode_control_example =
    decode-encode_control minicbor_laws subscribe_jobs session subscribe-IsWellFormed refl

abbrev subscribe_bytes : Bytes
subscribe_bytes =
    0x85
    ∷ 0x01
    ∷ 0x50
    ∷ (replicate 16 7
        ++ (0x64 ∷ b'j' ∷ b'o' ∷ b'b' ∷ b's' ∷ 0x50 ∷ (replicate 16 8 ++ (0x01 ∷ []))))

subscribe_decodes : decode_control 3 subscribe_bytes session ≡ ok subscribe_jobs
unfolding decode_control minicbor length_of_kind read_control array get_head u get_u version fixed
    bytes get_string bytes_eq read_kind text get_text is_ascii new_topic decode_mode end canonical
    encode_control put_head put_string body kind_and_length
subscribe_decodes = refl

decode_control_sound_example : encode_control subscribe_jobs session ≡ (3, subscribe_bytes)
decode_control_sound_example =
    decode_control_sound 3 subscribe_bytes session subscribe_jobs subscribe_decodes
