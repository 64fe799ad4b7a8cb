-- ===== src/Wire/Frame/RoundTrip.antt =====
-- A header is read as it was written, and nothing else is read as that header.
use rtn_mq.Prelude.{
  ℕ, ◌+◌, ◌/◌, ◌%◌, ◌<◌, ◌≤◌, ◌≡◌, refl, Bool, true, ◌&&◌, some, [], ◌∷◌, ◌++◌, length, ◌==◌, arith,
  All, ap, sym, ◌∙◌, ◌⊎◌,
}
use mathlib.Core.List.{append_assoc}
use rtn_mq.Prelude.Bytes.{Bytes}
use rtn_mq.Error.{Result, ◌>>=◌, ok, fail_if-eq-ok, >>=-eq-ok}
use rtn_mq.Wire.Frame.{
  Header, max_metadata, data_kind, u32_mod, to_be_bytes, from_be_bytes, encode_header, check_header,
  decode_header, read_header, write_frame,
}

-- What a header may say to a reader with the limit `max_payload`.
pub record IsAllowed (max_payload : ℕ) (h : Header) : Type 0 where
  pub kind_range : (1 ≤ h.kind) × (h.kind ≤ 12)
  pub metadata_fits : h.metadata ≤ max_metadata
  pub payload_fits : h.payload ≤ max_payload
  pub control_is_empty : (h.kind ≡ data_kind) ⊎ (h.payload ≡ 0)

from-to_be_bytes :
    (n : ℕ)
    → n < u32_mod
    → from_be_bytes ((n / 16777216) % 256) ((n / 65536) % 256) ((n / 256) % 256) (n % 256) ≡ n
unfolding from_be_bytes
from-to_be_bytes n h = omega arith

check_header-IsAllowed :
    (body metadata kind max_payload : ℕ) (reserved : Bool) (h : Header)
    → check_header body metadata kind reserved max_payload ≡ ok h
    → (reserved ≡ true)
      × (h.kind ≡ kind)
      × (h.metadata ≡ metadata)
      × (h.metadata + h.payload ≡ body)
      × IsAllowed max_payload h
unfolding check_header
check_header-IsAllowed body metadata kind max_payload reserved h e = ground arith

check_header_complete :
    (max_payload : ℕ) (h : Header)
    → IsAllowed max_payload h
    → check_header (h.metadata + h.payload) h.metadata h.kind true max_payload ≡ ok h
unfolding check_header
check_header_complete max_payload h a = ground (arith, a.control_is_empty)

-- The bytes of a header, once the sum is known to fit.
abbrev header_bytes : Header → Bytes
header_bytes h =
    to_be_bytes (h.metadata + h.payload) ++ (h.kind ∷ 0 ∷ 0 ∷ 0 ∷ to_be_bytes h.metadata)

encode_header_lem :
    (h : Header) → h.metadata + h.payload < u32_mod → encode_header h ≡ ok (header_bytes h)
unfolding encode_header
encode_header_lem h k = ground arith

decode_header_lem :
    (h : Header) (max_payload : ℕ)
    → h.metadata + h.payload < u32_mod
    → IsAllowed max_payload h
    → decode_header (header_bytes h) max_payload ≡ ok h
unfolding decode_header to_be_bytes
decode_header_lem h max_payload k a =
    rw (from-to_be_bytes (h.metadata + h.payload) k, from-to_be_bytes h.metadata (omega arith))
      (check_header_complete max_payload h a)

-- A header that the reader allows and whose sizes a `u32` can hold is written in twelve bytes, and
-- those are read as the same header.
decode-encode_header :
    (h : Header) (max_payload : ℕ)
    → IsAllowed max_payload h
    → h.metadata + h.payload < u32_mod
    → (b : Bytes) × (encode_header h ≡ ok b)
      × (length b ≡ 12)
      × (decode_header b max_payload ≡ ok h)
decode-encode_header h max_payload a k = (
  header_bytes h,
  encode_header_lem h k,
  (unfold to_be_bytes in refl),
  decode_header_lem h max_payload k a,
)

to-from_be_bytes :
    (a b c d : ℕ)
    → a < 256
    → b < 256
    → c < 256
    → d < 256
    → to_be_bytes (from_be_bytes a b c d) ≡ a ∷ b ∷ c ∷ d ∷ []
unfolding to_be_bytes from_be_bytes
to-from_be_bytes a b c d p q r s = ground arith

from_be_bytes_range :
    (a b c d : ℕ) → a < 256 → b < 256 → c < 256 → d < 256 → from_be_bytes a b c d < u32_mod
unfolding from_be_bytes
from_be_bytes_range a b c d p q r s = omega arith

abbrev pub IsByte : ℕ → Type 0
IsByte c = c < 256

zero_of_test : (x y z : ℕ) → (x == 0 && y == 0 && z == 0) ≡ true → (x ≡ 0) × (y ≡ 0) × (z ≡ 0)
zero_of_test x y z h = ground arith

-- An accepted prefix of bytes is the one encoding of its header, and the reader allows the header.
pub encode-decode_header :
    (b : Bytes) (max_payload : ℕ) (h : Header)
    → All IsByte b
    → decode_header b max_payload ≡ ok h
    → (encode_header h ≡ ok b) × IsAllowed max_payload h
unfolding decode_header
encode-decode_header (a ∷ b ∷ c ∷ d ∷ kind ∷ x ∷ y ∷ z ∷ e ∷ f ∷ g ∷ k ∷ []) max_payload h bytes r =
    let (reserved, kind_eq, metadata_eq, sum, allowed) =
      check_header-IsAllowed (from_be_bytes a b c d) (from_be_bytes e f g k) kind max_payload _ h
        r in
    let (x0, y0, z0) = zero_of_test x y z reserved in
    let range =
      from_be_bytes_range a b c d (omega (arith, bytes.0)) (omega (arith, bytes.1.0))
        (omega (arith, bytes.1.1.0)) (omega (arith, bytes.1.1.1.0)) in
    let written = encode_header_lem h (omega (arith, sum)) in
    let body : to_be_bytes (h.metadata + h.payload) ≡ a ∷ b ∷ c ∷ d ∷ [] =
      ap to_be_bytes sum ∙ to-from_be_bytes a b c d bytes.0 bytes.1.0 bytes.1.1.0 bytes.1.1.1.0 in
    let tail = bytes.1.1.1.1.1.1.1.1 in
    let metadata : to_be_bytes h.metadata ≡ e ∷ f ∷ g ∷ k ∷ [] =
      ap to_be_bytes metadata_eq
      ∙ to-from_be_bytes e f g k tail.0 tail.1.0 tail.1.1.0 tail.1.1.1.0 in
    (rw (written, body, metadata) (ground arith), allowed)
encode-decode_header _ max_payload h bytes r = absurd (cc)

encode_header_range :
    (h : Header) {b : Bytes} → encode_header h ≡ ok b → h.metadata + h.payload < u32_mod
unfolding encode_header
encode_header_range h e = ground arith

read_header-header_bytes :
    (h : Header) (rest : Bytes) (max_payload : ℕ)
    → decode_header (header_bytes h) max_payload ≡ ok h
    → read_header (header_bytes h ++ rest) max_payload ≡ ok (some h, rest)
unfolding read_header to_be_bytes
read_header-header_bytes h rest max_payload d = ground (arith, d)

-- What `write_frame` writes is read back, with the body and whatever follows left on the stream.
pub read_header-write_frame :
    (kind : ℕ) (metadata payload rest : Bytes) (max_payload : ℕ) {frame : Bytes}
    → IsAllowed max_payload
        (record { kind = kind; metadata = length metadata; payload = length payload })
    → write_frame kind metadata payload ≡ ok frame
    → read_header (frame ++ rest) max_payload
      ≡ ok (
        some (record { kind = kind; metadata = length metadata; payload = length payload }),
        (metadata ++ payload) ++ rest,
      )
unfolding write_frame
read_header-write_frame kind metadata payload rest max_payload {frame} a w =
    let h : Header = record { kind = kind; metadata = length metadata; payload = length payload } in
    let (_, wrote) = fail_if-eq-ok _ _ _ w in
    let (head, encoded, tail) = >>=-eq-ok (encode_header h) _ wrote in
    let range = encode_header_range h encoded in
    let same : ok (header_bytes h ++ (metadata ++ payload)) ≡ ok frame =
      ap (λ (r : Result Bytes). r >>= λ b. ok (b ++ (metadata ++ payload)))
        (sym (encode_header_lem h range))
      ∙ wrote in
    let e : header_bytes h ++ (metadata ++ payload) ≡ frame = cc same in
    rw (← e, append_assoc (header_bytes h) (metadata ++ payload) rest)
      (read_header-header_bytes h ((metadata ++ payload) ++ rest) max_payload
        (decode_header_lem h max_payload range a))
