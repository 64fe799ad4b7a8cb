-- ===== src/Wire/Frame.antt =====
-- wire.rs: the frame header of twelve bytes, and a frame on a byte stream. The chunks in which a
-- stream arrives and the timeout on a slow header are not modelled.
pub mod RoundTrip
use rtn_mq.Prelude.{
  ℕ, zero, suc, ◌+◌, ◌-◌, ◌*◌, ◌/◌, ◌%◌, ◌^◌, Bool, true, false, not, ◌&&◌, ◌||◌, Option, none,
  some, List, [], ◌∷◌, ◌++◌, length, take, drop, ltb, leb, ◌==◌, if◌then◌else◌,
}
use rtn_mq.Prelude.Bytes.{Bytes}
use rtn_mq.Error.{
  Error, Result, ok, err, protocol, io, message_too_large, fail_if, ok_or, ◌>>=◌, ◌>>◌,
}
use rtn_mq.Buffer.{checked_add}

abbrev pub max_metadata : ℕ
max_metadata = 16 * 1024

abbrev pub hello_kind : ℕ
hello_kind = 1

abbrev pub ready_kind : ℕ
ready_kind = 2

abbrev pub data_kind : ℕ
data_kind = 7

abbrev pub u32_mod : ℕ
u32_mod = 2 ^ 32

pub record Header : Type 0 where
  pub kind : ℕ
  pub metadata : ℕ
  pub payload : ℕ

-- `u32::to_be_bytes` and `u32::from_be_bytes`
unfoldable pub to_be_bytes : ℕ → Bytes
to_be_bytes n = (n / 16777216) % 256 ∷ (n / 65536) % 256 ∷ (n / 256) % 256 ∷ n % 256 ∷ []

unfoldable pub from_be_bytes : ℕ → ℕ → ℕ → ℕ → ℕ
from_be_bytes a b c d = a * 16777216 + b * 65536 + c * 256 + d

unfoldable pub u32_try_from : ℕ → Result ℕ
u32_try_from n = if ltb n u32_mod then ok n else err message_too_large

unfoldable pub encode_header : Header → Result Bytes
unfolding checked_add u32_try_from to_be_bytes
encode_header h = do
  sum ← ok_or (checked_add h.metadata h.payload) message_too_large
  body ← u32_try_from sum
  ok (to_be_bytes body ++ (h.kind ∷ 0 ∷ 0 ∷ 0 ∷ to_be_bytes (h.metadata % u32_mod)))

-- The tests of `Header::decode` on the numbers of the prefix.
unfoldable pub check_header : ℕ → ℕ → ℕ → Bool → ℕ → Result Header
check_header body metadata kind reserved max_payload = do
  fail_if (not reserved || not (leb 1 kind && leb kind 12) || ltb body metadata)
      (protocol "frame prefix")
  let payload = body - metadata
  fail_if (ltb max_metadata metadata || ltb max_payload payload) message_too_large
  fail_if (not (kind == data_kind) && not (payload == 0)) (protocol "control payload")
  ok (record { kind = kind; metadata = metadata; payload = payload })

-- The prefix is an array of twelve bytes; a list of another length is none.
unfoldable pub decode_header : Bytes → ℕ → Result Header
unfolding from_be_bytes check_header
decode_header (a ∷ b ∷ c ∷ d ∷ kind ∷ x ∷ y ∷ z ∷ e ∷ f ∷ g ∷ h ∷ []) max_payload =
    check_header (from_be_bytes a b c d) (from_be_bytes e f g h) kind (x == 0 && y == 0 && z == 0)
      max_payload
decode_header _ max_payload = err (protocol "frame prefix")

-- `read_header` on the bytes of a stream: the header, and the bytes behind it; `none` where the
-- stream ends before the first byte.
unfoldable pub read_header : Bytes → ℕ → Result (Option Header × Bytes)
read_header [] max_payload = ok (none, [])
read_header stream max_payload = do
  fail_if (ltb (length stream) 12) (io "early eof")
  h ← decode_header (take 12 stream) max_payload
  ok (some h, drop 12 stream)

-- `write_frame`: the bytes that it writes.
unfoldable pub write_frame : ℕ → Bytes → Bytes → Result Bytes
write_frame kind metadata payload = do
  fail_if (ltb max_metadata (length metadata)) message_too_large
  head ←
      encode_header (record { kind = kind; metadata = length metadata; payload = length payload })
  ok (head ++ (metadata ++ payload))
