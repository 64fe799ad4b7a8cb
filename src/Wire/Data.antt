-- ===== src/Wire/Data.antt =====
-- wire.rs: the metadata of a DATA frame.
pub mod RoundTrip
use rtn_mq.Prelude.{ℕ, Bool, not, List, [], ◌∷◌}
use rtn_mq.Prelude.Bytes.{Bytes, bytes_eq}
use rtn_mq.Error.{Result, protocol, fail_if}
use rtn_mq.Cbor.{
  Minicbor, Reader, finish, put_array, put_u, put_bytes, array, u, bytes, fixed, end, canonical,
  lift, pure, run_reader, ◌>>=◌, ◌>>◌,
}
use rtn_mq.Auth.Cose.{version}

module _ ⦃m : Minicbor⦄ where
  unfoldable pub data_frame : Bytes → Bytes → Bytes → Bytes
  unfolding finish
  data_frame session sub envelope =
      finish (put_array 4 ∷ put_u 1 ∷ put_bytes session ∷ put_bytes sub ∷ put_bytes envelope ∷ [])

  unfoldable pub read_data : Bytes → Bytes → Reader (Bytes × Bytes)
  read_data b expected = do
    array 4
    v ← u
    lift (version v)
    session ← fixed 16
    lift (fail_if (not (bytes_eq session expected)) (protocol "DATA session"))
    sub ← fixed 16
    envelope ← bytes 4096
    end
    lift (canonical b (data_frame expected sub envelope))
    pure (sub, envelope)

  unfoldable pub parse_data : Bytes → Bytes → Result (Bytes × Bytes)
  parse_data b expected = run_reader (read_data b expected) b
