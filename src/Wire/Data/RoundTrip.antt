-- ===== src/Wire/Data/RoundTrip.antt =====
-- Which DATA metadata a session accepts.
use rtn_mq.Prelude.{◌≤◌, ◌≡◌, [], length, arith, ◌↔◌}
use rtn_mq.Prelude.Bytes.{Bytes, bytes_eq_refl}
use rtn_mq.Error.{ok}
use rtn_mq.Cbor.{
  Minicbor, MinicborLaws, bytes, fixed, end, canonical, run_reader-eq-ok, run_reader-ok,
}
use rtn_mq.Cbor.RoundTrip.{array-put, u-put, bytes-put, fixed-put, canonical_refl, canonical_sound}
use rtn_mq.Auth.Cose.{version}
use rtn_mq.Wire.Data.{data_frame, read_data, parse_data}

module _ ⦃m : Minicbor⦄ (laws : MinicborLaws m) where
  read_data-data_frame :
      (input session sub envelope : Bytes)
      → length session ≡ 16
      → length sub ≡ 16
      → length envelope ≤ 4096
      → canonical input (data_frame session sub envelope) ≡ ok tt
      → read_data input session (data_frame session sub envelope) ≡ ok ((sub, envelope), [])
  unfolding read_data data_frame version end
  read_data-data_frame input session sub envelope h k l same = simp (
    λ (rest : Bytes). array-put laws 4 rest (omega arith),
    λ (rest : Bytes). u-put laws 1 rest (omega arith),
    λ (rest : Bytes). fixed-put laws 16 session rest h (omega arith),
    bytes_eq_refl session,
    λ (rest : Bytes). fixed-put laws 16 sub rest k (omega arith),
    λ (rest : Bytes). bytes-put laws 4096 envelope rest l (omega arith),
    same,
  )

  read_data_sound :
      (input session sub envelope rest : Bytes)
      → read_data input session input ≡ ok ((sub, envelope), rest)
      → (canonical input (data_frame session sub envelope) ≡ ok tt)
        × (length sub ≡ 16)
        × (length envelope ≤ 4096)
  unfolding read_data bytes fixed
  read_data_sound input session sub envelope rest e = ground arith

  -- DATA metadata is accepted in a session, whose identity has 16 bytes, exactly when it is the one
  -- encoding of that session, a subscription identity of 16 bytes and at most 4096 signed bytes.
  pub parse_data_iff :
      (input session sub envelope : Bytes)
      → length session ≡ 16
      → (parse_data input session ≡ ok (sub, envelope))
        ↔ ((input ≡ data_frame session sub envelope) × (length sub ≡ 16) × (length envelope ≤ 4096))
  unfolding parse_data
  parse_data_iff input session sub envelope h = (
    λ e.
        let (rest, read) =
          run_reader-eq-ok (read_data input session) input {a = (sub, envelope)} e in
        let (same, k, l) = read_data_sound input session sub envelope rest read in
        (canonical_sound input _ same, k, l),
    λ (same, k, l). rw same (
        run_reader-ok (read_data (data_frame session sub envelope) session)
          (data_frame session sub envelope)
          (read_data-data_frame (data_frame session sub envelope) session sub envelope h k l
            (canonical_refl _))),
  )
