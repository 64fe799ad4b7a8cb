-- ===== src/Cbor/RoundTrip.antt =====
-- What the reader returns of what the writer wrote, and what a canonical input is.
use rtn_mq.Prelude.{ℕ, ◌<◌, ◌≤◌, ◌≡◌, true, ◌++◌, length, arith}
use rtn_mq.Prelude.Bytes.{Bytes, bytes_eq_iff, bytes_eq_refl}
use rtn_mq.Error.{ok}
use rtn_mq.Cbor.{
  Minicbor, MinicborLaws, u64_mod, array, list, u, bytes, fixed, text, empty_map, canonical,
}

module _ ⦃m : Minicbor⦄ (laws : MinicborLaws m) where
  pub array-put :
      (n : ℕ) (rest : Bytes) → n < u64_mod → array n (m.put_array n ++ rest) ≡ ok (tt, rest)
  unfolding array
  array-put n rest h = ground (arith, laws.array_put n rest)

  pub list-put :
      (max n : ℕ) (rest : Bytes)
      → n ≤ max
      → n < u64_mod
      → list max (m.put_array n ++ rest) ≡ ok (n, rest)
  unfolding list
  list-put max n rest h k = ground (arith, laws.array_put n rest)

  pub u-put : (n : ℕ) (rest : Bytes) → n < u64_mod → u (m.put_u n ++ rest) ≡ ok (n, rest)
  unfolding u
  u-put n rest h = ground (arith, laws.u_put n rest)

  pub bytes-put :
      (max : ℕ) (b rest : Bytes)
      → length b ≤ max
      → max < u64_mod
      → bytes max (m.put_bytes b ++ rest) ≡ ok (b, rest)
  unfolding bytes
  bytes-put max b rest h k = ground (arith, laws.bytes_put b rest)

  pub fixed-put :
      (size : ℕ) (b rest : Bytes)
      → length b ≡ size
      → size < u64_mod
      → fixed size (m.put_bytes b ++ rest) ≡ ok (b, rest)
  unfolding fixed
  fixed-put size b rest h k = ground (arith, laws.bytes_put b rest)

  pub text-put :
      (max : ℕ) (s rest : Bytes)
      → m.is_text s ≡ true
      → length s ≤ max
      → max < u64_mod
      → text max (m.put_text s ++ rest) ≡ ok (s, rest)
  unfolding text
  text-put max s rest t h k = ground (arith, laws.text_put s rest)

  pub empty_map-put : (rest : Bytes) → empty_map (m.put_map 0 ++ rest) ≡ ok (tt, rest)
  unfolding empty_map
  empty_map-put rest = ground (arith, laws.map_put 0 rest)

pub canonical_refl : (b : Bytes) → canonical b b ≡ ok tt
unfolding canonical
canonical_refl b = ground (arith, bytes_eq_refl b)

pub canonical_sound : (input encoded : Bytes) → canonical input encoded ≡ ok tt → input ≡ encoded
unfolding canonical
canonical_sound input encoded h = ground (arith, (bytes_eq_iff input encoded).0)
